-- ===== src/InsnQueue/Extend.antt =====
-- A queued command stands behind those that the queue held, which it leaves as they were.
use libpulp.Base.{
  ℕ, suc, ◌+◌, ◌*◌, ◌^◌, ◌≤◌, ◌<◌, ◌≡◌, refl, ◌∙◌, List, [], ◌∷◌, ◌++◌, length, arith,
  length-append, le→leb,
}
use libpulp.Base.Memory.{Memory, load_ext}
use libpulp.Errors.Codes.{enone}
use libpulp.InsnQueue.Defs.{Queue, insn_buffer_max}
use libpulp.InsnQueue.Insert.{Globals}
use libpulp.InsnQueue.Commands.{
  Command, print, write, insert, size_of, IsCommand, IsInsn, Encodes, Holds,
}
use libpulp.InsnQueue.Layout.{filled, filled_before, filled-IsInsn}
use libpulp.InsnQueue.Append.{queued, insert_lem}

-- An instruction depends on its own bytes only.
IsInsn-ext :
    (m k : Memory) (pc : ℕ) (c : Command)
    → ((p : ℕ) → p < pc + size_of c → k p ≡ m p)
    → IsInsn m pc c
    → IsInsn k pc c
IsInsn-ext m k pc (print text) e h = (
  e pc (omega arith) ∙ h.0,
  load_ext k m (pc + 1) 3 (λ p lo hi. e p (omega arith)) ∙ h.1,
  load_ext k m (pc + 4) (suc (length text)) (λ p lo hi. e p (omega arith)) ∙ h.2,
  h.3,
)
IsInsn-ext m k pc (write addr bytes) e h = (
  e pc (omega arith) ∙ h.0,
  load_ext k m (pc + 1) 3 (λ p lo hi. e p (omega arith)) ∙ h.1,
  load_ext k m (pc + 4) 4 (λ p lo hi. e p (omega arith)) ∙ h.2,
  load_ext k m (pc + 8) 8 (λ p lo hi. e p (omega arith)) ∙ h.3,
  load_ext k m (pc + 16) (length bytes) (λ p lo hi. e p (omega arith)) ∙ h.4,
  h.5,
)

Encodes-le : (m : Memory) (pc end : ℕ) (cs : List Command) → Encodes m pc end cs → pc ≤ end
Encodes-le m pc end [] h = omega arith
Encodes-le m pc end (c ∷ cs) h = omega (arith, Encodes-le m (pc + size_of c) end cs h.2)

pub Encodes-ext :
    (m k : Memory) (pc end : ℕ) (cs : List Command)
    → ((p : ℕ) → p < end → k p ≡ m p)
    → Encodes m pc end cs
    → Encodes k pc end cs
Encodes-ext m k pc end [] e h = h
Encodes-ext m k pc end (c ∷ cs) e h =
    let inside : pc + size_of c ≤ end = Encodes-le m (pc + size_of c) end cs h.2 in
    (
      IsInsn-ext m k pc c (λ p lt. e p (omega arith)) h.0,
      h.1,
      Encodes-ext m k (pc + size_of c) end cs e h.2,
    )

Encodes-snoc :
    (m : Memory) (pc end : ℕ) (cs : List Command) (c : Command)
    → Encodes m pc end cs
    → IsInsn m end c
    → end + size_of c ≤ insn_buffer_max
    → Encodes m pc (end + size_of c) (cs ++ c ∷ [])
Encodes-snoc m pc end [] c h i fits = rw h (i, fits, refl)
Encodes-snoc m pc end (d ∷ cs) c h i fits =
    (h.0, h.1, Encodes-snoc m (pc + size_of d) end cs c h.2 i fits)

size_of_pos : (c : Command) → 4 ≤ size_of c
size_of_pos (print text) = omega arith
size_of_pos (write addr bytes) = omega arith

queued-Holds :
    (g : Globals) (cs : List Command) (c : Command)
    → Holds cs g.queue
    → IsCommand c
    → g.queue.size + size_of c ≤ insn_buffer_max
    → Holds (cs ++ c ∷ []) (queued c g).queue
queued-Holds g cs c h i fits =
    let m = g.queue.buffer in
    let at = g.queue.size in
    let before =
      Encodes-ext m (filled m at c) 0 at cs (λ p lt. filled_before m at p c lt) h.content in
    record {
      valid = record { within = fits; counted = omega (arith, size_of_pos c) };
      number = omega (arith, length-append cs (c ∷ []), h.number);
      content = Encodes-snoc (filled m at c) 0 at cs c before (filled-IsInsn m at c i) fits;
    }

-- Queueing a command that fits the buffer succeeds, leaves the error state alone, and puts the
-- command behind those that the queue held; a text has no null character, and texts and writes are
-- shorter than 2 ^ 30 bytes.
pub insert-Holds :
    (cs : List Command) (c : Command) (g : Globals)
    → Holds cs g.queue
    → IsCommand c
    → g.queue.size + size_of c ≤ insn_buffer_max
    → ((insert c g).0 ≡ enone)
      × Holds (cs ++ c ∷ []) (insert c g).1.queue
      × ((insert c g).1.error_state ≡ g.error_state)
insert-Holds cs c g h i fits =
    let e : insert c g ≡ (enone, queued c g) = insert_lem c g h.valid i ∙ (rw (le→leb _ _ fits)) in
    rw e (refl, queued-Holds g cs c h i fits, refl)

-- The queue holds no more commands than its 2 MiB have room for, so that its counters, which are
-- ints, do not overflow.
pub Holds-bounds :
    (cs : List Command) (q : Queue)
    → Holds cs q
    → (4 * length cs ≤ insn_buffer_max) × (q.size < 2 ^ 31) × (q.num_insns < 2 ^ 31)
Holds-bounds cs q h = omega arith
