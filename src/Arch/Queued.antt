-- ===== src/Arch/Queued.antt =====
-- What a call of ulp_patch_addr adds to a queue that has room for it.
use mathlib.Core.List.{append_assoc}
use libpulp.Base.{
  ℕ, suc, ◌+◌, ◌*◌, ◌-◌, ◌≤◌, ◌<◌, ◌≡◌, sym, ap, ◌∙◌, subst, List, [], ◌∷◌, ◌++◌, Option, none,
  some, true, false, append_nil, Bool-cases, inl, inr, length, arith, if◌then◌else◌, ◌^◌, le→leb,
}
use libpulp.Base.Memory.{Memory, store}
use libpulp.Arch.Defs.{
  ulp_patch_addr, has_endbr64, is_patchable, insn_endbr64, insn_nop2, ulp_prologue,
  ulp_prologue_endbr64,
}
use libpulp.Arch.Jump.{first_insn, diverted_to}
use libpulp.Arch.Patch.{
  prologue_write, nop_write, prologue_small, enabled_lem, disabled_lem, ulp_patch_addr-refuses,
}
use libpulp.Arch.Redirect.{stored_diverts, stored_restores}
use libpulp.InsnQueue.Defs.{insn_buffer_max}
use libpulp.InsnQueue.Insert.{Globals}
use libpulp.InsnQueue.Commands.{Command, Holds, insert, size_of, IsCommand}
use libpulp.InsnQueue.Append.{queued, insert_lem}
use libpulp.InsnQueue.Extend.{insert-Holds}
use libpulp.InsnQueue.Protocol.{applied}
use libpulp.Errors.Codes.{enone, enopatchable}

-- Once the command is done, a call of the function goes there; in any memory in which it begins with
-- an endbr64 exactly if it does in `m`.
abbrev pub Leads : Memory → ℕ → Option ℕ → Command → Type 0
Leads m f to c =
    (k : Memory) → has_endbr64 k f ≡ has_endbr64 m f → diverted_to (applied (c ∷ []) k) f ≡ to

-- The queue holds these commands, maybe others behind them, and has room for `n` more.
abbrev pub Room : List Command → ℕ → Globals → Type 0
Room base n g =
    (ws : List Command) × Holds (base ++ ws) g.queue × (g.queue.size + 40 * n ≤ insn_buffer_max)

-- The last command in the queue leads the function there.
abbrev pub Wrote : List Command → ℕ → Memory → ℕ → Option ℕ → Globals → Type 0
Wrote base n m f to g =
    (ws : List Command) × (c : Command) × Holds (base ++ (ws ++ c ∷ [])) g.queue
    × (g.queue.size + 40 * n ≤ insn_buffer_max)
    × Leads m f to c

pub insert-Room :
    (base ws : List Command) (n : ℕ) (c : Command) (g : Globals)
    → Holds (base ++ ws) g.queue
    → g.queue.size + 40 * suc n ≤ insn_buffer_max
    → IsCommand c
    → size_of c ≤ 40
    → Holds (base ++ (ws ++ c ∷ [])) (insert c g).1.queue
      × ((insert c g).1.queue.size + 40 * n ≤ insn_buffer_max)
insert-Room base ws n c g holds room is small =
    let fits : g.queue.size + size_of c ≤ insn_buffer_max = omega arith in
    let e : insert c g ≡ (enone, queued c g) =
      insert_lem c g holds.valid is ∙ (rw (le→leb _ _ fits)) in
    let size : (insert c g).1.queue.size ≡ g.queue.size + size_of c = ap (λ r. r.1.queue.size) e in
    (
      subst (λ l. Holds l (insert c g).1.queue) (append_assoc base ws (c ∷ []))
          (insert-Holds (base ++ ws) c g holds is fits).1,
      omega (arith, size),
    )

prologue-Leads :
    (m : Memory) (f target : ℕ)
    → 14 ≤ f
    → target < 2 ^ 64
    → Leads m f (some target) (prologue_write m f target)
unfolding applied
prologue-Leads m f target low fits k e =
    subst
      (λ b.
        diverted_to
          (store k (f - 14) (if b then ulp_prologue_endbr64 target else ulp_prologue target)) f
        ≡ some target)
      e (stored_diverts k f target low fits).0

nop-Leads : (m : Memory) (f : ℕ) → Leads m f none (nop_write m f)
unfolding applied
nop-Leads m f k e =
    subst (λ b. diverted_to (store k (f + (if b then 4 else 0)) insn_nop2) f ≡ none) e
      (stored_restores k f).0

-- Diverting a patchable function.
pub divert-Wrote :
    (base : List Command) (n : ℕ) (m : Memory) (f target : ℕ) (g : Globals)
    → Room base (suc n) g
    → 14 ≤ f
    → f < 2 ^ 64
    → target < 2 ^ 64
    → is_patchable m (first_insn m f) ≡ true
    → Wrote base n m f (some target) (ulp_patch_addr m f target true g).1
divert-Wrote base n m f target g (ws, holds, room) low high fits patchable =
    let c = prologue_write m f target in
    let small = prologue_small m f target in
    let (more, left) =
      insert-Room base ws n c g holds room (omega arith, omega arith) (omega arith) in
    subst (λ r. Wrote base n m f (some target) r.1) (sym (enabled_lem m f target g patchable))
      (ws, c, more, left, prologue-Leads m f target low fits)

-- Undoing the diversion of one.
pub restore-Wrote :
    (base : List Command) (n : ℕ) (m : Memory) (f target : ℕ) (g : Globals)
    → Room base (suc n) g
    → f + 4 < 2 ^ 64
    → is_patchable m (first_insn m f) ≡ true
    → Wrote base n m f none (ulp_patch_addr m f target false g).1
restore-Wrote base n m f target g (ws, holds, room) high patchable =
    let c = nop_write m f in
    let near : f + (if has_endbr64 m f then length insn_endbr64 else 0) < 2 ^ 64 = ground arith in
    let (more, left) = insert-Room base ws n c g holds room (near, omega arith) (omega arith) in
    subst (λ r. Wrote base n m f none r.1) (sym (disabled_lem m f target g patchable))
      (ws, c, more, left, nop-Leads m f)

pub Wrote-Room :
    (base : List Command) (n : ℕ) (m : Memory) (f : ℕ) (to : Option ℕ) (g : Globals)
    → Wrote base n m f to g
    → Room base n g
Wrote-Room base n m f to g (ws, c, holds, room, leads) = (ws ++ c ∷ [], holds, room)

-- Exactly one command is queued for a function that is diverted.
pub divert-Queued :
    (base : List Command) (n : ℕ) (m : Memory) (f target : ℕ) (g : Globals)
    → Holds base g.queue
    → g.queue.size + 40 * suc n ≤ insn_buffer_max
    → 14 ≤ f
    → f < 2 ^ 64
    → target < 2 ^ 64
    → (ulp_patch_addr m f target true g).0 ≡ enone
    → let g' = (ulp_patch_addr m f target true g).1 in
      (c : Command) × Holds (base ++ c ∷ []) g'.queue
      × (g'.queue.size + 40 * n ≤ insn_buffer_max)
      × Leads m f (some target) c
divert-Queued base n m f target g holds room low high fits ok =
    elim (Bool-cases (is_patchable m (first_insn m f))) [
      | inr stiff ↦
          let refused : enopatchable ≡ enone =
            sym (ap (λ r. r.0) (ulp_patch_addr-refuses m f target true g stiff)) ∙ ok in
          absurd (omega (arith, refused))
      | inl patchable ↦
          let c = prologue_write m f target in
          let small = prologue_small m f target in
          let plain : Holds (base ++ []) g.queue =
            subst (λ l. Holds l g.queue) (sym (append_nil base)) holds in
          let (more, left) =
            insert-Room base [] n c g plain room (omega arith, omega arith) (omega arith) in
          subst
            (λ r.
              (c : Command) × Holds (base ++ c ∷ []) r.1.queue
              × (r.1.queue.size + 40 * n ≤ insn_buffer_max)
              × Leads m f (some target) c)
            (sym (enabled_lem m f target g patchable))
            (c, more, left, prologue-Leads m f target low fits)
    ]
