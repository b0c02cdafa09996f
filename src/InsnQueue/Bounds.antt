-- ===== src/InsnQueue/Bounds.antt =====
-- The bounds of the queue of lib/insn_queue.c.
use libpulp.Base.{
  ℕ, ◌+◌, ◌*◌, ◌/◌, ◌%◌, ◌^◌, ◌≤◌, ◌<◌, ◌≡◌, ◌∙◌, List, none, some, arith, length, leb,
  if◌then◌else◌,
}
use libpulp.Bits.{clear_two, clear_three}
use libpulp.InsnQueue.Defs.{Queue, insn_buffer_max, insn_len, write_len}
use libpulp.InsnQueue.Insert.{align_to, get_writable_area}

pub record IsValid (q : Queue) : Type 0 where
  pub within : q.size ≤ insn_buffer_max
  pub counted : 4 * q.num_insns ≤ q.size

pub align_to_four : (v : ℕ) → v < 2 ^ 31 → align_to v 4 ≡ (v + 3) / 4 * 4
unfolding align_to
align_to_four v h = clear_two ((v + 3) % 2 ^ 32) (omega arith) ∙ omega arith

pub align_to_eight : (v : ℕ) → v < 2 ^ 31 → align_to v 8 ≡ (v + 7) / 8 * 8
unfolding align_to
align_to_eight v h = clear_three ((v + 7) % 2 ^ 32) (omega arith) ∙ omega arith

-- The queue after an instruction of `m` bytes was appended.
abbrev pub grown : Queue → ℕ → Queue
grown q m = record q { size = q.size + m; num_insns = q.num_insns + 1 }

-- On a valid queue, for a size that is positive and below 2 ^ 31, no addition of
-- insnq_get_writable_area wraps: it gives the first free byte if the instruction fits, and NULL
-- otherwise.
pub get_writable_area_lem :
    {q : Queue} (m : ℕ)
    → IsValid q
    → 0 < m
    → m < 2 ^ 31
    → get_writable_area q m
      ≡ (if leb (q.size + m) insn_buffer_max then some (q.size, grown q m) else none)
unfolding get_writable_area
get_writable_area_lem {q} m v pos h = ground arith

-- The sizes that the two insertions ask for.
abbrev pub print_size : List ℕ → ℕ
print_size string = (insn_len + length string + 1 + 3) / 4 * 4

abbrev pub write_size : List ℕ → ℕ
write_size bytes = (write_len + length bytes + 7) / 8 * 8

abbrev IsShort : List ℕ → Type 0
IsShort l = length l < 2 ^ 30

pub grown-IsValid :
    {q : Queue} (m : ℕ) → IsValid q → 4 ≤ m → q.size + m ≤ insn_buffer_max → IsValid (grown q m)
grown-IsValid m v h fits = omega arith
