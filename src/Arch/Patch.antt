-- ===== src/Arch/Patch.antt =====
-- ulp_patch_addr, on every path: what it queues, and what the process does once that was written.
use libpulp.Base.{
  ℕ, ◌+◌, ◌-◌, ◌≤◌, ◌<◌, ◌≡◌, refl, List, ◌∷◌, [], ◌++◌, true, false, length, arith, Bool-cases,
  inl, inr, if◌then◌else◌, ◌^◌, some, Bool, length-append, none,
}
use libpulp.Base.Memory.{Memory, bytes_le, length-bytes_le}
use libpulp.Arch.Defs.{
  ulp_patch_addr, ulp_patch_prologue_layout, ulp_skip_prologue, has_endbr64, is_patchable,
  insn_endbr64, pre_nops_len, insn_nop2, ulp_prologue_endbr64, ulp_prologue,
}
use libpulp.InsnQueue.Commands.{Command, write, Holds, insert}
use libpulp.Arch.Jump.{first_insn, diverted_to}
use libpulp.InsnQueue.Protocol.{applied}
use libpulp.InsnQueue.Insert.{Globals}
use libpulp.InsnQueue.Defs.{insn_buffer_max}
use libpulp.Errors.Codes.{enone, enopatchable}
use libpulp.InsnQueue.Extend.{insert-Holds}
use libpulp.Arch.Redirect.{stored_diverts, stored_restores}

-- The one write that a call queues.
abbrev pub prologue_write : Memory → ℕ → ℕ → Command
prologue_write m f target =
    write (f - pre_nops_len)
      (if has_endbr64 m f then ulp_prologue_endbr64 target else ulp_prologue target)

abbrev pub nop_write : Memory → ℕ → Command
nop_write m f = write (f + (if has_endbr64 m f then length insn_endbr64 else 0)) insn_nop2

pub prologue_small :
    (m : Memory) (f target : ℕ)
    → length (if has_endbr64 m f then ulp_prologue_endbr64 target else ulp_prologue target) ≤ 20
prologue_small m f target = elim (Bool-cases (has_endbr64 m f)) [
  | inl e ↦ rw e (
      omega (
        arith,
        length-append (bytes_le 8 target) (insn_endbr64 ++ (0xeb ∷ 0xec ∷ [])),
        length-bytes_le 8 target,
      ))
  | inr e ↦ rw e (
      omega (arith, length-append (bytes_le 8 target) (0xeb ∷ 0xf0 ∷ []), length-bytes_le 8 target))
]

pub enabled_lem :
    (m : Memory) (f target : ℕ) (g : Globals)
    → is_patchable m (first_insn m f) ≡ true
    → ulp_patch_addr m f target true g ≡ (enone, (insert (prologue_write m f target) g).1)
unfolding ulp_patch_addr ulp_patch_prologue_layout first_insn
enabled_lem m f target g h = rw h

pub disabled_lem :
    (m : Memory) (f target : ℕ) (g : Globals)
    → is_patchable m (first_insn m f) ≡ true
    → ulp_patch_addr m f target false g ≡ (enone, (insert (nop_write m f) g).1)
unfolding ulp_patch_addr ulp_skip_prologue first_insn
disabled_lem m f target g h = rw h

-- A function that does not begin with a nop pair or a short jump is not touched.
pub ulp_patch_addr-refuses :
    (m : Memory) (f target : ℕ) (enable : Bool) (g : Globals)
    → is_patchable m (first_insn m f) ≡ false
    → ulp_patch_addr m f target enable g ≡ (enopatchable, g)
unfolding ulp_patch_addr first_insn
ulp_patch_addr-refuses m f target enable g h = rw h

-- Diverting a patchable function at an address of at least 14 queues one write and reports
-- success, where the queue has 40 bytes left and both addresses fit 64 bits. Once that write is
-- done in the process, a call of the function goes to the replacement, and the function can be
-- patched again.
pub ulp_patch_addr-diverts :
    (m : Memory) (f target : ℕ) (cs : List Command) (g : Globals)
    → Holds cs g.queue
    → g.queue.size + 40 ≤ insn_buffer_max
    → 14 ≤ f
    → f < 2 ^ 64
    → target < 2 ^ 64
    → is_patchable m (first_insn m f) ≡ true
    → let r = ulp_patch_addr m f target true g in
      let m' = applied (prologue_write m f target ∷ []) m in
      (r.0 ≡ enone)
      × Holds (cs ++ prologue_write m f target ∷ []) r.1.queue
      × (diverted_to m' f ≡ some target)
      × (is_patchable m' (first_insn m' f) ≡ true)
unfolding applied
ulp_patch_addr-diverts m f target cs g holds room low high fits patchable =
    let e = enabled_lem m f target g patchable in
    let small = prologue_small m f target in
    let i =
      insert-Holds cs (prologue_write m f target) g holds (omega arith, omega arith)
        (omega arith) in
    let d = stored_diverts m f target low fits in rw e (refl, i.1, d.0, d.1)

-- Undoing the diversion of a patchable function queues one write and reports success, where the
-- queue has 24 bytes left and the address plus 4 fits 64 bits. Once that write is done in the process, a
-- call of the function runs its own code, and the function can be patched again.
pub ulp_patch_addr-restores :
    (m : Memory) (f target : ℕ) (cs : List Command) (g : Globals)
    → Holds cs g.queue
    → g.queue.size + 24 ≤ insn_buffer_max
    → f + 4 < 2 ^ 64
    → is_patchable m (first_insn m f) ≡ true
    → let r = ulp_patch_addr m f target false g in
      let m' = applied (nop_write m f ∷ []) m in
      (r.0 ≡ enone)
      × Holds (cs ++ nop_write m f ∷ []) r.1.queue
      × (diverted_to m' f ≡ none)
      × (is_patchable m' (first_insn m' f) ≡ true)
unfolding applied
ulp_patch_addr-restores m f target cs g holds room high patchable =
    let e = disabled_lem m f target g patchable in
    let near : f + (if has_endbr64 m f then length insn_endbr64 else 0) < 2 ^ 64 = ground arith in
    let i = insert-Holds cs (nop_write m f) g holds (near, omega arith) (omega arith) in
    let d = stored_restores m f in rw e (refl, i.1, d.0, d.1)
