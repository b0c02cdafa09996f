-- ===== src/Arch/Redirect.antt =====
-- ulp_patch_addr diverts the function to its replacement, and undoes that.
use libpulp.Base.{
  inl, inr, Bool-cases, if◌then◌else◌, ℕ, ◌+◌, ◌-◌, ◌<◌, ◌≡◌, sym, ap, ◌∙◌, List, ◌∷◌, [], ◌++◌,
  none, some, true, false, length, arith, same→eq, ◌^◌, length-append, take, drop, ◌≤◌,
}
use libpulp.Base.Memory.{
  Memory, load, store, load_part, bytes_le, length-bytes_le, load-store_self, load_front, take-load,
  load-store_before, load_back, drop-load,
}
use libpulp.Arch.Defs.{
  insn_endbr64, jmp_rip, ulp_prologue, ulp_prologue_endbr64, insn_nop2, has_endbr64, is_patchable,
}
use libpulp.Arch.Jump.{
  first_insn, diverted_to, diverted_by, not_diverted, two_bytes, first_insn_plain,
  first_insn_endbr64,
}

-- Reading back what stands before the entry, and what stands from the entry on.
module _ (m : Memory) (b target : ℕ) (tail : List ℕ) where
  abbrev patched : Memory
  patched = store m b (jmp_rip ++ (bytes_le 8 target ++ tail))

  jump_lem : load patched b 6 ≡ jmp_rip
  jump_lem = load_front m b jmp_rip (bytes_le 8 target ++ tail)

  dest_lem : load patched (b + 6) 8 ≡ bytes_le 8 target
  dest_lem =
      ap (load patched (b + 6)) (sym (length-bytes_le 8 target))
      ∙ load_part m b jmp_rip (bytes_le 8 target) tail

  tail_lem : load patched (b + 14) (length tail) ≡ tail
  tail_lem =
      ap (λ k. load patched k (length tail))
        (omega (arith, length-append jmp_rip (bytes_le 8 target), length-bytes_le 8 target))
      ∙ load_back m b (jmp_rip ++ bytes_le 8 target) tail

-- The prologue that is written before and over the entry of the function at `b + 14`.
plain_diverts :
    (m : Memory) (b target : ℕ)
    → target < 2 ^ 64
    → let m' = store m b (ulp_prologue target) in
      (diverted_to m' (b + 14) ≡ some target) × (is_patchable m' (first_insn m' (b + 14)) ≡ true)
plain_diverts m b target fits =
    let back : List ℕ = 0xeb ∷ 0xf0 ∷ [] in
    let m' = store m b (ulp_prologue target) in
    let ends = two_bytes m' (b + 14) 0xeb 0xf0 (tail_lem m b target back) in
    let e : first_insn m' (b + 14) ≡ b + 14 =
      first_insn_plain m' (b + 14) (omega (arith, ends.0)) in
    diverted_by m' (b + 14) b 0xf0 target (rw e ends.0) (rw e ends.1) (omega (arith, e))
      (omega arith) (jump_lem m b target back) (dest_lem m b target back) fits

endbr64_diverts :
    (m : Memory) (b target : ℕ)
    → target < 2 ^ 64
    → let m' = store m b (ulp_prologue_endbr64 target) in
      (diverted_to m' (b + 14) ≡ some target) × (is_patchable m' (first_insn m' (b + 14)) ≡ true)
endbr64_diverts m b target fits =
    let back : List ℕ = insn_endbr64 ++ (0xeb ∷ 0xec ∷ []) in
    let m' = store m b (ulp_prologue_endbr64 target) in
    let all : load m' (b + 14) 6 ≡ back = tail_lem m b target back in
    let front : load m' (b + 14) 4 ≡ insn_endbr64 =
      sym (take-load m' (b + 14) 4 2) ∙ ap (take 4) all in
    let rest : load m' (b + 14 + 4) 2 ≡ 0xeb ∷ 0xec ∷ [] =
      sym (drop-load m' (b + 14) 4 6 (omega arith)) ∙ ap (drop 4) all in
    let ends = two_bytes m' (b + 14 + 4) 0xeb 0xec rest in
    let e : first_insn m' (b + 14) ≡ b + 14 + 4 = first_insn_endbr64 m' (b + 14) front in
    diverted_by m' (b + 14) b 0xec target (rw e ends.0) (rw e ends.1) (omega (arith, e))
      (omega arith) (jump_lem m b target back) (dest_lem m b target back) fits

-- The nop that is written over the short jump.
plain_restores :
    (m : Memory) (f : ℕ)
    → has_endbr64 m f ≡ false
    → let m' = store m f insn_nop2 in
      (diverted_to m' f ≡ none) × (is_patchable m' (first_insn m' f) ≡ true)
plain_restores m f h =
    let m' = store m f insn_nop2 in
    let ends = two_bytes m' f 0x66 0x90 (load-store_self m f insn_nop2) in
    let e : first_insn m' f ≡ f = first_insn_plain m' f (omega (arith, ends.0)) in
    not_diverted m' f (rw e ends.0) (rw e ends.1)

endbr64_restores :
    (m : Memory) (f : ℕ)
    → has_endbr64 m f ≡ true
    → let m' = store m (f + 4) insn_nop2 in
      (diverted_to m' f ≡ none) × (is_patchable m' (first_insn m' f) ≡ true)
unfolding has_endbr64
endbr64_restores m f h =
    let m' = store m (f + 4) insn_nop2 in
    let ends = two_bytes m' (f + 4) 0x66 0x90 (load-store_self m (f + 4) insn_nop2) in
    let front : load m' f 4 ≡ insn_endbr64 =
      load-store_before m f 4 (f + 4) insn_nop2 (omega arith)
      ∙ same→eq (load m f 4) insn_endbr64 h in
    let e : first_insn m' f ≡ f + 4 = first_insn_endbr64 m' f front in
    not_diverted m' f (rw e ends.0) (rw e ends.1)

-- Both kinds of function, diverted.
pub stored_diverts :
    (m : Memory) (f target : ℕ)
    → 14 ≤ f
    → target < 2 ^ 64
    → let p = if has_endbr64 m f then ulp_prologue_endbr64 target else ulp_prologue target in
      let m' = store m (f - 14) p in
      (diverted_to m' f ≡ some target) × (is_patchable m' (first_insn m' f) ≡ true)
stored_diverts m f target low fits =
    let from : f - 14 + 14 ≡ f = omega arith in
    elim (Bool-cases (has_endbr64 m f)) [
      | inl e ↦ rw e (rw from at (endbr64_diverts m (f - 14) target fits))
      | inr e ↦ rw e (rw from at (plain_diverts m (f - 14) target fits))
    ]

-- Both kinds of function, with their own code.
pub stored_restores :
    (m : Memory) (f : ℕ)
    → let m' = store m (f + (if has_endbr64 m f then 4 else 0)) insn_nop2 in
      (diverted_to m' f ≡ none) × (is_patchable m' (first_insn m' f) ≡ true)
stored_restores m f =
    let same : f + 0 ≡ f = omega arith in
    elim (Bool-cases (has_endbr64 m f)) [
      | inl e ↦ rw e (endbr64_restores m f e)
      | inr e ↦ rw e (rw same (plain_restores m f e))
    ]
