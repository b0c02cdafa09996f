-- ===== src/Post/Merge.antt =====
-- A function whose nops were merged runs its own code and can be patched.
use mathlib.Core.Option.{some-injective}
use libpulp.Base.Memory.{load_ext, Memory, store_byte, load}
use libpulp.Base.{
  fun_ext, ℕ, ◌+◌, ◌≡◌, ◌≢◌, refl, sym, ap, ◌∙◌, subst, List, none, some, true, false, ◌==◌, ◌&&◌,
  ◌||◌, Bool-cases, inl, inr, arith, same, Option-cases,
}
use libpulp.Arch.Defs.{has_endbr64, insn_endbr64, is_patchable}
use libpulp.Arch.Jump.{first_insn, diverted_to, not_diverted}
use libpulp.Post.Defs.{
  Symbol, ElfFile, nops_at, merge_bytes, merge_symbol, set_buf, offset_in, symbols_of, find_symbol,
  merge_nops_at_addr,
}

-- The first instruction stays where it is.
nops_at-first_insn : (m : Memory) (f : ℕ) → nops_at m f ≡ first_insn m f
unfolding nops_at first_insn
nops_at-first_insn m f = refl

endbr64_before : (m : Memory) (f v : ℕ) → has_endbr64 (store_byte m (f + 4) v) f ≡ has_endbr64 m f
unfolding has_endbr64
endbr64_before m f v =
    ap (λ l. same l insn_endbr64)
      (load_ext (store_byte m (f + 4) v) m f 4 (λ p lo hi. ground arith))

endbr64_gone : (m : Memory) (f : ℕ) → has_endbr64 (store_byte m f 0x66) f ≡ false
unfolding has_endbr64 load
endbr64_gone m f = ground arith

nops_at_kept : (m : Memory) (f : ℕ) → nops_at (store_byte m (nops_at m f) 0x66) f ≡ nops_at m f
unfolding nops_at
nops_at_kept m f = elim (Bool-cases (has_endbr64 m f)) [
  | inl on ↦
      let at : nops_at m f ≡ f + 4 = rw (nops_at, on) refl in
      let again : has_endbr64 (store_byte m (f + 4) 0x66) f ≡ true = endbr64_before m f 0x66 ∙ on in
      let there : nops_at (store_byte m (f + 4) 0x66) f ≡ f + 4 = rw (nops_at, again) refl in
      ap (λ a. nops_at (store_byte m a 0x66) f) at ∙ there ∙ sym at
  | inr off ↦
      let at : nops_at m f ≡ f = rw (nops_at, off) refl in
      let there : nops_at (store_byte m f 0x66) f ≡ f = rw (nops_at, endbr64_gone m f) refl in
      ap (λ a. nops_at (store_byte m a 0x66) f) at ∙ there ∙ sym at
]

merge_bytes_parts :
    (m m' : Memory) (f : ℕ)
    → merge_bytes m f ≡ some m'
    → (m (nops_at m f + 1) ≡ 0x90) × (store_byte m (nops_at m f) 0x66 ≡ m')
unfolding merge_bytes
merge_bytes_parts m m' f h =
    elim (Bool-cases
      (m (nops_at m f + 1) == 0x90 && (m (nops_at m f) == 0x90 || m (nops_at m f) == 0x66))) [
        | inl ok ↦
            let made : merge_bytes m f ≡ some (store_byte m (nops_at m f) 0x66) =
              rw (merge_bytes, ok) refl in
            (ground arith, some-injective (store_byte m (nops_at m f) 0x66) m' (sym made ∙ h))
        | inr bad ↦ let stuck : merge_bytes m f ≡ none = rw (merge_bytes, bad) refl in absurd (cc)
      ]

-- What merging does to a section: the two bytes of the first instruction of the function at `f`
-- are those of the two-byte nop, the function is not diverted and can be patched, and nothing else
-- changes.
abbrev pub Merged : Memory → Memory → ℕ → Type 0
Merged m m' f =
    (m' (first_insn m f) ≡ 0x66)
    × (m' (first_insn m f + 1) ≡ 0x90)
    × (diverted_to m' f ≡ none)
    × (is_patchable m' (first_insn m' f) ≡ true)
    × (merge_bytes m' f ≡ some m')
    × ((p : ℕ) → p ≢ first_insn m f → m' p ≡ m p)

stored-Merged :
    (m : Memory) (f : ℕ) → m (nops_at m f + 1) ≡ 0x90 → Merged m (store_byte m (nops_at m f) 0x66) f
unfolding merge_bytes nops_at
stored-Merged m f second =
    let at = nops_at m f in
    let m' = store_byte m at 0x66 in
    let kept : nops_at m' f ≡ at = nops_at_kept m f in
    let here : m' (nops_at m' f) ≡ 0x66 = ap m' kept ∙ ground arith in
    let next : m' (nops_at m' f + 1) ≡ 0x90 = ap (λ a. m' (a + 1)) kept ∙ ground arith in
    let (own, patchable) =
      not_diverted m' f (ap m' (sym (nops_at-first_insn m' f)) ∙ here)
        (ap (λ a. m' (a + 1)) (sym (nops_at-first_insn m' f)) ∙ next) in
    let again : merge_bytes m' f ≡ some (store_byte m' (nops_at m' f) 0x66) =
      rw (merge_bytes, next, here) refl in
    let settled : store_byte m' (nops_at m' f) 0x66 ≡ m' = fun_ext λ p. ground arith in
    let stands = nops_at-first_insn m f in
    let one : m' (first_insn m f) ≡ 0x66 = ap m' (sym stands) ∙ ground arith in
    let two : m' (first_insn m f + 1) ≡ 0x90 = ap (λ a. m' (a + 1)) (sym stands) ∙ ground arith in
    (one, two, own, patchable, again ∙ ap some settled, λ p ne. ground arith)

merge_bytes-Merged : (m m' : Memory) (f : ℕ) → merge_bytes m f ≡ some m' → Merged m m' f
merge_bytes-Merged m m' f h =
    let (second, e) = merge_bytes_parts m m' f h in
    subst (λ k. Merged m k f) e (stored-Merged m f second)

merge_symbol_parts :
    (s : Symbol) (elf elf' : ElfFile)
    → merge_symbol (some s) elf ≡ some elf'
    → (m' : Memory) × (merge_bytes (elf.d_buf s.st_shndx) (offset_in elf s) ≡ some m')
      × (set_buf s.st_shndx m' elf ≡ elf')
unfolding merge_symbol
merge_symbol_parts s elf elf' h =
    elim (Option-cases (merge_bytes (elf.d_buf s.st_shndx) (offset_in elf s))) [
      | inl e ↦
          let stuck : merge_symbol (some s) elf ≡ none = rw (merge_symbol, e) refl in absurd (cc)
      | inr (m', e) ↦
          let made : merge_symbol (some s) elf ≡ some (set_buf s.st_shndx m' elf) =
            rw (merge_symbol, e) refl in
          (m', e, some-injective (set_buf s.st_shndx m' elf) elf' (sym made ∙ h))
    ]

-- For an address that the symbol table in use has: if merge_nops_at_addr of two nops returns, then
-- in the section of the symbol the bytes 0x66 0x90 of the two-byte nop stand as the first instruction
-- of the function, behind an endbr64 if it begins with one: the function is not diverted and can be
-- patched. No other byte of the section has changed, and merging again would change nothing.
pub merge_nops_at_addr-Merged :
    (addr : ℕ) (elf elf' : ElfFile) (syms : List Symbol) (s : Symbol)
    → symbols_of elf ≡ some syms
    → find_symbol addr syms ≡ some s
    → merge_nops_at_addr addr 2 elf ≡ some elf'
    → Merged (elf.d_buf s.st_shndx) (elf'.d_buf s.st_shndx) (offset_in elf s)
unfolding merge_nops_at_addr
merge_nops_at_addr-Merged addr elf elf' syms s table found h =
    let same : merge_nops_at_addr addr 2 elf ≡ merge_symbol (some s) elf =
      rw (merge_nops_at_addr, table, found) refl in
    let (m', merged, e) = merge_symbol_parts s elf elf' (sym same ∙ h) in
    let section : elf'.d_buf s.st_shndx ≡ m' =
      sym (ap (λ k. k.d_buf s.st_shndx) e) ∙ ground arith in
    subst (λ k. Merged (elf.d_buf s.st_shndx) k (offset_in elf s)) (sym section)
      (merge_bytes-Merged (elf.d_buf s.st_shndx) m' (offset_in elf s) merged)
