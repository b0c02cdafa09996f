-- ===== src/InsnQueue/Pages.antt =====
-- insn_interpret_write of lib/insn_queue.c, which runs a queue inside the process: it makes the
-- pages writable, copies the bytes and sets the pages back. The calls are the record Pages.
use libpulp.Base.{
  ℕ, zero, suc, ◌+◌, ◌-◌, ◌*◌, ◌/◌, ◌≤◌, ◌<◌, ◌≡◌, ◌≢◌, List, [], ◌∷◌, Option, none, some, Bool,
  true, false, ◌==◌, not, if◌then◌else◌, length, bit_and, bit_or,
}
use libpulp.Base.Memory.{Memory, store}
use libpulp.Base.Words.{size_mod, add_size}

-- getpagesize() on x86_64
abbrev pub page_size : ℕ
page_size = 4096

abbrev pub prot_write : ℕ
prot_write = 2

-- The page of an address.
abbrev pub page_of : ℕ → ℕ
page_of a = a / page_size * page_size

abbrev pub is_writable : ℕ → Bool
is_writable prot = not (bit_and prot prot_write == 0)

-- What the process sees of its pages, by address, and of its memory. `protection_get` is
-- memory_protection_get, `none` where it returns -1; a Boolean is whether mprotect failed; a copy
-- that faults is `none`.
pub record Pages (S : Type 0) : Type 0 where
  pub byte : S → Memory
  pub prot : S → ℕ → ℕ
  pub errno : S → ℕ
  pub protection_get : ℕ → S → Option ℕ
  pub mprotect : ℕ → ℕ → S → Bool × S
  pub memcpy : ℕ → List ℕ → S → Option S
  pub protection_get_lem : (page p : ℕ) (s : S) → protection_get page s ≡ some p → p ≡ prot s page
  pub mprotect_set :
      (page p : ℕ) (s : S) → (mprotect page p s).0 ≡ false → prot (mprotect page p s).1 page ≡ p
  pub mprotect_other : (page p q : ℕ) (s : S) → q ≢ page → prot (mprotect page p s).1 q ≡ prot s q
  pub mprotect_byte : (page p : ℕ) (s : S) → byte (mprotect page p s).1 ≡ byte s
  pub memcpy_lem :
      (a : ℕ) (bs : List ℕ) (s : S)
      → ((p : ℕ) → a ≤ p → p < a + length bs → is_writable (prot s (page_of p)) ≡ true)
      → (s' : S) × (memcpy a bs s ≡ some s')
        × (byte s' ≡ store (byte s) a bs)
        × ((q : ℕ) → prot s' q ≡ prot s q)

-- How the function ends.
pub data Written (S : Type 0) : Type 0 where
  fault : Written S
  returns : ℕ → S → Written S

module _ {S : Type 0} (t : Pages S) where
  -- The first loop: the protections of `count` pages from `page` on.
  unfoldable pub get_prots : ℕ → ℕ → S → Option (List ℕ)
  get_prots zero page s = some []
  get_prots (suc count) page s = elim (t.protection_get page s) [
    | none ↦ none
    | some p ↦ elim (get_prots count (page + page_size) s) [ none ↦ none | some ps ↦ some (p ∷ ps) ]
  ]

  -- The other loops: whether an mprotect failed, which ends the loop.
  unfoldable pub set_prots : (ℕ → ℕ) → ℕ → List ℕ → S → Bool × S
  set_prots f page [] s = (false, s)
  set_prots f page (p ∷ ps) s =
      let (failed, s') = t.mprotect page (f p) s in
      let rest = set_prots f (page + page_size) ps s' in if failed then (true, s') else rest

  -- Behind the copy.
  unfoldable pub restore_prots : ℕ → List ℕ → ℕ → Option S → Written S
  restore_prots page prots size none = fault
  restore_prots page prots size (some s) =
      let (failed, s') = set_prots (λ p. p) page prots s in
      if failed then returns (t.errno s') s' else returns size s'

  -- Behind the first loop.
  unfoldable pub write_pages : ℕ → ℕ → ℕ → List ℕ → Option (List ℕ) → S → Written S
  write_pages page size address bytes none s = returns (t.errno s) s
  write_pages page size address bytes (some prots) s =
      let (failed, s') = set_prots (λ p. bit_or p prot_write) page prots s in
      if failed
      then returns (t.errno s') s'
      else restore_prots page prots size (t.memcpy address bytes s')

  -- insn_interpret_write of an instruction of `size` bytes that writes `bytes` at `address`
  unfoldable pub insn_interpret_write : ℕ → ℕ → List ℕ → S → Written S
  insn_interpret_write size address bytes s =
      let page_mask = size_mod - page_size in
      let page1 = bit_and address page_mask in
      let pagen = bit_and (add_size address (length bytes)) page_mask in
      let num_pages = 1 + (pagen - page1) / page_size in
      write_pages page1 size address bytes (get_prots num_pages page1 s) s
