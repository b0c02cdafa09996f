-- ===== src/Tests/Pages.antt =====
-- Four bytes over the border of two pages that are readable and executable.
use libpulp.Base.{ℕ, ◌≡◌, ◌≢◌, refl, [], ◌∷◌, some, false, ◌==◌, if◌then◌else◌, arith, sym}
use mathlib.Core.Option.{some-injective}
use libpulp.Base.Memory.{Memory, store}
use libpulp.InsnQueue.Pages.{Pages, insn_interpret_write}
use libpulp.InsnQueue.Inside.{Ends, insn_interpret_write-Ends}

abbrev Mapped : Type 0
Mapped = Memory × (ℕ → ℕ)

abbrev set_page : ℕ → ℕ → (ℕ → ℕ) → ℕ → ℕ
set_page page p prot q = if q == page then p else prot q

set_page_self : (page p : ℕ) (prot : ℕ → ℕ) → set_page page p prot page ≡ p
set_page_self page p prot = ground arith

set_page_other : (page p q : ℕ) (prot : ℕ → ℕ) → q ≢ page → set_page page p prot q ≡ prot q
set_page_other page p q prot ne = ground arith

abbrev mapped : Pages Mapped
mapped = record {
  byte = λ s. s.0;
  prot = λ s. s.1;
  errno = λ s. 13;
  protection_get = λ page s. some (s.1 page);
  mprotect = λ page p s. (false, (s.0, set_page page p s.1));
  memcpy = λ a bs s. some (store s.0 a bs, s.1);
  protection_get_lem = λ page p s e. sym (some-injective (s.1 page) p e);
  mprotect_set = λ page p s e. set_page_self page p s.1;
  mprotect_other = λ page p q s ne. set_page_other page p q s.1 ne;
  mprotect_byte = λ page p s. refl;
  memcpy_lem = λ a bs s ok. ((store s.0 a bs, s.1), refl, refl, λ q. refl);
}

abbrev text : Mapped
text = ((λ a. 0x90), (λ page. 5))

insn_interpret_write-Ends_example :
    Ends mapped 20 4094
      (1 ∷ 2 ∷ 3 ∷ 4 ∷ [])
      text
      (insn_interpret_write mapped 20 4094 (1 ∷ 2 ∷ 3 ∷ 4 ∷ []) text)
insn_interpret_write-Ends_example =
    insn_interpret_write-Ends mapped 20 4094 (1 ∷ 2 ∷ 3 ∷ 4 ∷ []) text (omega arith)
