-- ===== src/InsnQueue/Protect.antt =====
-- The write inside the process does not fault, and sets the protection of the pages back.
use native.Mathlib.Decide.{ℕ_discrete}
use mathlib.Core.Option.{some-injective}
use libpulp.Base.{
  ℕ, zero, suc, ◌+◌, ◌-◌, ◌*◌, ◌/◌, ◌%◌, ◌≤◌, ◌<◌, ◌≡◌, ◌≢◌, ◌⊎◌, inl, inr, refl, sym, ap, ◌∙◌,
  List, [], ◌∷◌, none, some, true, false, length, bit_or, get_or, arith, Option-cases,
}
use libpulp.Bits.{bit_and_digit, bit_or_digit, bit_and-zero}
use libpulp.InsnQueue.Pages.{
  Pages, page_size, page_of, prot_write, is_writable, get_prots, set_prots,
}

-- Setting PROT_WRITE makes a page writable.
or-is_writable : (p : ℕ) → is_writable (bit_or p prot_write) ≡ true
or-is_writable p =
    let q = bit_or p 2 in
    let bit : q / 2 % 2 ≡ 1 = omega (arith, bit_or_digit p 2, bit_or_digit (p / 2) 1) in
    let test = bit_and_digit q 2 in
    let high = bit_and_digit (q / 2) 1 in ground (arith, bit, test, high, bit_and-zero (q / 2 / 2))

-- The pages from `page` on.
abbrev pub nth_page : ℕ → ℕ → ℕ
nth_page page i = page + i * page_size

module _ {S : Type 0} (t : Pages S) where
  get_prots_parts :
      (count page : ℕ) (s : S) (prots : List ℕ)
      → get_prots t (suc count) page s ≡ some prots
      → (p : ℕ) × (ps : List ℕ) × (prots ≡ p ∷ ps)
        × (t.protection_get page s ≡ some p)
        × (get_prots t count (page + page_size) s ≡ some ps)
  unfolding get_prots
  get_prots_parts count page s prots h = elim (Option-cases (t.protection_get page s)) [
    | inl e ↦
        let stuck : get_prots t (suc count) page s ≡ none = rw (get_prots, e) refl in absurd (cc)
    | inr (p, e) ↦ elim (Option-cases (get_prots t count (page + page_size) s)) [
      | inl e' ↦
          let stuck : get_prots t (suc count) page s ≡ none = rw (get_prots, e, e') refl in
          absurd (cc)
      | inr (ps, e') ↦
          let made : get_prots t (suc count) page s ≡ some (p ∷ ps) = rw (get_prots, e, e') refl in
          (p, ps, sym (some-injective (p ∷ ps) prots (sym made ∙ h)), e, e')
    ]
  ]

  nth_prot :
      (page p count : ℕ) (ps : List ℕ) (s : S)
      → p ≡ t.prot s page
      → ((i : ℕ) → i < count → get_or ps i 0 ≡ t.prot s (nth_page (page + page_size) i))
      → (i : ℕ) → i < suc count
      → get_or (p ∷ ps) i 0 ≡ t.prot s (nth_page page i)
  nth_prot page p count ps s first each zero lt =
      let at : page ≡ nth_page page 0 = omega arith in first ∙ ap (t.prot s) at
  nth_prot page p count ps s first each (suc i) lt =
      let at : nth_page (page + page_size) i ≡ nth_page page (suc i) = omega arith in
      each i (omega arith) ∙ ap (t.prot s) at

  nth_away :
      (page q : ℕ) (ps : List ℕ)
      → q ≢ page
      → ((i : ℕ) → i < length ps → q ≢ nth_page (page + page_size) i)
      → (i : ℕ) → i < suc (length ps)
      → q ≢ nth_page page i
  nth_away page q ps ne away zero lt e = ne (omega arith)
  nth_away page q ps ne away (suc i) lt e = away i (omega arith) (omega arith)

  -- The protections that the first loop reads.
  pub get_prots_lem :
      (count page : ℕ) (s : S) (prots : List ℕ)
      → get_prots t count page s ≡ some prots
      → (length prots ≡ count)
        × ((i : ℕ) → i < count → get_or prots i 0 ≡ t.prot s (nth_page page i))
  unfolding get_prots
  get_prots_lem zero page s prots h =
      let e = some-injective [] prots h in (ap length (sym e), λ i lt. absurd (omega arith))
  get_prots_lem (suc count) page s prots h =
      let (p, ps, e, first, rest) = get_prots_parts count page s prots h in
      let (size, each) = get_prots_lem count (page + page_size) s ps rest in
      let sized : length prots ≡ suc count = ap length e ∙ ap suc size in
      (
        sized,
        λ i lt.
            ap (λ l. get_or l i 0) e
            ∙ nth_prot page p count ps s (t.protection_get_lem page p s first) each i lt,
      )

  -- What a successful loop of mprotect changes.
  abbrev pub Set : (ℕ → ℕ) → ℕ → List ℕ → S → S → ℕ → Type 0
  Set f page prots s s' q =
      ((i : ℕ) × (i < length prots) × (q ≡ nth_page page i) × (t.prot s' q ≡ f (get_or prots i 0)))
      ⊎ ((t.prot s' q ≡ t.prot s q) × ((i : ℕ) → i < length prots → q ≢ nth_page page i))

  set_prots_parts :
      (f : ℕ → ℕ) (page p : ℕ) (ps : List ℕ) (s : S)
      → (set_prots t f page (p ∷ ps) s).0 ≡ false
      → let s1 = (t.mprotect page (f p) s).1 in
        ((t.mprotect page (f p) s).0 ≡ false)
        × ((set_prots t f (page + page_size) ps s1).0 ≡ false)
        × ((set_prots t f page (p ∷ ps) s).1 ≡ (set_prots t f (page + page_size) ps s1).1)
  unfolding set_prots
  set_prots_parts f page p ps s h = ground arith

  pub set_prots-Set :
      (f : ℕ → ℕ) (page : ℕ) (prots : List ℕ) (s : S) (q : ℕ)
      → (set_prots t f page prots s).0 ≡ false
      → Set f page prots s (set_prots t f page prots s).1 q
  unfolding set_prots
  set_prots-Set f page [] s q h = inr (refl, λ i lt. absurd (omega arith))
  set_prots-Set f page (p ∷ ps) s q h =
      let s1 = (t.mprotect page (f p) s).1 in
      let (first, rest, same) = set_prots_parts f page p ps s h in
      elim (set_prots-Set f (page + page_size) ps s1 q rest) [
        | inl (i, lt, at, v) ↦
            inl (suc i, omega arith, at ∙ omega arith, ap (λ k. t.prot k q) same ∙ v)
        | inr (kept, away) ↦ elim (ℕ_discrete q page) [
          | yes here ↦ inl (
            0,
            omega arith,
            here ∙ omega arith,
            ap (λ k. t.prot k q) same
                ∙ kept
                ∙ ap (t.prot s1) here
                ∙ t.mprotect_set page (f p) s first,
          )
          | no ne ↦ inr (
            ap (λ k. t.prot k q) same ∙ kept ∙ t.mprotect_other page (f p) q s ne,
            nth_away page q ps ne away,
          )
        ]
      ]

  pub set_prots-byte :
      (f : ℕ → ℕ) (page : ℕ) (prots : List ℕ) (s : S)
      → t.byte (set_prots t f page prots s).1 ≡ t.byte s
  unfolding set_prots
  set_prots-byte f page [] s = refl
  set_prots-byte f page (p ∷ ps) s =
      let s1 = (t.mprotect page (f p) s).1 in
      let rest = set_prots-byte f (page + page_size) ps s1 in
      ground (arith, rest, t.mprotect_byte page (f p) s)

  -- Where the pages of the range are those that were set, the range is writable.
  pub set_prots-is_writable :
      (page a n : ℕ) (prots : List ℕ) (s : S)
      → (set_prots t (λ p. bit_or p prot_write) page prots s).0 ≡ false
      → page ≡ page_of a
      → length prots ≡ 1 + (page_of (a + n) - page_of a) / page_size
      → (p : ℕ) → a ≤ p
      → p < a + n
      → is_writable (t.prot (set_prots t (λ p. bit_or p prot_write) page prots s).1 (page_of p))
        ≡ true
  set_prots-is_writable page a n prots s good start count p lo hi =
      elim (set_prots-Set (λ p. bit_or p prot_write) page prots s (page_of p) good) [
        | inl (i, lt, at, v) ↦ ap is_writable v ∙ or-is_writable (get_or prots i 0)
        | inr (kept, away) ↦
            let i = p / page_size - a / page_size in absurd (away i (omega arith) (omega arith))
      ]
