-- ===== src/Pcqueue/Ring.antt =====
-- The positions of a ring of n slots, and the elements that stand in it.
use native.Mathlib.Decide.{ℕ_discrete}
use libpulp.Base.{
  ℕ, zero, suc, ◌+◌, ◌-◌, ◌<◌, ◌≡◌, List, [], ◌∷◌, ◌++◌, leb, ltb, if◌then◌else◌, length, set,
  get_or, arith, refl, ap, ◌≢◌, sym, ◌∙◌, length-append,
}

-- An index that may stand one behind the last slot.
abbrev pub wrapped : ℕ → ℕ → ℕ
wrapped n h = if leb n h then 0 else h

-- The slot i places after t.
abbrev pub slot : ℕ → ℕ → ℕ → ℕ
slot n t i = if ltb (t + i) n then t + i else t + i - n

-- The slots from t on hold xs.
abbrev pub Holds : ℕ → List ℕ → ℕ → List ℕ → Type 0
Holds n elem t xs = (i : ℕ) → i < length xs → get_or elem (slot n t i) 0 ≡ get_or xs i 0

get_or-append_front :
    (xs ys : List ℕ) (i : ℕ) → i < length xs → get_or (xs ++ ys) i 0 ≡ get_or xs i 0
get_or-append_front [] ys i h = absurd (omega arith)
get_or-append_front (x ∷ xs) ys zero h = refl
get_or-append_front (x ∷ xs) ys (suc i) h = get_or-append_front xs ys i (omega arith)

get_or-append_last : (xs : List ℕ) (x : ℕ) → get_or (xs ++ (x ∷ [])) (length xs) 0 ≡ x
get_or-append_last [] x = refl
get_or-append_last (y ∷ xs) x = get_or-append_last xs x

get_or-set_self : (xs : List ℕ) (i v : ℕ) → i < length xs → get_or (set xs i v) i 0 ≡ v
get_or-set_self [] i v h = absurd (omega arith)
get_or-set_self (x ∷ xs) zero v h = refl
get_or-set_self (x ∷ xs) (suc i) v h = get_or-set_self xs i v (omega arith)

get_or-set_ne : (xs : List ℕ) (i j v : ℕ) → i ≢ j → get_or (set xs i v) j 0 ≡ get_or xs j 0
get_or-set_ne [] i j v h = refl
get_or-set_ne (x ∷ xs) zero zero v h = absurd (h refl)
get_or-set_ne (x ∷ xs) zero (suc j) v h = refl
get_or-set_ne (x ∷ xs) (suc i) zero v h = refl
get_or-set_ne (x ∷ xs) (suc i) (suc j) v h = get_or-set_ne xs i j v (λ e. h (ap suc e))

-- A store into the first free slot of a ring that is not full.
pub Holds-set :
    (n t h x : ℕ) (elem xs : List ℕ)
    → length elem ≡ n
    → t < n
    → length xs < n
    → h ≡ slot n t (length xs)
    → Holds n elem t xs
    → Holds n (set elem h x) t (xs ++ (x ∷ []))
Holds-set n t h x elem xs size tail room at holds i lt = elim (ℕ_discrete i (length xs)) [
  | yes e ↦
      let here : slot n t i ≡ h = ground arith in
      let bound : h < length elem = ground arith in
      ap (λ k. get_or (set elem h x) k 0) here
      ∙ get_or-set_self elem h x bound
      ∙ sym (ap (λ k. get_or (xs ++ (x ∷ [])) k 0) e ∙ get_or-append_last xs x)
  | no ne ↦
      let inside : i < length xs = omega (arith, length-append xs (x ∷ [])) in
      let away : h ≢ slot n t i = λ e. ground arith in
      get_or-set_ne elem h (slot n t i) x away
      ∙ holds i inside
      ∙ sym (get_or-append_front xs (x ∷ []) i inside)
]

-- The oldest element is at t, and the others follow.
pub Holds-tail :
    (n t x : ℕ) (elem xs : List ℕ)
    → t < n
    → length xs < n
    → Holds n elem t (x ∷ xs)
    → (get_or elem t 0 ≡ x) × Holds n elem (wrapped n (suc t)) xs
Holds-tail n t x elem xs tail room holds = (
  let first : slot n t 0 ≡ t = ground arith in
      ap (λ k. get_or elem k 0) (sym first) ∙ holds 0 (omega arith),
  λ i lt.
      let next : slot n (wrapped n (suc t)) i ≡ slot n t (suc i) = ground arith in
      ap (λ k. get_or elem k 0) next ∙ holds (suc i) (omega arith),
)
