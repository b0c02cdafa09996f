-- ===== src/Elf/Names.antt =====
-- The names of sections: the copy of the string table against the file itself.
use mathlib.Core.Path.{ap₂}
use libpulp.Base.{
  ℕ, zero, suc, ◌+◌, ◌-◌, ◌<◌, ◌≡◌, ◌⊎◌, inl, inr, refl, ap, ◌∙◌, subst, List, [], ◌∷◌, Option,
  none, some, Bool, ◌==◌, ◌&&◌, if◌then◌else◌, arith,
}
use libpulp.Base.Memory.{Memory, load, store, store_byte, store_below}
use libpulp.InsnQueue.Commands.{IsText}
use libpulp.Metadata.Encode.{All}
use libpulp.Elf.Defs.{SectionHeader, matches}

-- A copy of a range, byte by byte.
pub store-load_at :
    (m c : Memory) (a p n i : ℕ) → i < n → store m a (load c p n) (a + i) ≡ c (p + i)
unfolding store load
store-load_at m c a p zero i lt = absurd (omega arith)
store-load_at m c a p (suc n) zero lt =
    let here : a + 0 ≡ a = omega arith in
    let there : p + 0 ≡ p = omega arith in
    let first = store_below (store_byte m a (c p)) (suc a) a (load c (suc p) n) (omega arith) in
    rw (here, there) (first ∙ ground arith)
store-load_at m c a p (suc n) (suc i) lt =
    let here : suc a + i ≡ a + suc i = omega arith in
    let there : suc p + i ≡ p + suc i = omega arith in
    subst (λ x. store m a (load c p (suc n)) x ≡ c (p + suc i)) here
      (store-load_at (store_byte m a (c p)) c (suc a) (suc p) n i (omega arith) ∙ ap c there)

before_last : (p size : ℕ) → p < size → (suc p < size) ⊎ (p ≡ size - 1)
before_last p size lt = ground arith

-- A table that ends with a null character gives the same comparison wherever it stands.
pub matches-copy :
    (name : List ℕ) (b c : Memory) (p k size : ℕ)
    → IsText name
    → ((q : ℕ) → q < size → b q ≡ c (k + q))
    → b (size - 1) ≡ 0
    → p < size
    → matches name b p ≡ matches name c (k + p)
unfolding matches
matches-copy [] b c p k size text copy end lt = ap (λ x. x == 0) (copy p lt)
matches-copy (ch ∷ name) b c p k size text copy end lt = elim (before_last p size lt) [
  | inl more ↦
      let next : k + suc p ≡ suc (k + p) = omega arith in
      let rest : matches name b (suc p) ≡ matches name c (suc (k + p)) =
        matches-copy name b c (suc p) k size text.1 copy end more ∙ ap (matches name c) next in
      let here = copy p lt in ap₂ (λ x y. x == ch && y) here rest
  | inr last ↦
      let here = copy p lt in
      let null : b p ≡ 0 = ap b last ∙ end in let apart = text.0 in ground arith
]

-- The first header whose name passes the test.
unfoldable pub find_header : (ℕ → Bool) → List SectionHeader → Option SectionHeader
find_header test [] = none
find_header test (h ∷ hs) =
    let rest = find_header test hs in if test h.sh_name then some h else rest

pub find_header_same :
    (test test' : ℕ → Bool) (size : ℕ) (hs : List SectionHeader)
    → ((p : ℕ) → p < size → test p ≡ test' p)
    → All (λ h. h.sh_name < size) hs
    → find_header test hs ≡ find_header test' hs
unfolding find_header
find_header_same test test' size [] agree names = refl
find_header_same test test' size (h ∷ hs) agree (lt, names) =
    ap₂ (λ t r. if t then some h else r) (agree h.sh_name lt)
      (find_header_same test test' size hs agree names)
