-- ===== src/Strings.antt =====
-- common/common.c: strings. A C string is the list of its characters, without the null character.
use libpulp.Base.{
  ℕ, List, [], ◌∷◌, Option, none, some, Bool, true, false, ◌==◌, ◌&&◌, leb, if◌then◌else◌,
}

-- strrchr(name, '/') + 1, if there is a slash.
unfoldable pub after_slash : List ℕ → Option (List ℕ)
after_slash [] = none
after_slash (c ∷ cs) = elim (after_slash cs) [
  | some base ↦ some base
  | none ↦ if c == 47 then some cs else none
]

-- get_basename on a name that is not NULL
unfoldable pub get_basename : List ℕ → List ℕ
unfolding after_slash
get_basename name = elim (after_slash name) [ none ↦ name | some base ↦ base ]

-- isdigit in the C locale
abbrev pub isdigit : ℕ → Bool
isdigit c = leb 48 c && leb c 57

-- The loop of isnumber.
unfoldable pub all_digits : List ℕ → Bool
all_digits [] = true
all_digits (c ∷ cs) = isdigit c && all_digits cs

-- isnumber; NULL is none
unfoldable pub isnumber : Option (List ℕ) → Bool
unfolding all_digits
isnumber none = false
isnumber (some []) = false
isnumber (some (c ∷ cs)) = all_digits (c ∷ cs)
