-- ===== src/Trigger/Folders.antt =====
-- What trigger_many_ulps makes of its calls for subdirectories.
use libpulp.Base.{ℕ, suc, ◌≡◌, refl, ap, ◌∙◌, List, [], ◌∷◌, ◌++◌, some, Bool}
use libpulp.Strings.{get_basename}
use libpulp.Trigger.Many.{Files, with_wildcard, visit, visit_all, trigger_many_ulps}

module _ {P : Type 0} (files : Files) (one : List ℕ → P → ℕ × P) (recursive_mode : Bool) where
  visit-recurse :
      (f g : List ℕ → P → ℕ × P) (folder wildcard name : List ℕ) (ret : ℕ) (p : P)
      → ((path : List ℕ) (p : P) → (f path p).1 ≡ (g path p).1)
      → visit files one recursive_mode f folder wildcard name ret p
        ≡ visit files one recursive_mode g folder wildcard name ret p
  unfolding visit
  visit-recurse f g folder wildcard name ret p agree =
      let below = with_wildcard (folder ++ name) wildcard in rw (agree below p) refl

  visit_all-recurse :
      (f g : List ℕ → P → ℕ × P) (folder wildcard : List ℕ) (names : List (List ℕ)) (ret : ℕ)
      (p : P)
      → ((path : List ℕ) (p : P) → (f path p).1 ≡ (g path p).1)
      → visit_all files one recursive_mode f folder wildcard names ret p
        ≡ visit_all files one recursive_mode g folder wildcard names ret p
  unfolding visit_all
  visit_all-recurse f g folder wildcard [] ret p agree = refl
  visit_all-recurse f g folder wildcard (name ∷ names) ret p agree =
      let step = visit-recurse f g folder wildcard name ret p agree in
      let next = visit files one recursive_mode g folder wildcard name ret p in
      ap (λ v. visit_all files one recursive_mode f folder wildcard names v.0 v.1) step
      ∙ visit_all-recurse f g folder wildcard names next.0 next.1 agree

-- For a path whose directory can be opened: what trigger_many_ulps returns, and how it leaves the
-- process, is the same if each of its calls for a subdirectory returned any other flags, given by
-- `flags`. So errors and successes from subdirectories are lost.
pub trigger_many_ulps-visit_all :
    {P : Type 0} (files : Files) (one : List ℕ → P → ℕ × P) (recursive_mode : Bool) (depth : ℕ)
    (path : List ℕ) (names : List (List ℕ)) (flags : List ℕ → ℕ) (p : P)
    → files.opendir (files.dirname path) ≡ some names
    → trigger_many_ulps files one recursive_mode (suc depth) path p
      ≡ visit_all files one recursive_mode
          (λ below q. (flags below, (trigger_many_ulps files one recursive_mode depth below q).1))
          (files.dirname path ++ (47 ∷ []))
          (get_basename path)
          names
          0
          p
unfolding trigger_many_ulps
trigger_many_ulps-visit_all files one recursive_mode depth path names flags p opens =
    let folder = files.dirname path ++ (47 ∷ []) in
    let wildcard = get_basename path in
    let f = trigger_many_ulps files one recursive_mode depth in
    let same : trigger_many_ulps files one recursive_mode (suc depth) path p
        ≡ visit_all files one recursive_mode f folder wildcard names 0 p =
      rw (trigger_many_ulps, opens) refl in
    same
    ∙ visit_all-recurse files one recursive_mode f _ folder wildcard names 0 p (λ below q. refl)
