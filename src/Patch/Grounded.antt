-- ===== src/Patch/Grounded.antt =====
-- The chain of applied patches of lib/ulp.c: no id twice, and no patch without what it depends on.
use libpulp.Base.{
  ℕ, List, [], ◌∷◌, none, some, Bool, true, false, ◌||◌, ◌≡◌, refl, ◌∙◌, inl, inr, same, same→eq,
  Bool-cases, Option-cases, map, arith, or_false, same_comm, and_true,
}
use libpulp.Patch.Defs.{AppliedPatch, Dependency}
use libpulp.Patch.Chain.{
  get_applied_patch, depends_on, has_dependent, can_revert_patch, state_remove, check_dependency,
  all_checked,
}
use libpulp.Errors.Codes.{enone}

-- Whether a patch with the id is in the chain.
abbrev pub is_applied : List ℕ → List AppliedPatch → Bool
is_applied id [] = false
is_applied id (p ∷ ps) = same p.patch_id id || is_applied id ps

abbrev pub Fulfilled : List Dependency → List AppliedPatch → Type 0
Fulfilled [] ps = Unit
Fulfilled (d ∷ ds) ps = (is_applied d.dep_id ps ≡ true) × Fulfilled ds ps

-- Each patch's id is new, and what it depends on is applied, among the patches before it.
abbrev pub Grounded : List AppliedPatch → Type 0
Grounded [] = Unit
Grounded (p ∷ ps) = (is_applied p.patch_id ps ≡ false) × Fulfilled p.deps ps × Grounded ps

-- The search of ulp_get_applied_patch decides it.
pub get_applied_patch-found :
    (id : List ℕ) (ps : List AppliedPatch) (p : AppliedPatch)
    → get_applied_patch id ps ≡ some p
    → is_applied id ps ≡ true
unfolding get_applied_patch
get_applied_patch-found id [] p h = ground arith
get_applied_patch-found id (q ∷ ps) p h = ground (arith, get_applied_patch-found id ps p)

pub get_applied_patch-missing :
    (id : List ℕ) (ps : List AppliedPatch)
    → get_applied_patch id ps ≡ none
    → is_applied id ps ≡ false
unfolding get_applied_patch
get_applied_patch-missing id [] h = refl
get_applied_patch-missing id (q ∷ ps) h = ground (arith, get_applied_patch-missing id ps)

-- Removing a patch takes away no other patch, and adds none.
pub state_remove-other :
    (id a : List ℕ) (ps : List AppliedPatch)
    → same id a ≡ false
    → is_applied a (state_remove id ps).1 ≡ is_applied a ps
unfolding state_remove
state_remove-other id a [] h = refl
state_remove-other id a (p ∷ ps) h = elim (Bool-cases (same p.patch_id id)) [
  | inl e ↦ rw (e, same→eq p.patch_id id e, h) refl
  | inr e ↦ rw (e, state_remove-other id a ps h) refl
]

pub state_remove-missing :
    (id a : List ℕ) (ps : List AppliedPatch)
    → is_applied a ps ≡ false
    → is_applied a (state_remove id ps).1 ≡ false
unfolding state_remove
state_remove-missing id a [] h = refl
state_remove-missing id a (p ∷ ps) h = ground (arith, state_remove-missing id a ps)

Fulfilled-state_remove :
    (id : List ℕ) (ds : List Dependency) (ps : List AppliedPatch)
    → depends_on id ds ≡ false
    → Fulfilled ds ps
    → Fulfilled ds (state_remove id ps).1
unfolding depends_on
Fulfilled-state_remove id [] ps h f = tt
Fulfilled-state_remove id (d ∷ ds) ps h f =
    let (other, rest) = or_false (same d.dep_id id) (depends_on id ds) h in
    (
      state_remove-other id d.dep_id ps (same_comm id d.dep_id ∙ other) ∙ f.0,
      Fulfilled-state_remove id ds ps rest f.1,
    )

-- The chain without a patch that no patch depends on.
pub state_remove-Grounded :
    (id : List ℕ) (ps : List AppliedPatch)
    → has_dependent id ps ≡ false
    → Grounded ps
    → Grounded (state_remove id ps).1
unfolding has_dependent state_remove
state_remove-Grounded id [] h g = tt
state_remove-Grounded id (p ∷ ps) h g =
    let (own, rest) = or_false (depends_on id p.deps) (has_dependent id ps) h in
    elim (Bool-cases (same p.patch_id id)) [
      | inl e ↦ rw (e) g.2
      | inr e ↦ rw (e) (
        state_remove-missing id p.patch_id ps g.0,
        Fulfilled-state_remove id p.deps ps own g.1,
        state_remove-Grounded id ps rest g.2,
      )
    ]

-- ulp_can_revert_patch returns 0 only for a patch that is applied and that none depends on.
pub can_revert_patch_lem :
    (id : List ℕ) (ps : List AppliedPatch)
    → can_revert_patch id ps ≡ enone
    → (is_applied id ps ≡ true) × (has_dependent id ps ≡ false)
unfolding can_revert_patch
can_revert_patch_lem id ps h = elim (Option-cases (get_applied_patch id ps)) [
  | inl e ↦ ground arith
  | inr (p, e) ↦ (get_applied_patch-found id ps p e, ground arith)
]

abbrev pub Unchecked : List Dependency → Type 0
Unchecked [] = Unit
Unchecked (d ∷ ds) = (d.patch_id_check ≡ false) × Unchecked ds

-- check_patch_dependencies returns 0 only if they are all applied, where none was marked before.
pub check_patch_dependencies-Fulfilled :
    (ps : List AppliedPatch) (ds : List Dependency)
    → Unchecked ds
    → all_checked (map (check_dependency ps) ds) ≡ true
    → Fulfilled (map (check_dependency ps) ds) ps
unfolding check_dependency all_checked
check_patch_dependencies-Fulfilled ps [] u h = tt
check_patch_dependencies-Fulfilled ps (d ∷ ds) u h =
    elim (Option-cases (get_applied_patch d.dep_id ps)) [
      | inl e ↦ ground arith
      | inr (p, e) ↦
          rw (check_dependency, e)
            (
              get_applied_patch-found d.dep_id ps p e,
              check_patch_dependencies-Fulfilled ps ds u.1
                  (and_true (check_dependency ps d).patch_id_check
                    (all_checked (map (check_dependency ps) ds)) h).1,
            )
    ]
