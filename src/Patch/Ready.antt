-- ===== src/Patch/Ready.antt =====
-- A patch that passed check_patch_sanity of lib/ulp.c may enter the chain of applied patches.
use libpulp.Base.{
  subst, zero-cases, ℕ, zero, suc, List, [], ◌∷◌, none, some, Bool, true, false, ◌≡◌, sym, ap, ◌∙◌,
  ◌⊎◌, inl, inr, Bool-cases, Option-cases, map, arith,
}
use libpulp.Patch.Defs.{AppliedPatch, Dependency, World, State, Metadata, Note}
use libpulp.Patch.Chain.{
  get_applied_patch, check_patch_sanity, check_patch_dependencies, all_checked, check_dependency,
  can_revert_patch,
}
use libpulp.Patch.Detours.{allocate}
use libpulp.Patch.Apply.{ulp_state_update, ulp_apply_all_units, build_patch, copy_deps}
use libpulp.Patch.Load.{load_apply, load_revert, parse_metadata, ulp_revert_patch, set_error_state}
use libpulp.Patch.Grounded.{
  is_applied, Fulfilled, Grounded, Unchecked, check_patch_dependencies-Fulfilled,
  get_applied_patch-missing, can_revert_patch_lem, state_remove-Grounded,
}
use libpulp.Patch.Keep.{ulp_apply_all_units-patches}
use libpulp.Errors.Codes.{enone}

-- A patch that may enter the chain.
abbrev pub Ready : Metadata → List AppliedPatch → Type 0
Ready ulp ps = (is_applied ulp.patch_id ps ≡ false) × Fulfilled ulp.deps ps

copy_deps-Fulfilled :
    (calloc : ℕ → Bool) (n : ℕ) (ds acc out : List Dependency) (ps : List AppliedPatch)
    → (copy_deps calloc n ds acc).0 ≡ some out
    → Fulfilled ds ps
    → Fulfilled acc ps
    → Fulfilled out ps
unfolding copy_deps
copy_deps-Fulfilled calloc n [] acc out ps h f g =
    let one : acc ≡ out = ground arith in subst (λ x. Fulfilled x ps) one g
copy_deps-Fulfilled calloc n (d ∷ ds) acc out ps h f g =
    let go : (calloc n ≡ true) → Fulfilled out ps =
      λ e. copy_deps-Fulfilled calloc (suc n) ds (d ∷ acc) out ps (ground arith) f.1 (f.0, g) in
    elim (Bool-cases (calloc n)) [ inl e ↦ go e | inr e ↦ ground arith ]

build_patch_parts :
    (w : World) (ulp : Metadata) (n : ℕ) (p : AppliedPatch)
    → (build_patch w ulp n).0 ≡ some p
    → (p.patch_id ≡ ulp.patch_id) × ((copy_deps w.calloc (suc (suc n)) ulp.deps []).0 ≡ some p.deps)
unfolding build_patch
build_patch_parts w ulp n p h = ground arith

build_patch_lem :
    (w : World) (ulp : Metadata) (n : ℕ) (ps : List AppliedPatch) (p : AppliedPatch)
    → (build_patch w ulp n).0 ≡ some p
    → Ready ulp ps
    → (is_applied p.patch_id ps ≡ false) × Fulfilled p.deps ps
build_patch_lem w ulp n ps p h r =
    let parts = build_patch_parts w ulp n p h in
    (
      ap (λ id. is_applied id ps) parts.0 ∙ r.0,
      copy_deps-Fulfilled w.calloc (suc (suc n)) ulp.deps [] p.deps ps parts.1 r.1 tt,
    )

ulp_state_update-Grounded :
    (w : World) (ulp : Metadata) (st : State)
    → Ready ulp st.patches
    → Grounded st.patches
    → Grounded (ulp_state_update w ulp st).1.patches
unfolding ulp_state_update allocate
ulp_state_update-Grounded w ulp st r g = elim (Bool-cases (w.calloc st.allocations)) [
  | inr e ↦ rw (e) g
  | inl e ↦ elim (Option-cases (build_patch w ulp (suc st.allocations)).0) [
    | inl none_built ↦ rw (e, none_built) g
    | inr (p, built) ↦
        let fit = build_patch_lem w ulp (suc st.allocations) st.patches p built r in
        rw (e, built) (fit.0, fit.1, g)
  ]
]

load_apply_cases :
    (w : World) (ulp : Metadata) (st : State)
    → ((load_apply w ulp st).1.patches ≡ (ulp_state_update w ulp st).1.patches)
      ⊎ ((load_apply w ulp st).1.patches
          ≡ (ulp_apply_all_units w ulp (ulp_state_update w ulp st).1).1.patches)
unfolding load_apply set_error_state
load_apply_cases w ulp st = ground arith

pub load_apply-Grounded :
    (w : World) (ulp : Metadata) (st : State)
    → Ready ulp st.patches
    → Grounded st.patches
    → Grounded (load_apply w ulp st).1.patches
load_apply-Grounded w ulp st r g =
    let entered = ulp_state_update-Grounded w ulp st r g in
    let kept = ulp_apply_all_units-patches w ulp (ulp_state_update w ulp st).1 in
    elim (load_apply_cases w ulp st) [
      | inl e ↦ subst Grounded (sym e) entered
      | inr e ↦ subst Grounded (sym (e ∙ kept)) entered
    ]

pub load_revert-Grounded :
    (w : World) (ulp : Metadata) (st : State)
    → Grounded st.patches
    → Grounded (load_revert w ulp st).1.patches
unfolding load_revert ulp_revert_patch
load_revert-Grounded w ulp st g = elim (zero-cases (can_revert_patch ulp.patch_id st.patches)) [
  | inl e ↦
      rw (load_revert, e)
        (state_remove-Grounded ulp.patch_id st.patches
          (can_revert_patch_lem ulp.patch_id st.patches e).1 g)
  | inr (k, e) ↦ rw (load_revert, e) g
]

-- What check_patch_sanity has tested when it returns 0.
check_patch_sanity_parts :
    (notes : List (List (List Note))) (ps : List AppliedPatch) (ulp : Metadata)
    → (check_patch_sanity notes ps ulp).0 ≡ enone
    → (get_applied_patch ulp.patch_id ps ≡ none)
      × (all_checked (map (check_dependency ps) ulp.deps) ≡ true)
      × ((check_patch_sanity notes ps ulp).1.patch_id ≡ ulp.patch_id)
      × ((check_patch_sanity notes ps ulp).1.deps ≡ map (check_dependency ps) ulp.deps)
unfolding check_patch_sanity check_patch_dependencies
check_patch_sanity_parts notes ps ulp h = ground arith

pub check_patch_sanity-Ready :
    (notes : List (List (List Note))) (ps : List AppliedPatch) (ulp : Metadata)
    → (check_patch_sanity notes ps ulp).0 ≡ enone
    → Unchecked ulp.deps
    → Ready (check_patch_sanity notes ps ulp).1 ps
check_patch_sanity-Ready notes ps ulp h u =
    let parts = check_patch_sanity_parts notes ps ulp h in
    (
      ap (λ id. is_applied id ps) parts.2 ∙ get_applied_patch-missing ulp.patch_id ps parts.0,
      subst (λ ds. Fulfilled ds ps) (sym parts.3)
          (check_patch_dependencies-Fulfilled ps ulp.deps u parts.1),
    )

Ready-same :
    (a b : Metadata) (ps : List AppliedPatch)
    → a.patch_id ≡ b.patch_id
    → a.deps ≡ b.deps
    → Ready b ps
    → Ready a ps
Ready-same a b ps i d r =
    (ap (λ id. is_applied id ps) i ∙ r.0, subst (λ ds. Fulfilled ds ps) (sym d) r.1)

parse_metadata_parts :
    (w : World) (ulp : Metadata) (st : State)
    → (parse_metadata w (zero, ulp) st).0 ≡ enone
    → ((parse_metadata w (zero, ulp) st).1.type ≡ 2)
      ⊎ (((check_patch_sanity w.libraries st.patches ulp).0 ≡ enone)
          × ((parse_metadata w (zero, ulp) st).1.patch_id
              ≡ (check_patch_sanity w.libraries st.patches ulp).1.patch_id)
          × ((parse_metadata w (zero, ulp) st).1.deps
              ≡ (check_patch_sanity w.libraries st.patches ulp).1.deps))
unfolding parse_metadata
parse_metadata_parts w ulp st h = ground arith

parse_metadata_failed :
    (w : World) (e : ℕ) (ulp : Metadata) (st : State)
    → ¬ ((parse_metadata w (suc e, ulp) st).0 ≡ enone)
unfolding parse_metadata
parse_metadata_failed w e ulp st h = ground arith

-- A patch that was loaded reverts another, or may enter the chain.
pub parse_metadata_lem :
    (w : World) (parsed : ℕ × Metadata) (st : State)
    → (parse_metadata w parsed st).0 ≡ enone
    → Unchecked parsed.1.deps
    → ((parse_metadata w parsed st).1.type ≡ 2) ⊎ Ready (parse_metadata w parsed st).1 st.patches
parse_metadata_lem w (suc e, ulp) st h u = absurd (parse_metadata_failed w e ulp st h)
parse_metadata_lem w (zero, ulp) st h u = elim (parse_metadata_parts w ulp st h) [
  | inl two ↦ inl two
  | inr (ok, id, deps) ↦ inr (
      Ready-same (parse_metadata w (zero, ulp) st).1
        (check_patch_sanity w.libraries st.patches ulp).1 st.patches id deps
        (check_patch_sanity-Ready w.libraries st.patches ulp ok u))
]
