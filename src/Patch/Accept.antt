-- ===== src/Patch/Accept.antt =====
-- load_patch of lib/ulp.c keeps the chain of applied patches grounded.
use libpulp.Base.{subst, ℕ, none, some, ◌≡◌, sym, ◌∙◌, ◌⊎◌, inl, inr, Option-cases, arith}
use libpulp.Patch.Defs.{World, State, Metadata}
use libpulp.Patch.Detours.{allocate}
use libpulp.Patch.Load.{
  load_apply, load_revert, load_typed, load_patch, load_metadata, parse_metadata,
}
use libpulp.Patch.Grounded.{Grounded, Unchecked}
use libpulp.Errors.Codes.{enone}
use libpulp.Patch.Ready.{Ready, load_apply-Grounded, load_revert-Grounded, parse_metadata_lem}

one_not_two : (n : ℕ) → n ≡ 1 → ¬ (n ≡ 2)
one_not_two n h k = omega arith

load_metadata-patches :
    (w : World) (parsed : ℕ × Metadata) (st : State)
    → (load_metadata w parsed st).1.patches ≡ st.patches
unfolding load_metadata allocate
load_metadata-patches w parsed st = ground arith

load_metadata_parts :
    (w : World) (parsed : ℕ × Metadata) (st : State) (ulp : Metadata)
    → st.metadata_ref ≡ none
    → (load_metadata w parsed st).0.1 ≡ some ulp
    → ((parse_metadata w parsed (allocate w st).1).0 ≡ enone)
      × ((parse_metadata w parsed (allocate w st).1).1 ≡ ulp)
unfolding load_metadata
load_metadata_parts w parsed st ulp n h = ground arith

load_metadata_lem :
    (w : World) (parsed : ℕ × Metadata) (st : State) (ulp : Metadata)
    → st.metadata_ref ≡ none
    → Unchecked parsed.1.deps
    → (load_metadata w parsed st).0.1 ≡ some ulp
    → (ulp.type ≡ 2) ⊎ Ready ulp st.patches
unfolding allocate
load_metadata_lem w parsed st ulp n u h =
    let parts = load_metadata_parts w parsed st ulp n h in
    subst (λ m. (m.type ≡ 2) ⊎ Ready m st.patches) parts.1
      (parse_metadata_lem w parsed (allocate w st).1 parts.0 u)

load_typed_cases :
    (w : World) (ulp : Metadata) (st : State)
    → ((ulp.type ≡ 1) × ((load_typed w ulp st).1.patches ≡ (load_apply w ulp st).1.patches))
      ⊎ (((load_typed w ulp st).1.patches ≡ (load_revert w ulp st).1.patches)
          ⊎ ((load_typed w ulp st).1.patches ≡ st.patches))
unfolding load_typed
load_typed_cases w ulp st = ground arith

load_typed-Grounded :
    (w : World) (ulp : Metadata) (st : State)
    → (ulp.type ≡ 2) ⊎ Ready ulp st.patches
    → Grounded st.patches
    → Grounded (load_typed w ulp st).1.patches
load_typed-Grounded w ulp st r g = elim (load_typed_cases w ulp st) [
  | inl (one, e) ↦ elim r [
    | inl two ↦ absurd (one_not_two ulp.type one two)
    | inr ready ↦ subst Grounded (sym e) (load_apply-Grounded w ulp st ready g)
  ]
  | inr (inl e) ↦ subst Grounded (sym e) (load_revert-Grounded w ulp st g)
  | inr (inr e) ↦ subst Grounded (sym e) g
]

load_patch_cases :
    (w : World) (parsed : ℕ × Metadata) (st : State)
    → ((load_patch w parsed st).1.patches ≡ (load_metadata w parsed st).1.patches)
      ⊎ ((ulp : Metadata) × ((load_metadata w parsed st).0.1 ≡ some ulp)
          × ((load_patch w parsed st).1.patches
              ≡ (load_typed w ulp (load_metadata w parsed st).1).1.patches))
unfolding load_patch
load_patch_cases w parsed st = elim (Option-cases (load_metadata w parsed st).0.1) [
  | inl e ↦ inl (ground arith)
  | inr (ulp, e) ↦ inr (ulp, e, ground arith)
]

-- If no id stands twice in the chain of applied patches and each patch's dependencies are in the
-- chain behind it, then the same holds after load_patch, whatever it returns; where the metadata
-- reference is NULL and no dependency of the parsed metadata is marked as checked.
pub load_patch-Grounded :
    (w : World) (parsed : ℕ × Metadata) (st : State)
    → st.metadata_ref ≡ none
    → Unchecked parsed.1.deps
    → Grounded st.patches
    → Grounded (load_patch w parsed st).1.patches
load_patch-Grounded w parsed st n u g =
    let before = load_metadata-patches w parsed st in
    elim (load_patch_cases w parsed st) [
      | inl e ↦ subst Grounded (sym (e ∙ before)) g
      | inr (ulp, loaded, e) ↦ subst Grounded (sym e) (
          load_typed-Grounded w ulp (load_metadata w parsed st).1
            (subst (λ ps. (ulp.type ≡ 2) ⊎ Ready ulp ps) (sym before)
              (load_metadata_lem w parsed st ulp n u loaded))
            (subst Grounded (sym before) g))
    ]
