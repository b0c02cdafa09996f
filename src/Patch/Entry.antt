-- ===== src/Patch/Entry.antt =====
-- lib/ulp.c: what blocks live patching, and what a revert takes away.
use libpulp.Base.{
  ℕ, zero, suc, List, [], ◌∷◌, none, true, false, ◌≡◌, ◌≢◌, refl, inl, inr, Bool-cases, same, arith,
  subst, same→eq, zero-cases,
}
use libpulp.Patch.Defs.{State, World, AppliedPatch}
use libpulp.Patch.Chain.{state_remove, can_revert_patch}
use libpulp.Patch.Grounded.{is_applied, Grounded, state_remove-other}
use libpulp.Patch.Load.{
  ulp_enable_or_disable_patching, set_error_state, revert_loop, same_path, ulp_revert_patch,
}
use libpulp.Errors.State.{enable_or_disable_patching}
use libpulp.Errors.Codes.{enone, eusrblocked}

-- In a process that is in no error state, ulp_enable_or_disable_patching blocks live patching by
-- the user's request, and a second call brings back exactly the state before.
pub ulp_enable_or_disable_patching_twice :
    (st : State)
    → st.insnq.error_state ≡ enone
    → ((ulp_enable_or_disable_patching st).1.insnq.error_state ≡ eusrblocked)
      × ((ulp_enable_or_disable_patching (ulp_enable_or_disable_patching st).1).1 ≡ st)
unfolding ulp_enable_or_disable_patching enable_or_disable_patching set_error_state
ulp_enable_or_disable_patching_twice st h = (ground arith, ground arith)

state_remove-gone :
    (id : List ℕ) (ps : List AppliedPatch)
    → Grounded ps
    → is_applied id (state_remove id ps).1 ≡ false
unfolding state_remove
state_remove-gone id [] g = refl
state_remove-gone id (p ∷ ps) g = elim (Bool-cases (same p.patch_id id)) [
  | inl e ↦
      rw (state_remove, e) (subst (λ i. is_applied i ps ≡ false) (same→eq p.patch_id id e) g.0)
  | inr e ↦ rw (state_remove, e) (rw (e) (state_remove-gone id ps g.2))
]

state_remove-found :
    (id : List ℕ) (ps : List AppliedPatch) → (state_remove id ps).0 ≡ is_applied id ps
unfolding state_remove
state_remove-found id [] = refl
state_remove-found id (p ∷ ps) = ground (arith, state_remove-found id ps)

-- On an applied patch ulp_revert_patch returns 0 and takes the patch out of the chain, and any
-- other patch is in the chain exactly if it was before; where the chain is grounded, so that no id
-- stands twice in it.
pub ulp_revert_patch-patches :
    (w : World) (id a : List ℕ) (st : State)
    → Grounded st.patches
    → is_applied id st.patches ≡ true
    → same id a ≡ false
    → ((ulp_revert_patch w id st).0 ≡ enone)
      × (is_applied id (ulp_revert_patch w id st).1.patches ≡ false)
      × (is_applied a (ulp_revert_patch w id st).1.patches ≡ is_applied a st.patches)
unfolding ulp_revert_patch
ulp_revert_patch-patches w id a st g h other = (
  rw (state_remove-found id st.patches, h) refl,
  state_remove-gone id st.patches g,
  state_remove-other id a st.patches other,
)

-- Once revert_all_patches_from_lib comes to a patch of the library that ulp_can_revert_patch
-- refuses, its loop does not end: no fuel is enough.
pub revert_loop-stuck :
    (w : World) (fuel : ℕ) (lib : List ℕ) (p : AppliedPatch) (ps : List AppliedPatch) (ret : ℕ)
    (st : State)
    → same_path lib p.lib_name ≡ true
    → can_revert_patch p.patch_id st.patches ≢ enone
    → revert_loop w fuel lib (p ∷ ps) ret st ≡ none
unfolding revert_loop
revert_loop-stuck w zero lib p ps ret st h k = refl
revert_loop-stuck w (suc fuel) lib p ps ret st h k =
    elim (zero-cases (can_revert_patch p.patch_id st.patches)) [
      | inl e ↦ absurd (k e)
      | inr (c, e) ↦ rw (revert_loop, h, e) (revert_loop-stuck w fuel lib p ps (suc c) st h k)
    ]
