-- ===== src/Patch/Keep.antt =====
-- How load_patch of lib/ulp.c changes the chain of applied patches.
use libpulp.Base.{ℕ, List, [], ◌∷◌, ◌≡◌, refl, arith}
use libpulp.Patch.Defs.{World, State, Metadata, UlpUnit}
use libpulp.Patch.Detours.{allocate, push_new_root, push_new_detour}
use libpulp.Patch.Apply.{
  ulp_apply_all_units, apply_units, apply_function, ensure_root, divert, fix_references,
}

-- Nothing of ulp_apply_all_units touches the chain.
ensure_root-patches :
    (w : World) (addr : ℕ) (st : State) → (ensure_root w addr st).1.patches ≡ st.patches
unfolding ensure_root push_new_root allocate
ensure_root-patches w addr st = ground arith

push_new_detour-patches :
    (w : World) (u : ℕ) (id : List ℕ) (a f : ℕ) (st : State)
    → (push_new_detour w u id a f st).1.patches ≡ st.patches
unfolding push_new_detour allocate
push_new_detour-patches w u id a f st = ground arith

apply_function-patches :
    (w : World) (id : List ℕ) (old new : ℕ) (st : State)
    → (apply_function w id old new st).1.patches ≡ st.patches
unfolding apply_function divert
apply_function-patches w id old new st = grind (arith, ensure_root-patches, push_new_detour-patches)

apply_units-patches :
    (w : World) (id lib : List ℕ) (handle : ℕ) (us : List UlpUnit) (st : State)
    → (apply_units w id lib handle us st).1.patches ≡ st.patches
unfolding apply_units
apply_units-patches w id lib handle [] st = refl
apply_units-patches w id lib handle (u ∷ us) st =
    grind (arith, apply_function-patches, apply_units-patches w id lib handle us)

fix_references-patches :
    (w : World) (ulp : Metadata) (st : State) → (fix_references w ulp st).1.patches ≡ st.patches
unfolding fix_references
fix_references-patches w ulp st = ground arith

pub ulp_apply_all_units-patches :
    (w : World) (ulp : Metadata) (st : State)
    → (ulp_apply_all_units w ulp st).1.patches ≡ st.patches
unfolding ulp_apply_all_units
ulp_apply_all_units-patches w ulp st = grind (arith, apply_units-patches, fix_references-patches)
