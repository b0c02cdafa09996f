-- ===== src/Patch/Taken.antt =====
-- After ulp_apply_all_units each function of the patch goes to a detour of the patch.
use libpulp.Base.{
  ℕ, List, [], ◌∷◌, some, true, false, ◌==◌, ◌≡◌, refl, sym, ap, ◌∙◌, inl, inr, Bool-cases,
  Option-cases, arith, subst, ◌+◌, ◌%◌, ◌^◌,
}
use libpulp.Patch.Defs.{Detour, DetourRoot, State, World, UlpUnit, Metadata}
use libpulp.Patch.Detours.{
  find_active, get_detour_root_by_address, update_root, push_new_root, push_new_detour, allocate,
}
use libpulp.Patch.Apply.{
  ensure_root, apply_function, apply_units, divert, ulp_apply_all_units, fix_references,
}
use libpulp.Patch.Active.{active, active-cons, fresh_detour, ==→eq, ensure_root_cases, fresh_root}
use libpulp.Errors.Codes.{enone}
use libpulp.Strings.{get_basename}

-- The function goes to a detour of the patch.
abbrev pub Taken : List ℕ → ℕ → List DetourRoot → Type 0
Taken id a rs = (d : Detour) × (active a rs ≡ some d) × (d.patch_id ≡ id)

abbrev put_detour : Detour → DetourRoot → DetourRoot
put_detour d r = record r { detours = d ∷ r.detours }

-- With an active detour on top, the function goes there, and no other function elsewhere.
update_root-there :
    (addr : ℕ) (d : Detour) (rs : List DetourRoot) (r : DetourRoot)
    → d.active ≡ true
    → get_detour_root_by_address addr rs ≡ some r
    → active addr (update_root addr (put_detour d) rs) ≡ some d
unfolding update_root get_detour_root_by_address find_active
update_root-there addr d [] r h f = ground arith
update_root-there addr d (q ∷ rs) r h f = ground (
  arith,
  update_root-there addr d rs r h,
  active-cons addr (put_detour d q) rs,
  active-cons addr q (update_root addr (put_detour d) rs),
)

update_root-elsewhere :
    (addr a : ℕ) (d : Detour) (rs : List DetourRoot)
    → (addr == a) ≡ false
    → active a (update_root addr (put_detour d) rs) ≡ active a rs
unfolding update_root
update_root-elsewhere addr a d [] h = refl
update_root-elsewhere addr a d (q ∷ rs) h = ground (
  arith,
  update_root-elsewhere addr a d rs h,
  active-cons a (put_detour d q) rs,
  active-cons a q rs,
  active-cons a q (update_root addr (put_detour d) rs),
)

-- ensure_root leaves a root for the function, if it does not fail.
ensure_root-found :
    (w : World) (old : ℕ) (st : State)
    → (ensure_root w old st).0 ≡ true
    → (r : DetourRoot) × (get_detour_root_by_address old (ensure_root w old st).1.roots ≡ some r)
unfolding ensure_root push_new_root allocate get_detour_root_by_address
ensure_root-found w old st h = elim (Option-cases (get_detour_root_by_address old st.roots)) [
  | inl e ↦
      (record { index = st.root_index_counter; patched_addr = old; detours = [] }, ground arith)
  | inr (r, e) ↦ (r, ground arith)
]

ensure_root-elsewhere :
    (w : World) (old a : ℕ) (st : State)
    → (old == a) ≡ false
    → active a (ensure_root w old st).1.roots ≡ active a st.roots
ensure_root-elsewhere w old a st h = elim (ensure_root_cases w old st) [
  | inl e ↦ ap (active a) e
  | inr (new, e) ↦ ap (active a) e ∙ ground (arith, active-cons a (fresh_root old st) st.roots)
]

-- Where apply_function returns 0, what it did to the roots.
apply_function_lem :
    (w : World) (id : List ℕ) (old new : ℕ) (st : State)
    → (apply_function w id old new st).0 ≡ enone
    → let st1 = (ensure_root w old st).1 in
      ((ensure_root w old st).0 ≡ true)
      × ((apply_function w id old new st).1.roots
          ≡ update_root old (put_detour (fresh_detour st1.global_universe id new)) st1.roots)
unfolding apply_function divert push_new_detour allocate
apply_function_lem w id old new st h = ground arith

apply_function-Taken :
    (w : World) (id : List ℕ) (old new : ℕ) (st : State)
    → (apply_function w id old new st).0 ≡ enone
    → active old (apply_function w id old new st).1.roots
      ≡ some (fresh_detour (ensure_root w old st).1.global_universe id new)
apply_function-Taken w id old new st h =
    let (ok, e) = apply_function_lem w id old new st h in
    let (r, found) = ensure_root-found w old st ok in
    let st1 = (ensure_root w old st).1 in
    ap (active old) e
    ∙ update_root-there old (fresh_detour st1.global_universe id new) st1.roots r refl found

-- Another function of the patch keeps its detour.
apply_function-keeps :
    (w : World) (id : List ℕ) (old new a : ℕ) (st : State)
    → (apply_function w id old new st).0 ≡ enone
    → Taken id a st.roots
    → Taken id a (apply_function w id old new st).1.roots
apply_function-keeps w id old new a st h (d, e, i) =
    let (ok, rs) = apply_function_lem w id old new st h in
    let st1 = (ensure_root w old st).1 in
    let mine = fresh_detour st1.global_universe id new in
    elim (Bool-cases (old == a)) [
      | inl same_function ↦
          subst (λ k. Taken id k (apply_function w id old new st).1.roots)
            (==→eq old a same_function) (mine, apply_function-Taken w id old new st h, refl)
      | inr other ↦ (
        d,
        ap (active a) rs
            ∙ update_root-elsewhere old a mine st1.roots other
            ∙ ensure_root-elsewhere w old a st other
            ∙ e,
        i,
      )
    ]

-- The functions that the units name.
abbrev pub AllTaken : World → List ℕ → List ℕ → List UlpUnit → List DetourRoot → Type 0
AllTaken w id lib [] rs = Unit
AllTaken w id lib (u ∷ us) rs =
    Taken id (w.loaded_symbol lib u.old_fname u.old_faddr) rs × AllTaken w id lib us rs

pub apply_units_lem :
    (w : World) (id lib : List ℕ) (handle : ℕ) (u : UlpUnit) (us : List UlpUnit) (st : State)
    → (apply_units w id lib handle (u ∷ us) st).0 ≡ enone
    → let fun =
        apply_function w id
          (w.loaded_symbol lib u.old_fname u.old_faddr)
          (w.so_symbol u.new_fname handle)
          st in
      (fun.0 ≡ enone)
      × ((apply_units w id lib handle us fun.1).0 ≡ enone)
      × ((apply_units w id lib handle (u ∷ us) st).1 ≡ (apply_units w id lib handle us fun.1).1)
unfolding apply_units
apply_units_lem w id lib handle u us st h = ground arith

apply_units-keeps :
    (w : World) (id lib : List ℕ) (handle a : ℕ) (us : List UlpUnit) (st : State)
    → (apply_units w id lib handle us st).0 ≡ enone
    → Taken id a st.roots
    → Taken id a (apply_units w id lib handle us st).1.roots
unfolding apply_units
apply_units-keeps w id lib handle a [] st h t = t
apply_units-keeps w id lib handle a (u ∷ us) st h t =
    let (ok, rest, e) = apply_units_lem w id lib handle u us st h in
    let old = w.loaded_symbol lib u.old_fname u.old_faddr in
    let new = w.so_symbol u.new_fname handle in
    subst (λ s. Taken id a s.roots) (sym e)
      (apply_units-keeps w id lib handle a us (apply_function w id old new st).1 rest
        (apply_function-keeps w id old new a st ok t))

pub apply_units-AllTaken :
    (w : World) (id lib : List ℕ) (handle : ℕ) (us : List UlpUnit) (st : State)
    → (apply_units w id lib handle us st).0 ≡ enone
    → AllTaken w id lib us (apply_units w id lib handle us st).1.roots
unfolding apply_units
apply_units-AllTaken w id lib handle [] st h = tt
apply_units-AllTaken w id lib handle (u ∷ us) st h =
    let (ok, rest, e) = apply_units_lem w id lib handle u us st h in
    let old = w.loaded_symbol lib u.old_fname u.old_faddr in
    let new = w.so_symbol u.new_fname handle in
    let st1 = (apply_function w id old new st).1 in
    let mine = fresh_detour (ensure_root w old st).1.global_universe id new in
    subst (λ s. AllTaken w id lib (u ∷ us) s.roots) (sym e)
      (
        apply_units-keeps w id lib handle old us st1 rest
            (mine, apply_function-Taken w id old new st ok, refl),
        apply_units-AllTaken w id lib handle us st1 rest,
      )

pub ulp_apply_all_units_lem :
    (w : World) (ulp : Metadata) (st : State)
    → (ulp_apply_all_units w ulp st).0 ≡ enone
    → let begun = record st { global_universe = (st.global_universe + 1) % 2 ^ 64 } in
      let run =
        apply_units w ulp.patch_id
          (get_basename ulp.objs.name)
          ulp.so_handler
          ulp.objs.units
          begun in
      (run.0 ≡ enone) × ((ulp_apply_all_units w ulp st).1.roots ≡ run.1.roots)
unfolding ulp_apply_all_units fix_references
ulp_apply_all_units_lem w ulp st h = ground arith

-- Where ulp_apply_all_units returns 0, each function that a unit of the patch names goes to a
-- detour of that patch.
pub ulp_apply_all_units-AllTaken :
    (w : World) (ulp : Metadata) (st : State)
    → (ulp_apply_all_units w ulp st).0 ≡ enone
    → AllTaken w ulp.patch_id
        (get_basename ulp.objs.name)
        ulp.objs.units
        (ulp_apply_all_units w ulp st).1.roots
ulp_apply_all_units-AllTaken w ulp st h =
    let begun = record st { global_universe = (st.global_universe + 1) % 2 ^ 64 } in
    let (ok, e) = ulp_apply_all_units_lem w ulp st h in
    subst (AllTaken w ulp.patch_id (get_basename ulp.objs.name) ulp.objs.units) (sym e) (
      apply_units-AllTaken w ulp.patch_id (get_basename ulp.objs.name) ulp.so_handler ulp.objs.units
        begun ok)
