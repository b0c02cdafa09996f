-- ===== src/Patch/Active.antt =====
-- The detour that each function takes, through the applies and reverts of lib/ulp.c.
use libpulp.Base.{
  ℕ, List, [], ◌∷◌, Option, none, some, true, ◌==◌, ◌≡◌, refl, ap, ◌∙◌, ◌⊎◌, inl, inr, Bool-cases,
  map, same_refl, arith, if◌then◌else◌,
}
use libpulp.Patch.Defs.{Detour, DetourRoot, State, World, UlpUnit}
use libpulp.Patch.Detours.{
  find_active, get_detour_root_by_address, update_root, push_new_root, push_new_detour, allocate,
}
use libpulp.Patch.Apply.{ensure_root, apply_function, apply_units, divert}
use libpulp.Patch.Revert.{deactivate, deactivate_root}

abbrev pub detours_of : Option DetourRoot → List Detour
detours_of none = []
detours_of (some r) = r.detours

-- The detour that the function at an address takes, if any.
unfoldable pub active : ℕ → List DetourRoot → Option Detour
active a rs = find_active (detours_of (get_detour_root_by_address a rs))

abbrev pub without : List ℕ → List DetourRoot → List DetourRoot
without id rs = map (deactivate_root id) rs

pub active-cons :
    (a : ℕ) (r : DetourRoot) (rs : List DetourRoot)
    → active a (r ∷ rs) ≡ (if r.patched_addr == a then find_active r.detours else active a rs)
unfolding active get_detour_root_by_address
active-cons a r rs = ground arith

missing-without :
    (id : List ℕ) (a : ℕ) (rs : List DetourRoot)
    → get_detour_root_by_address a rs ≡ none
    → active a (without id rs) ≡ none
unfolding active get_detour_root_by_address find_active
missing-without id a [] h = refl
missing-without id a (r ∷ rs) h =
    ground (arith, missing-without id a rs, active-cons a (deactivate_root id r) (without id rs))

pub ==→eq : (a b : ℕ) → (a == b) ≡ true → a ≡ b
==→eq a b h = ground arith

off :
    (id : List ℕ) (d : Detour) (ds : List Detour)
    → d.patch_id ≡ id
    → find_active (map (deactivate id) (d ∷ ds)) ≡ find_active (map (deactivate id) ds)
unfolding find_active
off id d ds i = ground (arith, same_refl id)

-- A new root has no detour, so nothing changes.
active-without_new :
    (id : List ℕ) (a : ℕ) (r : DetourRoot) (rs : List DetourRoot)
    → r.detours ≡ []
    → get_detour_root_by_address r.patched_addr rs ≡ none
    → active a (without id (r ∷ rs)) ≡ active a (without id rs)
unfolding find_active
active-without_new id a r rs empty new = elim (Bool-cases (r.patched_addr == a)) [
  | inl e ↦ ground (
    arith,
    active-cons a (deactivate_root id r) (without id rs),
    missing-without id a rs,
    ap (λ ds. find_active (map (deactivate id) ds)) empty,
    ap (λ k. get_detour_root_by_address k rs) (==→eq r.patched_addr a e),
  )
  | inr e ↦ ground (arith, active-cons a (deactivate_root id r) (without id rs))
]

-- A detour of the patch on top is not there without the patch.
active-without_update :
    (id : List ℕ) (a addr : ℕ) (d : Detour) (rs : List DetourRoot)
    → d.patch_id ≡ id
    → active a (without id (update_root addr (λ r. record r { detours = d ∷ r.detours }) rs))
      ≡ active a (without id rs)
unfolding update_root
active-without_update id a addr d [] i = refl
active-without_update id a addr d (r ∷ rs) i = ground (
  arith,
  active-cons a (deactivate_root id r) (without id rs),
  active-cons a (deactivate_root id (record r { detours = d ∷ r.detours })) (without id rs),
  active-cons a (deactivate_root id r)
      (without id (update_root addr (λ r. record r { detours = d ∷ r.detours }) rs)),
  active-without_update id a addr d rs i,
  off id d r.detours i,
)

-- The root that push_new_root makes.
abbrev pub fresh_root : ℕ → State → DetourRoot
fresh_root addr st = record { index = st.root_index_counter; patched_addr = addr; detours = [] }

pub ensure_root_cases :
    (w : World) (addr : ℕ) (st : State)
    → ((ensure_root w addr st).1.roots ≡ st.roots)
      ⊎ ((get_detour_root_by_address addr st.roots ≡ none)
          × ((ensure_root w addr st).1.roots ≡ fresh_root addr st ∷ st.roots))
unfolding ensure_root push_new_root allocate
ensure_root_cases w addr st = ground arith

ensure_root-active :
    (w : World) (id : List ℕ) (addr a : ℕ) (st : State)
    → active a (without id (ensure_root w addr st).1.roots) ≡ active a (without id st.roots)
ensure_root-active w id addr a st = elim (ensure_root_cases w addr st) [
  | inl e ↦ ap (λ rs. active a (without id rs)) e
  | inr (new, e) ↦
      ap (λ rs. active a (without id rs)) e
      ∙ active-without_new id a (fresh_root addr st) st.roots refl new
]

abbrev pub fresh_detour : ℕ → List ℕ → ℕ → Detour
fresh_detour universe id new = record {
  patch_id = id;
  universe = universe;
  target_addr = new;
  active = true;
}

push_new_detour_cases :
    (w : World) (u : ℕ) (id : List ℕ) (addr new : ℕ) (st : State)
    → ((push_new_detour w u id addr new st).1.roots ≡ st.roots)
      ⊎ ((push_new_detour w u id addr new st).1.roots
          ≡ update_root addr
              (λ r. record r { detours = fresh_detour u id new ∷ r.detours })
              st.roots)
unfolding push_new_detour allocate
push_new_detour_cases w u id addr new st = ground arith

push_new_detour-active :
    (w : World) (u : ℕ) (id : List ℕ) (addr new a : ℕ) (st : State)
    → active a (without id (push_new_detour w u id addr new st).1.roots)
      ≡ active a (without id st.roots)
push_new_detour-active w u id addr new a st = elim (push_new_detour_cases w u id addr new st) [
  | inl e ↦ ap (λ rs. active a (without id rs)) e
  | inr e ↦
      ap (λ rs. active a (without id rs)) e
      ∙ active-without_update id a addr (fresh_detour u id new) st.roots refl
]

apply_function_cases :
    (w : World) (id : List ℕ) (old new : ℕ) (st : State)
    → ((apply_function w id old new st).1.roots ≡ (ensure_root w old st).1.roots)
      ⊎ ((apply_function w id old new st).1.roots
          ≡ (push_new_detour w
              (ensure_root w old st).1.global_universe
              id
              old
              new
              (ensure_root w old st).1).1.roots)
unfolding apply_function divert
apply_function_cases w id old new st = ground arith

apply_function-active :
    (w : World) (id : List ℕ) (old new a : ℕ) (st : State)
    → active a (without id (apply_function w id old new st).1.roots)
      ≡ active a (without id st.roots)
apply_function-active w id old new a st =
    let rooted = ensure_root-active w id old a st in
    elim (apply_function_cases w id old new st) [
      | inl e ↦ ap (λ rs. active a (without id rs)) e ∙ rooted
      | inr e ↦
          ap (λ rs. active a (without id rs)) e
          ∙ push_new_detour-active w (ensure_root w old st).1.global_universe id old new a
              (ensure_root w old st).1
          ∙ rooted
    ]

apply_units_cases :
    (w : World) (id lib : List ℕ) (handle : ℕ) (u : UlpUnit) (us : List UlpUnit) (st : State)
    → let old = w.loaded_symbol lib u.old_fname u.old_faddr in
      let new = w.so_symbol u.new_fname handle in
      ((apply_units w id lib handle (u ∷ us) st).1.roots ≡ st.roots)
      ⊎ (((apply_units w id lib handle (u ∷ us) st).1.roots
            ≡ (apply_function w id old new st).1.roots)
          ⊎ ((apply_units w id lib handle (u ∷ us) st).1.roots
              ≡ (apply_units w id lib handle us (apply_function w id old new st).1).1.roots))
unfolding apply_units
apply_units_cases w id lib handle u us st = ground arith

pub apply_units-active :
    (w : World) (id lib : List ℕ) (handle a : ℕ) (us : List UlpUnit) (st : State)
    → active a (without id (apply_units w id lib handle us st).1.roots)
      ≡ active a (without id st.roots)
unfolding apply_units
apply_units-active w id lib handle a [] st = refl
apply_units-active w id lib handle a (u ∷ us) st =
    let old = w.loaded_symbol lib u.old_fname u.old_faddr in
    let new = w.so_symbol u.new_fname handle in
    let one = apply_function-active w id old new a st in
    elim (apply_units_cases w id lib handle u us st) [
      | inl e ↦ ap (λ rs. active a (without id rs)) e
      | inr (inl e) ↦ ap (λ rs. active a (without id rs)) e ∙ one
      | inr (inr e) ↦
          ap (λ rs. active a (without id rs)) e
          ∙ apply_units-active w id lib handle a us (apply_function w id old new st).1
          ∙ one
    ]
