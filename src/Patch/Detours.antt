-- ===== src/Patch/Detours.antt =====
-- lib/ulp.c: the functions that were patched, with their detours.
use libpulp.Base.{
  ℕ, suc, ◌+◌, ◌%◌, List, [], ◌∷◌, ◌++◌, Option, none, some, Bool, true, false, ◌==◌, ◌^◌, same,
  if◌then◌else◌,
}
use libpulp.Base.Memory.{Memory}
use libpulp.Patch.Defs.{Detour, DetourRoot, State, World}
use libpulp.Arch.Defs.{ulp_patch_addr}
use libpulp.InsnQueue.Insert.{Globals}

-- get_detour_root_by_index
unfoldable pub get_detour_root_by_index : ℕ → List DetourRoot → Option DetourRoot
get_detour_root_by_index idx [] = none
get_detour_root_by_index idx (r ∷ rs) =
    let rest = get_detour_root_by_index idx rs in if r.index == idx then some r else rest

-- get_detour_root_by_address
unfoldable pub get_detour_root_by_address : ℕ → List DetourRoot → Option DetourRoot
get_detour_root_by_address addr [] = none
get_detour_root_by_address addr (r ∷ rs) =
    let rest = get_detour_root_by_address addr rs in if r.patched_addr == addr then some r else rest

-- A store through the pointer that get_detour_root_by_address returned.
unfoldable pub update_root : ℕ → (DetourRoot → DetourRoot) → List DetourRoot → List DetourRoot
update_root addr f [] = []
update_root addr f (r ∷ rs) =
    let rest = update_root addr f rs in if r.patched_addr == addr then f r ∷ rs else r ∷ rest

-- calloc or strndup: whether there is memory.
unfoldable pub allocate : World → State → Bool × State
allocate w st = (w.calloc st.allocations, record st { allocations = suc st.allocations })

-- push_new_root, with the index and the address that its caller stores: get_next_function_index
-- counts in an unsigned int.
unfoldable pub push_new_root : World → ℕ → State → Bool × State
unfolding allocate
push_new_root w addr st =
    let (outcome, st') = allocate w st in
    elim outcome [
      | false ↦ (false, st')
      | true ↦
          let root : DetourRoot = record {
            index = st'.root_index_counter;
            patched_addr = addr;
            detours = [];
          } in
          (
            true,
            record st' {
              roots = root ∷ st'.roots;
              root_index_counter = (st'.root_index_counter + 1) % 2 ^ 32;
            },
          )
    ]

-- push_new_detour on the root of the function at `addr`
unfoldable pub push_new_detour : World → ℕ → List ℕ → ℕ → ℕ → State → Bool × State
unfolding allocate update_root
push_new_detour w universe patch_id addr new_faddr st =
    let (outcome, st') = allocate w st in
    elim outcome [
      | false ↦ (false, st')
      | true ↦
          let detour : Detour = record {
            patch_id = patch_id;
            universe = universe;
            target_addr = new_faddr;
            active = true;
          } in
          (
            true,
            record st' {
              roots = update_root addr (λ r. record r { detours = detour ∷ r.detours }) st'.roots;
            },
          )
    ]

-- The most recent detour that is active, as ulp_revert_all_units and __ulp_manage_universes search.
unfoldable pub find_active : List Detour → Option Detour
find_active [] = none
find_active (d ∷ ds) = let rest = find_active ds in if d.active then some d else rest

-- `target` of __ulp_manage_universes for the function with an index; none where it exits. The 2
-- is added to an address.
unfoldable pub manage_universes : List DetourRoot → ℕ → Option ℕ
unfolding find_active
manage_universes rs idx = elim (get_detour_root_by_index (idx % 2 ^ 32) rs) [
  | none ↦ none
  | some r ↦ elim (find_active r.detours) [
    | none ↦ some ((r.patched_addr + 2) % 2 ^ 64)
    | some d ↦ some (if d.target_addr == 0 then (r.patched_addr + 2) % 2 ^ 64 else d.target_addr)
  ]
]

-- The update of the function's prologue in ulp_revert_all_units.
unfoldable pub repatch : Memory → ℕ → Option Detour → Globals → Globals
repatch m addr none g = (ulp_patch_addr m addr 0 false g).1
repatch m addr (some d) g = (ulp_patch_addr m addr d.target_addr true g).1

-- The inner loop of ulp_revert_all_units; `seen` are the detours before the current one.
unfoldable pub revert_detours :
    Memory → List ℕ → ℕ → List Detour → List Detour → Globals → List Detour × Globals
revert_detours m id addr seen [] g = (seen, g)
revert_detours m id addr seen (d ∷ ds) g =
    let hit = same d.patch_id id in
    let d' = if hit then record d { active = false } else d in
    let g' = if hit then repatch m addr (find_active (seen ++ d' ∷ ds)) g else g in
    revert_detours m id addr (seen ++ d' ∷ []) ds g'

-- ulp_revert_all_units
unfoldable pub revert_all_units :
    Memory → List ℕ → List DetourRoot → Globals → List DetourRoot × Globals
revert_all_units m id [] g = ([], g)
revert_all_units m id (r ∷ rs) g =
    let (ds, g1) = revert_detours m id r.patched_addr [] r.detours g in
    let (rs', g2) = revert_all_units m id rs g1 in (record r { detours = ds } ∷ rs', g2)
