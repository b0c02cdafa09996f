-- ===== src/Patch/Apply.antt =====
-- lib/ulp.c: ulp_state_update and ulp_apply_all_units.
use libpulp.Base.{
  ℕ, zero, suc, ◌+◌, ◌%◌, List, [], ◌∷◌, ◌++◌, Option, none, some, Bool, true, false, ◌==◌, ◌^◌,
  if◌then◌else◌, take, ◌&&◌,
}
use libpulp.Base.Memory.{bytes_le, load}
use libpulp.Patch.Defs.{
  State, World, Metadata, Dependency, Reference, UlpUnit, AppliedUnit, AppliedPatch,
}
use libpulp.Patch.Detours.{allocate, get_detour_root_by_address, push_new_root, push_new_detour}
use libpulp.Arch.Defs.{ulp_patch_addr, memwrite}
use libpulp.InsnQueue.Insert.{Globals}
use libpulp.Strings.{get_basename}
use libpulp.Errors.Codes.{enone, enooldfunc, enonewfunc, eunknown, enoaddress}

-- ULP_PATH_LEN
abbrev pub ulp_path_len : ℕ
ulp_path_len = 256

-- What ulp_state_update builds comes with the number of allocations after it. The loop over the
-- dependencies puts each copy in front:
unfoldable pub copy_deps :
    (ℕ → Bool) → ℕ → List Dependency → List Dependency → Option (List Dependency) × ℕ
copy_deps calloc n [] copies = (some copies, n)
copy_deps calloc n (d ∷ ds) copies = elim (calloc n) [
  | false ↦ (none, suc n)
  | true ↦ copy_deps calloc (suc n) ds (d ∷ copies)
]

abbrev pub prepend : AppliedUnit → Option (List AppliedUnit) × ℕ → Option (List AppliedUnit) × ℕ
prepend unit (none, n) = (none, n)
prepend unit (some units, n) = (some (unit ∷ units), n)

-- and the loop over the units puts each at the end.
unfoldable pub copy_units : World → List ℕ → ℕ → ℕ → List UlpUnit → Option (List AppliedUnit) × ℕ
copy_units w lib handle n [] = (some [], n)
copy_units w lib handle n (u ∷ us) =
    let patched = w.loaded_symbol lib u.old_fname u.old_faddr in
    let target = w.so_symbol u.new_fname handle in
    let unit : AppliedUnit = record {
      patched_addr = patched;
      target_addr = target;
      overwritten_bytes = load w.memory patched 14;
    } in
    elim (w.calloc n) [
      | false ↦ (none, suc n)
      | true ↦ elim (patched == 0) [
        | true ↦ (none, suc n)
        | false ↦ elim (target == 0) [
          | true ↦ (none, suc n)
          | false ↦ prepend unit (copy_units w lib handle (suc n) us)
        ]
      ]
    ]

-- The parts of ulp_state_update that build the patch, behind the allocation of its record.
unfoldable pub build_patch : World → Metadata → ℕ → Option AppliedPatch × ℕ
unfolding copy_deps copy_units
build_patch w ulp n = elim (w.calloc n) [
  | false ↦ (none, suc n)
  | true ↦ elim (w.calloc (suc n)) [
    | false ↦ (none, suc (suc n))
    | true ↦
        let (outcome, k) = copy_deps w.calloc (suc (suc n)) ulp.deps [] in
        elim outcome [
          | none ↦ (none, k)
          | some deps ↦
              let (outcome, j) =
                copy_units w (get_basename ulp.objs.name) ulp.so_handler k ulp.objs.units in
              elim outcome [
                | none ↦ (none, j)
                | some units ↦ (
                  some (record {
                    patch_id = ulp.patch_id;
                    lib_name = take ulp_path_len (get_basename ulp.objs.name);
                    container_name = take ulp_path_len ulp.so_filename;
                    units = units;
                    deps = deps;
                    timestamp = w.time;
                  }),
                  j,
                )
              ]
        ]
  ]
]

-- ulp_state_update: whether it returns the new entry, which then heads the chain.
unfoldable pub ulp_state_update : World → Metadata → State → Bool × State
unfolding allocate build_patch
ulp_state_update w ulp st =
    let (outcome, st') = allocate w st in
    elim outcome [
      | false ↦ (false, st')
      | true ↦
          let (outcome, n) = build_patch w ulp st'.allocations in
          elim outcome [
            | none ↦ (false, record st' { allocations = n })
            | some p ↦ (true, record st' { patches = p ∷ st'.patches; allocations = n })
          ]
    ]

-- The part of ulp_apply_all_units that finds the root of the function or makes one.
unfoldable pub ensure_root : World → ℕ → State → Bool × State
unfolding push_new_root
ensure_root w addr st = elim (get_detour_root_by_address addr st.roots) [
  | some r ↦ (true, st)
  | none ↦ push_new_root w addr st
]

-- ulp_patch_addr on the state
unfoldable pub divert : World → ℕ → ℕ → State → ℕ × State
unfolding ulp_patch_addr
divert w old_fun new_fun st =
    let (ret, g) = ulp_patch_addr w.memory old_fun new_fun true st.insnq in
    (ret, record st { insnq = g })

-- The rest of the body of the loop, once both functions are known.
unfoldable pub apply_function : World → List ℕ → ℕ → ℕ → State → ℕ × State
unfolding ensure_root push_new_detour divert
apply_function w patch_id old_fun new_fun st =
    let (outcome, st1) = ensure_root w old_fun st in
    elim outcome [
      | false ↦ (eunknown, st1)
      | true ↦
          let (outcome, st2) = push_new_detour w st1.global_universe patch_id old_fun new_fun st1 in
          elim outcome [ false ↦ (eunknown, st2) | true ↦ divert w old_fun new_fun st2 ]
    ]

-- The loop over the units.
unfoldable pub apply_units : World → List ℕ → List ℕ → ℕ → List UlpUnit → State → ℕ × State
unfolding apply_function
apply_units w patch_id lib handle [] st = (enone, st)
apply_units w patch_id lib handle (u ∷ us) st =
    let old_fun = w.loaded_symbol lib u.old_fname u.old_faddr in
    let new_fun = w.so_symbol u.new_fname handle in
    elim (old_fun == 0) [
      | true ↦ (enooldfunc, st)
      | false ↦ elim (new_fun == 0) [
        | true ↦ (enonewfunc, st)
        | false ↦
            let (outcome, st') = apply_function w patch_id old_fun new_fun st in
            elim outcome [ zero ↦ apply_units w patch_id lib handle us st' | suc e ↦ (suc e, st') ]
      ]
    ]

-- The loop over the references; each is used once, so the offset that the source stores into it
-- is not read again. The address and the words written to it:
unfoldable pub reference_address : World → ℕ → ℕ → Reference → ℕ
reference_address w handle patch_base ref =
    if ref.patch_offset == 0
    then w.so_symbol ref.reference_name handle
    else (patch_base + ref.patch_offset) % 2 ^ 64

-- TLS_DTV_OFFSET is 0 on x86_64, and a tls_index has two words.
unfoldable pub reference_words : ℕ → ℕ → Reference → List ℕ
reference_words target_base tls_idx ref =
    if ref.tls
    then bytes_le 8 tls_idx ++ bytes_le 8 ref.target_offset
    else bytes_le 8 ((target_base + ref.target_offset) % 2 ^ 64)

unfoldable pub apply_references : World → ℕ → ℕ → ℕ → ℕ → List Reference → Globals → ℕ × Globals
unfolding memwrite reference_address reference_words
apply_references w handle target_base tls_idx patch_base [] g = (enone, g)
apply_references w handle target_base tls_idx patch_base (ref ∷ refs) g =
    let at = reference_address w handle patch_base ref in
    elim (at == 0 && ref.patch_offset == 0) [
      | true ↦ (enonewfunc, g)
      | false ↦
          let g' = (memwrite at (reference_words target_base tls_idx ref) g).1 in
          apply_references w handle target_base tls_idx patch_base refs g'
    ]

-- The part of ulp_apply_all_units behind the loop over the units. 0xff stands for a library that
-- is not loaded.
unfoldable pub fix_references : World → Metadata → State → ℕ × State
unfolding apply_references
fix_references w ulp st =
    let target = get_basename ulp.objs.name in
    let base = w.library_base target in
    elim (base == 0xff) [
      | true ↦ (enoaddress, st)
      | false ↦ elim (w.link_map ulp.so_handler) [
        | none ↦ (eunknown, st)
        | some addr ↦ elim (addr == 0) [
          | true ↦ (enoaddress, st)
          | false ↦
              let (ret, g) =
                apply_references w ulp.so_handler base (w.library_tls target) addr ulp.refs
                  st.insnq in
              (ret, record st { insnq = g })
        ]
      ]
    ]

-- ulp_apply_all_units; the universe is an unsigned long.
unfoldable pub ulp_apply_all_units : World → Metadata → State → ℕ × State
unfolding apply_units fix_references
ulp_apply_all_units w ulp st =
    let begun = record st { global_universe = (st.global_universe + 1) % 2 ^ 64 } in
    let (outcome, st') =
      apply_units w ulp.patch_id (get_basename ulp.objs.name) ulp.so_handler ulp.objs.units begun in
    elim outcome [ zero ↦ fix_references w ulp st' | suc e ↦ (suc e, st') ]
