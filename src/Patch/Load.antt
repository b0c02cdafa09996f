-- ===== src/Patch/Load.antt =====
-- lib/ulp.c: how a patch is loaded or reverted, and the entry points that the tools call.
use libpulp.Base.{
  ℕ, zero, suc, ◌+◌, ◌-◌, ◌%◌, List, [], ◌∷◌, Option, none, some, Bool, true, false, ◌==◌, ◌^◌, not,
  leb, length, if◌then◌else◌, take, same, ◌&&◌,
}
use libpulp.Patch.Defs.{State, World, Metadata, AppliedPatch}
use libpulp.Patch.Chain.{get_applied_patch, can_revert_patch, state_remove, check_patch_sanity}
use libpulp.Patch.Detours.{allocate, revert_all_units}
use libpulp.Patch.Apply.{ulp_state_update, ulp_apply_all_units, ulp_path_len}
use libpulp.InsnQueue.Insert.{ensure_emptiness}
use libpulp.Strings.{get_basename}
use libpulp.Errors.State.{is_in_error_state, enable_or_disable_patching}
use libpulp.Errors.Codes.{
  enone, edlopen, estate, enometa, eunknown, enomem, eagain, eoverflow, enotargetlib, enopatch,
}

-- A store to `__ulp_error_state`.
unfoldable pub set_error_state : ℕ → State → State
set_error_state e st = record st { insnq = record (st.insnq) { error_state = e } }

-- parse_metadata; `parsed` is what parse_metadata_from_mem makes of the buffer.
unfoldable pub parse_metadata : World → ℕ × Metadata → State → ℕ × Metadata
unfolding check_patch_sanity
parse_metadata w (suc e, ulp) st = (suc e, ulp)
parse_metadata w (zero, ulp) st =
    let (ret, checked) = check_patch_sanity w.libraries st.patches ulp in
    if ulp.type == 2
    then (enone, ulp)
    else if not (ret == enone)
    then (ret, checked)
    else if w.dlopen checked.so_filename == 0
    then (edlopen, checked)
    else (enone, record checked { so_handler = w.dlopen checked.so_filename })

-- load_metadata, which returns NULL with an error.
unfoldable pub load_metadata : World → ℕ × Metadata → State → (ℕ × Option Metadata) × State
unfolding allocate parse_metadata
load_metadata w parsed st = elim st.metadata_ref [
  | some ulp ↦ ((enone, some ulp), st)
  | none ↦
      let (spare, st') = allocate w st in
      let (err, ulp) = parse_metadata w parsed st' in
      elim spare [
        | false ↦ ((enomem, none), st')
        | true ↦ elim err [
          | zero ↦ ((enone, some ulp), record st' { metadata_ref = some ulp })
          | suc e ↦ ((suc e, none), record st' { metadata_ref = none })
        ]
      ]
]

-- ulp_revert_patch
unfoldable pub ulp_revert_patch : World → List ℕ → State → ℕ × State
unfolding revert_all_units state_remove
ulp_revert_patch w id st =
    let (roots, g) = revert_all_units w.memory id st.roots st.insnq in
    let (found, patches) = state_remove id st.patches in
    (
      if found then enone else estate,
      record st {
        global_universe = (st.global_universe + 1) % 2 ^ 64;
        roots = roots;
        insnq = g;
        patches = patches;
      },
    )

-- The case of load_patch that applies a patch. libpulp_exit leaves the error state EUNKNOWN.
unfoldable pub load_apply : World → Metadata → State → ℕ × State
unfolding ulp_state_update ulp_apply_all_units set_error_state
load_apply w ulp st =
    let (entered, st1) = ulp_state_update w ulp st in
    let (ret, st2) = ulp_apply_all_units w ulp st1 in
    elim entered [
      | false ↦ (estate, st1)
      | true ↦ elim ret [ zero ↦ (enone, st2) | suc e ↦ (suc e, set_error_state eunknown st2) ]
    ]

-- The case that reverts one.
unfoldable pub load_revert : World → Metadata → State → ℕ × State
unfolding can_revert_patch ulp_revert_patch
load_revert w ulp st = elim (can_revert_patch ulp.patch_id st.patches) [
  | zero ↦ ulp_revert_patch w ulp.patch_id st
  | suc e ↦ (suc e, st)
]

-- The switch of load_patch.
unfoldable pub load_typed : World → Metadata → State → ℕ × State
unfolding load_apply load_revert
load_typed w ulp st =
    let applying = load_apply w ulp st in
    let reverting = load_revert w ulp st in
    if ulp.type == 1
    then applying
    else if ulp.type == 2
    then reverting
    else (if ulp.type == 0 then enometa else eunknown, st)

-- load_patch; unload_metadata clears the reference.
unfoldable pub load_patch : World → ℕ × Metadata → State → ℕ × State
unfolding load_metadata load_typed
load_patch w parsed st =
    let (loaded, st1) = load_metadata w parsed st in
    let (err, found) = loaded in
    elim found [
      | none ↦ (err, st1)
      | some ulp ↦
          let (ret, st2) = load_typed w ulp st1 in (ret, record st2 { metadata_ref = none })
    ]

-- strncmp(a, b, ULP_PATH_LEN) == 0
unfoldable pub same_path : List ℕ → List ℕ → Bool
same_path a b = same (take ulp_path_len a) (take ulp_path_len b)

-- The loop of revert_all_patches_from_lib: `rest` is what is left of the chain, whose links are
-- read before a patch goes. It runs on fuel; none is a loop that is still going.
unfoldable pub revert_loop : World → ℕ → List ℕ → List AppliedPatch → ℕ → State → Option (ℕ × State)
unfolding can_revert_patch ulp_revert_patch same_path
revert_loop w zero lib rest ret st = none
revert_loop w (suc fuel) lib [] ret st = some (ret, st)
revert_loop w (suc fuel) lib (p ∷ ps) ret st = elim (same_path lib p.lib_name) [
  | false ↦ revert_loop w fuel lib ps ret st
  | true ↦ elim (can_revert_patch p.patch_id st.patches) [
    | suc e ↦ revert_loop w fuel lib (p ∷ ps) (suc e) st
    | zero ↦
        let (reverted, st') = ulp_revert_patch w p.patch_id st in
        elim reverted [ suc e ↦ some (suc e, st') | zero ↦ revert_loop w fuel lib ps enone st' ]
  ]
]

-- revert_all_patches_from_lib
unfoldable pub revert_all_patches_from_lib : World → ℕ → List ℕ → State → Option (ℕ × State)
unfolding revert_loop
revert_all_patches_from_lib w fuel path st =
    let lib = get_basename path in
    elim (leb ulp_path_len (length path - length lib)) [
      | true ↦ some (eoverflow, st)
      | false ↦ elim (revert_loop w fuel lib st.patches enotargetlib st) [
        | none ↦ none
        | some result ↦
            let (ret, st') = result in
            some (
              if ret == enotargetlib && not (w.library_base lib == 0xff) then enopatch else ret,
              st',
            )
      ]
    ]

-- The tests that __ulp_apply_patch and __ulp_revert_patches_from_lib begin with, in order: what
-- they return when one of them stops them, and the state.
unfoldable pub gate : World → State → Option ℕ × State
unfolding is_in_error_state ensure_emptiness
gate w st =
    let (left, g) = ensure_emptiness st.insnq in
    let st' = record st { insnq = g } in
    if is_in_error_state st.insnq.error_state
    then (some st.insnq.error_state, st)
    else if left
    then (some g.error_state, st')
    else if w.asunsafe_trylock
    then (some eagain, st')
    else (none, st')

-- __ulp_apply_patch
unfoldable pub ulp_apply_patch : World → ℕ × Metadata → State → ℕ × State
unfolding gate load_patch
ulp_apply_patch w parsed st =
    let (stopped, st') = gate w st in
    elim stopped [ some e ↦ (e, st') | none ↦ load_patch w parsed st' ]

-- __ulp_revert_patches_from_lib
unfoldable pub ulp_revert_patches_from_lib : World → ℕ → List ℕ → State → Option (ℕ × State)
unfolding gate revert_all_patches_from_lib
ulp_revert_patches_from_lib w fuel path st =
    let (stopped, st') = gate w st in
    elim stopped [ some e ↦ some (e, st') | none ↦ revert_all_patches_from_lib w fuel path st' ]

-- __ulp_check_applied_patch
unfoldable pub ulp_check_applied_patch : List ℕ → State → ℕ
unfolding is_in_error_state get_applied_patch
ulp_check_applied_patch id st =
    let found : ℕ = elim (get_applied_patch id st.patches) [ some p ↦ 1 | none ↦ 0 ] in
    if is_in_error_state st.insnq.error_state then 0 else found

-- ulp_enable_or_disable_patching
unfoldable pub ulp_enable_or_disable_patching : State → ℕ × State
unfolding enable_or_disable_patching set_error_state
ulp_enable_or_disable_patching st =
    let state = enable_or_disable_patching st.insnq.error_state in (state, set_error_state state st)
