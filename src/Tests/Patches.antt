-- ===== src/Tests/Patches.antt =====
-- A process with one library, whose function at 1000 a patch replaces by the one at 2000.
use libpulp.Base.{
  ℕ, ◌≡◌, ◌≢◌, List, [], ◌∷◌, none, some, true, false, refl, arith, map, replicate, ◌++◌, ap, ◌+◌,
  ◌*◌, ◌∙◌, subst, ◌≤◌, sym,
}
use libpulp.Base.Memory.{load, bytes_le}
use libpulp.Errors.Codes.{enone}
use libpulp.Patch.Defs.{State, World, Metadata, AppliedPatch, Detour, DetourRoot}
use libpulp.Patch.Chain.{
  can_revert_patch, get_applied_patch, has_dependent, depends_on, check_patch_sanity,
  check_build_id, any_library, compare_build_ids, compare_notes, check_patch_dependencies,
  check_dependency, all_checked,
}
use libpulp.Patch.Detours.{
  push_new_root, push_new_detour, allocate, get_detour_root_by_address, revert_all_units,
  update_root,
}
use libpulp.Patch.Revert.{deactivate_root, revert_all_units-detours}
use libpulp.Patch.Apply.{
  ulp_apply_all_units, apply_units, apply_function, ensure_root, divert, fix_references,
  apply_references, ulp_state_update, build_patch, copy_deps, copy_units,
}
use libpulp.Patch.Load.{
  load_patch, ulp_revert_patch, revert_loop, same_path, load_metadata, parse_metadata, load_typed,
  load_apply,
}
use libpulp.Patch.Grounded.{is_applied, Grounded}
use libpulp.Patch.Accept.{load_patch-Grounded}
use libpulp.Patch.Active.{active}
use libpulp.Patch.Undo.{ulp_revert_patch-ulp_apply_all_units}
use libpulp.Patch.Going.{going, target_of}
use libpulp.Patch.Written.{AllUndoable, Undoes, count_detours, revert_all_units-Undoes}
use libpulp.Patch.Taken.{AllTaken}
use libpulp.Patch.Diverted.{HasAddresses, Diverts, ulp_apply_all_units-Diverts}
use libpulp.Patch.Entry.{ulp_revert_patch-patches, revert_loop-stuck}
use libpulp.Tests.Queues.{start, empty-Holds}
use libpulp.Strings.{get_basename, after_slash}
use libpulp.Arch.Defs.{
  ulp_patch_addr, has_endbr64, is_patchable, ulp_patch_prologue_layout, memwrite,
}
use libpulp.Arch.Jump.{first_insn}
use libpulp.InsnQueue.Commands.{Command, Holds, insert}
use libpulp.Arch.Patch.{prologue_write}
use libpulp.InsnQueue.Defs.{insn_buffer_max}
use libpulp.Arch.Queued.{insert-Room}

abbrev note_id : List ℕ
note_id = 1 ∷ 2 ∷ 3 ∷ 4 ∷ 5 ∷ 6 ∷ 7 ∷ 8 ∷ 9 ∷ 10 ∷ 11 ∷ 12 ∷ 13 ∷ 14 ∷ 15 ∷ 16 ∷ []

-- Every byte is a nop, so every function can be patched.
abbrev world : World
world = record {
  calloc = λ n. true;
  dlopen = λ name. 7;
  so_symbol = λ name handle. 2000;
  loaded_symbol = λ lib name addr. 1000;
  library_base = λ lib. 4096;
  library_tls = λ lib. 1;
  link_map = λ handle. some 8192;
  libraries = ((record { type = 3; namesz = 4; build_id = note_id } ∷ []) ∷ []) ∷ [];
  asunsafe_trylock = false;
  time = 0;
  memory = λ a. 0x90;
}

abbrev fix : Metadata
fix = record {
  patch_id = 1 ∷ [];
  so_filename = 102 ∷ [];
  so_handler = 7;
  objs = record {
    build_id = note_id;
    build_id_check = false;
    name = 108 ∷ [];
    units = record { old_fname = 102 ∷ []; new_fname = 103 ∷ []; old_faddr = 0 } ∷ [];
  };
  deps = [];
  refs = [];
  type = 1;
}

abbrev fresh : State
fresh = record {
  patches = [];
  roots = [];
  root_index_counter = 0;
  global_universe = 0;
  insnq = start;
  metadata_ref = none;
  allocations = 0;
}

applies : (ulp_apply_all_units world fix fresh).0 ≡ enone
unfolding ulp_apply_all_units apply_units apply_function ensure_root push_new_root push_new_detour
    allocate divert ulp_patch_addr has_endbr64 is_patchable get_detour_root_by_address
    fix_references apply_references get_basename after_slash load
applies = refl

fix_addresses : HasAddresses world (get_basename fix.objs.name) fix.objs.units
fix_addresses = (omega arith, omega arith, λ name handle. omega arith)

Diverts_example :
    let lib = get_basename fix.objs.name in
    let st' = (ulp_apply_all_units world fix fresh).1 in
    AllTaken world fix.patch_id lib fix.objs.units st'.roots
    × ((ws : List Command) × (others : List Command) × Holds (([] ++ ws) ++ others) st'.insnq.queue
        × Diverts world lib fix.so_handler fix.objs.units ws)
Diverts_example =
    ulp_apply_all_units-Diverts world fix fresh [] fix_addresses empty-Holds (omega arith) applies

-- Two patches of the library, the second of which depends on the first.
abbrev entry : List ℕ → AppliedPatch
entry id = record {
  patch_id = id;
  lib_name = 108 ∷ [];
  container_name = 102 ∷ [];
  units = [];
  deps = [];
  timestamp = 0;
}

abbrev dependent : AppliedPatch
dependent = record (entry (2 ∷ [])) {
  deps = record { dep_id = 1 ∷ []; patch_id_check = true } ∷ [];
}

abbrev both : State
both = record fresh { patches = dependent ∷ entry (1 ∷ []) ∷ [] }

-- Another patch that depends on the second, with an id of a build that differs from the library's.
abbrev third : Metadata
third = record fix {
  patch_id = 3 ∷ [];
  objs = record (fix.objs) { build_id = replicate 16 9 };
  deps = record { dep_id = 2 ∷ []; patch_id_check = false } ∷ [];
}

both-Grounded : Grounded both.patches
both-Grounded = (refl, (refl, tt), (refl, tt, tt))

load_patch-Grounded_example : Grounded (load_patch world (0, third) both).1.patches
load_patch-Grounded_example =
    load_patch-Grounded world (0, third) both refl (refl, tt) both-Grounded

ids : List AppliedPatch → List (List ℕ)
ids ps = map (λ p. p.patch_id) ps

third_enters :
    ids (load_patch world (0, third) both).1.patches ≡ (3 ∷ []) ∷ (2 ∷ []) ∷ (1 ∷ []) ∷ []
unfolding ids load_patch load_metadata parse_metadata allocate check_patch_sanity check_build_id
    any_library compare_build_ids compare_notes check_patch_dependencies check_dependency
    all_checked get_applied_patch load_typed load_apply ulp_state_update build_patch copy_deps
    ulp_apply_all_units apply_units apply_function ensure_root push_new_root push_new_detour divert
    ulp_patch_addr has_endbr64 is_patchable get_detour_root_by_address fix_references
    apply_references get_basename after_slash load copy_units
third_enters = refl

revert_example :
    ((ulp_revert_patch world (2 ∷ []) both).0 ≡ enone)
    × (is_applied (2 ∷ []) (ulp_revert_patch world (2 ∷ []) both).1.patches ≡ false)
    × (is_applied (1 ∷ []) (ulp_revert_patch world (2 ∷ []) both).1.patches
        ≡ is_applied (1 ∷ []) both.patches)
revert_example =
    ulp_revert_patch-patches world (2 ∷ []) (1 ∷ []) both (refl, (refl, tt), (refl, tt, tt)) refl
      refl

cannot_revert : can_revert_patch (1 ∷ []) both.patches ≢ enone
unfolding can_revert_patch get_applied_patch has_dependent depends_on
cannot_revert e = omega arith

same_library : same_path (108 ∷ []) (108 ∷ []) ≡ true
unfolding same_path
same_library = refl

stuck_example : revert_loop world 10 (108 ∷ []) (entry (1 ∷ []) ∷ []) 0 both ≡ none
stuck_example =
    revert_loop-stuck world 10 (108 ∷ []) (entry (1 ∷ [])) [] 0 both same_library cannot_revert

abbrev detour : List ℕ → ℕ → Detour
detour id target = record { patch_id = id; universe = 1; target_addr = target; active = true }

abbrev two_detours : List Detour
two_detours = detour (2 ∷ []) 3000 ∷ detour (1 ∷ []) 2000 ∷ []

-- The roots of the two detours.
abbrev patched_roots : List DetourRoot
patched_roots = record { index = 0; patched_addr = 1000; detours = two_detours } ∷ []

all_units_example :
    (revert_all_units world.memory (2 ∷ []) patched_roots start).0
    ≡ map (deactivate_root (2 ∷ [])) patched_roots
all_units_example = revert_all_units-detours world.memory (2 ∷ []) patched_roots start

undoable : AllUndoable world.memory patched_roots
unfolding is_patchable first_insn has_endbr64 load
undoable = ((omega arith, omega arith, refl), (omega arith, (omega arith, tt)), tt)

Undoes_example :
    (ws : List Command) × Holds
      ([] ++ ws)
      (revert_all_units world.memory (2 ∷ []) patched_roots start).1.queue
    × Undoes (2 ∷ []) world.memory patched_roots ws
Undoes_example =
    revert_all_units-Undoes [] world.memory (2 ∷ []) patched_roots start undoable empty-Holds
      (omega arith)

-- The function is already diverted to 3000 by another patch, when the patch comes.
abbrev earlier : State
earlier = record fresh {
  roots = record { index = 0; patched_addr = 1000; detours = detour (5 ∷ []) 3000 ∷ [] } ∷ [];
}

abbrev stacked : DetourRoot
stacked = record {
  index = 0;
  patched_addr = 1000;
  detours = detour (1 ∷ []) 2000 ∷ detour (5 ∷ []) 3000 ∷ [];
}

abbrev prologue : Command
prologue = prologue_write world.memory 1000 2000

applied_over : (ulp_apply_all_units world fix earlier).1.roots ≡ stacked ∷ []
unfolding ulp_apply_all_units apply_units apply_function ensure_root push_new_root push_new_detour
    allocate divert ulp_patch_addr has_endbr64 is_patchable get_detour_root_by_address update_root
    fix_references apply_references get_basename after_slash load
applied_over = refl

queued_over : (ulp_apply_all_units world fix earlier).1.insnq ≡ (insert prologue start).1
unfolding ulp_apply_all_units apply_units apply_function ensure_root push_new_root push_new_detour
    allocate divert ulp_patch_addr ulp_patch_prologue_layout memwrite has_endbr64 is_patchable
    get_detour_root_by_address fix_references apply_references get_basename after_slash load
queued_over = refl

found_root : get_detour_root_by_address 1000 (stacked ∷ []) ≡ some stacked
unfolding get_detour_root_by_address
found_root = refl

undoable_over : AllUndoable world.memory (stacked ∷ [])
unfolding is_patchable first_insn has_endbr64 load
undoable_over = ((omega arith, omega arith, refl), (omega arith, (omega arith, tt)), tt)

prologue-Room :
    Holds ([] ++ ([] ++ prologue ∷ [])) (insert prologue start).1.queue
    × ((insert prologue start).1.queue.size + 40 * 2 ≤ insn_buffer_max)
unfolding has_endbr64 load bytes_le
prologue-Room =
    insert-Room [] [] 2 prologue start empty-Holds (omega arith) (omega arith, omega arith)
      (omega arith)

undo_example :
    let st1 = (ulp_apply_all_units world fix earlier).1 in
    let st2 = (ulp_revert_patch world (1 ∷ []) st1).1 in
    (active 1000 st2.roots ≡ active 1000 earlier.roots)
    × ((ws : List Command) × Holds ((prologue ∷ []) ++ ws) st2.insnq.queue
        × Undoes (1 ∷ []) world.memory st1.roots ws)
    × (going (1 ∷ []) stacked.detours ≡ target_of (active 1000 earlier.roots))
undo_example =
    ulp_revert_patch-ulp_apply_all_units world world fix earlier 1000 stacked (prologue ∷ [])
      (refl, tt) (ap (get_detour_root_by_address 1000) applied_over ∙ found_root)
      (subst (AllUndoable world.memory) (sym applied_over) undoable_over)
      (subst (λ g. Holds (prologue ∷ []) g.queue) (sym queued_over) prologue-Room.0)
      (subst
        (λ rs.
          (ulp_apply_all_units world fix earlier).1.insnq.queue.size + 40 * count_detours rs
          ≤ insn_buffer_max)
        (sym applied_over)
        (subst (λ g. g.queue.size + 40 * 2 ≤ insn_buffer_max) (sym queued_over) prologue-Room.1))
