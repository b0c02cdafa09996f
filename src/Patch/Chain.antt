-- ===== src/Patch/Chain.antt =====
-- lib/ulp.c: the chain of applied patches and the tests on it.
use libpulp.Base.{
  ℕ, List, [], ◌∷◌, Option, none, some, Bool, true, false, ◌||◌, ◌&&◌, same, map, if◌then◌else◌,
  not, ◌==◌, leb, length,
}
use libpulp.Patch.Defs.{AppliedPatch, Dependency, Metadata, Note, Object}
use libpulp.Errors.Codes.{enone, enotapplied, edepend, eapplied, ebuildid}

-- NT_GNU_BUILD_ID of elf.h
abbrev pub nt_gnu_build_id : ℕ
nt_gnu_build_id = 3

-- ulp_get_applied_patch
unfoldable pub get_applied_patch : List ℕ → List AppliedPatch → Option AppliedPatch
get_applied_patch id [] = none
get_applied_patch id (p ∷ ps) =
    let rest = get_applied_patch id ps in if same p.patch_id id then some p else rest

-- The inner loop of ulp_can_revert_patch: whether one of the dependencies is the patch.
unfoldable pub depends_on : List ℕ → List Dependency → Bool
depends_on id [] = false
depends_on id (d ∷ ds) = same d.dep_id id || depends_on id ds

-- The outer loop.
unfoldable pub has_dependent : List ℕ → List AppliedPatch → Bool
has_dependent id [] = false
has_dependent id (p ∷ ps) = depends_on id p.deps || has_dependent id ps

-- ulp_can_revert_patch, less its messages
unfoldable pub can_revert_patch : List ℕ → List AppliedPatch → ℕ
can_revert_patch id ps = elim (get_applied_patch id ps) [
  | none ↦ enotapplied
  | some p ↦ if has_dependent id ps then edepend else enone
]

-- ulp_state_remove: whether the patch was found, and the chain without it.
unfoldable pub state_remove : List ℕ → List AppliedPatch → Bool × List AppliedPatch
state_remove id [] = (false, [])
state_remove id (p ∷ ps) =
    let (found, rest) = state_remove id ps in
    if same p.patch_id id then (true, ps) else (found, p ∷ rest)

-- The first loop of check_patch_dependencies, on one dependency.
unfoldable pub check_dependency : List AppliedPatch → Dependency → Dependency
check_dependency ps d = elim (get_applied_patch d.dep_id ps) [
  | none ↦ d
  | some p ↦ record d { patch_id_check = true }
]

-- The second loop.
unfoldable pub all_checked : List Dependency → Bool
all_checked [] = true
all_checked (d ∷ ds) = d.patch_id_check && all_checked ds

-- check_patch_dependencies: the result, and the dependencies as it leaves them.
unfoldable pub check_patch_dependencies : List AppliedPatch → List Dependency → ℕ × List Dependency
check_patch_dependencies ps deps =
    let checked = map (check_dependency ps) deps in
    (if all_checked checked then enone else edepend, checked)

-- The inner loop of compare_build_ids over the notes of a segment: memcmp's result is not 0 where
-- the two ids differ.
unfoldable pub compare_notes : List ℕ → List Note → Bool
compare_notes id [] = false
compare_notes id (note ∷ notes) =
    let rest = compare_notes id notes in
    if note.type == nt_gnu_build_id && note.namesz == 4 && leb 16 (length note.build_id)
    then length note.build_id == length id && not (same id note.build_id)
    else rest

-- compare_build_ids on one library
unfoldable pub compare_build_ids : List ℕ → List (List Note) → Bool
compare_build_ids id [] = false
compare_build_ids id (segment ∷ segments) =
    compare_notes id segment || compare_build_ids id segments

-- dl_iterate_phdr with compare_build_ids: it stops at the first library where that returns 1.
unfoldable pub any_library : List ℕ → List (List (List Note)) → Bool
any_library id [] = false
any_library id (library ∷ libraries) = compare_build_ids id library || any_library id libraries

-- check_build_id: the object with its mark, and the result
unfoldable pub check_build_id : List (List (List Note)) → Object → Bool × Object
check_build_id libraries obj =
    let check = obj.build_id_check || any_library obj.build_id libraries in
    (check, record obj { build_id_check = check })

-- check_patch_sanity: the result, and the metadata with its marks
unfoldable pub check_patch_sanity :
    List (List (List Note)) → List AppliedPatch → Metadata → ℕ × Metadata
check_patch_sanity libraries ps ulp =
    let (same_build, objs) = check_build_id libraries ulp.objs in
    let marked = record ulp { objs = objs } in
    let (ret, deps) = check_patch_dependencies ps ulp.deps in
    let checked = record marked { deps = deps } in
    if not same_build
    then (ebuildid, marked)
    else if not (ret == enone)
    then (ret, checked)
    else elim (get_applied_patch ulp.patch_id ps) [
      | some p ↦ (eapplied, checked)
      | none ↦ (enone, checked)
    ]
