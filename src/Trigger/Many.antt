-- ===== src/Trigger/Many.antt =====
-- trigger_many_ulps and trigger_many_processes of tools/trigger.c. A process is a state `P` here.
use libpulp.Base.{
  ℕ, zero, suc, ◌+◌, List, [], ◌∷◌, ◌++◌, Option, none, some, Bool, false, ◌==◌, ◌||◌, ◌&&◌, not,
  if◌then◌else◌, leb, same, length, bit_or, bit_and,
}
use libpulp.Patch.Apply.{ulp_path_len}
use libpulp.Strings.{get_basename}
use libpulp.Trigger.Defs.{skippable_error}

-- What the C library says of the file system: dirname, opendir and readdir, is_directory and
-- fnmatch with FNM_NOESCAPE.
pub record Files : Type 0 where
  pub dirname : List ℕ → List ℕ
  pub opendir : List ℕ → Option (List (List ℕ))
  pub is_directory : List ℕ → Bool
  pub fnmatch : List ℕ → List ℕ → Bool

abbrev pub patch_success : ℕ
patch_success = 1

abbrev pub patch_skipped : ℕ
patch_skipped = 2

abbrev pub patch_error : ℕ
patch_error = 4

-- The text from the last dot on, if there is one: strrchr(name, '.').
unfoldable pub extension : List ℕ → Option (List ℕ)
extension [] = none
extension (c ∷ cs) = elim (extension cs) [
  | some e ↦ some e
  | none ↦ if c == 46 then some (c ∷ cs) else none
]

-- Whether a file is one to trigger: its extension is .so and it matches the wildcard.
unfoldable pub is_candidate : Files → List ℕ → List ℕ → Bool
is_candidate files wildcard name = elim (extension name) [
  | none ↦ false
  | some e ↦ same e (46 ∷ 115 ∷ 111 ∷ []) && files.fnmatch wildcard name
]

-- What trigger_one_process's return value adds to `ret`.
unfoldable pub flag_of : ℕ → ℕ
flag_of r =
    if r == 0 then patch_success else if skippable_error r then patch_skipped else patch_error

-- Whether a path ends with a slash.
unfoldable pub ends_in_slash : List ℕ → Bool
ends_in_slash [] = false
ends_in_slash (c ∷ []) = c == 47
ends_in_slash (c ∷ d ∷ cs) = ends_in_slash (d ∷ cs)

-- The buffer with the wildcard behind the path of a directory.
unfoldable pub with_wildcard : List ℕ → List ℕ → List ℕ
with_wildcard buffer wildcard =
    if ends_in_slash buffer then buffer ++ wildcard else buffer ++ (47 ∷ wildcard)

module _ {P : Type 0} (files : Files) (one : List ℕ → P → ℕ × P) (recursive_mode : Bool) where
  -- The end of the loop body: the file is triggered if it is a candidate.
  unfoldable pub trigger_entry : List ℕ → List ℕ → List ℕ → ℕ → P → ℕ × P
  trigger_entry wildcard name buffer ret p =
      let (r, p') = one buffer p in
      if is_candidate files wildcard name then (bit_or ret (flag_of r), p') else (ret, p)

  -- The loop body for one name, with the call for a directory given.
  unfoldable pub visit : (List ℕ → P → ℕ × P) → List ℕ → List ℕ → List ℕ → ℕ → P → ℕ × P
  visit recurse folder wildcard name ret p =
      let buffer = folder ++ name in
      let below = with_wildcard buffer wildcard in
      let (r, p') = recurse below p in
      if leb ulp_path_len (length folder + length name)
        || same name (46 ∷ [])
        || same name (46 ∷ 46 ∷ [])
      then (ret, p)
      else if files.is_directory buffer
      then if recursive_mode
          && not (leb ulp_path_len (length folder + length name + length wildcard + 1))
        then trigger_entry wildcard name below ret p'
        else (ret, p)
      else trigger_entry wildcard name buffer ret p

  unfoldable pub visit_all : (List ℕ → P → ℕ × P) → List ℕ → List ℕ → List (List ℕ) → ℕ → P → ℕ × P
  visit_all recurse folder wildcard [] ret p = (ret, p)
  visit_all recurse folder wildcard (name ∷ names) ret p =
      let (ret', p') = visit recurse folder wildcard name ret p in
      visit_all recurse folder wildcard names ret' p'

  -- trigger_many_ulps, its recursion at most `depth` deep
  unfoldable pub trigger_many_ulps : ℕ → List ℕ → P → ℕ × P
  trigger_many_ulps zero wildcard_path p = (0, p)
  trigger_many_ulps (suc depth) wildcard_path p =
      let folder = files.dirname wildcard_path in
      elim (files.opendir folder) [
        | none ↦ (0, p)
        | some names ↦
            visit_all (trigger_many_ulps depth) (folder ++ (47 ∷ [])) (get_basename wildcard_path)
              names 0 p
      ]

-- The counts of trigger_many_processes, and its `ret`.
pub record Counts : Type 0 where
  pub ret : ℕ
  pub successes : ℕ
  pub skippes : ℕ
  pub failures : ℕ

-- A process that was triggered with a wildcard, which gave the flags `r`.
unfoldable pub count_flags : ℕ → Counts → Counts
count_flags r c =
    let success = not (bit_and r patch_success == 0) in
    let skipped = not (bit_and r patch_skipped == 0) in
    let failed = not (bit_and r patch_error == 0) in
    record c {
      successes = if success then suc c.successes else c.successes;
      skippes = if not success && skipped then suc c.skippes else c.skippes;
      failures = if failed then suc c.failures else c.failures;
    }

-- A process that was triggered with one file, which returned `r`.
unfoldable pub count_error : ℕ → Counts → Counts
count_error r c =
    if skippable_error r
    then record c { skippes = suc c.skippes }
    else if r == 0
    then record c { ret = bit_or c.ret r; successes = suc c.successes }
    else record c { ret = bit_or c.ret r; failures = suc c.failures }

-- strchr(ulp_folder_path, '*')
unfoldable pub has_star : List ℕ → Bool
has_star [] = false
has_star (c ∷ cs) = c == 42 || has_star cs

abbrev pub is_wildcard : Option (List ℕ) → Bool
is_wildcard none = false
is_wildcard (some path) = has_star path

abbrev pub no_counts : Counts
no_counts = record { ret = 0; successes = 0; skippes = 0; failures = 0 }

module _ {P : Type 0} (many : List ℕ → P → ℕ × P) (one : Option (List ℕ) → P → ℕ × P) where
  -- One process: what it counts as, and its state.
  unfoldable pub trigger_each : Option (List ℕ) → P → Counts → Counts × P
  trigger_each none p c = let (r, p') = one none p in (count_error r c, p')
  trigger_each (some path) p c =
      let (flags, p1) = many path p in
      let (r, p2) = one (some path) p in
      if has_star path then (count_flags flags c, p1) else (count_error r c, p2)

  -- The loop over the processes.
  unfoldable pub trigger_loop : Option (List ℕ) → List P → Counts → Counts × List P
  trigger_loop path [] c = (c, [])
  trigger_loop path (p ∷ ps) c =
      let (c1, p') = trigger_each path p c in
      let (c2, ps') = trigger_loop path ps c1 in (c2, p' ∷ ps')

  -- trigger_many_processes: the counts that it prints, and its return value in them.
  unfoldable pub trigger_many_processes : Option (List ℕ) → List P → Counts × List P
  trigger_many_processes path ps = trigger_loop path ps no_counts
