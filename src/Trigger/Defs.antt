-- ===== src/Trigger/Defs.antt =====
-- tools/trigger.c for one process: the checks, the retry loop and the recorded result. The calls
-- that look at the process or change it are operations on a state.
use libpulp.Base.{
  ℕ, zero, suc, ◌-◌, List, ◌∷◌, Option, none, some, Bool, true, false, ◌==◌, ◌||◌, ◌&&◌, not,
  if◌then◌else◌,
}
use libpulp.Base.Words.{is_positive, int_mod}
use libpulp.Errors.Codes.{
  ebuildid, enotargetlib, eusrblocked, ewildnomatch, eapplied, enopatch, esrch, eoldulp, enometa,
  ethrddettach,
}

abbrev pub skippable_error : ℕ → Bool
skippable_error err =
    err == ebuildid
    || err == enotargetlib
    || err == eusrblocked
    || err == ewildnomatch
    || err == eapplied
    || err == enopatch
    || err == esrch

-- struct trigger_results
pub record TriggerResult : Type 0 where
  pub patch_name : List ℕ
  pub err : ℕ

-- What trigger_one_process asks of the process and of the patch, in a state `S` of both; an `int`
-- is its bit pattern. A patch that extract_ulp_from_so_to_mem cannot give is `none`. `range_check`
-- is coarse_library_range_check, where it is compiled in.
pub record Target (S : Type 0) : Type 0 where
  pub target_compatibility : S → Bool × S
  pub extract_ulp : List ℕ → S → Option (List ℕ) × S
  pub load_patch_info : List ℕ → S → ℕ × S
  pub patch_sanity : S → ℕ × S
  pub hijack_threads : S → ℕ × S
  pub range_check : Option (S → ℕ × S)
  pub revert_patches_from_lib : List ℕ → S → ℕ × S
  pub apply_patch : List ℕ → S → ℕ × S
  pub restore_threads : S → ℕ × S

-- -1 as an int
abbrev pub minus_one : ℕ
minus_one = int_mod - 1

-- The patch to apply and the library to revert patches from.
pub record Job : Type 0 where
  pub livepatch : Option (List ℕ)
  pub revert_library : Option (List ℕ)
  pub check_stack : Bool

-- `result` and the state behind a part of an attempt, and whether it was told to stop retrying or,
-- for the revert, to skip the apply.
pub record Attempt (S : Type 0) : Type 0 where
  pub result : ℕ
  pub stop : Bool
  pub skip_apply : Bool
  pub state : S

abbrev pub is_given : {A : Type 0} → Option A → Bool
is_given none = false
is_given (some a) = true

module _ {S : Type 0} (t : Target S) where
  -- The revert of an attempt.
  unfoldable pub revert_part : Job → ℕ → S → Attempt S
  revert_part job result s = elim job.revert_library [
    | none ↦ record { result = result; stop = false; skip_apply = false; state = s }
    | some library ↦
        let (r, s') = t.revert_patches_from_lib library s in
        let fatal = r == minus_one in
        let r' = if is_given job.livepatch && (r == enotargetlib || r == enopatch) then 0 else r in
        record { result = r'; stop = fatal || r' == 0; skip_apply = not (r' == 0); state = s' }
  ]

  -- The apply of an attempt, behind its revert.
  unfoldable pub apply_part : Job → Attempt S → Attempt S
  apply_part job a = elim job.livepatch [
    | none ↦ a
    | some livepatch ↦
        let (r, s) = t.apply_patch livepatch a.state in
        if a.skip_apply then a else record {
          result = r;
          stop = a.stop || r == minus_one || r == 0;
          skip_apply = false;
          state = s;
        }
  ]

  -- The stack check of an attempt: whether to go on.
  unfoldable pub range_part : Job → S → Bool × S
  range_part job s = elim t.range_check [
    | none ↦ (true, s)
    | some check ↦ let (r, s') = check s in if job.check_stack then (r == 0, s') else (true, s)
  ]

  -- What is done to the hijacked process in one attempt.
  unfoldable pub attempt : Job → ℕ → S → Attempt S
  attempt job result s =
      let (go_on, s') = range_part job s in
      if go_on
      then apply_part job (revert_part job result s')
      else record { result = result; stop = false; skip_apply = true; state = s' }

  -- The loop `while (retry)`, and the code behind it.
  unfoldable pub retry_loop : Job → ℕ → ℕ → S → ℕ × S
  retry_loop job zero result s = (result, s)
  retry_loop job (suc retry) result s =
      let (ret, s1) = t.hijack_threads s in
      let a = attempt job result s1 in
      let (restored, s2) = t.restore_threads a.state in
      let rest = retry_loop job retry a.result s2 in
      if ret == ethrddettach || is_positive ret
      then (ret, s1)
      else if a.stop || not (restored == 0)
      then (a.result, s2)
      else rest

  -- The checks of the metadata, behind its extraction.
  unfoldable pub check_metadata : Option (List ℕ) → S → ℕ × S
  check_metadata none s = (0, s)
  check_metadata (some livepatch) s =
      let (r, s1) = t.load_patch_info livepatch s in
      let (r', s2) = t.patch_sanity s1 in if r == 0 then (r', s2) else (r, s1)

  unfoldable pub trigger_livepatch : ℕ → Option (List ℕ) → Option (List ℕ) → Bool → S → ℕ × S
  trigger_livepatch retries livepatch revert_library check_stack s =
      let (ret, s1) = check_metadata livepatch s in
      let job : Job = record {
        livepatch = livepatch;
        revert_library = revert_library;
        check_stack = check_stack;
      } in
      if ret == 0 then retry_loop job retries minus_one s1 else (ret, s1)

  -- Behind extract_ulp_from_so_to_mem.
  unfoldable pub with_metadata : ℕ → Option (List ℕ) → Bool → Option (List ℕ) → S → ℕ × S
  with_metadata retries revert_library check_stack none s = (enometa, s)
  with_metadata retries revert_library check_stack (some livepatch) s =
      trigger_livepatch retries (some livepatch) revert_library check_stack s

  -- Behind the check of the version.
  unfoldable pub trigger_target : ℕ → Option (List ℕ) → Option (List ℕ) → Bool → S → ℕ × S
  trigger_target retries none revert_library check_stack s =
      trigger_livepatch retries none revert_library check_stack s
  trigger_target retries (some container_path) revert_library check_stack s =
      let (livepatch, s') = t.extract_ulp container_path s in
      with_metadata retries revert_library check_stack livepatch s'

  -- The body of trigger_one_process, up to metadata_clean.
  unfoldable pub trigger_process : ℕ → Option (List ℕ) → Option (List ℕ) → Bool → S → ℕ × S
  trigger_process retries container_path revert_library check_stack s =
      let (compatible, s') = t.target_compatibility s in
      if compatible
      then trigger_target retries container_path revert_library check_stack s'
      else (eoldulp, s')

  -- The name of an entry: the path of the patch, or the text that snprintf writes for a revert.
  unfoldable pub entry_name :
      (Option (List ℕ) → List ℕ) → Option (List ℕ) → Option (List ℕ) → List ℕ
  entry_name reverted none library = reverted library
  entry_name reverted (some path) library = path

  -- trigger_one_process: the error, the state and the results of the process.
  unfoldable pub trigger_one_process :
      (Option (List ℕ) → List ℕ)
      → ℕ
      → Option (List ℕ)
      → Option (List ℕ)
      → Bool
      → S × List TriggerResult
      → ℕ × S × List TriggerResult
  trigger_one_process reverted retries container_path revert_library check_stack (s, results) =
      let (ret, s') = trigger_process retries container_path revert_library check_stack s in
      (
        ret,
        s',
        record { patch_name = entry_name reverted container_path revert_library; err = ret }
            ∷ results,
      )
