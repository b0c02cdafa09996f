-- ===== src/Trigger/Release.antt =====
-- The threads of the process are given back after each attempt.
use native.Mathlib.Decide.{ℕ_discrete}
use libpulp.Base.{
  ℕ, zero, suc, ◌≡◌, ◌≢◌, refl, List, Option, none, some, Bool, true, false, ◌==◌, ◌⊎◌, inl, inr,
  if◌then◌else◌, subst, sym,
}
use libpulp.Errors.Codes.{eoldulp}
use libpulp.Trigger.Rounds.{ret_fails, retry_loop_cases}
use libpulp.Trigger.Defs.{
  Target, Job, Attempt, revert_part, apply_part, range_part, attempt, retry_loop, check_metadata,
  trigger_livepatch, trigger_process, trigger_target, with_metadata, minus_one,
}

-- How the calls go together: `Free` is a process that runs by itself, `Held` one whose threads
-- were all hijacked. Only hijack_threads and restore_threads lead from one to the other. Nothing
-- is said of a call of one of these that fails.
pub record Discipline {S : Type 0} (t : Target S) (Free Held : S → Type 0) : Type 0 where
  pub checks : (s : S) → Free s → Free (t.target_compatibility s).1
  pub extracts : (p : List ℕ) (s : S) → Free s → Free (t.extract_ulp p s).1
  pub loads : (m : List ℕ) (s : S) → Free s → Free (t.load_patch_info m s).1
  pub sane : (s : S) → Free s → Free (t.patch_sanity s).1
  pub hijacks :
      (s : S) → Free s → ret_fails (t.hijack_threads s).0 ≡ false → Held (t.hijack_threads s).1
  pub ranges :
      (check : S → ℕ × S) → t.range_check ≡ some check → (s : S) → Held s → Held (check s).1
  pub reverts : (l : List ℕ) (s : S) → Held s → Held (t.revert_patches_from_lib l s).1
  pub applies : (m : List ℕ) (s : S) → Held s → Held (t.apply_patch m s).1
  pub restores : (s : S) → Held s → (t.restore_threads s).0 ≡ 0 → Free (t.restore_threads s).1

-- A hijack that failed and whose error is returned, and that was done last.
abbrev pub IsHijackFailure : {S : Type 0} → Target S → ℕ → S → Type 0
IsHijackFailure {S} t ret s =
    (k : S) × (ret_fails (t.hijack_threads k).0 ≡ true) × ((ret, s) ≡ t.hijack_threads k)

-- A state that the command may leave: the process runs by itself, or the last call was a
-- hijack_threads that failed, or a restore_threads that failed.
abbrev pub Released : {S : Type 0} → Target S → (S → Type 0) → ℕ → S → Type 0
Released {S} t Free ret s =
    Free s
    ⊎ (IsHijackFailure t ret s
        ⊎ ((k : S) × ((t.restore_threads k).0 ≢ 0) × (s ≡ (t.restore_threads k).1)))

module _ {S : Type 0} (t : Target S) (Free Held : S → Type 0) (d : Discipline t Free Held) where
  if-Held :
      (c : Bool) (x y : Attempt S) → Held x.state → Held y.state → Held (if c then x else y).state
  if-Held true x y h k = h
  if-Held false x y h k = k

  if-Held_pair : (c : Bool) (x y : Bool × S) → Held x.1 → Held y.1 → Held (if c then x else y).1
  if-Held_pair true x y h k = h
  if-Held_pair false x y h k = k

  revert_part-Held :
      (job : Job) (library : Option (List ℕ)) (result : ℕ) (s : S)
      → job.revert_library ≡ library
      → Held s
      → Held (revert_part t job result s).state
  unfolding revert_part
  revert_part-Held job none result s e h = rw e h
  revert_part-Held job (some l) result s e h = rw e (d.reverts l s h)

  apply_part-Held :
      (job : Job) (livepatch : Option (List ℕ)) (a : Attempt S)
      → job.livepatch ≡ livepatch
      → Held a.state
      → Held (apply_part t job a).state
  unfolding apply_part
  apply_part-Held job none a e h = rw e h
  apply_part-Held job (some m) a e h = rw e (if-Held a.skip_apply a _ h (d.applies m a.state h))

  range_part-Held :
      (job : Job) (check : Option (S → ℕ × S)) (s : S)
      → t.range_check ≡ check
      → Held s
      → Held (range_part t job s).1
  unfolding range_part
  range_part-Held job none s e h = rw e h
  range_part-Held job (some check) s e h =
      rw e (if-Held_pair job.check_stack _ (true, s) (d.ranges check e s h) h)

  attempt-Held : (job : Job) (result : ℕ) (s : S) → Held s → Held (attempt t job result s).state
  unfolding attempt
  attempt-Held job result s h =
      let ranged = range_part-Held job t.range_check s refl h in
      let s1 = (range_part t job s).1 in
      let reverted = revert_part-Held job job.revert_library result s1 refl ranged in
      if-Held (range_part t job s).0 (apply_part t job (revert_part t job result s1)) _
        (apply_part-Held job job.livepatch (revert_part t job result s1) refl reverted) ranged

  restored-Released : (ret : ℕ) (s : S) → Held s → Released t Free ret (t.restore_threads s).1
  restored-Released ret s h = elim (ℕ_discrete (t.restore_threads s).0 0) [
    | yes e ↦ inl (d.restores s h e)
    | no ne ↦ inr (inr (s, ne, refl))
  ]

  abbrev Ends : ℕ × S → Type 0
  Ends e = Released t Free e.0 e.1

  failed-Ends : (s : S) → ret_fails (t.hijack_threads s).0 ≡ true → Ends (t.hijack_threads s)
  failed-Ends s f = inr (inl (s, f, refl))

  retry_loop-Ends :
      (job : Job) (retry result : ℕ) (s : S) → Free s → Ends (retry_loop t job retry result s)
  unfolding retry_loop
  retry_loop-Ends job zero result s h = inl h
  retry_loop-Ends job (suc retry) result s h =
      let a = attempt t job result (t.hijack_threads s).1 in
      elim (retry_loop_cases t job retry result s) [
        | inl (f, e) ↦ subst Ends (sym e) (failed-Ends s f)
        | inr (f, next) ↦
            (let held = attempt-Held job result (t.hijack_threads s).1 (d.hijacks s h f) in
              elim next [
                | inl e ↦ subst Ends (sym e) (restored-Released a.result a.state held)
                | inr (goes, ok, e) ↦ subst Ends (sym e) (
                    retry_loop-Ends job retry a.result (t.restore_threads a.state).1
                      (d.restores a.state held ok))
              ])
      ]

  if-Ends : (c : Bool) (x y : ℕ × S) → Ends x → Ends y → Ends (if c then x else y)
  if-Ends true x y h k = h
  if-Ends false x y h k = k

  if-Free : (c : Bool) (x y : ℕ × S) → Free x.1 → Free y.1 → Free (if c then x else y).1
  if-Free true x y h k = h
  if-Free false x y h k = k

  check_metadata-Free : (meta : Option (List ℕ)) (s : S) → Free s → Free (check_metadata t meta s).1
  unfolding check_metadata
  check_metadata-Free none s h = h
  check_metadata-Free (some m) s h =
      let loaded = d.loads m s h in
      let good = (t.load_patch_info m s).0 == 0 in
      if-Free good _ _ (d.sane (t.load_patch_info m s).1 loaded) loaded

  trigger_livepatch-Ends :
      (retries : ℕ) (meta library : Option (List ℕ)) (check : Bool) (s : S)
      → Free s
      → Ends (trigger_livepatch t retries meta library check s)
  unfolding trigger_livepatch
  trigger_livepatch-Ends retries meta library check s h =
      let checked = check_metadata-Free meta s h in
      let job : Job = record { livepatch = meta; revert_library = library; check_stack = check } in
      if-Ends ((check_metadata t meta s).0 == 0) _ _
        (retry_loop-Ends job retries minus_one (check_metadata t meta s).1 checked) (inl checked)

  extracted-Ends :
      (retries : ℕ) (library : Option (List ℕ)) (check : Bool) (meta : Option (List ℕ)) (s : S)
      → Free s
      → Ends (with_metadata t retries library check meta s)
  unfolding with_metadata
  extracted-Ends retries library check none s h = inl h
  extracted-Ends retries library check (some m) s h =
      trigger_livepatch-Ends retries (some m) library check s h

  trigger_target-Ends :
      (retries : ℕ) (path library : Option (List ℕ)) (check : Bool) (s : S)
      → Free s
      → Ends (trigger_target t retries path library check s)
  unfolding trigger_target
  trigger_target-Ends retries none library check s h =
      trigger_livepatch-Ends retries none library check s h
  trigger_target-Ends retries (some p) library check s h =
      extracted-Ends retries library check (t.extract_ulp p s).0 (t.extract_ulp p s).1
        (d.extracts p s h)

-- For a process that runs by itself and whose calls keep the discipline: after trigger_one_process,
-- whatever the number of retries and the outcome of every call, the process runs by itself again,
-- unless the last call to it was a hijack_threads that failed, whose error is then returned, or a
-- restore_threads that failed.
pub trigger_process-Released :
    {S : Type 0} (t : Target S) (Free Held : S → Type 0)
    → Discipline t Free Held
    → (retries : ℕ) (path library : Option (List ℕ)) (check : Bool) (s : S) → Free s
    → Released t Free
        (trigger_process t retries path library check s).0
        (trigger_process t retries path library check s).1
unfolding trigger_process
trigger_process-Released t Free Held d retries path library check s h =
    let checked = d.checks s h in
    let s1 = (t.target_compatibility s).1 in
    if-Ends t Free Held d (t.target_compatibility s).0
      (trigger_target t retries path library check s1) (eoldulp, s1)
      (trigger_target-Ends t Free Held d retries path library check s1 checked) (inl checked)
