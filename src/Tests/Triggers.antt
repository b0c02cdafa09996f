-- ===== src/Tests/Triggers.antt =====
-- A process that is busy once, so that the first attempt to patch it fails.
use libpulp.Base.{
  ◌++◌, ℕ, zero, suc, ◌+◌, ◌≡◌, ◌↔◌, refl, List, [], ◌∷◌, none, some, Bool, true, false,
  if◌then◌else◌, ◌⊎◌,
}
use libpulp.Trigger.Defs.{
  Target, TriggerResult, trigger_process, trigger_target, with_metadata, trigger_livepatch,
  check_metadata, retry_loop, attempt, range_part, revert_part, apply_part,
}
use libpulp.Trigger.Rounds.{Success, trigger_process-Success}
use libpulp.Trigger.Release.{Discipline, Released, trigger_process-Released}
use libpulp.Strings.{get_basename}
use libpulp.Trigger.Folders.{trigger_many_ulps-visit_all}
use libpulp.Trigger.Many.{Files, visit_all, trigger_many_ulps, trigger_many_processes}
use libpulp.Trigger.Exit.{trigger_many_processes-exit}
use libpulp.Trigger.Summary.{
  print_patched_unpatched, find_error, first_error, find_summary, summarize_step, report_of,
  is_none, summary_tag, named, summary, skipped,
}
use libpulp.Trigger.Reported.{IsUnnamed, Complete, print_patched_unpatched-important}
use libpulp.Errors.Codes.{eapplied}

-- Whether its threads are hijacked, and how often it will still be busy.
abbrev Process : Type 0
Process = Bool × ℕ

abbrev apply_busy : ℕ → Bool → ℕ × Process
apply_busy zero held = (0, (held, 0))
apply_busy (suc k) held = (11, (held, k))

abbrev busy : Target Process
busy = record {
  target_compatibility = λ s. (true, s);
  extract_ulp = λ path s. (some path, s);
  load_patch_info = λ m s. (0, s);
  patch_sanity = λ s. (0, s);
  hijack_threads = λ s. if s.0 then (256, s) else (0, (true, s.1));
  range_check = none;
  revert_patches_from_lib = λ l s. (0, s);
  apply_patch = λ m s. apply_busy s.1 s.0;
  restore_threads = λ s. (0, (false, s.1));
}

abbrev Free : Process → Type 0
Free s = s.0 ≡ false

abbrev Held : Process → Type 0
Held s = s.0 ≡ true

applies-Held : (k : ℕ) (held : Bool) → held ≡ true → (apply_busy k held).1.0 ≡ true
applies-Held zero held h = h
applies-Held (suc k) held h = h

busy-Discipline : Discipline busy Free Held
busy-Discipline = record {
  checks = λ s h. h;
  extracts = λ p s h. h;
  loads = λ m s h. h;
  sane = λ s h. h;
  hijacks = λ s h f. rw h refl;
  ranges = λ c e s h. absurd (cc);
  reverts = λ l s h. h;
  applies = λ m s h. applies-Held s.1 s.0 h;
  restores = λ s h e. refl;
}

abbrev path : List ℕ
path = 47 ∷ 112 ∷ []

trigger_process-Released_example :
    Released busy Free
      (trigger_process busy 2 (some path) none false (false, 1)).0
      (trigger_process busy 2 (some path) none false (false, 1)).1
trigger_process-Released_example =
    trigger_process-Released busy Free Held busy-Discipline 2 (some path) none false (false, 1) refl

busy_returns : (trigger_process busy 2 (some path) none false (false, 1)).0 ≡ 0
unfolding trigger_process trigger_target with_metadata trigger_livepatch check_metadata retry_loop
    attempt range_part revert_part apply_part
busy_returns = refl

trigger_process-Success_example :
    (m : List ℕ) × (some path ≡ some m)
    × Success busy m (trigger_process busy 2 (some path) none false (false, 1)).1
trigger_process-Success_example =
    trigger_process-Success busy 2 path none false (false, 1) busy_returns

-- Three processes that return what they hold: patched, skipped and failed.
abbrev codes : List ℕ
codes = 0 ∷ 257 ∷ 268 ∷ []

trigger_many_processes-exit_example :
    let c = (trigger_many_processes (λ p n. (0, n)) (λ p n. (n, n)) none codes).0 in
    ((c.ret ≡ 0) ↔ (c.failures ≡ 0)) × (c.successes + c.skippes + c.failures ≡ 3)
trigger_many_processes-exit_example =
    trigger_many_processes-exit (λ p n. (0, n)) (λ p n. (n, n)) none codes refl

abbrev results : List TriggerResult
results =
    record { patch_name = 97 ∷ []; err = 268 }
    ∷ record { patch_name = 98 ∷ []; err = 257 }
    ∷ record { patch_name = 99 ∷ []; err = 0 }
    ∷ []

print_patched_unpatched-important_example :
    let report = print_patched_unpatched true results in
    IsUnnamed report results ⊎ Complete report results
print_patched_unpatched-important_example = print_patched_unpatched-important true results

-- A patch that is already applied is not named.
unnamed :
    print_patched_unpatched true (record { patch_name = 97 ∷ []; err = eapplied } ∷ [])
    ≡ summary skipped eapplied none
unfolding print_patched_unpatched find_error first_error find_summary summarize_step report_of
    is_none summary_tag named
unnamed = refl

-- A directory with a subdirectory, in which there is one patch.
abbrev tree : Files
tree = record {
  dirname = λ path. path;
  opendir = λ path. some ((97 ∷ []) ∷ []);
  is_directory = λ path. true;
  fnmatch = λ wildcard name. true;
}

trigger_many_ulps-visit_all_example :
    trigger_many_ulps tree (λ patch n. (n, suc n)) true 2 path 0
    ≡ visit_all tree
        (λ patch n. (n, suc n))
        true
        (λ below n. (4, (trigger_many_ulps tree (λ patch k. (k, suc k)) true 1 below n).1))
        (path ++ (47 ∷ []))
        (get_basename path)
        ((97 ∷ []) ∷ [])
        0
        0
trigger_many_ulps-visit_all_example =
    trigger_many_ulps-visit_all tree (λ patch n. (n, suc n)) true 1 path ((97 ∷ []) ∷ [])
      (λ below. 4) 0 refl
