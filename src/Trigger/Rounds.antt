-- ===== src/Trigger/Rounds.antt =====
-- The rounds of the retry loop, and what its success means.
use libpulp.Base.{
  if◌then◌else◌, refl, sym, ap, zero, ◌≢◌, not, none, some, ◌∙◌, Bool-cases, Option, List, ℕ, suc,
  ◌≡◌, ◌==◌, ◌||◌, Bool, true, false, ◌⊎◌, inl, inr, arith,
}
use libpulp.Base.Words.{is_positive}
use libpulp.Errors.Codes.{ethrddettach, eoldulp}
use libpulp.Trigger.Defs.{
  trigger_process, trigger_target, with_metadata, Target, Job, Attempt, attempt, retry_loop,
  apply_part, revert_part, range_part, minus_one, trigger_livepatch, check_metadata,
}

-- The test behind hijack_threads.
abbrev pub ret_fails : ℕ → Bool
ret_fails ret = ret == ethrddettach || is_positive ret

module _ {S : Type 0} (t : Target S) where
  -- The three ways that a round of the loop ends.
  abbrev pub Failed : Job → ℕ → ℕ → S → Type 0
  Failed job retry result s =
      (ret_fails (t.hijack_threads s).0 ≡ true)
      × (retry_loop t job (suc retry) result s ≡ t.hijack_threads s)

  pub retry_loop_cases :
      (job : Job) (retry result : ℕ) (s : S)
      → let s1 = (t.hijack_threads s).1 in
        let a = attempt t job result s1 in
        Failed job retry result s
        ⊎ ((ret_fails (t.hijack_threads s).0 ≡ false)
            × ((retry_loop t job (suc retry) result s ≡ (a.result, (t.restore_threads a.state).1))
                ⊎ ((a.stop ≡ false)
                    × ((t.restore_threads a.state).0 ≡ 0)
                    × (retry_loop t job (suc retry) result s
                        ≡ retry_loop t job retry a.result (t.restore_threads a.state).1))))
  unfolding retry_loop
  retry_loop_cases job retry result s = ground arith

  -- A state that the apply of the patch leads to, with success.
  abbrev pub Applied : List ℕ → S → Type 0
  Applied m s = (k : S) × ((t.apply_patch m k).0 ≡ 0) × (s ≡ (t.apply_patch m k).1)

  apply_part_cases :
      (job : Job) (m : List ℕ) (a : Attempt S)
      → job.livepatch ≡ some m
      → ((a.skip_apply ≡ true) × (apply_part t job a ≡ a))
        ⊎ (((apply_part t job a).result ≡ (t.apply_patch m a.state).0)
            × ((apply_part t job a).state ≡ (t.apply_patch m a.state).1)
            × ((apply_part t job a).result ≡ 0 → (apply_part t job a).stop ≡ true))
  unfolding apply_part
  apply_part_cases job m a e = elim (Bool-cases a.skip_apply) [
    | inl skip ↦ inl (skip, rw (apply_part, e, skip) refl)
    | inr go ↦
        (let result : (apply_part t job a).result ≡ (t.apply_patch m a.state).0 =
            rw (apply_part, e, go) refl in
          inr (
            result,
            rw (apply_part, e, go) refl,
            λ z. let done = sym result ∙ z in rw (apply_part, e, go, done) (ground arith),
          ))
  ]

  revert_part-skip :
      (job : Job) (library : Option (List ℕ)) (result : ℕ) (s : S)
      → job.revert_library ≡ library
      → (revert_part t job result s).skip_apply ≡ true
      → (revert_part t job result s).result ≢ 0
  unfolding revert_part
  revert_part-skip job none result s e skip =
      let off : (revert_part t job result s).skip_apply ≡ false = rw (revert_part, e) refl in
      absurd (ground arith)
  revert_part-skip job (some l) result s e skip =
      let rest : (revert_part t job result s).skip_apply
          ≡ not ((revert_part t job result s).result == 0) =
        rw (revert_part, e) refl in
      ground arith

  attempt-success :
      (job : Job) (m : List ℕ) (result : ℕ) (s : S)
      → job.livepatch ≡ some m
      → result ≢ 0
      → (attempt t job result s).result ≡ 0
      → Applied m (attempt t job result s).state × ((attempt t job result s).stop ≡ true)
  unfolding attempt
  attempt-success job m result s e bad z = elim (Bool-cases (range_part t job s).0) [
    | inl on ↦
        (let a = revert_part t job result (range_part t job s).1 in
          let same : attempt t job result s ≡ apply_part t job a = rw (attempt, on) refl in
          let zero_result : (apply_part t job a).result ≡ 0 = sym (ap (λ k. k.result) same) ∙ z in
          elim (apply_part_cases job m a e) [
            | inl (skip, kept) ↦ absurd (
                revert_part-skip job job.revert_library result _ refl skip
                  (sym (ap (λ k. k.result) kept) ∙ zero_result))
            | inr (r, st, stops) ↦ (
              (a.state, sym r ∙ zero_result, ap (λ k. k.state) same ∙ st),
              ap (λ k. k.stop) same ∙ stops zero_result,
            )
          ])
    | inr off ↦
        let same : (attempt t job result s).result ≡ result = rw (attempt, off) refl in
        absurd (bad (sym same ∙ z))
  ]

  -- A round's end is the restore behind a successful apply.
  abbrev pub Success : List ℕ → S → Type 0
  Success m s = (k : S) × Applied m k × (s ≡ (t.restore_threads k).1)

  retry_loop-Success :
      (job : Job) (m : List ℕ) (retry result : ℕ) (s : S)
      → job.livepatch ≡ some m
      → result ≢ 0
      → (retry_loop t job retry result s).0 ≡ 0
      → Success m (retry_loop t job retry result s).1
  unfolding retry_loop
  retry_loop-Success job m zero result s e bad z = absurd (bad z)
  retry_loop-Success job m (suc retry) result s e bad z =
      let hijacked = t.hijack_threads s in
      let a = attempt t job result hijacked.1 in
      elim (retry_loop_cases job retry result s) [
        | inl (f, ends) ↦ let same = ap (λ x. x.0) ends in absurd (ground (arith, same, z, f))
        | inr (f, inl ends) ↦
            let (done, stops) =
              attempt-success job m result hijacked.1 e bad (sym (ap (λ x. x.0) ends) ∙ z) in
            (a.state, done, ap (λ x. x.1) ends)
        | inr (f, inr (goes, ok, ends)) ↦
            let still : a.result ≢ 0 = λ r.
              let stops = (attempt-success job m result hijacked.1 e bad r).1 in ground arith in
            let (k, done, same) =
              retry_loop-Success job m retry a.result (t.restore_threads a.state).1 e still
                (sym (ap (λ x. x.0) ends) ∙ z) in
            (k, done, ap (λ x. x.1) ends ∙ same)
      ]

  if-Success :
      (c : Bool) (x y : ℕ × S) (m : List ℕ)
      → (x.0 ≡ 0 → Success m x.1)
      → (c ≡ false → y.0 ≢ 0)
      → (if c then x else y).0 ≡ 0
      → Success m (if c then x else y).1
  if-Success true x y m h k z = h z
  if-Success false x y m h k z = absurd (k refl z)

  with_livepatch-Success :
      (retries : ℕ) (m : List ℕ) (library : Option (List ℕ)) (check : Bool) (s : S)
      → (trigger_livepatch t retries (some m) library check s).0 ≡ 0
      → Success m (trigger_livepatch t retries (some m) library check s).1
  unfolding trigger_livepatch
  with_livepatch-Success retries m library check s =
      let job : Job = record {
        livepatch = some m;
        revert_library = library;
        check_stack = check;
      } in
      let checked = check_metadata t (some m) s in
      if-Success (checked.0 == 0) (retry_loop t job retries minus_one checked.1) checked m
        (retry_loop-Success job m retries minus_one checked.1 refl (λ e. omega arith))
        (λ f z. ground arith)

  with_metadata-Success :
      (retries : ℕ) (meta : Option (List ℕ)) (library : Option (List ℕ)) (check : Bool) (s : S)
      → (with_metadata t retries library check meta s).0 ≡ 0
      → (m : List ℕ) × (meta ≡ some m) × Success m (with_metadata t retries library check meta s).1
  unfolding with_metadata
  with_metadata-Success retries none library check s z = absurd (omega arith)
  with_metadata-Success retries (some m) library check s z =
      (m, refl, with_livepatch-Success retries m library check s z)

-- If trigger_one_process returns 0 for the path of a patch, then the metadata came out of that
-- file, an apply_patch of it returned 0, and restore_threads was the next call and the last one.
-- Nothing is claimed of what restore_threads returned.
pub trigger_process-Success :
    {S : Type 0} (t : Target S) (retries : ℕ) (path : List ℕ) (library : Option (List ℕ))
    (check : Bool) (s : S)
    → (trigger_process t retries (some path) library check s).0 ≡ 0
    → (m : List ℕ) × ((t.extract_ulp path (t.target_compatibility s).1).0 ≡ some m)
      × Success t m (trigger_process t retries (some path) library check s).1
unfolding trigger_process trigger_target
trigger_process-Success t retries path library check s z =
    let compatible = t.target_compatibility s in
    let extracted = t.extract_ulp path compatible.1 in
    elim (Bool-cases compatible.0) [
      | inl on ↦
          let same : trigger_process t retries (some path) library check s
              ≡ with_metadata t retries library check extracted.0 extracted.1 =
            rw (trigger_process, trigger_target, on) refl in
          let (m, meta, (k, done, st)) =
            with_metadata-Success t retries extracted.0 library check extracted.1
              (sym (ap (λ x. x.0) same) ∙ z) in
          (m, meta, (k, done, ap (λ x. x.1) same ∙ st))
      | inr off ↦
          let same : (trigger_process t retries (some path) library check s).0 ≡ eoldulp =
            rw (trigger_process, off) refl in
          absurd (omega (arith, same, z))
    ]
