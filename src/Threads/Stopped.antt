-- ===== src/Threads/Stopped.antt =====
-- What hijack_threads returns, and that restore_threads undoes it.
use mathlib.Core.Option.{some-injective}
use libpulp.Base.{
  ℕ, ◌≡◌, ◌≢◌, refl, sym, ap, ◌∙◌, subst, List, [], ◌∷◌, ◌++◌, Option, none, some, true, false,
  ◌==◌, Bool-cases, inl, inr, arith, ◌⊎◌, if◌then◌else◌,
}
use libpulp.Errors.Codes.{ethrdattach, ethrddettach, esrch, enoent}
use libpulp.Threads.Defs.{
  Tracer, UlpThread, UlpProcess, Pass, has_thread, Read, ended, failed, read_tasks, detach_all,
  children_restore, end_pass, hijack_loop, hijack_threads, release_all, restore_threads,
}
use libpulp.Threads.Release.{detach_all_lem, release_all_lem}
use libpulp.Threads.Hijack.{Attached, Nearly, Covers, After, read_tasks-After}

module _ {R S : Type 0} (k : Tracer R S) where
  -- The threads of the process are stopped: those attached are those of its list, and it lists all
  -- that one of the passes gave.
  abbrev pub Stopped : List Pass → UlpProcess R → S → Type 0
  Stopped passes p s =
      (p.all_threads_hijacked ≡ true)
      × Attached k p.threads s
      × ((pass : Pass) × (before : List Pass) × (after : List Pass) × (passes
            ≡ before ++ (pass ∷ after))
          × Covers k p.threads pass.tids)

  -- The threads were let go of again.
  abbrev pub LetGo : ℕ → UlpProcess R → S → Type 0
  LetGo r p s = (p.threads ≡ []) × ((r ≡ ethrddettach) ⊎ ((r ≡ ethrdattach) × Nearly k [] s))

  abbrev pub Outcome : List Pass → ℕ × UlpProcess R × S → Type 0
  Outcome passes (r, p, s) = ((r ≡ 0) × Stopped passes p s) ⊎ LetGo r p s

  children_restore-LetGo :
      (p : UlpProcess R) (s : S)
      → Nearly k p.threads s
      → let (r, p', s') = children_restore k p s in LetGo r p' s'
  unfolding children_restore has_thread
  children_restore-LetGo p s (last, near) = elim (Bool-cases (detach_all k p.threads s).0) [
    | inl fatal ↦ (refl, inl (rw fatal refl))
    | inr good ↦ (
      refl,
      inr (rw good refl, (last, λ x ne. detach_all_lem k p.threads x s good (inl (near x ne)))),
    )
  ]

  abbrev Ends : List Pass → Option (ℕ × UlpProcess R × S) → Type 0
  Ends passes none = Unit
  Ends passes (some o) = Outcome passes o

  more_passes :
      (pass : Pass) (passes : List Pass) (o : Option (ℕ × UlpProcess R × S))
      → Ends passes o
      → Ends (pass ∷ passes) o
  more_passes pass passes none e = tt
  more_passes pass passes (some o) (inl (z, (on, a, (read, before, after, same, covers)))) =
      inl (z, (on, a, (read, pass ∷ before, after, ap (λ l. pass ∷ l) same, covers)))
  more_passes pass passes (some o) (inr e) = inr e

  end_pass-Ends :
      (next : UlpProcess R → S → Option (ℕ × UlpProcess R × S)) (pass : Pass) (passes : List Pass)
      (old : List (UlpThread R)) (r : Read R S)
      → After k old pass.tids r
      → ((p : UlpProcess R) (s : S) → Attached k p.threads s → Ends passes (next p s))
      → Ends (pass ∷ passes) (end_pass k next pass.errno r)
  unfolding end_pass
  end_pass-Ends next pass passes old (failed p s) near ih = inr (children_restore-LetGo p s near)
  end_pass-Ends next pass passes old (ended rerun p s) (a, covers, keep) ih =
      let r : Read R S = ended rerun p s in
      let back : Ends (pass ∷ passes) (some (children_restore k p s)) =
        inr (children_restore-LetGo p s (0, λ x ne. a x)) in
      elim (Bool-cases (pass.errno == 0)) [
        | inr broken ↦
            let same : end_pass k next pass.errno r ≡ some (children_restore k p s) =
              rw (end_pass, broken) refl in
            subst (Ends (pass ∷ passes)) (sym same) back
        | inl clean ↦ elim (Bool-cases rerun) [
          | inl again ↦
              let same : end_pass k next pass.errno r ≡ next p s =
                rw (end_pass, clean, again) refl in
              subst (Ends (pass ∷ passes)) (sym same)
                (more_passes pass passes (next p s) (ih p s a))
          | inr last ↦
              let p' : UlpProcess R = record p { all_threads_hijacked = true } in
              let same : end_pass k next pass.errno r ≡ some (0, p', s) =
                rw (end_pass, clean, last) refl in
              subst (Ends (pass ∷ passes)) (sym same)
                (inl (refl, (refl, a, (pass, [], passes, refl, covers))))
        ]
      ]

  hijack_loop-Ends :
      (passes : List Pass) (p : UlpProcess R) (s : S)
      → Attached k p.threads s
      → Ends passes (hijack_loop k passes p s)
  unfolding hijack_loop
  hijack_loop-Ends [] p s a = tt
  hijack_loop-Ends (pass ∷ passes) p s a =
      end_pass-Ends (hijack_loop k passes) pass passes p.threads (read_tasks k pass.tids false p s)
        (read_tasks-After k pass.tids false p s a) (hijack_loop-Ends passes)

-- For a process of which no thread is attached, whose list of threads is empty and that is not
-- marked as hijacked, whatever the calls return, and for a directory that is read often enough for
-- hijack_threads to return. If opendir succeeds: where it returns 0, the attached threads are those of
-- the list, and the list has all that one of the reads of the task directory gave; otherwise the
-- list is empty again and it returns ETHRDDETTACH, or ETHRDATTACH with at most one thread still
-- attached. If opendir fails, it returns ESRCH for ENOENT and else its errno, and does nothing.
pub hijack_threads-Outcome :
    {R S : Type 0} (k : Tracer R S) (opened : ℕ) (passes : List Pass) (p : UlpProcess R) (s : S)
    (o : ℕ × UlpProcess R × S)
    → p.all_threads_hijacked ≡ false
    → p.threads ≡ []
    → ((x : ℕ) → k.traced s x ≡ false)
    → hijack_threads k opened passes p s ≡ some o
    → ((opened ≡ 0) × Outcome k passes o)
      ⊎ ((opened ≢ 0) × (o ≡ (if opened == enoent then esrch else opened, p, s)))
unfolding hijack_threads has_thread
hijack_threads-Outcome k opened passes p s o fresh empty free h =
    let a : Attached k p.threads s = λ x. free x ∙ sym (ap (λ ts. has_thread ts x) empty) in
    elim (Bool-cases (opened == 0)) [
      | inl good ↦
          let here : (opened == enoent) ≡ false = ground arith in
          let same : hijack_threads k opened passes p s ≡ hijack_loop k passes p s =
            rw (hijack_threads, fresh, here, good) refl in
          inl (ground arith, subst (Ends k passes) (sym same ∙ h) (hijack_loop-Ends k passes p s a))
      | inr shut ↦
          let nonzero : opened ≢ 0 = λ z. ground arith in
          elim (Bool-cases (opened == enoent)) [
            | inl gone ↦
                let same : hijack_threads k opened passes p s ≡ some (esrch, p, s) =
                  rw (hijack_threads, fresh, gone) refl in
                inr (nonzero, rw gone (some-injective o (esrch, p, s) (sym h ∙ same)))
            | inr other ↦
                let same : hijack_threads k opened passes p s ≡ some (opened, p, s) =
                  rw (hijack_threads, fresh, other, shut) refl in
                inr (nonzero, rw other (some-injective o (opened, p, s) (sym h ∙ same)))
          ]
    ]

-- For a process whose attached threads are those of its list: restore_threads empties the list,
-- and if it returns 0, then no thread is attached any more.
pub restore_threads-free :
    {R S : Type 0} (k : Tracer R S) (p : UlpProcess R) (s : S)
    → Attached k p.threads s
    → let (r, p', s') = restore_threads k p s in
      (p'.threads ≡ [])
      × (p'.all_threads_hijacked ≡ false)
      × (r ≡ 0 → (x : ℕ) → k.traced s' x ≡ false)
unfolding restore_threads
restore_threads-free k p s a = (
  refl,
  refl,
  λ z x.
      let good : (release_all k p.threads s).0 ≡ false = ground arith in
      release_all_lem k p.threads x s good (a x),
)
