-- ===== src/Threads/Release.antt =====
-- Which threads are still attached once the lists of them were detached.
use libpulp.Base.{
  ℕ, ◌≡◌, sym, ap, ◌∙◌, List, [], ◌∷◌, false, ◌==◌, ◌||◌, Bool-cases, inl, inr, arith, ◌⊎◌,
}
use native.Mathlib.Decide.{ℕ_discrete}
use libpulp.Threads.Defs.{Tracer, UlpThread, has_thread, detach_all, release_all}

module _ {R S : Type 0} (k : Tracer R S) where
  detach-stays : (t x : ℕ) (s : S) → k.traced s x ≡ false → k.traced (k.detach t s).1 x ≡ false
  detach-stays t x s h = elim (ℕ_discrete x t) [
    | no ne ↦ k.detach_other t x s ne ∙ h
    | yes e ↦ elim (Bool-cases (k.detach t s).0) [
      | inl bad ↦
          ap (k.traced (k.detach t s).1) e ∙ k.detach_failed t s bad ∙ sym (ap (k.traced s) e) ∙ h
      | inr ok ↦ ap (k.traced (k.detach t s).1) e ∙ k.detached_lem t s ok
    ]
  ]

  detach_all-stays :
      (ts : List (UlpThread R)) (x : ℕ) (s : S)
      → k.traced s x ≡ false
      → k.traced (detach_all k ts s).1 x ≡ false
  unfolding detach_all
  detach_all-stays [] x s h = h
  detach_all-stays (t ∷ ts) x s h =
      detach_all-stays ts x (k.detach t.tid s).1 (detach-stays t.tid x s h)

  -- Detached without a failure: what was attached and not in the list.
  pub detach_all_lem :
      (ts : List (UlpThread R)) (x : ℕ) (s : S)
      → (detach_all k ts s).0 ≡ false
      → (k.traced s x ≡ has_thread ts x) ⊎ (k.traced s x ≡ false)
      → k.traced (detach_all k ts s).1 x ≡ false
  unfolding detach_all has_thread
  detach_all_lem [] x s ok (inl h) = h
  detach_all_lem [] x s ok (inr h) = h
  detach_all_lem (t ∷ ts) x s ok (inr h) = detach_all-stays (t ∷ ts) x s h
  detach_all_lem (t ∷ ts) x s ok (inl h) =
      let s1 = (k.detach t.tid s).1 in
      let first : (k.detach t.tid s).0 ≡ false = ground arith in
      let others : (detach_all k ts s1).0 ≡ false = ground arith in
      elim (ℕ_discrete x t.tid) [
        | yes e ↦ detach_all-stays ts x s1 (ap (k.traced s1) e ∙ k.detached_lem t.tid s first)
        | no ne ↦
            let away : (t.tid == x) ≡ false = ground arith in
            detach_all_lem ts x s1 others
              (inl (k.detach_other t.tid x s ne ∙ h ∙ ap (λ b. b || has_thread ts x) away))
      ]

  set-stays :
      (t : UlpThread R) (x : ℕ) (s : S)
      → k.traced s x ≡ false
      → k.traced (k.set_regs t.tid t.context s).1 x ≡ false
  set-stays t x s h = k.set_regs_lem t.tid x t.context s ∙ h

  release_all-stays :
      (ts : List (UlpThread R)) (x : ℕ) (s : S)
      → k.traced s x ≡ false
      → k.traced (release_all k ts s).1 x ≡ false
  unfolding release_all
  release_all-stays [] x s h = h
  release_all-stays (t ∷ ts) x s h =
      let s1 = (k.set_regs t.tid t.context s).1 in
      release_all-stays ts x (k.detach t.tid s1).1 (detach-stays t.tid x s1 (set-stays t x s h))

  pub release_all_lem :
      (ts : List (UlpThread R)) (x : ℕ) (s : S)
      → (release_all k ts s).0 ≡ false
      → k.traced s x ≡ has_thread ts x
      → k.traced (release_all k ts s).1 x ≡ false
  unfolding release_all has_thread
  release_all_lem [] x s ok h = h
  release_all_lem (t ∷ ts) x s ok h =
      let s1 = (k.set_regs t.tid t.context s).1 in
      let s2 = (k.detach t.tid s1).1 in
      let same = k.set_regs_lem t.tid x t.context s in
      let first : (k.detach t.tid s1).0 ≡ false = ground arith in
      let others : (release_all k ts s2).0 ≡ false = ground arith in
      elim (ℕ_discrete x t.tid) [
        | yes e ↦ release_all-stays ts x s2 (ap (k.traced s2) e ∙ k.detached_lem t.tid s1 first)
        | no ne ↦
            let away : (t.tid == x) ≡ false = ground arith in
            release_all_lem ts x s2 others
              (k.detach_other t.tid x s1 ne ∙ same ∙ h ∙ ap (λ b. b || has_thread ts x) away)
      ]
