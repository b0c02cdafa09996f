-- ===== src/Threads/Hijack.antt =====
-- Which threads are attached once hijack_threads returns.
use native.Mathlib.Decide.{ℕ_discrete}
use libpulp.Base.{
  ℕ, ◌≡◌, ◌≢◌, refl, sym, ap, ◌∙◌, subst, List, [], ◌∷◌, Option, none, some, Bool, true, false,
  ◌==◌, ◌||◌, Bool-cases, inl, inr, arith, ◌⊎◌, if◌then◌else◌,
}
use libpulp.Threads.Defs.{
  Tracer, UlpThread, UlpProcess, has_thread, hijack_thread, Read, ended, failed, read_tasks,
}

module _ {R S : Type 0} (k : Tracer R S) where
  -- The threads of the list are attached, and no other.
  abbrev pub Attached : List (UlpThread R) → S → Type 0
  Attached ts s = (x : ℕ) → k.traced s x ≡ has_thread ts x

  -- The same but for one thread.
  abbrev pub Nearly : List (UlpThread R) → S → Type 0
  Nearly ts s = (last : ℕ) × ((x : ℕ) → x ≢ last → k.traced s x ≡ has_thread ts x)

  -- What becomes of a new thread.
  abbrev Hijacked : ℕ → UlpProcess R → Option (UlpProcess R) × S → Type 0
  Hijacked tid p h =
      ((h.0 ≡ none) × Nearly p.threads h.1)
      ⊎ ((p' : UlpProcess R) × (h.0 ≡ some p')
          × Attached p'.threads h.1
          × ((x : ℕ) → has_thread p'.threads x ≡ (tid == x || has_thread p.threads x)))

  hijack_context :
      (tid : ℕ) (p : UlpProcess R) (s : S) (o : Option R)
      → Attached p.threads s
      → k.calloc s ≡ true
      → (k.attach tid s).0 ≡ false
      → (k.get_regs tid (k.attach tid s).1).0 ≡ o
      → Hijacked tid p (hijack_thread k tid p s)
  unfolding hijack_thread has_thread
  hijack_context tid p s none a room ok e =
      let s1 = (k.attach tid s).1 in
      let s2 = (k.get_regs tid s1).1 in
      let same : hijack_thread k tid p s ≡ (none, (k.detach tid s2).1) =
        rw (hijack_thread, room, ok, e) refl in
      subst (Hijacked tid p) (sym same) (
        inl (
          refl,
          (
            tid,
            λ x ne.
                k.detach_other tid x s2 ne
                ∙ k.get_regs_lem tid x s1
                ∙ k.attach_other tid x s ne
                ∙ a x,
          ),
        ))
  hijack_context tid p s (some c) a room ok e =
      let s1 = (k.attach tid s).1 in
      let p' : UlpProcess R = record p {
        threads = record { tid = tid; context = c } ∷ p.threads;
        main_thread = if tid == p.pid then some tid else p.main_thread;
      } in
      let same : hijack_thread k tid p s ≡ (some p', (k.get_regs tid s1).1) =
        rw (hijack_thread, room, ok, e) refl in
      subst (Hijacked tid p) (sym same) (
        inr (
          p',
          refl,
          (λ x. elim (ℕ_discrete x tid) [
            | yes here ↦
                let on : (tid == x) ≡ true = ground arith in
                k.get_regs_lem tid x s1
                ∙ ap (k.traced s1) here
                ∙ k.attached_lem tid s ok
                ∙ sym (ap (λ b. b || has_thread p.threads x) on)
            | no ne ↦
                let off : (tid == x) ≡ false = ground arith in
                k.get_regs_lem tid x s1
                ∙ k.attach_other tid x s ne
                ∙ a x
                ∙ sym (ap (λ b. b || has_thread p.threads x) off)
          ]),
          λ x. refl,
        ))

  hijack_new :
      (tid : ℕ) (p : UlpProcess R) (s : S)
      → Attached p.threads s
      → Hijacked tid p (hijack_thread k tid p s)
  unfolding hijack_thread
  hijack_new tid p s a = elim (Bool-cases (k.calloc s)) [
    | inr full ↦
        let same : hijack_thread k tid p s ≡ (none, s) = rw (hijack_thread, full) refl in
        subst (Hijacked tid p) (sym same) (inl (refl, (0, λ x ne. a x)))
    | inl room ↦ elim (Bool-cases (k.attach tid s).0) [
      | inl refused ↦
          let same : hijack_thread k tid p s ≡ (none, (k.attach tid s).1) =
            rw (hijack_thread, room, refused) refl in
          subst (Hijacked tid p) (sym same)
            (inl (refl, (tid, λ x ne. k.attach_other tid x s ne ∙ a x)))
      | inr ok ↦ hijack_context tid p s (k.get_regs tid (k.attach tid s).1).0 a room ok refl
    ]
  ]

  -- All of these numbers, but 0, are threads of the list.
  abbrev pub Covers : List (UlpThread R) → List ℕ → Type 0
  Covers ts [] = Unit
  Covers ts (tid ∷ tids) = ((tid == 0 || has_thread ts tid) ≡ true) × Covers ts tids

  -- How a pass over the directory ends, with the threads of the list still there.
  abbrev pub After : List (UlpThread R) → List ℕ → Read R S → Type 0
  After old tids (ended rerun p s) =
      Attached p.threads s
      × Covers p.threads tids
      × ((x : ℕ) → has_thread old x ≡ true → has_thread p.threads x ≡ true)
  After old tids (failed p s) = Nearly p.threads s

  still :
      (ts us : List (UlpThread R)) (tid : ℕ)
      → ((x : ℕ) → has_thread ts x ≡ true → has_thread us x ≡ true)
      → (tid == 0 || has_thread ts tid) ≡ true
      → (tid == 0 || has_thread us tid) ≡ true
  still ts us tid keep h = elim (Bool-cases (has_thread ts tid)) [
    | inl here ↦ let there = keep tid here in ground arith
    | inr away ↦ ground arith
  ]

  known-After :
      (old : List (UlpThread R)) (tid : ℕ) (tids : List ℕ) (r : Read R S)
      → (tid == 0 || has_thread old tid) ≡ true
      → After old tids r
      → After old (tid ∷ tids) r
  known-After old tid tids (ended rerun p s) h (a, covers, keep) =
      (a, (still old p.threads tid keep h, covers), keep)
  known-After old tid tids (failed p s) h a = a

  grown-After :
      (old new : List (UlpThread R)) (tids : List ℕ) (r : Read R S)
      → ((x : ℕ) → has_thread old x ≡ true → has_thread new x ≡ true)
      → After new tids r
      → After old tids r
  grown-After old new tids (ended rerun p s) grows (a, covers, keep) =
      (a, covers, λ x h. keep x (grows x h))
  grown-After old new tids (failed p s) grows a = a

  pub read_tasks-After :
      (tids : List ℕ) (rerun : Bool) (p : UlpProcess R) (s : S)
      → Attached p.threads s
      → After p.threads tids (read_tasks k tids rerun p s)
  unfolding read_tasks
  read_tasks-After [] rerun p s a = (a, tt, λ x h. h)
  read_tasks-After (tid ∷ tids) rerun p s a =
      elim (Bool-cases (tid == 0 || has_thread p.threads tid)) [
        | inl known ↦
            let same : read_tasks k (tid ∷ tids) rerun p s ≡ read_tasks k tids rerun p s =
              rw (read_tasks, known) refl in
            subst (After p.threads (tid ∷ tids)) (sym same) (
              known-After p.threads tid tids (read_tasks k tids rerun p s) known
                (read_tasks-After tids rerun p s a))
        | inr new ↦
            (let s' = (hijack_thread k tid p s).1 in
              elim (hijack_new tid p s a) [
                | inl (none_left, near) ↦
                    let same : read_tasks k (tid ∷ tids) rerun p s ≡ failed p s' =
                      rw (read_tasks, new, none_left) refl in
                    subst (After p.threads (tid ∷ tids)) (sym same) near
                | inr (p', got, a', grown) ↦
                    let same : read_tasks k (tid ∷ tids) rerun p s ≡ read_tasks k tids true p' s' =
                      rw (read_tasks, new, got) refl in
                    let here : (tid == 0 || has_thread p'.threads tid) ≡ true =
                      ground (arith, grown tid) in
                    subst (After p.threads (tid ∷ tids)) (sym same) (
                      grown-After p.threads p'.threads (tid ∷ tids) (read_tasks k tids true p' s')
                        (λ x h. ground (arith, grown x))
                        (known-After p'.threads tid tids (read_tasks k tids true p' s') here
                          (read_tasks-After tids true p' s' a')))
              ])
      ]
