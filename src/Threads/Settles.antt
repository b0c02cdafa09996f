-- ===== src/Threads/Settles.antt =====
-- hijack_threads comes to an end once the task directory does not change.
use libpulp.Base.{
  ℕ, ◌≡◌, refl, sym, ap, ◌∙◌, subst, List, [], ◌∷◌, ◌++◌, Option, some, Bool, true, false, ◌==◌,
  not, if◌then◌else◌,
}
use libpulp.Threads.Defs.{
  Tracer, UlpThread, UlpProcess, Pass, has_thread, Read, ended, failed, read_tasks,
  children_restore, end_pass, hijack_loop, hijack_threads,
}
use libpulp.Threads.Hijack.{Attached, Covers, After, read_tasks-After}
use libpulp.Errors.Codes.{enoent}

module _ {R S : Type 0} (k : Tracer R S) where
  abbrev Returns : Option (ℕ × UlpProcess R × S) → Type 0
  Returns r = (o : ℕ × UlpProcess R × S) × (r ≡ some o)

  -- A pass that gives no new thread.
  read_tasks-known :
      (tids : List ℕ) (rerun : Bool) (p : UlpProcess R) (s : S)
      → Covers k p.threads tids
      → read_tasks k tids rerun p s ≡ ended rerun p s
  unfolding read_tasks
  read_tasks-known [] rerun p s h = refl
  read_tasks-known (tid ∷ tids) rerun p s h =
      let first = h.0 in
      let same : read_tasks k (tid ∷ tids) rerun p s ≡ read_tasks k tids rerun p s =
        rw (read_tasks, first) refl in
      same ∙ read_tasks-known tids rerun p s h.1

  if-Returns :
      (c : Bool) (x y : Option (ℕ × UlpProcess R × S))
      → Returns x
      → Returns y
      → Returns (if c then x else y)
  if-Returns true x y h i = h
  if-Returns false x y h i = i

  end_pass-Returns :
      (next : UlpProcess R → S → Option (ℕ × UlpProcess R × S)) (errno : ℕ)
      (old : List (UlpThread R)) (tids : List ℕ) (r : Read R S)
      → After k old tids r
      → ((p : UlpProcess R) (s : S)
          → Attached k p.threads s
          → Covers k p.threads tids
          → Returns (next p s))
      → Returns (end_pass k next errno r)
  unfolding end_pass
  end_pass-Returns next errno old tids (failed p s) a h = (children_restore k p s, refl)
  end_pass-Returns next errno old tids (ended rerun p s) (a, covers, keep) h =
      if-Returns (not (errno == 0)) _ _ (children_restore k p s, refl)
        (if-Returns rerun _ _ (h p s a covers) (_, refl))

  hijack_loop-settled :
      (a b : Pass) (after : List Pass) (p : UlpProcess R) (s : S)
      → a.tids ≡ b.tids
      → Attached k p.threads s
      → Returns (hijack_loop k (a ∷ b ∷ after) p s)
  unfolding hijack_loop end_pass
  hijack_loop-settled a b after p s same att =
      end_pass-Returns (hijack_loop k (b ∷ after)) a.errno p.threads a.tids
        (read_tasks k a.tids false p s) (read_tasks-After k a.tids false p s att)
        (λ p' s' att' covers.
          let known : read_tasks k b.tids false p' s' ≡ ended false p' s' =
            read_tasks-known b.tids false p' s' (subst (Covers k p'.threads) same covers) in
          subst (λ r. Returns (end_pass k (hijack_loop k after) b.errno r)) (sym known)
            (if-Returns (not (b.errno == 0)) _ _ (children_restore k p' s', refl) (_, refl)))

  hijack_loop-later :
      (before : List Pass) (a b : Pass) (after : List Pass) (p : UlpProcess R) (s : S)
      → a.tids ≡ b.tids
      → Attached k p.threads s
      → Returns (hijack_loop k (before ++ (a ∷ b ∷ after)) p s)
  unfolding hijack_loop
  hijack_loop-later [] a b after p s same att = hijack_loop-settled a b after p s same att
  hijack_loop-later (pass ∷ before) a b after p s same att =
      end_pass-Returns (hijack_loop k (before ++ (a ∷ b ∷ after))) pass.errno p.threads pass.tids
        (read_tasks k pass.tids false p s) (read_tasks-After k pass.tids false p s att)
        (λ p' s' att' covers. hijack_loop-later before a b after p' s' same att')

-- For a process of which no thread is attached and whose list of threads is empty: hijack_threads
-- returns, at the latest once two reads of the task directory in a row give the same numbers.
pub hijack_threads-settles :
    {R S : Type 0} (k : Tracer R S) (opened : ℕ) (before : List Pass) (a b : Pass)
    (after : List Pass) (p : UlpProcess R) (s : S)
    → a.tids ≡ b.tids
    → p.threads ≡ []
    → ((x : ℕ) → k.traced s x ≡ false)
    → (o : ℕ × UlpProcess R × S) × (hijack_threads k opened (before ++ (a ∷ b ∷ after)) p s
        ≡ some o)
unfolding hijack_threads has_thread
hijack_threads-settles k opened before a b after p s same empty free =
    let att : Attached k p.threads s = λ x. free x ∙ sym (ap (λ ts. has_thread ts x) empty) in
    if-Returns k p.all_threads_hijacked _ _ (_, refl)
      (if-Returns k (opened == enoent) _ _ (_, refl)
        (if-Returns k (not (opened == 0)) _ _ (_, refl)
          (hijack_loop-later k before a b after p s same att)))
