-- ===== src/Trigger/Exit.antt =====
-- What the counts and the return value of the trigger command say.
use libpulp.Base.{
  ℕ, suc, ◌+◌, ◌≡◌, refl, sym, ap, ◌∙◌, List, [], ◌∷◌, Option, none, some, true, false, ◌↔◌, length,
  arith, subst,
}
use libpulp.Bits.{or_zero, bit_or-zero}
use libpulp.Trigger.Many.{
  Counts, count_flags, count_error, is_wildcard, trigger_each, trigger_loop, trigger_many_processes,
  no_counts,
}

abbrev total : Counts → ℕ
total c = c.successes + c.skippes + c.failures

-- The return value is 0 as long as nothing failed.
abbrev Honest : Counts → Type 0
Honest c = (c.ret ≡ 0) ↔ (c.failures ≡ 0)

count_error-total : (r : ℕ) (c : Counts) → total (count_error r c) ≡ suc (total c)
unfolding count_error
count_error-total r c = ground arith

count_error-Honest : (r : ℕ) (c : Counts) → Honest c → Honest (count_error r c)
unfolding count_error
count_error-Honest r c h =
    let (forth, back) = h in
    let kept = bit_or-zero c.ret in
    ((λ z. ground (arith, kept, forth, or_zero c.ret r)), (λ z. ground (arith, kept, back)))

module _ {P : Type 0} (many : List ℕ → P → ℕ × P) (one : Option (List ℕ) → P → ℕ × P) where
  each_error :
      (path : Option (List ℕ)) (p : P) (c : Counts)
      → is_wildcard path ≡ false
      → (trigger_each many one path p c).0 ≡ count_error (one path p).0 c
  unfolding trigger_each
  each_error none p c h = refl
  each_error (some path) p c h = rw h refl

  each_flags :
      (path : Option (List ℕ)) (p : P) (c : Counts)
      → is_wildcard path ≡ true
      → (trigger_each many one path p c).0.ret ≡ c.ret
  unfolding trigger_each count_flags
  each_flags none p c h = absurd (ground arith)
  each_flags (some path) p c h = rw h refl

  loop_errors :
      (path : Option (List ℕ)) (ps : List P) (c : Counts)
      → is_wildcard path ≡ false
      → Honest c
      → Honest (trigger_loop many one path ps c).0
        × (total (trigger_loop many one path ps c).0 ≡ total c + length ps)
  unfolding trigger_loop
  loop_errors path [] c h honest = (honest, omega arith)
  loop_errors path (p ∷ ps) c h honest =
      let c1 = (trigger_each many one path p c).0 in
      let same : c1 ≡ count_error (one path p).0 c = each_error path p c h in
      let next : Honest c1 = subst Honest (sym same) (count_error-Honest (one path p).0 c honest) in
      let (last, sum) = loop_errors path ps c1 h next in
      (last, omega (arith, sum, ap total same, count_error-total (one path p).0 c))

  loop_flags :
      (path : Option (List ℕ)) (ps : List P) (c : Counts)
      → is_wildcard path ≡ true
      → (trigger_loop many one path ps c).0.ret ≡ c.ret
  unfolding trigger_loop
  loop_flags path [] c h = refl
  loop_flags path (p ∷ ps) c h =
      loop_flags path ps (trigger_each many one path p c).0 h ∙ each_flags path p c h

-- Without a star in the path, or without a path: each process counts as patched, skipped or
-- failed, and the return value is 0 exactly if none failed.
pub trigger_many_processes-exit :
    {P : Type 0} (many : List ℕ → P → ℕ × P) (one : Option (List ℕ) → P → ℕ × P)
    (path : Option (List ℕ)) (ps : List P)
    → is_wildcard path ≡ false
    → let c = (trigger_many_processes many one path ps).0 in
      ((c.ret ≡ 0) ↔ (c.failures ≡ 0)) × (c.successes + c.skippes + c.failures ≡ length ps)
unfolding trigger_many_processes
trigger_many_processes-exit many one path ps h =
    let (honest, sum) = loop_errors many one path ps no_counts h ((λ e. e), (λ e. e)) in
    (honest, omega (arith, sum))

-- With a star in the path the return value is 0, whatever the patches returned.
pub trigger_many_processes-wildcard :
    {P : Type 0} (many : List ℕ → P → ℕ × P) (one : Option (List ℕ) → P → ℕ × P)
    (path : Option (List ℕ)) (ps : List P)
    → is_wildcard path ≡ true
    → (trigger_many_processes many one path ps).0.ret ≡ 0
unfolding trigger_many_processes
trigger_many_processes-wildcard many one path ps h = loop_flags many one path ps no_counts h
