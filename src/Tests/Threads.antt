-- ===== src/Tests/Threads.antt =====
-- A process with the threads 3 and 4, for which every call succeeds.
use libpulp.Base.{
  ℕ, ◌≡◌, ◌≢◌, refl, List, [], ◌∷◌, none, some, Bool, true, false, ◌==◌, if◌then◌else◌, arith, ◌⊎◌,
}
use libpulp.Threads.Defs.{
  Tracer, UlpThread, UlpProcess, Pass, has_thread, hijack_thread, read_tasks, end_pass, hijack_loop,
  hijack_threads, restore_threads,
}
use libpulp.Threads.Stopped.{Outcome, hijack_threads-Outcome, restore_threads-free}
use libpulp.Threads.Settles.{hijack_threads-settles}
use libpulp.Errors.Codes.{enoent, esrch}

abbrev Traced : Type 0
Traced = ℕ → Bool

abbrev mark : ℕ → Bool → Traced → Traced
mark t b s x = if x == t then b else s x

mark_self : (t : ℕ) (b : Bool) (s : Traced) → mark t b s t ≡ b
mark_self t b s = ground arith

mark_other : (t x : ℕ) (b : Bool) (s : Traced) → x ≢ t → mark t b s x ≡ s x
mark_other t x b s ne = ground arith

never : (t : ℕ) (s : Traced) → false ≡ true → mark t false s t ≡ s t
never t s e = absurd (ground arith)

abbrev willing : Tracer ℕ Traced
willing = record {
  traced = λ s. s;
  calloc = λ s. true;
  attach = λ t s. (false, mark t true s);
  detach = λ t s. (false, mark t false s);
  get_regs = λ t s. (some 5, s);
  set_regs = λ t c s. (false, s);
  attached_lem = λ t s e. mark_self t true s;
  attach_other = λ t x s ne. mark_other t x true s ne;
  detached_lem = λ t s e. mark_self t false s;
  detach_failed = λ t s e. never t s e;
  detach_other = λ t x s ne. mark_other t x false s ne;
  get_regs_lem = λ t x s. refl;
  set_regs_lem = λ t x c s. refl;
}

abbrev process : UlpProcess ℕ
process = record { pid = 3; all_threads_hijacked = false; threads = []; main_thread = none }

abbrev pass : Pass
pass = record { tids = 0 ∷ 3 ∷ 4 ∷ []; errno = 0 }

abbrev nothing : Traced
nothing x = false

abbrev both : List (UlpThread ℕ)
both = record { tid = 4; context = 5 } ∷ record { tid = 3; context = 5 } ∷ []

abbrev stopped : UlpProcess ℕ
stopped = record { pid = 3; all_threads_hijacked = true; threads = both; main_thread = some 3 }

abbrev after : Traced
after = mark 4 true (mark 3 true nothing)

-- What hijack_threads returns.
abbrev returned : ℕ
returned = 0

hijacked : hijack_threads willing 0 (pass ∷ pass ∷ []) process nothing ≡ some (0, stopped, after)
unfolding hijack_threads hijack_loop end_pass read_tasks hijack_thread has_thread
hijacked = refl

hijack_threads-Outcome_example :
    let opened : ℕ = 0 in
    let o : ℕ × UlpProcess ℕ × Traced = (returned, stopped, after) in
    ((opened ≡ 0) × Outcome willing (pass ∷ pass ∷ []) o)
    ⊎ ((opened ≢ 0) × (o ≡ (if opened == enoent then esrch else opened, process, nothing)))
hijack_threads-Outcome_example =
    hijack_threads-Outcome willing 0 (pass ∷ pass ∷ []) process nothing (returned, stopped, after)
      refl refl (λ x. refl) hijacked

hijack_threads-settles_example :
    (o : ℕ × UlpProcess ℕ × Traced) × (hijack_threads willing 0 (pass ∷ pass ∷ []) process nothing
      ≡ some o)
hijack_threads-settles_example =
    hijack_threads-settles willing 0 [] pass pass [] process nothing refl refl (λ x. refl)

both-Attached : (x : ℕ) → after x ≡ has_thread both x
unfolding has_thread
both-Attached x = ground arith

restore_threads-free_example :
    let (r, p, s) = restore_threads willing stopped after in
    (p.threads ≡ []) × (p.all_threads_hijacked ≡ false) × (r ≡ 0 → (x : ℕ) → s x ≡ false)
restore_threads-free_example = restore_threads-free willing stopped after both-Attached
