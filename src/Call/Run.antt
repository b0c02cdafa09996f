-- ===== src/Call/Run.antt =====
-- When run_and_redirect returns, and what its success means.
use libpulp.Base.{
  ℕ, zero, suc, ◌+◌, ◌*◌, ◌/◌, ◌≤◌, ◌<◌, ◌≡◌, ◌⊎◌, inl, inr, sym, ap, ◌∙◌, Option, none, some, true,
  false, ◌==◌, ltb, arith, Bool-cases, Option-cases, ltb→lt,
}
use libpulp.Base.Words.{size_mod}
use mathlib.Core.Path.{ap₂}
use mathlib.Core.Option.{some-injective}
use libpulp.Threads.Defs.{Tracer}
use libpulp.Call.Defs.{
  Registers, Runner, Waited, WaitStatus, changed, wait_error, no_change, time, redirected,
  wait_result, wait_loop, read_registers, run_ended, run_and_redirect, red_zone_len,
}
use libpulp.Errors.Codes.{etime, etargethook}
use libpulp.Trigger.Defs.{minus_one}
use libpulp.Call.Frame.{Framed, redirected-Framed}

wait_result_zero :
    (pid : ℕ) (w : Waited)
    → wait_result pid w ≡ some 0
    → (status : WaitStatus) × (w ≡ changed pid status)
      × (status.is_stopped ≡ true)
      × (status.is_exited ≡ false)
unfolding wait_result
wait_result_zero pid wait_error e = ground arith
wait_result_zero pid no_change e = absurd (cc)
wait_result_zero pid (changed ret status) e =
    (status, ap (λ x. changed x status) (ground arith), ground arith, ground arith)

module _ {S : Type 0} (k : Tracer Registers S) (r : Runner S) where
  -- The clock bounds the rounds.
  wait_loop-returns :
      (fuel timeout pid t0 : ℕ) (s : S)
      → 1 ≤ fuel
      → (t0 + timeout) * 1000000 ≤ r.clock s + 100 * fuel
      → (e : ℕ × S) × (wait_loop k r fuel timeout pid t0 s ≡ some e)
  unfolding wait_loop
  wait_loop-returns zero timeout pid t0 s positive enough = absurd (omega arith)
  wait_loop-returns (suc fuel) timeout pid t0 s positive enough =
      let (w, s1) = r.waitpid pid s in
      let s2 = r.usleep s1 in
      let waits = r.wait_lem pid s in
      let sleeps = r.usleep_lem s1 in
      elim (Option-cases (wait_result pid w)) [
        | inr (ret, e) ↦ ((ret, s1), ground arith)
        | inl goes ↦ elim (Bool-cases (ltb (time r s2) (t0 + timeout))) [
          | inr late ↦ ((etime, s2), ground arith)
          | inl early ↦
              let inside : r.clock s2 / 1000000 < t0 + timeout =
                ltb→lt (time r s2) (t0 + timeout) early in
              let (o, e) = wait_loop-returns fuel timeout pid t0 s2 (omega arith) (omega arith) in
              (o, ground arith)
        ]
      ]

  run_ended-returns :
      (pid : ℕ) (regs : Registers) (ret : ℕ) (s : S)
      → (e : ℕ × Registers × S) × (run_ended k r pid regs (some (ret, s)) ≡ some e)
  unfolding run_ended
  run_ended-returns pid regs ret s = elim (Bool-cases (ret == 0)) [
    | inl zero_ret ↦ (read_registers k r pid regs s, ground arith)
    | inr other ↦ ((ret, regs, s), ground arith)
  ]

  -- The three ways of run_and_redirect.
  run_cases :
      (fuel timeout pid : ℕ) (regs : Registers) (routine : ℕ) (s : S)
      → let regs' = redirected regs routine in
        let s1 = (k.set_regs pid regs' s).1 in
        let s2 = (r.cont pid s1).1 in
        let waited = run_ended k r pid regs' (wait_loop k r fuel timeout pid (time r s2) s2) in
        let e = run_and_redirect k r fuel timeout pid regs routine s in
        (e ≡ some (etargethook, regs', s1))
        ⊎ (e ≡ some (etargethook, regs', s2))
        ⊎ (((k.set_regs pid regs' s).0 ≡ false) × ((r.cont pid s1).0 ≡ false) × (e ≡ waited))
  unfolding run_and_redirect
  run_cases fuel timeout pid regs routine s = ground arith

  -- The last waitpid of the loop, which gives the process as stopped.
  pub record Stopped (pid : ℕ) (s : S) : Type 0 where
    pub before : S
    pub status : WaitStatus
    pub waited : r.waitpid pid before ≡ (changed pid status, s)
    pub stopped : status.is_stopped ≡ true
    pub alive : status.is_exited ≡ false

  wait_loop-Stopped :
      (fuel timeout pid t0 : ℕ) (s s' : S)
      → wait_loop k r fuel timeout pid t0 s ≡ some (0, s')
      → Stopped pid s'
  unfolding wait_loop
  wait_loop-Stopped zero timeout pid t0 s s' e = absurd (cc)
  wait_loop-Stopped (suc fuel) timeout pid t0 s s' e =
      let (w, s1) = r.waitpid pid s in
      let s2 = r.usleep s1 in
      elim (Option-cases (wait_result pid w)) [
        | inr (ret, here) ↦
            let left : ℕ × S = (ret, s1) in
            let right : ℕ × S = (0, s') in
            let same : some left ≡ some right = ground arith in
            let pair : left ≡ right = some-injective left right same in
            let (status, exact, stopped, alive) =
              wait_result_zero pid w (here ∙ ap (λ x. some x.0) pair) in
            record {
              before = s;
              status = status;
              waited = ap₂ (λ a b. (a, b)) exact (ap (λ x. x.1) pair);
              stopped = stopped;
              alive = alive;
            }
        | inl goes ↦ elim (Bool-cases (ltb (time r s2) (t0 + timeout))) [
          | inr late ↦
              let left : ℕ × S = (etime, s2) in
              let right : ℕ × S = (0, s') in
              let same : some left ≡ some right = ground arith in
              let zero_time : etime ≡ 0 = ap (λ x. x.0) (some-injective left right same) in
              absurd (omega arith)
          | inl early ↦ wait_loop-Stopped fuel timeout pid t0 s2 s' (ground arith)
        ]
      ]

  read_registers-zero :
      (pid : ℕ) (regs : Registers) (s : S) (c : Registers) (s' : S)
      → read_registers k r pid regs s ≡ (0, c, s')
      → k.get_regs pid s ≡ (some c, s')
  unfolding read_registers
  read_registers-zero pid regs s c s' e = elim (Option-cases (k.get_regs pid s).0) [
    | inl gone ↦
        let same : read_registers k r pid regs s ≡ (minus_one, regs, (k.get_regs pid s).1) =
          ground arith in
        let wrong : minus_one ≡ 0 = ap (λ x. x.0) (sym same ∙ e) in absurd (omega arith)
    | inr (context, got) ↦
        let same : read_registers k r pid regs s ≡ (0, context, (k.get_regs pid s).1) =
          ground arith in
        let context_same : context ≡ c = ap (λ x. x.1) (sym same ∙ e) in
        let state_same : (k.get_regs pid s).1 ≡ s' = ap (λ x. x.2) (sym same ∙ e) in
        ap₂ (λ a b. (a, b)) (got ∙ ap some context_same) state_same
  ]

  run_ended-zero :
      (pid : ℕ) (regs : Registers) (o : Option (ℕ × S)) (c : Registers) (s' : S)
      → run_ended k r pid regs o ≡ some (0, c, s')
      → (s1 : S) × (o ≡ some (0, s1)) × (k.get_regs pid s1 ≡ (some c, s'))
  unfolding run_ended
  run_ended-zero pid regs none c s' e = absurd (cc)
  run_ended-zero pid regs (some (ret, s)) c s' e =
      let right : ℕ × Registers × S = (0, c, s') in
      elim (Bool-cases (ret == 0)) [
        | inl good ↦
            let same : some (read_registers k r pid regs s) ≡ some right = ground arith in
            (
              s,
              ap (λ x. some (x, s)) (ground arith),
              read_registers-zero pid regs s c s'
                  (some-injective (read_registers k r pid regs s) right same),
            )
        | inr bad ↦
            let left : ℕ × Registers × S = (ret, regs, s) in
            let same : some left ≡ some right = ground arith in
            let wrong : ret ≡ 0 = ap (λ x. x.0) (some-injective left right same) in
            absurd (ground arith)
      ]

-- A run of the routine, from the registers `regs` to the registers `c` of the stopped thread.
pub record Ran {S : Type 0} (k : Tracer Registers S) (r : Runner S) (pid : ℕ) (regs : Registers)
    (routine : ℕ) (s : S) (c : Registers) (s' : S) : Type 0 where
  pub start : Registers
  pub framed : Framed regs start routine
  pub set : (k.set_regs pid start s).0 ≡ false
  pub continued : (r.cont pid (k.set_regs pid start s).1).0 ≡ false
  pub end : S
  pub halted : Stopped k r pid end
  pub read : k.get_regs pid end ≡ (some c, s')

-- For a stack that has room for the red zone and an address of 64 bits: run_and_redirect always
-- returns, if it has a round of the loop for each 100 microseconds of the timeout, since the clock
-- bounds them. If it returns 0, then both of the registers' calls and
-- PTRACE_CONT succeeded, the last waitpid gave the thread as stopped and not as exited, and the
-- registers are those of the stopped thread. It started at the routine, behind its first two bytes
-- and on a stack aligned to 64 bytes, below the red zone and at most 63 bytes further down.
pub run_and_redirect-returns :
    {S : Type 0} (k : Tracer Registers S) (r : Runner S) (fuel timeout pid : ℕ) (regs : Registers)
    (routine : ℕ) (s : S)
    → timeout * 10000 < fuel
    → red_zone_len ≤ regs.stack_top
    → regs.stack_top < size_mod
    → (ret : ℕ) × (c : Registers) × (s' : S) × (run_and_redirect k r fuel timeout pid regs routine s
        ≡ some (ret, c, s'))
      × (ret ≡ 0 → Ran k r pid regs routine s c s')
run_and_redirect-returns k r fuel timeout pid regs routine s enough room bound =
    let regs' = redirected regs routine in
    let s1 = (k.set_regs pid regs' s).1 in
    let s2 = (r.cont pid s1).1 in
    elim (run_cases k r fuel timeout pid regs routine s) [
      | inl refused ↦ (etargethook, regs', s1, refused, λ e. absurd (omega arith))
      | inr (inl refused) ↦ (etargethook, regs', s2, refused, λ e. absurd (omega arith))
      | inr (inr (set, continued, waits)) ↦
          let ((code, s3), ended) =
            wait_loop-returns k r fuel timeout pid (time r s2) s2 (omega arith) (omega arith) in
          let ((ret, c, s'), read) = run_ended-returns k r pid regs' code s3 in
          let whole = waits ∙ ap (run_ended k r pid regs') ended ∙ read in
          (
            ret,
            c,
            s',
            whole,
            λ e.
                let (s4, stops, got) =
                  run_ended-zero k r pid regs' (some (code, s3)) c s'
                    (read ∙ ap (λ x. some (x, c, s')) e) in
                record {
                  start = regs';
                  framed = redirected-Framed regs routine room bound;
                  set = set;
                  continued = continued;
                  end = s4;
                  halted = wait_loop-Stopped k r fuel timeout pid (time r s2) s2 s4 (ended ∙ stops);
                  read = got;
                },
          )
    ]
