-- ===== src/Call/Retry.antt =====
-- ulp_ptrace of tools/ptrace.c: a ptrace call that is repeated while another tool holds the process.
use libpulp.Base.{
  ℕ, zero, suc, ◌+◌, ◌*◌, ◌/◌, ◌≤◌, ◌<◌, ◌≡◌, ◌⊎◌, inl, inr, refl, Option, none, some, Bool, true,
  false, ◌==◌, ◌||◌, ltb, if◌then◌else◌, arith, Bool-cases, ltb→lt,
}
use libpulp.Errors.Codes.{einval, esrch}

-- errno values
abbrev pub eperm : ℕ
eperm = 1

abbrev pub eio : ℕ
eio = 5

abbrev pub efault : ℕ
efault = 14

abbrev pub ebusy : ℕ
ebusy = 16

-- Whether the process may be free for the call later, and the other values of errno that ptrace
-- is documented to set, or 0.
abbrev pub is_taken : ℕ → Bool
is_taken errno = errno == ebusy || errno == eperm

abbrev pub is_final : ℕ → Bool
is_final errno =
    errno == eio || (errno == efault || (errno == einval || (errno == esrch || errno == 0)))

final_lem : (errno : ℕ) → is_final errno ≡ true → is_taken errno ≡ false
final_lem errno h = ground arith

taken_lem : (errno : ℕ) → is_taken errno ≡ true → is_final errno ≡ false
taken_lem errno h = ground arith

-- What a call leaves: its return value and errno.
pub record Reply : Type 0 where
  pub ret : ℕ
  pub errno : ℕ

-- One ptrace call with its arguments, and usleep(10000). The clock is in microseconds: it does not
-- go back, and a usleep takes its time. ptrace sets the values of errno that are documented.
pub record Caller (S : Type 0) : Type 0 where
  pub ptrace : S → Reply × S
  pub usleep : S → S
  pub clock : S → ℕ
  pub call_lem : (s : S) → clock s ≤ clock (ptrace s).1
  pub usleep_lem : (s : S) → clock s + 10000 ≤ clock (usleep s)
  pub errno_lem :
      (s : S) → (is_taken (ptrace s).0.errno ≡ true) ⊎ (is_final (ptrace s).0.errno ≡ true)

-- PTRACE_TIMEOUT
abbrev pub ptrace_timeout : ℕ
ptrace_timeout = 5

module _ {S : Type 0} (c : Caller S) where
  abbrev seconds : S → ℕ
  seconds s = c.clock s / 1000000

  -- The switch over errno, up to the test of the loop.
  unfoldable pub sleep_if_taken : ℕ → S → S
  sleep_if_taken errno s = let later = c.usleep s in if is_taken errno then later else s

  -- The do loop, begun at t0.
  unfoldable pub retry_calls : ℕ → ℕ → S → Option (Reply × S)
  retry_calls zero t0 s = none
  retry_calls (suc fuel) t0 s =
      let (reply, s1) = c.ptrace s in
      let s2 = sleep_if_taken reply.errno s1 in
      let rest = retry_calls fuel t0 s2 in
      if is_final reply.errno
      then some (reply, s1)
      else if ltb (seconds s2) (t0 + ptrace_timeout)
      then rest
      else some (reply, s2)

  -- ulp_ptrace
  unfoldable pub ulp_ptrace : ℕ → S → Option (Reply × S)
  ulp_ptrace fuel s =
      let (reply, s1) = c.ptrace s in
      let rest = retry_calls fuel (seconds s1) s1 in
      if is_taken reply.errno then rest else some (reply, s1)

  -- The state behind a call from `last`, and behind the usleep that follows if the process is taken.
  abbrev pub IsAfter : Reply → S → S → Type 0
  IsAfter reply last end =
      ((is_taken reply.errno ≡ false) × ((c.ptrace last).1 ≡ end))
      ⊎ ((is_taken reply.errno ≡ true) × (c.usleep (c.ptrace last).1 ≡ end))

  -- The reply of the last call, which is not one of a taken process before the time is over.
  pub record Settled (fuel : ℕ) (s : S) : Type 0 where
    pub reply : Reply
    pub end : S
    pub last : S
    pub returns : ulp_ptrace fuel s ≡ some (reply, end)
    pub called : (c.ptrace last).0 ≡ reply
    pub ended : IsAfter reply last end
    pub patient :
        (is_taken reply.errno ≡ false) ⊎ (seconds (c.ptrace s).1 + ptrace_timeout ≤ seconds end)

  -- The same of the loop.
  abbrev Ends : ℕ → ℕ → S → Type 0
  Ends fuel t0 s =
      (reply : Reply) × (end : S) × (last : S) × (retry_calls fuel t0 s ≡ some (reply, end))
      × ((c.ptrace last).0 ≡ reply)
      × IsAfter reply last end
      × ((is_taken reply.errno ≡ false) ⊎ (t0 + ptrace_timeout ≤ seconds end))

  retry_calls-Ends :
      (fuel t0 : ℕ) (s : S)
      → 1 ≤ fuel
      → (t0 + ptrace_timeout) * 1000000 ≤ c.clock s + 10000 * fuel
      → Ends fuel t0 s
  unfolding retry_calls sleep_if_taken
  retry_calls-Ends zero t0 s positive enough = absurd (omega arith)
  retry_calls-Ends (suc fuel) t0 s positive enough =
      let (reply, s1) = c.ptrace s in
      let s2 = c.usleep s1 in
      let calls = c.call_lem s in
      let sleeps = c.usleep_lem s1 in
      elim (c.errno_lem s) [
        | inr final ↦ (
          reply,
          s1,
          s,
          ground arith,
          refl,
          inl (final_lem reply.errno final, refl),
          inl (final_lem reply.errno final),
        )
        | inl taken ↦
            let goes = taken_lem reply.errno taken in
            elim (Bool-cases (ltb (seconds s2) (t0 + ptrace_timeout))) [
              | inr late ↦ (reply, s2, s, ground arith, refl, inr (taken, refl), inr (ground arith))
              | inl early ↦
                  let inside : c.clock s2 / 1000000 < t0 + ptrace_timeout =
                    ltb→lt (seconds s2) (t0 + ptrace_timeout) early in
                  let (r, end, last, e, called, ended, patient) =
                    retry_calls-Ends fuel t0 s2 (omega arith) (omega arith) in
                  (r, end, last, ground arith, called, ended, patient)
            ]
      ]

-- ulp_ptrace returns, if it has a round for each hundredth of a second up to its timeout, since a
-- round for a taken process sleeps for so long. What it returns is the reply of the last ptrace
-- call: the state it ends in is the one behind that call, and behind the usleep that follows it if
-- the process is taken. The reply is neither EBUSY nor EPERM, unless the clock shows at least PTRACE_TIMEOUT seconds more
-- than behind the first call.
pub ulp_ptrace-Settled :
    {S : Type 0} (c : Caller S) (fuel : ℕ) (s : S) → 500 ≤ fuel → Settled c fuel s
unfolding ulp_ptrace
ulp_ptrace-Settled c fuel s enough =
    let (reply, s1) = c.ptrace s in
    elim (Bool-cases (is_taken reply.errno)) [
      | inr free ↦ record {
        reply = reply;
        end = s1;
        last = s;
        returns = ground arith;
        called = refl;
        ended = inl (free, refl);
        patient = inl free;
      }
      | inl taken ↦
          let (r, end, last, e, called, ended, patient) =
            retry_calls-Ends c fuel (seconds c s1) s1 (omega arith) (omega arith) in
          record {
            reply = r;
            end = end;
            last = last;
            returns = ground arith;
            called = called;
            ended = ended;
            patient = patient;
          }
    ]
