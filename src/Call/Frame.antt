-- ===== src/Call/Frame.antt =====
-- The registers that run_and_redirect sets for a routine.
use libpulp.Base.{ℕ, ◌+◌, ◌-◌, ◌*◌, ◌/◌, ◌%◌, ◌^◌, ◌≤◌, ◌<◌, ◌≡◌, refl, ap, ◌∙◌, arith, bit_and}
use libpulp.Base.Words.{size_mod}
use libpulp.Bits.{bit_and_high}
use libpulp.Call.Defs.{Registers, redirected, red_zone_len, restart_syscall_size}

-- The registers for a routine: it starts behind its first two bytes, on a stack that is aligned
-- and leaves the red zone alone, with at most 63 bytes more.
pub record Framed (old new : Registers) (routine : ℕ) : Type 0 where
  pub starts : new.program_counter ≡ (routine + restart_syscall_size) % size_mod
  pub aligned : new.stack_top % 64 ≡ 0
  pub below : new.stack_top + red_zone_len ≤ old.stack_top
  pub near : old.stack_top < new.stack_top + red_zone_len + 64
  pub same_return : new.return_value ≡ old.return_value

stack_lem :
    (sp : ℕ)
    → red_zone_len ≤ sp
    → sp < size_mod
    → bit_and ((sp + (size_mod - red_zone_len)) % size_mod) (2 ^ 64 - 2 ^ 6)
      ≡ (sp - red_zone_len) / 64 * 64
stack_lem sp room bound =
    let down : (sp + (size_mod - red_zone_len)) % size_mod ≡ sp - red_zone_len = omega arith in
    ap (λ x. bit_and x (2 ^ 64 - 2 ^ 6)) down ∙ bit_and_high 6 58 (sp - red_zone_len) (omega arith)

pub redirected-Framed :
    (regs : Registers) (routine : ℕ)
    → red_zone_len ≤ regs.stack_top
    → regs.stack_top < size_mod
    → Framed regs (redirected regs routine) routine
unfolding redirected
redirected-Framed regs routine room bound =
    let stack : (redirected regs routine).stack_top ≡ (regs.stack_top - red_zone_len) / 64 * 64 =
      stack_lem regs.stack_top room bound in
    record {
      starts = refl;
      aligned = omega arith;
      below = omega arith;
      near = omega arith;
      same_return = refl;
    }
