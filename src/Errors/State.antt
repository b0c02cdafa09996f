-- ===== src/Errors/State.antt =====
-- lib/error.c: the error state that blocks live patching, and the switch of lib/ulp.c over it.
use libpulp.Base.{ℕ, Bool, not, ◌==◌, if◌then◌else◌}
use libpulp.Errors.Codes.{enone, eusrblocked, eunknown}

-- libpulp_is_in_error_state
unfoldable pub is_in_error_state : ℕ → Bool
is_in_error_state state = not (state == enone)

-- libpulp_assert_func: what the state is after asserting `expression`
unfoldable pub assert_state : ℕ → ℕ → ℕ
assert_state expression state = if expression == 0 then eunknown else state

-- ulp_enable_or_disable_patching: the new state, which is also what it returns.
unfoldable pub enable_or_disable_patching : ℕ → ℕ
enable_or_disable_patching state =
    if state == enone then eusrblocked else if state == eusrblocked then enone else state
