-- ===== src/Base/Words.antt =====
-- C's `int` and `size_t` as bit patterns: a signed value is read from its pattern.
use libpulp.Base.{ℕ, ◌+◌, ◌-◌, ◌%◌, ◌^◌, Bool, ltb, if◌then◌else◌, ◌&&◌}

abbrev pub int_mod : ℕ
int_mod = 2 ^ 32

abbrev pub size_mod : ℕ
size_mod = 2 ^ 64

-- int addition on patterns
abbrev pub add_int : ℕ → ℕ → ℕ
add_int a b = (a + b) % int_mod

-- size_t addition
abbrev pub add_size : ℕ → ℕ → ℕ
add_size a b = (a + b) % size_mod

-- (size_t) x for an int x
abbrev pub int_to_size : ℕ → ℕ
int_to_size x = if ltb x (2 ^ 31) then x else x + 2 ^ 64 - 2 ^ 32

-- x > 0 for an int x
abbrev pub is_positive : ℕ → Bool
is_positive x = ltb 0 x && ltb x (2 ^ 31)

-- An `int size : 24` field read as an int.
abbrev pub int_of_24 : ℕ → ℕ
int_of_24 x = if ltb x (2 ^ 23) then x else x + 2 ^ 32 - 2 ^ 24
