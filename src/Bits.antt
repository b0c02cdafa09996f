-- ===== src/Bits.antt =====
-- `&` of a variable with a mask of low bits, or with the complement of one.
use Prim.Native.Nat.{min, max, digits, bit_and-bitwise, bit_or-bitwise}
use native.Mathlib.Nat.{pow-suc, one-le-pow, mul_assoc, pow-zero, mod-eq_of_lt, div-div-eq-div-mul}
use libpulp.Base.{
  ◌∙◌, ℕ, zero, suc, ◌+◌, ◌-◌, ◌*◌, ◌/◌, ◌%◌, ◌^◌, ◌≤◌, ◌<◌, ◌≡◌, refl, subst, bit_and, bit_or,
  arith, ap, sym,
}

-- The definition of `&` recurses on fuel. Once there is as much as the number, more does nothing.
conjunction : ℕ → ℕ → ℕ → ℕ
conjunction fuel a b = digits (λ ones. zero) min fuel a b

one_more : (fuel a b : ℕ) → a ≤ fuel → conjunction (suc fuel) a b ≡ conjunction fuel a b
unfolding conjunction
one_more zero zero b h = refl
one_more zero (suc a) b h = absurd (omega arith)
one_more (suc fuel) zero b h = refl
one_more (suc fuel) (suc a) b h =
    let half = one_more fuel (suc a / 2) (b / 2) (omega arith) in
    ap (λ high. high * 2 + min (suc a % 2) (b % 2)) half

more : (extra fuel a b : ℕ) → a ≤ fuel → conjunction (extra + fuel) a b ≡ conjunction fuel a b
more zero fuel a b h = ap (λ n. conjunction n a b) (omega arith)
more (suc extra) fuel a b h =
    ap (λ n. conjunction n a b) (omega arith)
    ∙ one_more (extra + fuel) a b (omega arith)
    ∙ more extra fuel a b h

-- The lowest digit of a conjunction, and the rest.
pub bit_and_digit : (a b : ℕ) → bit_and a b ≡ bit_and (a / 2) (b / 2) * 2 + min (a % 2) (b % 2)
unfolding conjunction
bit_and_digit zero b = simp bit_and-bitwise (omega arith)
bit_and_digit (suc a) b =
    let half = suc a / 2 in
    let spare : a ≡ (a - half) + half = omega arith in
    let enough : conjunction a half (b / 2) ≡ conjunction half half (b / 2) =
      ap (λ n. conjunction n half (b / 2)) spare
      ∙ more (a - half) half half (b / 2) (omega arith) in
    simp bit_and-bitwise (omega (arith, enough))

bit_and-zero_below : (n a : ℕ) → a ≤ n → bit_and a 0 ≡ 0
bit_and-zero_below n zero h = refl
bit_and-zero_below zero (suc a) h = absurd (omega arith)
bit_and-zero_below (suc n) (suc a) h =
    omega (arith, bit_and_digit (suc a) 0, bit_and-zero_below n (suc a / 2) (omega arith))

pub bit_and-zero : (a : ℕ) → bit_and a 0 ≡ 0
bit_and-zero a = bit_and-zero_below a a (omega arith)

-- The low part `r` of a number whose high part is a multiple of 2 ^ k.
low_part : (k q r : ℕ) → r < 2 ^ k → bit_and (q * 2 ^ k + r) (2 ^ k - 1) ≡ r
low_part zero q r h = omega (arith, bit_and-zero (q * 1 + r))
low_part (suc k) q r h =
    let twice : q * 2 ^ suc k ≡ 2 * (q * 2 ^ k) =
      omega (arith, ap (λ (t : ℕ). q * t) (pow-suc 2 k)) in
    ground (
      arith,
      twice,
      pow-suc 2 k,
      bit_and_digit (q * 2 ^ suc k + r) (2 ^ suc k - 1),
      low_part k q (r / 2) (omega (arith, pow-suc 2 k)),
    )

-- `x & ((1 << k) - 1)` is the remainder.
pub bit_and_low : (k a : ℕ) → bit_and a (2 ^ k - 1) ≡ a % 2 ^ k
bit_and_low k a = ground (arith, one-le-pow k 2, low_part k (a / 2 ^ k) (a % 2 ^ k))

-- `x & ~3` and `x & ~7` on 32 bits clear the low bits.
pub clear_two : (a : ℕ) → a < 2 ^ 32 → bit_and a (2 ^ 32 - 1 - 3) ≡ a / 4 * 4
clear_two a h = omega (
  arith,
  bit_and_digit a (2 ^ 32 - 4),
  bit_and_digit (a / 2) (2 ^ 31 - 2),
  bit_and_low 30 (a / 2 / 2),
)

pub clear_three : (a : ℕ) → a < 2 ^ 32 → bit_and a (2 ^ 32 - 1 - 7) ≡ a / 8 * 8
clear_three a h = omega (
  arith,
  bit_and_digit a (2 ^ 32 - 8),
  bit_and_digit (a / 2) (2 ^ 31 - 4),
  bit_and_digit (a / 2 / 2) (2 ^ 30 - 2),
  bit_and_low 29 (a / 2 / 2 / 2),
)

-- The same of `|`.
disjunction : ℕ → ℕ → ℕ → ℕ
disjunction fuel a b = digits (λ b. b) max fuel a b

one_more_or : (fuel a b : ℕ) → a ≤ fuel → disjunction (suc fuel) a b ≡ disjunction fuel a b
unfolding disjunction
one_more_or zero zero b h = refl
one_more_or zero (suc a) b h = absurd (omega arith)
one_more_or (suc fuel) zero b h = refl
one_more_or (suc fuel) (suc a) b h =
    let half = one_more_or fuel (suc a / 2) (b / 2) (omega arith) in
    ap (λ high. high * 2 + max (suc a % 2) (b % 2)) half

more_or : (extra fuel a b : ℕ) → a ≤ fuel → disjunction (extra + fuel) a b ≡ disjunction fuel a b
more_or zero fuel a b h = ap (λ n. disjunction n a b) (omega arith)
more_or (suc extra) fuel a b h =
    ap (λ n. disjunction n a b) (omega arith)
    ∙ one_more_or (extra + fuel) a b (omega arith)
    ∙ more_or extra fuel a b h

pub bit_or_digit : (a b : ℕ) → bit_or a b ≡ bit_or (a / 2) (b / 2) * 2 + max (a % 2) (b % 2)
unfolding disjunction
bit_or_digit zero b = simp bit_or-bitwise (omega arith)
bit_or_digit (suc a) b =
    let half = suc a / 2 in
    let spare : a ≡ (a - half) + half = omega arith in
    let enough : disjunction a half (b / 2) ≡ disjunction half half (b / 2) =
      ap (λ n. disjunction n half (b / 2)) spare
      ∙ more_or (a - half) half half (b / 2) (omega arith) in
    simp bit_or-bitwise (omega (arith, enough))

bit_or-zero_below : (n a : ℕ) → a ≤ n → bit_or a 0 ≡ a
bit_or-zero_below n zero h = refl
bit_or-zero_below zero (suc a) h = absurd (omega arith)
bit_or-zero_below (suc n) (suc a) h =
    omega (arith, bit_or_digit (suc a) 0, bit_or-zero_below n (suc a / 2) (omega arith))

pub bit_or-zero : (a : ℕ) → bit_or a 0 ≡ a
bit_or-zero a = bit_or-zero_below a a (omega arith)

-- Numbers whose digits do not meet.
pub bit_or_apart : (k q r : ℕ) → r < 2 ^ k → bit_or (q * 2 ^ k) r ≡ q * 2 ^ k + r
bit_or_apart zero q zero h = bit_or-zero_below (q * 1) (q * 1) (omega arith) ∙ omega arith
bit_or_apart zero q (suc r) h = absurd (omega arith)
bit_or_apart (suc k) q r h =
    let twice : q * 2 ^ suc k ≡ 2 * (q * 2 ^ k) =
      omega (arith, ap (λ (t : ℕ). q * t) (pow-suc 2 k)) in
    ground (
      arith,
      twice,
      pow-suc 2 k,
      bit_or_digit (q * 2 ^ suc k) r,
      bit_or_apart k q (r / 2) (omega (arith, pow-suc 2 k)),
    )

zero-bit_and : (b : ℕ) → bit_and 0 b ≡ 0
zero-bit_and b = simp bit_and-bitwise refl

bit_and_comm_below : (n a b : ℕ) → a ≤ n → bit_and a b ≡ bit_and b a
bit_and_comm_below n zero b h = omega (arith, zero-bit_and b, bit_and-zero b)
bit_and_comm_below zero (suc a) b h = absurd (omega arith)
bit_and_comm_below (suc n) (suc a) b h = omega (
  arith,
  bit_and_digit (suc a) b,
  bit_and_digit b (suc a),
  bit_and_comm_below n (suc a / 2) (b / 2) (omega arith),
)

pub bit_and_comm : (a b : ℕ) → bit_and a b ≡ bit_and b a
bit_and_comm a b = bit_and_comm_below a a b (omega arith)

pub pow-add : (b m n : ℕ) → b ^ (m + n) ≡ b ^ m * b ^ n
pow-add b m zero =
    let same : m + 0 ≡ m = omega arith in
    ap (λ k. b ^ k) same ∙ omega (arith, ap (λ k. b ^ m * k) (pow-zero b))
pow-add b m (suc n) =
    let next : m + suc n ≡ suc (m + n) = omega arith in
    ap (λ k. b ^ k) next
    ∙ pow-suc b (m + n)
    ∙ ap (λ k. k * b) (pow-add b m n)
    ∙ mul_assoc (b ^ m) (b ^ n) b
    ∙ ap (λ k. b ^ m * k) (sym (pow-suc b n))

or_zero_below : (n a b : ℕ) → a ≤ n → bit_or a b ≡ 0 → (a ≡ 0) × (b ≡ 0)
or_zero_below n zero b h z =
    let rest : bit_or 0 b ≡ b = simp bit_or-bitwise refl in (refl, omega (arith, rest, z))
or_zero_below zero (suc a) b h z = absurd (omega arith)
or_zero_below (suc n) (suc a) b h z =
    let digit = bit_or_digit (suc a) b in
    let high : bit_or (suc a / 2) (b / 2) ≡ 0 = omega (arith, digit) in
    let (left, right) = or_zero_below n (suc a / 2) (b / 2) (omega arith) high in
    let low : max (suc a % 2) (b % 2) ≡ 0 = omega (arith, digit) in
    (omega (arith, left, low), omega (arith, right, low))

-- A disjunction is 0 only of zeros.
pub or_zero : (a b : ℕ) → bit_or a b ≡ 0 → (a ≡ 0) × (b ≡ 0)
or_zero a b = or_zero_below a a b (omega arith)

-- `x & ~((1 << k) - 1)` on j + k bits.
pub bit_and_high :
    (k j a : ℕ) → a < 2 ^ (k + j) → bit_and a (2 ^ (k + j) - 2 ^ k) ≡ a / 2 ^ k * 2 ^ k
bit_and_high zero j a h =
    let sum : 0 + j ≡ j = omega arith in
    let fits : a < 2 ^ j = subst (λ n. a < 2 ^ n) sum h in
    ap (λ n. bit_and a (2 ^ n - 1)) sum ∙ bit_and_low j a ∙ mod-eq_of_lt fits ∙ omega arith
bit_and_high (suc k) j a h =
    let sum : suc k + j ≡ suc (k + j) = omega arith in
    let fits : a < 2 ^ suc (k + j) = subst (λ n. a < 2 ^ n) sum h in
    let twice = pow-suc 2 (k + j) in
    let double = pow-suc 2 k in
    let half : a / 2 < 2 ^ (k + j) = omega arith in
    let rest = bit_and_high k j (a / 2) half in
    let digit = bit_and_digit a (2 ^ suc (k + j) - 2 ^ suc k) in
    let mask : (2 ^ suc (k + j) - 2 ^ suc k) / 2 ≡ 2 ^ (k + j) - 2 ^ k = omega arith in
    let high = ap (λ n. bit_and (a / 2) n) mask ∙ rest in
    let q = a / 2 / 2 ^ k in
    let quotient : q ≡ a / 2 ^ suc k =
      div-div-eq-div-mul a 2 (2 ^ k) ∙ ap (λ n. a / n) (omega (arith, double)) in
    let whole : q * 2 ^ suc k ≡ q * 2 ^ k * 2 =
      ap (λ n. q * n) double ∙ sym (mul_assoc q (2 ^ k) 2) in
    let step : bit_and a (2 ^ suc (k + j) - 2 ^ suc k) ≡ q * 2 ^ suc k =
      omega (arith, digit, high, whole, twice, double) in
    ap (λ n. bit_and a (2 ^ n - 2 ^ suc k)) sum ∙ step ∙ ap (λ n. n * 2 ^ suc k) quotient
