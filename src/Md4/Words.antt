-- ===== src/Md4/Words.antt =====
-- The words of MD4: reading, rotating and writing them by their digits.
use native.Mathlib.Nat.{
  mod-eq_of_lt, add-mul-mod_self_right, mod-lt, div-lt_iff_lt-mul, mod-add-div',
  mul-lt-mul_of_pos_right, add-mul, mul_assoc, mul_comm, one-le-pow,
}
use libpulp.Base.{
  ℕ, ◌+◌, ◌-◌, ◌*◌, ◌/◌, ◌%◌, ◌^◌, ◌≤◌, ◌<◌, ◌≡◌, List, [], ◌∷◌, sym, ap, subst, ◌∙◌, bit_and,
  bit_or, arith,
}
use libpulp.Base.Memory.{value_le, bytes_le, IsBytes}
use libpulp.Base.Words.{int_mod}
use libpulp.Bits.{bit_and_low, bit_or_apart, bit_and_comm, pow-add}
use libpulp.Md4.Defs.{read_word, rotated, append_item}
use libpulp.Md4.Rfc.{rotate_left}

-- A product keeps its factor under a remainder that has it.
scaled : (a m p : ℕ) → 0 < m → 0 < p → a * p % (m * p) ≡ a % m * p
scaled a m p mpos ppos =
    let parts : a * p ≡ a % m * p + a / m * (m * p) =
      ap (λ k. k * p) (sym (mod-add-div' a m))
      ∙ add-mul (a % m) (a / m * m) p
      ∙ ap (λ k. a % m * p + k) (mul_assoc (a / m) m p) in
    let low : a % m * p < m * p = mul-lt-mul_of_pos_right (mod-lt a mpos) ppos in
    ap (λ k. k % (m * p)) parts
    ∙ add-mul-mod_self_right (a % m * p) (a / m) (m * p)
    ∙ mod-eq_of_lt low

-- The two shifts make a rotation.
pub rotated_lem : (s x : ℕ) → s ≤ 32 → x < int_mod → rotated s x ≡ rotate_left s x
unfolding rotated
rotated_lem s x small fits =
    let m = 2 ^ (32 - s) in
    let sum : 32 ≡ 32 - s + s = omega arith in
    let whole : int_mod ≡ m * 2 ^ s = ap (λ k. 2 ^ k) sum ∙ pow-add 2 (32 - s) s in
    let high : x * 2 ^ s % int_mod ≡ x % m * 2 ^ s =
      ap (λ k. x * 2 ^ s % k) whole
      ∙ scaled x m (2 ^ s) (one-le-pow (32 - s) 2 (omega arith)) (one-le-pow s 2 (omega arith)) in
    let low : x / m < 2 ^ s =
      (div-lt_iff_lt-mul (one-le-pow (32 - s) 2 (omega arith))).1
        (subst (λ k. x < k) (whole ∙ mul_comm m (2 ^ s)) fits) in
    ap (λ k. bit_or k (x / m)) high ∙ bit_or_apart s (x % m) (x / m) low

low_byte : (v : ℕ) → bit_and 0xff v ≡ v % 256
low_byte v = bit_and_comm 0xff v ∙ bit_and_low 8 v

pub append_item_lem : (v : ℕ) → append_item v ≡ bytes_le 4 v
unfolding append_item bytes_le
append_item_lem v = ground (
  arith,
  bit_and_low 8 (v / 1),
  bit_and_low 8 (v / 256),
  bit_and_low 8 (v / 65536),
  bit_and_low 8 (v / 16777216),
)

-- Four bytes make a word, the low one first.
pub read_word_lem :
    (a b c d : ℕ) (rest : List ℕ)
    → IsBytes (a ∷ b ∷ c ∷ d ∷ [])
    → read_word 4 (a ∷ b ∷ c ∷ d ∷ rest) 0 ≡ value_le (a ∷ b ∷ c ∷ d ∷ [])
unfolding read_word value_le
read_word_lem a b c d rest bytes =
    let da = bytes.0 in
    let db = bytes.1.0 in
    let dc = bytes.1.1.0 in
    let dd = bytes.1.1.1.0 in
    ground (
      arith,
      low_byte a,
      low_byte b,
      low_byte c,
      low_byte d,
      bit_or_apart 8 0 d,
      bit_or_apart 8 d c,
      bit_or_apart 8 (d * 256 + c) b,
      bit_or_apart 8 (d * 65536 + c * 256 + b) a,
    )
