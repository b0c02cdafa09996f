-- ===== src/Md4/Rfc.antt =====
-- The message digest as RFC 1320 describes it, on bytes: padding, words, rounds and output.
use libpulp.Base.{
  ℕ, zero, suc, ◌+◌, ◌-◌, ◌*◌, ◌/◌, ◌%◌, ◌^◌, List, [], ◌∷◌, ◌++◌, length, take, drop, replicate,
  get_or, bit_and, bit_or, bit_xor,
}
use libpulp.Base.Memory.{value_le, bytes_le}
use libpulp.Md4.Defs.{Digest}

-- X <<< s, on 32 bits
abbrev pub rotate_left : ℕ → ℕ → ℕ
rotate_left s x = x % 2 ^ (32 - s) * 2 ^ s + x / 2 ^ (32 - s)

-- Zeros up to a length of 56 modulo 64, behind the byte 0x80.
abbrev pub padding : ℕ → ℕ
padding n = (119 - n % 64) % 64

-- The message with its padding and the low 64 bits of its length in bits.
unfoldable pub padded : List ℕ → List ℕ
padded message =
    let n = length message in
    message ++ (0x80 ∷ (replicate (padding n) 0 ++ bytes_le 8 (n * 8 % 2 ^ 64)))

-- The first words of a string, the low byte of each first.
unfoldable pub words : ℕ → List ℕ → List ℕ
words zero bs = []
words (suc n) bs = value_le (take 4 bs) ∷ words n (drop 4 bs)

-- F, G and H of section 3.4, on 32 bits.
abbrev pub aux_f : ℕ → ℕ → ℕ → ℕ
aux_f x y z = bit_or (bit_and x y) (bit_and (2 ^ 32 - 1 - x) z)

abbrev pub aux_g : ℕ → ℕ → ℕ → ℕ
aux_g x y z = bit_or (bit_or (bit_and x y) (bit_and x z)) (bit_and y z)

abbrev pub aux_h : ℕ → ℕ → ℕ → ℕ
aux_h x y z = bit_xor (bit_xor x y) z

-- One operation [abcd k s], a = (a + f(b,c,d) + X[k] + t) <<< s, behind which the registers are
-- named one further, since the next one is [dabc ...].
unfoldable pub step : (ℕ → ℕ → ℕ → ℕ) → ℕ → List ℕ → ℕ → ℕ → Digest → Digest
step f t xs k s r = record {
  a = r.d;
  b = rotate_left s ((r.a + f r.b r.c r.d + get_or xs k 0 + t) % 2 ^ 32);
  c = r.b;
  d = r.c;
}

-- The operations of a round from the i-th on, each with its word and its shift.
unfoldable pub steps : (ℕ → ℕ → ℕ → ℕ) → ℕ → List ℕ → (ℕ → ℕ) → (ℕ → ℕ) → ℕ → ℕ → Digest → Digest
steps f t xs word shift zero i r = r
steps f t xs word shift (suc n) i r =
    steps f t xs word shift n (suc i) (step f t xs (word i) (shift i) r)

-- The shifts of a round recur.
abbrev pub shifts : ℕ → ℕ → ℕ → ℕ → ℕ → ℕ
shifts s0 s1 s2 s3 i = get_or (s0 ∷ s1 ∷ s2 ∷ s3 ∷ []) (i % 4) 0

-- The words: round 1 takes them in order, round 2 by columns, round 3 with the bits of the number
-- reversed.
abbrev pub word_1 : ℕ → ℕ
word_1 i = i

abbrev pub word_2 : ℕ → ℕ
word_2 i = i % 4 * 4 + i / 4

abbrev pub word_3 : ℕ → ℕ
word_3 i = i % 2 * 8 + i / 2 % 2 * 4 + i / 4 % 2 * 2 + i / 8

-- The root of 2 and the root of 3, times 2 ^ 30.
abbrev pub root_2 : ℕ
root_2 = 1518500249

abbrev pub root_3 : ℕ
root_3 = 1859775393

-- A block of 16 words: three rounds, and the sums with what the registers were.
unfoldable pub compress : List ℕ → Digest → Digest
compress xs r =
    let r1 = steps aux_f 0 xs word_1 (shifts 3 7 11 19) 16 0 r in
    let r2 = steps aux_g root_2 xs word_2 (shifts 3 5 9 13) 16 0 r1 in
    let r3 = steps aux_h root_3 xs word_3 (shifts 3 9 11 15) 16 0 r2 in
    record {
      a = (r.a + r3.a) % 2 ^ 32;
      b = (r.b + r3.b) % 2 ^ 32;
      c = (r.c + r3.c) % 2 ^ 32;
      d = (r.d + r3.d) % 2 ^ 32;
    }

-- The registers of section 3.3, low bytes first.
unfoldable pub initial_registers : Digest
initial_registers = record {
  a = value_le (0x01 ∷ 0x23 ∷ 0x45 ∷ 0x67 ∷ []);
  b = value_le (0x89 ∷ 0xab ∷ 0xcd ∷ 0xef ∷ []);
  c = value_le (0xfe ∷ 0xdc ∷ 0xba ∷ 0x98 ∷ []);
  d = value_le (0x76 ∷ 0x54 ∷ 0x32 ∷ 0x10 ∷ []);
}

unfoldable pub blocks : ℕ → List ℕ → Digest → Digest
blocks zero bs s = s
blocks (suc n) bs s = blocks n (drop 64 bs) (compress (words 16 bs) s)

-- The four words of the state as bytes.
unfoldable pub output : Digest → List ℕ
output s = bytes_le 4 s.a ++ (bytes_le 4 s.b ++ (bytes_le 4 s.c ++ bytes_le 4 s.d))

unfoldable pub digest : List ℕ → List ℕ
digest message = output (blocks (length (padded message) / 64) (padded message) initial_registers)
