-- ===== src/Md4/Defs.antt =====
-- MD4 of tools/md4.c. A `uint32_t` is a number below 2^32, a `char` its byte. Whether malloc gives
-- memory for a number of bytes is a parameter.
use libpulp.Base.{
  ℕ, zero, suc, ◌+◌, ◌-◌, ◌*◌, ◌/◌, ◌%◌, ◌^◌, List, [], ◌∷◌, ◌++◌, Option, none, some, Bool, leb,
  if◌then◌else◌, length, set, get_or, drop, replicate, bit_and, bit_or, bit_xor,
}
use libpulp.Base.Words.{int_mod, size_mod}

-- The zeroed bytes behind the 0x80 of a message with `total` bytes so far.
unfoldable pub zeros_of : ℕ → ℕ
zeros_of total = let zeros = total % 64 in if leb zeros 56 then 56 - zeros else 64 - (zeros - 56)

-- The loop that fills the size field, `count` bytes of it left; `pos` is where the field starts.
unfoldable pub fill_size : ℕ → ℕ → ℕ → ℕ → List ℕ → List ℕ
fill_size zero i pos bits buffer = buffer
fill_size (suc count) i pos bits buffer =
    fill_size count (suc i) pos bits (set buffer (pos + i) (bits / 2 ^ (8 * i) % 256))

-- The buffer of `total` bytes with the input, its padding and its size in bits.
unfoldable pub fill_buffer : ℕ → ℕ → List ℕ → List ℕ
fill_buffer total zeros input =
    let n = length input in
    let buffer = input ++ drop n (replicate total 0) in
    let buffer = set buffer n 0x80 in fill_size 8 0 (n + 1 + zeros) (n * 8 % size_mod) buffer

-- The loop that reads a word, `k` bytes of it left.
unfoldable pub read_word : ℕ → List ℕ → ℕ → ℕ
read_word zero bufptr word = word
read_word (suc k) bufptr word =
    read_word k bufptr (bit_or (word * 2 ^ 8 % int_mod) (bit_and 0xff (get_or bufptr k 0)))

-- X, the first `count` words at bufptr
unfoldable pub read_words : ℕ → List ℕ → List ℕ
read_words zero bufptr = []
read_words (suc count) bufptr = read_word 4 bufptr 0 ∷ read_words count (drop 4 bufptr)

-- The state variables.
pub record Digest : Type 0 where
  pub a : ℕ
  pub b : ℕ
  pub c : ℕ
  pub d : ℕ

pub data Register : Type 0 where
  reg_a : Register
  reg_b : Register
  reg_c : Register
  reg_d : Register

unfoldable pub following : Register → Register
following reg_a = reg_b
following reg_b = reg_c
following reg_c = reg_d
following reg_d = reg_a

unfoldable pub get : Register → Digest → ℕ
get reg_a s = s.a
get reg_b s = s.b
get reg_c s = s.c
get reg_d s = s.d

unfoldable pub put : Register → ℕ → Digest → Digest
put reg_a v s = record s { a = v }
put reg_b v s = record s { b = v }
put reg_c v s = record s { c = v }
put reg_d v s = record s { d = v }

-- F, G and H
unfoldable pub select : ℕ → ℕ → ℕ → ℕ
select x y z = bit_or (bit_and x y) (bit_and (int_mod - 1 - x) z)

unfoldable pub majority : ℕ → ℕ → ℕ → ℕ
majority x y z = bit_or (bit_or (bit_and x y) (bit_and x z)) (bit_and y z)

unfoldable pub parity : ℕ → ℕ → ℕ → ℕ
parity x y z = bit_xor (bit_xor x y) z

-- (x << s) | (x >> (32 - s))
unfoldable pub rotated : ℕ → ℕ → ℕ
rotated s x = bit_or (x * 2 ^ s % int_mod) (x / 2 ^ (32 - s))

-- One line of a round: R1, R2 or R3 of the registers from `r` on, a word and a shift. The rotation
-- is an argument.
unfoldable pub operation :
    (ℕ → ℕ → ℕ) → (ℕ → ℕ → ℕ → ℕ) → ℕ → List ℕ → Register → ℕ → ℕ → Digest → Digest
operation rotate f constant words r i shift s =
    let q = following r in
    let mixed = f (get q s) (get (following q) s) (get (following (following q)) s) in
    put r (rotate shift ((get r s + mixed + get_or words i 0 + constant) % int_mod)) s

unfoldable pub run_lines :
    (ℕ → ℕ → ℕ) → (ℕ → ℕ → ℕ → ℕ) → ℕ → List ℕ → List (Register × ℕ × ℕ) → Digest → Digest
run_lines rotate f constant words [] s = s
run_lines rotate f constant words ((r, i, shift) ∷ rest) s =
    run_lines rotate f constant words rest (operation rotate f constant words r i shift s)

abbrev pub lines_1 : List (Register × ℕ × ℕ)
lines_1 =
    (reg_a, 0, 3)
    ∷ (reg_d, 1, 7)
    ∷ (reg_c, 2, 11)
    ∷ (reg_b, 3, 19)
    ∷ (reg_a, 4, 3)
    ∷ (reg_d, 5, 7)
    ∷ (reg_c, 6, 11)
    ∷ (reg_b, 7, 19)
    ∷ (reg_a, 8, 3)
    ∷ (reg_d, 9, 7)
    ∷ (reg_c, 10, 11)
    ∷ (reg_b, 11, 19)
    ∷ (reg_a, 12, 3)
    ∷ (reg_d, 13, 7)
    ∷ (reg_c, 14, 11)
    ∷ (reg_b, 15, 19)
    ∷ []

abbrev pub lines_2 : List (Register × ℕ × ℕ)
lines_2 =
    (reg_a, 0, 3)
    ∷ (reg_d, 4, 5)
    ∷ (reg_c, 8, 9)
    ∷ (reg_b, 12, 13)
    ∷ (reg_a, 1, 3)
    ∷ (reg_d, 5, 5)
    ∷ (reg_c, 9, 9)
    ∷ (reg_b, 13, 13)
    ∷ (reg_a, 2, 3)
    ∷ (reg_d, 6, 5)
    ∷ (reg_c, 10, 9)
    ∷ (reg_b, 14, 13)
    ∷ (reg_a, 3, 3)
    ∷ (reg_d, 7, 5)
    ∷ (reg_c, 11, 9)
    ∷ (reg_b, 15, 13)
    ∷ []

abbrev pub lines_3 : List (Register × ℕ × ℕ)
lines_3 =
    (reg_a, 0, 3)
    ∷ (reg_d, 8, 9)
    ∷ (reg_c, 4, 11)
    ∷ (reg_b, 12, 15)
    ∷ (reg_a, 2, 3)
    ∷ (reg_d, 10, 9)
    ∷ (reg_c, 6, 11)
    ∷ (reg_b, 14, 15)
    ∷ (reg_a, 1, 3)
    ∷ (reg_d, 9, 9)
    ∷ (reg_c, 5, 11)
    ∷ (reg_b, 13, 15)
    ∷ (reg_a, 3, 3)
    ∷ (reg_d, 11, 9)
    ∷ (reg_c, 7, 11)
    ∷ (reg_b, 15, 15)
    ∷ []

-- The final additions.
unfoldable pub final_additions : Digest → Digest → Digest
final_additions s saved = record {
  a = (s.a + saved.a) % int_mod;
  b = (s.b + saved.b) % int_mod;
  c = (s.c + saved.c) % int_mod;
  d = (s.d + saved.d) % int_mod;
}

-- The three rounds over the 16 words of a block, and the final additions.
unfoldable pub block : (ℕ → ℕ → ℕ) → List ℕ → Digest → Digest
block rotate words s =
    let s1 = run_lines rotate select 0 words lines_1 s in
    let s2 = run_lines rotate majority 0x5A827999 words lines_2 s1 in
    let s3 = run_lines rotate parity 0x6ED9EBA1 words lines_3 s2 in final_additions s3 s

-- The loop over the blocks, `count` of them left.
unfoldable pub process_blocks : ℕ → List ℕ → Digest → Digest
process_blocks zero bufptr s = s
process_blocks (suc count) bufptr s =
    process_blocks count (drop 64 bufptr) (block rotated (read_words 16 bufptr) s)

abbrev pub initial : Digest
initial = record { a = 0x67452301; b = 0xefcdab89; c = 0x98badcfe; d = 0x10325476 }

-- APPEND(item, resptr)
unfoldable pub append_item : ℕ → List ℕ
append_item item =
    bit_and (item / 2 ^ 0) 0xff
    ∷ bit_and (item / 2 ^ 8) 0xff
    ∷ bit_and (item / 2 ^ 16) 0xff
    ∷ bit_and (item / 2 ^ 24) 0xff
    ∷ []

-- The result, in memory from malloc.
unfoldable pub result_of : (ℕ → Bool) → Digest → Option (List ℕ)
result_of malloc s =
    if malloc 16
    then some (append_item s.a ++ (append_item s.b ++ (append_item s.c ++ append_item s.d)))
    else none

unfoldable pub md4_of : (ℕ → Bool) → ℕ → ℕ → List ℕ → Option (List ℕ)
md4_of malloc total zeros input =
    if malloc total
    then result_of malloc (process_blocks (total / 64) (fill_buffer total zeros input) initial)
    else none

-- MD4(input, length); `none` is NULL.
unfoldable pub md4 : (ℕ → Bool) → List ℕ → Option (List ℕ)
md4 malloc input =
    let zeros = zeros_of ((length input + 1) % size_mod) in
    md4_of malloc ((length input + 1 + zeros + 8) % size_mod) zeros input
