-- ===== src/Md4/Digest.antt =====
-- The code computes the digest of the RFC.
use mathlib.Core.Path.{ap₂}
use native.Mathlib.Nat.{mod-lt}
use libpulp.Base.{
  ℕ, zero, suc, ◌+◌, ◌-◌, ◌*◌, ◌/◌, ◌%◌, ◌≤◌, ◌<◌, ◌≡◌, List, [], ◌∷◌, ◌++◌, leb, refl, sym, ap,
  ◌∙◌, if◌then◌else◌, length, get_or, drop, arith, true, Bool, ◌&&◌, some, none,
}
use libpulp.Base.Memory.{IsBytes, drop-IsBytes}
use libpulp.Base.Words.{int_mod, size_mod}
use libpulp.Md4.Defs.{
  Digest, Register, read_words, rotated, operation, run_lines, block, lines_1, lines_2, lines_3,
  select, majority, parity, md4, process_blocks, zeros_of, fill_buffer, put, get, following,
  initial, final_additions, md4_of, result_of,
}
use libpulp.Md4.Rfc.{
  rotate_left, words, blocks, padded, padding, digest, output, compress, initial_registers,
}
use libpulp.Md4.Words.{rotated_lem, read_word_lem, append_item_lem}
use libpulp.Md4.Rounds.{block-compress, initial_lem}
use libpulp.Md4.Buffer.{zeros_of_lem, length-padded, padded-IsBytes, fill_buffer_lem}

small_shifts : List (Register × ℕ × ℕ) → Bool
small_shifts [] = true
small_shifts ((r, i, shift) ∷ rest) = leb shift 32 && small_shifts rest

run_lines-rotate :
    (f : ℕ → ℕ → ℕ → ℕ) (constant : ℕ) (ws : List ℕ) (lines : List (Register × ℕ × ℕ)) (s : Digest)
    → small_shifts lines ≡ true
    → run_lines rotated f constant ws lines s ≡ run_lines rotate_left f constant ws lines s
unfolding run_lines operation small_shifts
run_lines-rotate f constant ws [] s h = refl
run_lines-rotate f constant ws ((r, i, shift) ∷ rest) s h =
    let q = following r in
    let mixed = f (get q s) (get (following q) s) (get (following (following q)) s) in
    let x = (get r s + mixed + get_or ws i 0 + constant) % int_mod in
    let small : shift ≤ 32 = ground arith in
    let tail : small_shifts rest ≡ true = ground arith in
    let one : rotated shift x ≡ rotate_left shift x =
      rotated_lem shift x small (mod-lt _ (omega arith)) in
    ap (λ v. run_lines rotated f constant ws rest (put r v s)) one
    ∙ run_lines-rotate f constant ws rest (put r (rotate_left shift x) s) tail

block-rotate : (ws : List ℕ) (s : Digest) → block rotated ws s ≡ block rotate_left ws s
unfolding block small_shifts
block-rotate ws s =
    let q1 = run_lines rotate_left select 0 ws lines_1 s in
    let q2 = run_lines rotate_left majority 0x5A827999 ws lines_2 q1 in
    let e2 =
      ap (run_lines rotated majority 0x5A827999 ws lines_2)
        (run_lines-rotate select 0 ws lines_1 s refl)
      ∙ run_lines-rotate majority 0x5A827999 ws lines_2 q1 refl in
    let e3 =
      ap (run_lines rotated parity 0x6ED9EBA1 ws lines_3) e2
      ∙ run_lines-rotate parity 0x6ED9EBA1 ws lines_3 q2 refl in
    ap (λ k. final_additions k s) e3

-- Reading by shifts is reading the words, low byte first.
read_words_lem :
    (n : ℕ) (bs : List ℕ) → 4 * n ≤ length bs → IsBytes bs → read_words n bs ≡ words n bs
unfolding read_words words
read_words_lem zero bs fits bytes = refl
read_words_lem (suc n) [] fits bytes = absurd (omega arith)
read_words_lem (suc n) (a ∷ []) fits bytes = absurd (omega arith)
read_words_lem (suc n) (a ∷ b ∷ []) fits bytes = absurd (omega arith)
read_words_lem (suc n) (a ∷ b ∷ c ∷ []) fits bytes = absurd (omega arith)
read_words_lem (suc n) (a ∷ b ∷ c ∷ d ∷ rest) fits bytes =
    ap₂ ◌∷◌ (read_word_lem a b c d rest (bytes.0, (bytes.1.0, (bytes.1.1.0, (bytes.1.1.1.0, tt)))))
      (read_words_lem n rest (omega arith) bytes.1.1.1.1)

length-drop : (n : ℕ) (xs : List ℕ) → length (drop n xs) ≡ length xs - n
length-drop zero xs = omega arith
length-drop (suc n) [] = omega arith
length-drop (suc n) (x ∷ xs) = omega (arith, length-drop n xs)

process_blocks_lem :
    (n : ℕ) (bs : List ℕ) (s : Digest)
    → 64 * n ≤ length bs
    → IsBytes bs
    → process_blocks n bs s ≡ blocks n bs s
unfolding process_blocks blocks
process_blocks_lem zero bs s fits bytes = refl
process_blocks_lem (suc n) bs s fits bytes =
    let first : block rotated (read_words 16 bs) s ≡ compress (words 16 bs) s =
      block-rotate (read_words 16 bs) s
      ∙ ap (λ ws. block rotate_left ws s) (read_words_lem 16 bs (omega arith) bytes)
      ∙ block-compress (words 16 bs) s in
    ap (process_blocks n (drop 64 bs)) first
    ∙ process_blocks_lem n (drop 64 bs) (compress (words 16 bs) s)
        (omega (arith, length-drop 64 bs)) (drop-IsBytes 64 bs bytes)

result_of_lem :
    (malloc : ℕ → Bool) (s : Digest)
    → result_of malloc s ≡ (if malloc 16 then some (output s) else none)
unfolding result_of output
result_of_lem malloc s =
    let item = append_item_lem in
    ap (λ k. if malloc 16 then some k else none)
      (ap₂ ◌++◌ (item s.a) (ap₂ ◌++◌ (item s.b) (ap₂ ◌++◌ (item s.c) (item s.d))))

-- For a message of bytes whose length and padding fit in 64 bits: MD4 returns NULL if malloc
-- refuses the size of the padded message or the 16 bytes of the result, and else the digest that
-- RFC 1320 describes.
pub md4-digest :
    (malloc : ℕ → Bool) (message : List ℕ)
    → IsBytes message
    → length message + 72 < size_mod
    → md4 malloc message ≡ (
        if malloc (length (padded message))
        then if malloc 16 then some (digest message) else none
        else none)
unfolding md4 md4_of digest
md4-digest malloc message bytes fits =
    let n = length message in
    let z = zeros_of ((n + 1) % size_mod) in
    let zs : z ≡ padding n = zeros_of_lem n fits in
    let total = n + 1 + padding n + 8 in
    let size : (n + 1 + z + 8) % size_mod ≡ total = ground arith in
    let padded_size = length-padded message in
    let blocks_of : process_blocks (total / 64) (fill_buffer total (padding n) message) initial
        ≡ blocks (length (padded message) / 64) (padded message) initial_registers =
      ap (λ k. process_blocks (total / 64) k initial) (fill_buffer_lem message)
      ∙ process_blocks_lem (total / 64) (padded message) initial (omega (arith, padded_size))
          (padded-IsBytes message bytes)
      ∙ ap (λ k. blocks (k / 64) (padded message) initial) (sym padded_size)
      ∙ ap (blocks (length (padded message) / 64) (padded message)) initial_lem in
    ap₂ (λ t k. md4_of malloc t k message) size zs
    ∙ ap (λ k. if malloc total then result_of malloc k else none) blocks_of
    ∙ ap₂ (λ t k. if malloc t then k else none) (sym padded_size)
        (result_of_lem malloc
          (blocks (length (padded message) / 64) (padded message) initial_registers))
