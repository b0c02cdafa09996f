-- ===== src/Md4/Buffer.antt =====
-- The buffer that MD4 fills is the padded message of the RFC.
use native.Mathlib.Nat.{div-div-eq-div-mul}
use mathlib.Core.List.{append_assoc}
use libpulp.Base.{
  ℕ, zero, suc, ◌+◌, ◌*◌, ◌/◌, ◌%◌, ◌^◌, ◌<◌, ◌≡◌, List, [], ◌∷◌, ◌++◌, refl, sym, ap, ◌∙◌, length,
  set, drop, replicate, arith, length-append,
}
use libpulp.Base.Memory.{bytes_le, length-bytes_le, IsBytes, append-IsBytes, bytes_le-IsBytes}
use libpulp.Base.Words.{size_mod}
use libpulp.Bits.{pow-add}
use libpulp.Md4.Defs.{zeros_of, fill_size, fill_buffer}
use libpulp.Md4.Rfc.{padding, padded}

-- memset
abbrev pub zeros : ℕ → List ℕ
zeros n = replicate n 0

drop-replicate : (n k : ℕ) → drop n (zeros (n + k)) ≡ zeros k
drop-replicate zero k = ap (λ m. zeros m) (omega arith)
drop-replicate (suc n) k =
    let sum : suc n + k ≡ suc (n + k) = omega arith in
    ap (λ m. drop (suc n) (zeros m)) sum ∙ drop-replicate n k

replicate-append : (n k : ℕ) → zeros (n + k) ≡ zeros n ++ zeros k
replicate-append zero k = ap (λ m. zeros m) (omega arith)
replicate-append (suc n) k =
    let sum : suc n + k ≡ suc (n + k) = omega arith in
    ap (λ m. zeros m) sum ∙ ap (λ r. 0 ∷ r) (replicate-append n k)

length-replicate : (n : ℕ) → length (zeros n) ≡ n
length-replicate zero = refl
length-replicate (suc n) = ap suc (length-replicate n)

replicate-IsBytes : (n : ℕ) → IsBytes (zeros n)
replicate-IsBytes zero = tt
replicate-IsBytes (suc n) = (omega arith, replicate-IsBytes n)

set-append :
    (pre : List ℕ) (x v : ℕ) (rest : List ℕ)
    → set (pre ++ (x ∷ rest)) (length pre) v ≡ pre ++ (v ∷ rest)
set-append [] x v rest = refl
set-append (p ∷ pre) x v rest = ap (λ r. p ∷ r) (set-append pre x v rest)

-- The loop over the size field writes the bytes of the size.
fill_size_lem :
    (count i pos bits : ℕ) (pre : List ℕ)
    → length pre ≡ pos + i
    → fill_size count i pos bits (pre ++ zeros count) ≡ pre ++ bytes_le count (bits / 2 ^ (8 * i))
unfolding fill_size bytes_le
fill_size_lem zero i pos bits pre at = refl
fill_size_lem (suc count) i pos bits pre at =
    let v = bits / 2 ^ (8 * i) % 256 in
    let longer : length (pre ++ (v ∷ [])) ≡ pos + suc i =
      length-append pre (v ∷ []) ∙ omega arith in
    let byte : set (pre ++ (0 ∷ zeros count)) (pos + i) v ≡ (pre ++ (v ∷ [])) ++ zeros count =
      ap (λ k. set (pre ++ (0 ∷ zeros count)) k v) (sym at)
      ∙ set-append pre 0 v (zeros count)
      ∙ sym (append_assoc pre (v ∷ []) (zeros count)) in
    let step : 8 * suc i ≡ 8 * i + 8 = omega arith in
    let shifted : bits / 2 ^ (8 * suc i) ≡ bits / 2 ^ (8 * i) / 256 =
      ap (λ k. bits / 2 ^ k) step
      ∙ ap (λ k. bits / k) (pow-add 2 (8 * i) 8)
      ∙ sym (div-div-eq-div-mul bits (2 ^ (8 * i)) 256) in
    ap (fill_size count (suc i) pos bits) byte
    ∙ fill_size_lem count (suc i) pos bits (pre ++ (v ∷ [])) longer
    ∙ append_assoc pre (v ∷ []) (bytes_le count (bits / 2 ^ (8 * suc i)))
    ∙ ap (λ k. pre ++ (v ∷ bytes_le count k)) shifted

pub zeros_of_lem : (n : ℕ) → n + 72 < size_mod → zeros_of ((n + 1) % size_mod) ≡ padding n
unfolding zeros_of
zeros_of_lem n fits = ground arith

pub length-padded :
    (message : List ℕ) → length (padded message) ≡ length message + 1 + padding (length message) + 8
unfolding padded
length-padded message =
    let n = length message in
    let z = zeros (padding n) in
    let size = bytes_le 8 (n * 8 % 2 ^ 64) in
    omega (
      arith,
      length-append message (0x80 ∷ (z ++ size)),
      length-append z size,
      length-replicate (padding n),
      length-bytes_le 8 (n * 8 % 2 ^ 64),
    )

pub padded-IsBytes : (message : List ℕ) → IsBytes message → IsBytes (padded message)
unfolding padded
padded-IsBytes message bytes =
    let n = length message in
    append-IsBytes message _ bytes (
      omega arith,
      append-IsBytes (zeros (padding n)) _ (replicate-IsBytes (padding n))
          (bytes_le-IsBytes 8 (n * 8 % 2 ^ 64)),
    )

pub fill_buffer_lem :
    (message : List ℕ)
    → fill_buffer
        (length message + 1 + padding (length message) + 8)
        (padding (length message))
        message
      ≡ padded message
unfolding fill_buffer padded
fill_buffer_lem message =
    let n = length message in
    let z = padding n in
    let bits = n * 8 % size_mod in
    let sum : n + 1 + z + 8 ≡ n + suc (z + 8) = omega arith in
    let cleared : drop n (zeros (n + 1 + z + 8)) ≡ 0 ∷ (zeros z ++ zeros 8) =
      ap (λ k. drop n (zeros k)) sum
      ∙ drop-replicate n (suc (z + 8))
      ∙ ap (λ r. 0 ∷ r) (replicate-append z 8) in
    let pre = message ++ (0x80 ∷ zeros z) in
    let at : length pre ≡ n + 1 + z + 0 =
      length-append message (0x80 ∷ zeros z) ∙ omega (arith, length-replicate z) in
    let marked : set (message ++ drop n (zeros (n + 1 + z + 8))) n 0x80 ≡ pre ++ zeros 8 =
      ap (λ r. set (message ++ r) n 0x80) cleared
      ∙ set-append message 0 0x80 (zeros z ++ zeros 8)
      ∙ sym (append_assoc message (0x80 ∷ zeros z) (zeros 8)) in
    ap (fill_size 8 0 (n + 1 + z) bits) marked
    ∙ fill_size_lem 8 0 (n + 1 + z) bits pre at
    ∙ append_assoc message (0x80 ∷ zeros z) (bytes_le 8 (bits / 1))
    ∙ ap (λ k. message ++ (0x80 ∷ (zeros z ++ bytes_le 8 k))) (omega arith)
