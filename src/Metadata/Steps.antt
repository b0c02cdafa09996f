-- ===== src/Metadata/Steps.antt =====
-- The steps of parse_metadata_from_mem on bytes that encode a value.
use mathlib.Core.List.{append_assoc}
use libpulp.Base.{
  append_nil, ℕ, suc, ◌^◌, ◌<◌, ◌≡◌, refl, sym, ap, ◌∙◌, List, [], ◌∷◌, ◌++◌, Bool, true, false,
  ◌==◌, length, take, drop, arith, drop_all, ◌+◌, ◌%◌, ◌≤◌, ltb,
}
use libpulp.Base.Memory.{bytes_le, value_le, length-bytes_le, value_le-bytes_le}
use libpulp.Errors.Codes.{einvalidulp}
use libpulp.InsnQueue.Commands.{IsText}
use libpulp.Metadata.Read.{
  Cursor, Parsed, parsed, and_then, read_exactly, read_from_mem, read_integer, read_c, read_c_whole,
  allocated, read_counted, text, read_bytes, read_into,
}

abbrev pub cursor : List ℕ → ℕ → ℕ → Cursor
cursor rest c n = record { rest = rest; c = c; allocations = n }

-- In front of any other bytes, the step takes exactly these and gives the value.
abbrev pub Reads : {A : Type 0} → (Cursor → Parsed A) → List ℕ → A → Type 0
Reads p xs a =
    (ys : List ℕ) (c n : ℕ)
    → (c' : ℕ) × (n' : ℕ) × (p (cursor (xs ++ ys) c n) ≡ parsed a (cursor ys c' n'))

-- One step after another reads one encoding behind another.
pub and_then-Reads :
    {A B : Type 0} (p : Cursor → Parsed A) (f : A → Cursor → Parsed B) (xs zs : List ℕ) (a : A)
    (b : B)
    → Reads p xs a
    → Reads (f a) zs b
    → Reads (λ k. and_then (p k) f) (xs ++ zs) b
unfolding and_then
and_then-Reads p f xs zs a b hp hf ys c n =
    let (c1, n1, e1) = hp (zs ++ ys) c n in
    let (c2, n2, e2) = hf ys c1 n1 in
    (
      c2,
      n2,
      ap (λ l. and_then (p (cursor l c n)) f) (append_assoc xs zs ys)
          ∙ ap (λ r. and_then r f) e1
          ∙ e2,
    )

pub parsed-Reads : {A : Type 0} (a : A) → Reads (parsed a) [] a
parsed-Reads a ys c n = (c, n, refl)

take-append_self : (xs ys : List ℕ) → take (length xs) (xs ++ ys) ≡ xs
take-append_self [] ys = refl
take-append_self (x ∷ xs) ys = ap (◌∷◌ x) (take-append_self xs ys)

drop-append_self : (xs ys : List ℕ) → drop (length xs) (xs ++ ys) ≡ ys
drop-append_self [] ys = refl
drop-append_self (x ∷ xs) ys = drop-append_self xs ys

pub read_exactly-Reads : (w : ℕ) (xs : List ℕ) → length xs ≡ w → Reads (read_exactly w) xs xs
unfolding read_exactly read_from_mem
read_exactly-Reads w xs h ys c n =
    (c, n, rw (sym h, take-append_self xs ys, drop-append_self xs ys) (ground arith))

-- An integer of which all bytes are there.
pub read_integer-Reads :
    (w old error v : ℕ) → 0 < w → v < 256 ^ w → Reads (read_integer w old error) (bytes_le w v) v
unfolding read_integer read_from_mem
read_integer-Reads w old error v pos h ys c n =
    let old_bytes = bytes_le w old in
    let front : take w (bytes_le w v ++ ys) ≡ bytes_le w v =
      ap (λ k. take k (bytes_le w v ++ ys)) (sym (length-bytes_le w v))
      ∙ take-append_self (bytes_le w v) ys in
    let back : drop w (bytes_le w v ++ ys) ≡ ys =
      ap (λ k. drop k (bytes_le w v ++ ys)) (sym (length-bytes_le w v))
      ∙ drop-append_self (bytes_le w v) ys in
    let kept : drop w old_bytes ≡ [] =
      drop_all w old_bytes (omega (arith, length-bytes_le w old)) in
    let some_bytes : (w == 0) ≡ false = ground arith in
    (
      c,
      n,
      rw
          (
            front,
            back,
            length-bytes_le w v,
            kept,
            append_nil (bytes_le w v),
            value_le-bytes_le w v h,
          )
          (ground (arith, some_bytes)),
    )

pub read_c-Reads : (v : ℕ) → v < 256 ^ 4 → Reads read_c (bytes_le 4 v) v
unfolding read_c and_then
read_c-Reads v h ys c n =
    let (c', n', e) = read_integer-Reads 4 c einvalidulp v (omega arith) h ys c n in
    (v, n', ap (λ r. and_then r (λ v k'. parsed v (record k' { c = v }))) e)

pub read_c_whole-Reads : (v : ℕ) → v < 256 ^ 4 → Reads read_c_whole (bytes_le 4 v) v
unfolding read_c_whole and_then
read_c_whole-Reads v h ys c n =
    let (c', n', e) = read_exactly-Reads 4 (bytes_le 4 v) (length-bytes_le 4 v) ys c n in
    (
      v,
      n',
      ap (λ r. and_then r (λ got k'. parsed (value_le got) (record k' { c = value_le got }))) e
          ∙ ap (λ u. parsed u (record { rest = ys; c = u; allocations = n' }))
              (value_le-bytes_le 4 v h),
    )

pub allocated-Reads :
    (calloc : ℕ → Bool) (error : ℕ)
    → ((n : ℕ) → calloc n ≡ true)
    → Reads (allocated calloc error) [] true
unfolding allocated
allocated-Reads calloc error h ys c n = (c, suc n, rw (h n) refl)

-- Bytes behind their count.
abbrev pub counted : List ℕ → List ℕ
counted bs = bytes_le 4 (length bs) ++ bs

pub read_into-Reads :
    (room : ℕ) (xs : List ℕ) → length xs ≤ room → Reads (read_into room (length xs)) xs xs
unfolding read_into
read_into-Reads room xs fits ys c n =
    let (c', n', e) = read_exactly-Reads (length xs) xs refl ys c n in
    let inside : ltb room (length (take (length xs) (xs ++ ys))) ≡ false =
      rw (take-append_self xs ys) (ground arith) in
    (c', n', rw (read_into, inside) e)

pub read_bytes-Reads :
    (calloc : ℕ → Bool) (bs : List ℕ)
    → ((n : ℕ) → calloc n ≡ true)
    → length bs < 256 ^ 4
    → Reads (read_bytes calloc) (counted bs) bs
unfolding read_bytes
read_bytes-Reads calloc bs h long =
    and_then-Reads read_c (λ c k1. and_then (allocated calloc einvalidulp k1) (λ ok. read_into c c))
      (bytes_le 4 (length bs)) bs (length bs) bs (read_c-Reads (length bs) long)
      (and_then-Reads (allocated calloc einvalidulp) (λ ok. read_into (length bs) (length bs)) [] bs
        true bs (allocated-Reads calloc einvalidulp h)
        (read_into-Reads (length bs) bs (omega arith)))

-- A string for which the length of its buffer does not wrap around.
no_wrap : (c : ℕ) → c + 1 < 256 ^ 4 → (c < 256 ^ 4) × (c ≤ (c + 1) % 2 ^ 32)
no_wrap c h = (omega arith, omega arith)

pub read_counted-Reads :
    (calloc : ℕ → Bool) (bs : List ℕ)
    → ((n : ℕ) → calloc n ≡ true)
    → length bs + 1 < 256 ^ 4
    → Reads (read_counted calloc) (counted bs) bs
unfolding read_counted
read_counted-Reads calloc bs h long =
    let (short, fits) = no_wrap (length bs) long in
    and_then-Reads read_c
      (λ c k1. and_then (allocated calloc einvalidulp k1) (λ ok. read_into ((c + 1) % 2 ^ 32) c))
      (bytes_le 4 (length bs)) bs (length bs) bs (read_c-Reads (length bs) short)
      (and_then-Reads (allocated calloc einvalidulp)
        (λ ok. read_into ((length bs + 1) % 2 ^ 32) (length bs)) [] bs true bs
        (allocated-Reads calloc einvalidulp h) (read_into-Reads ((length bs + 1) % 2 ^ 32) bs fits))

-- A C string is read whole if it has no null character.
pub text-IsText : (bs : List ℕ) → IsText bs → text bs ≡ bs
unfolding text
text-IsText [] h = refl
text-IsText (b ∷ bs) h = let nonzero = h.0 in ground (arith, text-IsText bs h.1)
