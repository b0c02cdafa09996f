-- ===== src/Metadata/Read.antt =====
-- common/common.c: read_from_mem, and the steps that parse_metadata_from_mem repeats.
use libpulp.Base.{
  ℕ, suc, ◌+◌, ◌%◌, ◌^◌, List, [], ◌∷◌, ◌++◌, Bool, true, if◌then◌else◌, ltb, ◌==◌, length, take,
  drop,
}
use libpulp.Base.Memory.{bytes_le, value_le}
use libpulp.Errors.Codes.{einvalidulp}

-- `rest` is what `cur` and `meta_len` leave of the buffer, `c` is the local variable of that name,
-- a uint32_t, and `allocations` counts the calls of calloc.
pub record Cursor : Type 0 where
  pub rest : List ℕ
  pub c : ℕ
  pub allocations : ℕ

-- `overrun` is a copy that goes past its buffer, behind which the program is not followed.
pub data Parsed (A : Type 0) : Type 0 where
  overrun : Parsed A
  failed : ℕ → Parsed A
  parsed : A → Cursor → Parsed A

-- One step after another, up to the first that fails.
unfoldable pub and_then : {A B : Type 0} → Parsed A → (A → Cursor → Parsed B) → Parsed B
and_then overrun f = overrun
and_then (failed e) f = failed e
and_then (parsed a k) f = f a k

-- read_from_mem of `size` bytes in all: it gives what there is.
unfoldable pub read_from_mem : ℕ → Cursor → List ℕ × Cursor
read_from_mem size k = (take size k.rest, record k { rest = drop size k.rest })

-- A read whose result is compared with the number of bytes.
unfoldable pub read_exactly : ℕ → Cursor → Parsed (List ℕ)
unfolding read_from_mem
read_exactly size k =
    let (got, k') = read_from_mem size k in
    if ltb (length got) size then failed einvalidulp else parsed got k'

-- A read into an integer of `width` bytes that holds `old`, whose result is compared with 1: bytes
-- that are missing keep what they were.
unfoldable pub read_integer : ℕ → ℕ → ℕ → Cursor → Parsed ℕ
unfolding read_from_mem
read_integer width old error k =
    let (got, k') = read_from_mem width k in
    let whole = got ++ drop (length got) (bytes_le width old) in
    if length got == 0 then failed error else parsed (value_le whole) k'

-- The read of a length into `c`.
unfoldable pub read_c : Cursor → Parsed ℕ
unfolding and_then read_integer
read_c k = and_then (read_integer 4 k.c einvalidulp k) (λ v k'. parsed v (record k' { c = v }))

-- A read of `c` that is compared with 4.
unfoldable pub read_c_whole : Cursor → Parsed ℕ
unfolding and_then read_exactly
read_c_whole k =
    and_then (read_exactly 4 k) (λ got k'. parsed (value_le got) (record k' { c = value_le got }))

-- calloc, and the error that the function returns without memory
unfoldable pub allocated : (ℕ → Bool) → ℕ → Cursor → Parsed Bool
allocated calloc error k =
    if calloc k.allocations
    then parsed true (record k { allocations = suc k.allocations })
    else failed error

-- The copy of `c` bytes into a buffer of `room` bytes.
unfoldable pub read_into : ℕ → ℕ → Cursor → Parsed (List ℕ)
unfolding read_exactly
read_into room c k =
    let got = read_exactly c k in if ltb room (length (take c k.rest)) then overrun else got

-- A length, a buffer of that many bytes, and the bytes.
unfoldable pub read_bytes : (ℕ → Bool) → Cursor → Parsed (List ℕ)
unfolding and_then read_c allocated read_into
read_bytes calloc k =
    and_then (read_c k) (λ c k1. and_then (allocated calloc einvalidulp k1) (λ ok. read_into c c))

-- The same with a buffer of `c + 1` bytes, where the sum is a uint32_t.
unfoldable pub read_counted : (ℕ → Bool) → Cursor → Parsed (List ℕ)
unfolding and_then read_c allocated read_into
read_counted calloc k =
    and_then (read_c k)
      (λ c k1. and_then (allocated calloc einvalidulp k1) (λ ok. read_into ((c + 1) % 2 ^ 32) c))

-- What a C string is of the bytes that it was read from.
unfoldable pub text : List ℕ → List ℕ
text [] = []
text (b ∷ bs) = let rest = text bs in if b == 0 then [] else b ∷ rest
