-- ===== src/Metadata/Encode.antt =====
-- Metadata as the bytes that the tools write, and that parse_metadata_from_mem reads them back.
use libpulp.Base.{
  ℕ, ◌^◌, ◌<◌, ◌≡◌, refl, sym, ap, List, [], ◌∷◌, ◌++◌, Bool, true, false, not, ◌==◌, length, arith,
  ◌+◌,
}
use libpulp.Base.Memory.{bytes_le, value_le, length-bytes_le, value_le-bytes_le}
use libpulp.Errors.Codes.{einvalidulp, enomem}
use libpulp.InsnQueue.Commands.{IsText}
use libpulp.Patch.Defs.{UlpUnit, Dependency, Reference}
use libpulp.Metadata.Read.{
  Cursor, Parsed, parsed, and_then, read_exactly, read_integer, allocated, read_counted,
  read_c_whole,
}
use libpulp.Metadata.Parse.{parse_unit, parse_dependency, parse_name, parse_reference, repeat}
use libpulp.Metadata.Steps.{
  cursor, Reads, and_then-Reads, parsed-Reads, read_exactly-Reads, read_integer-Reads,
  read_c_whole-Reads, allocated-Reads, counted, read_counted-Reads, text-IsText,
}

-- A C string that the format has room for, with its null character.
abbrev pub IsName : List ℕ → Type 0
IsName name = IsText name × (length name + 1 < 256 ^ 4)

abbrev pub encode_unit : UlpUnit → List ℕ
encode_unit u = counted u.old_fname ++ (counted u.new_fname ++ (bytes_le 8 u.old_faddr ++ []))

abbrev pub IsUnit : UlpUnit → Type 0
IsUnit u = IsName u.old_fname × IsName u.new_fname × (u.old_faddr < 256 ^ 8)

abbrev pub encode_dependency : Dependency → List ℕ
encode_dependency d = d.dep_id ++ []

abbrev pub IsDependency : Dependency → Type 0
IsDependency d = (length d.dep_id ≡ 32) × (d.patch_id_check ≡ false)

-- A flag as the byte of a bool.
abbrev pub flag : Bool → List ℕ
flag true = 1 ∷ []
flag false = 0 ∷ []

abbrev pub encode_reference : Reference → List ℕ
encode_reference r =
    counted r.target_name
    ++ (counted r.reference_name
        ++ (bytes_le 8 r.target_offset ++ (bytes_le 8 r.patch_offset ++ (flag r.tls ++ []))))

abbrev pub IsReference : Reference → Type 0
IsReference r =
    (length r.target_name < 256 ^ 4)
    × (length r.reference_name < 256 ^ 4)
    × (r.target_offset < 256 ^ 8)
    × (r.patch_offset < 256 ^ 8)

abbrev pub encode_all : {A : Type 0} → (A → List ℕ) → List A → List ℕ
encode_all enc [] = []
encode_all enc (x ∷ xs) = enc x ++ (encode_all enc xs ++ [])

abbrev pub All : {A : Type 0} → (A → Type 0) → List A → Type 0
All P [] = Unit
All P (x ∷ xs) = P x × All P xs

pub repeat-Reads :
    {A : Type 0} (round : Cursor → Parsed A) (enc : A → List ℕ) (P : A → Type 0)
    → ((x : A) → P x → Reads round (enc x) x)
    → (xs : List A) → All P xs
    → Reads (repeat round (length xs)) (encode_all enc xs) xs
unfolding repeat
repeat-Reads round enc P one [] h = parsed-Reads []
repeat-Reads round enc P one (x ∷ xs) h =
    and_then-Reads round (λ y k1. and_then (repeat round (length xs) k1) (λ ys. parsed (y ∷ ys)))
      (enc x) (encode_all enc xs ++ []) x (x ∷ xs) (one x h.0)
      (and_then-Reads (repeat round (length xs)) (λ ys. parsed (x ∷ ys)) (encode_all enc xs) [] xs
        (x ∷ xs) (repeat-Reads round enc P one xs h.1) (parsed-Reads (x ∷ xs)))

flag-length : (b : Bool) → length (flag b) ≡ 1
flag-length true = refl
flag-length false = refl

flag-value : (b : Bool) → not (value_le (flag b) == 0) ≡ b
unfolding value_le
flag-value true = refl
flag-value false = refl

module _ (calloc : ℕ → Bool) (spare : (n : ℕ) → calloc n ≡ true) where
  pub parse_unit-Reads : (u : UlpUnit) → IsUnit u → Reads (parse_unit calloc) (encode_unit u) u
  unfolding parse_unit
  parse_unit-Reads u h =
      and_then-Reads (allocated calloc enomem) _ [] (encode_unit u) true u
        (allocated-Reads calloc enomem spare)
        (and_then-Reads (read_counted calloc) _ (counted u.old_fname) _ u.old_fname u
          (read_counted-Reads calloc u.old_fname spare h.0.1)
          (and_then-Reads (read_counted calloc) _ (counted u.new_fname) _ u.new_fname u
            (read_counted-Reads calloc u.new_fname spare h.1.1)
            (and_then-Reads (read_integer 8 0 einvalidulp) _ (bytes_le 8 u.old_faddr) [] u.old_faddr
              u (read_integer-Reads 8 0 einvalidulp u.old_faddr (omega arith) h.2)
              (λ ys c n.
                (c, n, rw (text-IsText u.old_fname h.0.0, text-IsText u.new_fname h.1.0) refl)))))

  pub parse_dependency-Reads :
      (d : Dependency) → IsDependency d → Reads (parse_dependency calloc) (encode_dependency d) d
  unfolding parse_dependency
  parse_dependency-Reads d h =
      and_then-Reads (allocated calloc enomem) _ [] (encode_dependency d) true d
        (allocated-Reads calloc enomem spare)
        (and_then-Reads (read_exactly 32) _ d.dep_id [] d.dep_id d
          (read_exactly-Reads 32 d.dep_id h.0)
          (λ ys c n. (
            c,
            n,
            ap (λ b. parsed (record { dep_id = d.dep_id; patch_id_check = b }) (cursor ys c n))
                (sym h.1),
          )))

  parse_name-Reads :
      (name : List ℕ) → length name < 256 ^ 4 → Reads (parse_name calloc) (counted name) name
  unfolding parse_name
  parse_name-Reads name h =
      and_then-Reads read_c_whole _ (bytes_le 4 (length name)) name (length name) name
        (read_c_whole-Reads (length name) h)
        (and_then-Reads (allocated calloc enomem) (λ ok. read_exactly (length name)) [] name true
          name (allocated-Reads calloc enomem spare) (read_exactly-Reads (length name) name refl))

  pub parse_reference-Reads :
      (r : Reference) → IsReference r → Reads (parse_reference calloc) (encode_reference r) r
  unfolding parse_reference
  parse_reference-Reads r h =
      and_then-Reads (allocated calloc enomem) _ [] (encode_reference r) true r
        (allocated-Reads calloc enomem spare)
        (and_then-Reads (parse_name calloc) _ (counted r.target_name) _ r.target_name r
          (parse_name-Reads r.target_name h.0)
          (and_then-Reads (parse_name calloc) _ (counted r.reference_name) _ r.reference_name r
            (parse_name-Reads r.reference_name h.1)
            (and_then-Reads (read_exactly 8) _ (bytes_le 8 r.target_offset) _
              (bytes_le 8 r.target_offset) r
              (read_exactly-Reads 8 (bytes_le 8 r.target_offset)
                (length-bytes_le 8 r.target_offset))
              (and_then-Reads (read_exactly 8) _ (bytes_le 8 r.patch_offset) _
                (bytes_le 8 r.patch_offset) r
                (read_exactly-Reads 8 (bytes_le 8 r.patch_offset)
                  (length-bytes_le 8 r.patch_offset))
                (and_then-Reads (read_exactly 1) _ (flag r.tls) [] (flag r.tls) r
                  (read_exactly-Reads 1 (flag r.tls) (flag-length r.tls))
                  (λ ys c n. (
                    c,
                    n,
                    rw
                        (
                          value_le-bytes_le 8 r.target_offset h.2,
                          value_le-bytes_le 8 r.patch_offset h.3,
                          flag-value r.tls,
                        )
                        refl,
                  )))))))
