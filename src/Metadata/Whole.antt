-- ===== src/Metadata/Whole.antt =====
-- parse_metadata_from_mem reads back what a patch is encoded as.
use libpulp.Base.{
  subst, ℕ, ◌^◌, ◌<◌, ◌≡◌, ◌≢◌, refl, sym, List, [], ◌∷◌, ◌++◌, Bool, true, false, ◌==◌, length,
  arith, ◌+◌,
}
use libpulp.Base.Memory.{bytes_le, value_le, length-bytes_le, value_le-bytes_le}
use libpulp.Errors.Codes.{enomem}
use libpulp.Patch.Defs.{Metadata}
use libpulp.Metadata.Read.{
  parsed, and_then, read_exactly, read_integer, read_c, allocated, read_counted, text, read_bytes,
}
use libpulp.Metadata.Parse.{
  parse_unit, parse_dependency, parse_reference, repeat, parse_lists, checked,
  parse_metadata_from_mem, parse_header, parse_rest, parse_names,
}
use libpulp.Metadata.Steps.{
  cursor, Reads, and_then-Reads, parsed-Reads, read_exactly-Reads, read_integer-Reads, read_c-Reads,
  allocated-Reads, counted, read_counted-Reads, text-IsText, read_bytes-Reads,
}
use libpulp.Metadata.Encode.{
  IsName, encode_unit, IsUnit, encode_dependency, IsDependency, encode_reference, IsReference,
  encode_all, All, repeat-Reads, parse_unit-Reads, parse_dependency-Reads, parse_reference-Reads,
}

abbrev pub encode_lists : Metadata → List ℕ
encode_lists ulp =
    bytes_le 4 (length ulp.objs.units)
    ++ (encode_all encode_unit ulp.objs.units
        ++ (bytes_le 4 (length ulp.deps)
            ++ (encode_all encode_dependency ulp.deps
                ++ (bytes_le 4 (length ulp.refs) ++ (encode_all encode_reference ulp.refs ++ [])))))

-- The lists of a patch that the format can hold.
abbrev pub HasLists : Metadata → Type 0
HasLists ulp =
    (length ulp.objs.units < 256 ^ 4)
    × All IsUnit ulp.objs.units
    × (length ulp.deps < 256 ^ 4)
    × All IsDependency ulp.deps
    × (length ulp.refs < 256 ^ 4)
    × All IsReference ulp.refs

-- A patch as it stands before the lists are read.
abbrev pub bare : Metadata → Metadata
bare ulp = record ulp { objs = record (ulp.objs) { units = [] }; deps = []; refs = [] }

module _ (calloc : ℕ → Bool) (spare : (n : ℕ) → calloc n ≡ true) where
  parse_lists-Reads :
      (ulp : Metadata) → HasLists ulp → Reads (parse_lists calloc (bare ulp)) (encode_lists ulp) ulp
  unfolding parse_lists
  parse_lists-Reads ulp h =
      and_then-Reads (read_integer 4 0 1) _ (bytes_le 4 (length ulp.objs.units)) _
        (length ulp.objs.units) ulp
        (read_integer-Reads 4 0 1 (length ulp.objs.units) (omega arith) h.0)
        (and_then-Reads (repeat (parse_unit calloc) (length ulp.objs.units)) _
          (encode_all encode_unit ulp.objs.units) _ ulp.objs.units ulp
          (repeat-Reads (parse_unit calloc) encode_unit IsUnit (parse_unit-Reads calloc spare)
            ulp.objs.units h.1)
          (and_then-Reads read_c _ (bytes_le 4 (length ulp.deps)) _ (length ulp.deps) ulp
            (read_c-Reads (length ulp.deps) h.2)
            (and_then-Reads (repeat (parse_dependency calloc) (length ulp.deps)) _
              (encode_all encode_dependency ulp.deps) _ ulp.deps ulp
              (repeat-Reads (parse_dependency calloc) encode_dependency IsDependency
                (parse_dependency-Reads calloc spare) ulp.deps h.3)
              (and_then-Reads (read_exactly 4) _ (bytes_le 4 (length ulp.refs)) _
                (bytes_le 4 (length ulp.refs)) ulp
                (read_exactly-Reads 4 (bytes_le 4 (length ulp.refs))
                  (length-bytes_le 4 (length ulp.refs)))
                (and_then-Reads
                  (repeat (parse_reference calloc) (value_le (bytes_le 4 (length ulp.refs)))) _
                  (encode_all encode_reference ulp.refs) [] ulp.refs ulp
                  (subst
                    (λ k.
                      Reads (repeat (parse_reference calloc) k)
                        (encode_all encode_reference ulp.refs) ulp.refs)
                    (sym (value_le-bytes_le 4 (length ulp.refs) h.4))
                    (repeat-Reads (parse_reference calloc) encode_reference IsReference
                      (parse_reference-Reads calloc spare) ulp.refs h.5))
                  (parsed-Reads ulp))))))

-- What stands before the lists, and the whole.
abbrev pub encode_names : List ℕ → Metadata → List ℕ
encode_names so ulp =
    ulp.patch_id ++ (counted so ++ (counted ulp.objs.build_id ++ (counted ulp.objs.name ++ [])))

-- The bytes of the container's path are `so`, which may end in a null character.
abbrev pub encode_with : List ℕ → Metadata → List ℕ
encode_with so ulp = ((ulp.type ∷ []) ++ encode_names so ulp) ++ encode_lists ulp

abbrev pub encode_metadata : Metadata → List ℕ
encode_metadata ulp = encode_with ulp.so_filename ulp

-- A patch, not a reverse one, that the format can hold, before it is loaded and checked.
abbrev pub IsFresh : Metadata → Type 0
IsFresh ulp =
    (ulp.type ≢ 2)
    × (length ulp.patch_id ≡ 32)
    × IsName ulp.so_filename
    × (ulp.so_filename ≢ [])
    × (length ulp.objs.build_id < 256 ^ 4)
    × IsName ulp.objs.name
    × (ulp.so_handler ≡ 0)
    × (ulp.objs.build_id_check ≡ false)
    × HasLists ulp

checked-Reads : (name : List ℕ) → name ≢ [] → Reads (checked name) [] name
unfolding checked
checked-Reads [] h = absurd (h refl)
checked-Reads (b ∷ bs) h = parsed-Reads (b ∷ bs)

value_one : (b : ℕ) → value_le (b ∷ []) ≡ b
unfolding value_le
value_one b = omega arith

parse_names-Reads :
    (calloc : ℕ → Bool) (so : List ℕ) (ulp : Metadata)
    → ((k : ℕ) → calloc k ≡ true)
    → IsFresh ulp
    → length so + 1 < 256 ^ 4
    → text so ≡ ulp.so_filename
    → Reads (parse_names calloc (ulp.type ∷ [])) (encode_names so ulp) (bare ulp)
unfolding parse_names
parse_names-Reads calloc so ulp spare h small path =
    let ids = counted ulp.objs.build_id ++ (counted ulp.objs.name ++ []) in
    let done = bare ulp in
    and_then-Reads (read_exactly 32) _ ulp.patch_id (counted so ++ ids) ulp.patch_id done
      (read_exactly-Reads 32 ulp.patch_id h.1)
      (and_then-Reads (read_counted calloc) _ (counted so) ids so done
        (read_counted-Reads calloc so spare small)
        (and_then-Reads (checked (text so)) _ [] ids ulp.so_filename done
          (subst (λ t. Reads (checked t) [] ulp.so_filename) (sym path)
            (checked-Reads ulp.so_filename h.3))
          (and_then-Reads (allocated calloc enomem) _ [] ids true done
            (allocated-Reads calloc enomem spare)
            (and_then-Reads (read_bytes calloc) _ (counted ulp.objs.build_id)
              (counted ulp.objs.name ++ []) ulp.objs.build_id done
              (read_bytes-Reads calloc ulp.objs.build_id spare h.4)
              (and_then-Reads (read_counted calloc) _ (counted ulp.objs.name) [] ulp.objs.name done
                (read_counted-Reads calloc ulp.objs.name spare h.5.1)
                (λ ys d k. (
                  d,
                  k,
                  rw (text-IsText ulp.objs.name h.5.0, value_one ulp.type, h.6, h.7) refl,
                )))))))

parse_rest-Reads :
    (calloc : ℕ → Bool) (ulp : Metadata)
    → ((k : ℕ) → calloc k ≡ true)
    → IsFresh ulp
    → Reads (parse_rest calloc (bare ulp)) (encode_lists ulp) ulp
unfolding parse_rest
parse_rest-Reads calloc ulp spare h ys c n =
    let (c', n', e) = parse_lists-Reads calloc spare ulp h.8 ys c n in
    let other : (ulp.type == 2) ≡ false = let apart = h.0 in ground arith in
    (c', n', rw (parse_rest, other) e)

-- The path of the container may stand with or without a null character behind it.
pub parse_metadata_from_mem-encode_with :
    (calloc : ℕ → Bool) (so : List ℕ) (ulp : Metadata) (c n : ℕ) (junk : List ℕ)
    → ((k : ℕ) → calloc k ≡ true)
    → IsFresh ulp
    → length so + 1 < 256 ^ 4
    → text so ≡ ulp.so_filename
    → (c' : ℕ) × (n' : ℕ) × (parse_metadata_from_mem calloc
          (cursor (encode_with so ulp ++ junk) c n)
        ≡ parsed ulp (cursor junk c' n'))
unfolding parse_header and_then parse_metadata_from_mem
parse_metadata_from_mem-encode_with calloc so ulp c n junk spare h small path =
    and_then-Reads (parse_header calloc) (parse_rest calloc)
      ((ulp.type ∷ []) ++ encode_names so ulp) (encode_lists ulp) (bare ulp) ulp
      (and_then-Reads (read_exactly 1) (parse_names calloc) (ulp.type ∷ []) (encode_names so ulp)
        (ulp.type ∷ []) (bare ulp) (read_exactly-Reads 1 (ulp.type ∷ []) refl)
        (parse_names-Reads calloc so ulp spare h small path))
      (parse_rest-Reads calloc ulp spare h) junk c n

-- If no allocation fails, parse_metadata_from_mem reads a patch that is not a reverse patch back
-- from its encoding, whatever follows that in the buffer; where its id has 32 bytes, addresses fit
-- 64 bits, lengths fit 32 bits, those of its path, of its object's name and of the functions' names
-- even with one more for the null character, these strings have no null character, the path is not
-- empty, and nothing of the patch is loaded or checked yet.
pub parse_metadata_from_mem-encode_metadata :
    (calloc : ℕ → Bool) (ulp : Metadata) (c n : ℕ) (junk : List ℕ)
    → ((k : ℕ) → calloc k ≡ true)
    → IsFresh ulp
    → (c' : ℕ) × (n' : ℕ) × (parse_metadata_from_mem calloc
          (cursor (encode_metadata ulp ++ junk) c n)
        ≡ parsed ulp (cursor junk c' n'))
parse_metadata_from_mem-encode_metadata calloc ulp c n junk spare h =
    parse_metadata_from_mem-encode_with calloc ulp.so_filename ulp c n junk spare h h.2.1
      (text-IsText ulp.so_filename h.2.0)
