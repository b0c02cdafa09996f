-- ===== src/Metadata/Parse.antt =====
-- common/common.c: parse_metadata_from_mem.
use libpulp.Base.{ℕ, zero, suc, List, [], ◌∷◌, Bool, false, if◌then◌else◌, ◌==◌, not}
use libpulp.Base.Memory.{value_le}
use libpulp.Errors.Codes.{einvalidulp, enomem}
use libpulp.Patch.Defs.{Metadata, UlpUnit, Dependency, Reference}
use libpulp.Metadata.Read.{
  Cursor, Parsed, failed, parsed, and_then, read_exactly, read_integer, read_c, read_c_whole,
  allocated, read_bytes, read_counted, text,
}

module _ (calloc : ℕ → Bool) where
  -- One round of the loop over the units.
  unfoldable pub parse_unit : Cursor → Parsed UlpUnit
  unfolding and_then allocated read_counted read_integer
  parse_unit k = and_then (allocated calloc enomem k) (λ ok k1.
      and_then (read_counted calloc k1) (λ old k2. and_then (read_counted calloc k2) (λ new k3.
        and_then (read_integer 8 0 einvalidulp k3) (λ addr k4.
          parsed (record { old_fname = text old; new_fname = text new; old_faddr = addr }) k4))))

  -- One round of the loop over the dependencies; `patch_id_check` is 0 from calloc.
  unfoldable pub parse_dependency : Cursor → Parsed Dependency
  unfolding and_then allocated read_exactly
  parse_dependency k = and_then (allocated calloc enomem k) (λ ok k1.
      and_then (read_exactly 32 k1) (λ id. parsed (record { dep_id = id; patch_id_check = false })))

  -- A name of a reference, with the error of its calloc, which is errno.
  unfoldable pub parse_name : Cursor → Parsed (List ℕ)
  unfolding and_then read_c_whole allocated read_exactly
  parse_name k =
      and_then (read_c_whole k)
        (λ c k1. and_then (allocated calloc enomem k1) (λ ok. read_exactly c))

  -- One round of the loop over the references. The names are kept as the bytes that were read.
  unfoldable pub parse_reference : Cursor → Parsed Reference
  unfolding and_then allocated parse_name read_exactly
  parse_reference k = and_then (allocated calloc enomem k) (λ ok k1.
      and_then (parse_name k1) (λ target k2. and_then (parse_name k2) (λ name k3.
        and_then (read_exactly 8 k3) (λ offset k4. and_then (read_exactly 8 k4) (λ patch k5.
          and_then (read_exactly 1 k5) (λ tls. parsed (record {
            target_name = target;
            reference_name = name;
            target_offset = value_le offset;
            patch_offset = value_le patch;
            tls = not (value_le tls == 0);
          })))))))

-- The container's path must not be empty.
unfoldable pub checked : List ℕ → Cursor → Parsed (List ℕ)
checked [] k = failed einvalidulp
checked (b ∷ bs) k = parsed (b ∷ bs) k

-- A loop of `n` rounds that appends what each round gives.
unfoldable pub repeat : {A : Type 0} → (Cursor → Parsed A) → ℕ → Cursor → Parsed (List A)
unfolding and_then
repeat round zero k = parsed [] k
repeat round (suc n) k =
    and_then (round k) (λ x k1. and_then (repeat round n k1) (λ xs. parsed (x ∷ xs)))

module _ (calloc : ℕ → Bool) where
  -- Behind the object's name: units, dependencies and references, for a patch that is applied.
  unfoldable pub parse_lists : Metadata → Cursor → Parsed Metadata
  unfolding and_then read_integer repeat read_c read_exactly
  parse_lists ulp k = and_then (read_integer 4 0 1 k) (λ nunits k1.
      and_then (repeat (parse_unit calloc) nunits k1) (λ units k2. and_then (read_c k2) (λ ndeps k3.
        and_then (repeat (parse_dependency calloc) ndeps k3) (λ deps k4.
          and_then (read_exactly 4 k4) (λ nrefs k5.
            and_then (repeat (parse_reference calloc) (value_le nrefs) k5) (λ refs.
              parsed (record ulp {
                objs = record (ulp.objs) { units = units };
                deps = deps;
                refs = refs;
              })))))))

  -- The part of parse_metadata_from_mem from the patch id to the object's name; `so_handler` is
  -- NULL from calloc.
  unfoldable pub parse_names : List ℕ → Cursor → Parsed Metadata
  unfolding and_then read_exactly read_bytes read_counted allocated checked text
  parse_names type k1 = and_then (read_exactly 32 k1) (λ patch_id k2.
      and_then (read_counted calloc k2) (λ so k3. and_then (checked (text so) k3) (λ so_filename k4.
        and_then (allocated calloc enomem k4) (λ ok k5.
          and_then (read_bytes calloc k5) (λ build_id k6. and_then (read_counted calloc k6) (λ name.
            parsed (record {
              patch_id = patch_id;
              so_filename = so_filename;
              so_handler = 0;
              objs = record {
                build_id = build_id;
                build_id_check = false;
                name = text name;
                units = [];
              };
              deps = [];
              refs = [];
              type = value_le type;
            })))))))

  -- The same with the patch's type before it.
  unfoldable pub parse_header : Cursor → Parsed Metadata
  unfolding and_then read_exactly parse_names
  parse_header k = and_then (read_exactly 1 k) parse_names

  -- The rest of it: a reverse patch has no lists.
  unfoldable pub parse_rest : Metadata → Cursor → Parsed Metadata
  unfolding parse_lists
  parse_rest ulp k = let lists = parse_lists ulp k in if ulp.type == 2 then parsed ulp k else lists

  unfoldable pub parse_metadata_from_mem : Cursor → Parsed Metadata
  unfolding and_then parse_header parse_rest
  parse_metadata_from_mem k = and_then (parse_header k) parse_rest
