-- ===== src/Tests/Buffers.antt =====
-- The metadata of a patch, written and read back.
use libpulp.Base.{ℕ, ◌≡◌, [], ◌∷◌, ◌++◌, true, false, refl, arith, replicate}
use libpulp.Patch.Defs.{Metadata}
use libpulp.Metadata.Read.{parsed}
use libpulp.Metadata.Parse.{parse_metadata_from_mem}
use libpulp.Metadata.Steps.{cursor}
use libpulp.Metadata.Whole.{IsFresh, encode_metadata, parse_metadata_from_mem-encode_metadata}

abbrev pub small : Metadata
small = record {
  patch_id = replicate 32 7;
  so_filename = 102 ∷ [];
  so_handler = 0;
  objs = record {
    build_id = 1 ∷ 2 ∷ [];
    build_id_check = false;
    name = 108 ∷ [];
    units = record { old_fname = 102 ∷ []; new_fname = 103 ∷ []; old_faddr = 9 } ∷ [];
  };
  deps = record { dep_id = replicate 32 8; patch_id_check = false } ∷ [];
  refs =
      record {
        target_name = 97 ∷ 0 ∷ [];
        reference_name = 98 ∷ 0 ∷ [];
        target_offset = 16;
        patch_offset = 32;
        tls = true;
      }
      ∷ [];
  type = 1;
}

pub small-IsFresh : IsFresh small
small-IsFresh = (
  λ e. omega arith,
  refl,
  ((λ e. omega arith, tt), omega arith),
  λ e. ground arith,
  omega arith,
  ((λ e. omega arith, tt), omega arith),
  refl,
  refl,
  (
    omega arith,
    (
      (((λ e. omega arith, tt), omega arith), ((λ e. omega arith, tt), omega arith), omega arith),
      tt,
    ),
    omega arith,
    ((refl, refl), tt),
    omega arith,
    ((omega arith, omega arith, omega arith, omega arith), tt),
  ),
)

parse_example :
    (c : ℕ) × (n : ℕ) × (parse_metadata_from_mem
        (λ k. true)
        (cursor (encode_metadata small ++ 0 ∷ 0 ∷ []) 0 0)
      ≡ parsed small (cursor (0 ∷ 0 ∷ []) c n))
parse_example =
    parse_metadata_from_mem-encode_metadata (λ k. true) small 0 0 (0 ∷ 0 ∷ []) (λ k. refl)
      small-IsFresh
