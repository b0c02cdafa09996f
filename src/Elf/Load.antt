-- ===== src/Elf/Load.antt =====
-- gdb_ulp_apply of lib/gdb_interface.c as a whole, up to the call of __ulp_apply_patch: from the
-- file to the metadata that this entry point parses.
use mathlib.Core.Option.{some-injective}
use libpulp.Base.{
  ◌≢◌, ℕ, ◌+◌, ◌-◌, ◌≤◌, ◌≡◌, sym, ap, ◌∙◌, subst, List, [], ◌∷◌, ◌++◌, Option, some, Bool, true,
  length, arith, length-append,
}
use libpulp.Base.Memory.{Memory, load, store, load_split, load-store_self, length-load}
use libpulp.InsnQueue.Commands.{IsText}
use libpulp.Patch.Defs.{Metadata}
use libpulp.Metadata.Read.{parsed}
use libpulp.Metadata.Parse.{parse_metadata_from_mem}
use libpulp.Metadata.Steps.{cursor, counted}
use libpulp.Metadata.Whole.{encode_with, encode_lists, IsFresh, parse_metadata_from_mem-encode_with}
use libpulp.Call.Calls.{metadata_buf_len}
use libpulp.Elf.Defs.{OpenFile, SectionHeader, section, get_ulp_section, ulp_name}
use libpulp.Elf.Loops.{IsWhole}
use libpulp.Elf.Search.{Image, section_of, loaded_of, get_elf_section-loaded}
use libpulp.Elf.Inject.{
  packed, inject_lp_path, injected, gdb_prepare, inject_lp_path-encode, text-null,
}

-- What memset leaves of the metadata buffer.
abbrev pub zeroed : Memory
zeroed p = 0

-- gdb_ulp_apply up to the call of __ulp_apply_patch
unfoldable pub gdb_load : Memory → List ℕ → Option OpenFile → Option (ℕ × Memory)
gdb_load stack path file = gdb_prepare path (get_ulp_section stack metadata_buf_len zeroed file)

packed_size :
    (ulp : Metadata) (size : ℕ)
    → size ≡ length (packed ulp)
    → length ulp.patch_id ≡ 32
    → size ≡ 33 + (size - 33)
packed_size ulp size e id =
    let whole =
      length-append ((ulp.type ∷ []) ++ ulp.patch_id)
        ((counted ulp.objs.build_id ++ (counted ulp.objs.name ++ [])) ++ encode_lists ulp) in
    omega arith

-- Behind a load of packed metadata, the buffer is parsed as the metadata with the path.
prepared-parsed :
    (calloc : ℕ → Bool) (ulp : Metadata) (size : ℕ) (buffer : Memory)
    → ((k : ℕ) → calloc k ≡ true)
    → IsFresh ulp
    → load buffer 0 size ≡ packed ulp
    → size + (5 + length ulp.so_filename) ≤ metadata_buf_len
    → (final : Memory) × (c : ℕ) × (n : ℕ) × (junk : List ℕ) × (gdb_prepare ulp.so_filename
          (some (section size buffer))
        ≡ some (0, final))
      × (parse_metadata_from_mem calloc (cursor (load final 0 metadata_buf_len) 0 0)
          ≡ parsed ulp (cursor junk c n))
unfolding gdb_prepare injected
prepared-parsed calloc ulp size buffer spare fresh packs room =
    let path = ulp.so_filename in
    let so = path ++ (0 ∷ []) in
    let long = length-append path (0 ∷ []) in
    let r = size - 33 in
    let whole : size ≡ 33 + r =
      packed_size ulp size (sym (length-load buffer 0 size) ∙ ap length packs) fresh.1 in
    let (final, injects, encodes) =
      inject_lp_path-encode buffer r ulp fresh.1 (ap (load buffer 0) (sym whole) ∙ packs)
        (omega arith) in
    let used = 33 + r + (5 + length path) in
    let junk = load final used (metadata_buf_len - used) in
    let total : used + (metadata_buf_len - used) ≡ metadata_buf_len = omega arith in
    let (c, n, parses) =
      parse_metadata_from_mem-encode_with calloc so ulp 0 0 junk spare fresh (omega arith)
        (text-null path fresh.2.0) in
    let split : load final 0 metadata_buf_len ≡ encode_with so ulp ++ junk =
      ap (load final 0) (sym total)
      ∙ load_split final 0 used (metadata_buf_len - used)
      ∙ ap (λ x. x ++ load final (0 + used) (metadata_buf_len - used)) encodes
      ∙ ap (λ a. encode_with so ulp ++ load final a (metadata_buf_len - used)) (omega arith) in
    (
      final,
      c,
      n,
      junk,
      ap (λ k. injected (inject_lp_path path k buffer)) whole ∙ ap injected injects,
      ap (λ k. parse_metadata_from_mem calloc (cursor k 0 0)) split ∙ parses,
    )

ulp_name-IsText : IsText ulp_name
ulp_name-IsText = (λ e. omega arith, (λ e. omega arith, (λ e. omega arith, (λ e. omega arith, tt))))

packed_nonempty : (ulp : Metadata) (size : ℕ) → size ≡ length (packed ulp) → size ≢ 0
packed_nonempty ulp size e zero_size = omega arith

loaded_of-section :
    (f : OpenFile) (h : SectionHeader)
    → h.sh_size ≤ metadata_buf_len
    → h.sh_size ≢ 0
    → loaded_of f metadata_buf_len zeroed (some h)
      ≡ section h.sh_size (store zeroed 0 (load f.content h.sh_offset h.sh_size))
unfolding loaded_of
loaded_of-section f h fits nonempty = ground arith

-- The first section named ".ulp" of a file, that read gives whole and that is an ELF file in the
-- sense of Image, holds the metadata of a patch without its path; the metadata fits the buffer
-- together with the path, and no allocation fails. Then gdb_ulp_apply reaches __ulp_apply_patch, and
-- with what it leaves in the buffer parse_metadata_from_mem gives back exactly that patch, with the
-- path of the file as the path of its container.
pub gdb_load-parsed :
    (calloc : ℕ → Bool) (f : OpenFile) (image : Image f) (h : SectionHeader) (ulp : Metadata)
    (stack : Memory)
    → IsWhole f
    → ((k : ℕ) → calloc k ≡ true)
    → IsFresh ulp
    → section_of f image ulp_name ≡ some h
    → h.sh_offset + h.sh_size ≤ f.size
    → load f.content h.sh_offset h.sh_size ≡ packed ulp
    → h.sh_size + (5 + length ulp.so_filename) ≤ metadata_buf_len
    → (final : Memory) × (c : ℕ) × (n : ℕ) × (junk : List ℕ) × (gdb_load stack ulp.so_filename
          (some f)
        ≡ some (0, final))
      × (parse_metadata_from_mem calloc (cursor (load final 0 metadata_buf_len) 0 0)
          ≡ parsed ulp (cursor junk c n))
unfolding gdb_load get_ulp_section
gdb_load-parsed calloc f image h ulp stack reads spare fresh there inside packs room =
    let buffer = store zeroed 0 (load f.content h.sh_offset h.sh_size) in
    let long = length-load f.content h.sh_offset h.sh_size in
    let copied : load buffer 0 h.sh_size ≡ packed ulp =
      ap (load buffer 0) (sym long)
      ∙ load-store_self zeroed 0 (load f.content h.sh_offset h.sh_size)
      ∙ packs in
    let got =
      get_elf_section-loaded f reads image ulp_name stack zeroed metadata_buf_len ulp_name-IsText
        (omega arith)
        (λ k e.
          subst (λ x. x.sh_offset + x.sh_size ≤ f.size) (some-injective h k (sym there ∙ e))
            inside) in
    let loads : get_ulp_section stack metadata_buf_len zeroed (some f)
        ≡ some (section h.sh_size buffer) =
      got
      ∙ ap (λ o. some (loaded_of f metadata_buf_len zeroed o)) there
      ∙ ap some (
          loaded_of-section f h (omega arith)
            (packed_nonempty ulp h.sh_size (sym long ∙ ap length packs))) in
    let (final, c, n, junk, prepares, parses) =
      prepared-parsed calloc ulp h.sh_size buffer spare fresh copied room in
    (final, c, n, junk, ap (gdb_prepare ulp.so_filename) loads ∙ prepares, parses)
