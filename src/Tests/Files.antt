-- ===== src/Tests/Files.antt =====
-- A file of 203 bytes with a section ".ulp".
use mathlib.Core.Option.{some-injective}
use libpulp.Base.{
  ℕ, ◌+◌, ◌-◌, ◌≤◌, ◌≡◌, refl, sym, ap, ◌∙◌, List, [], ◌∷◌, some, length, arith, subst, true, ◌*◌,
}
use libpulp.Base.Memory.{Memory, load, store, value_le, length-load, bytes_le}
use libpulp.Elf.Defs.{OpenFile, ehdr_of, shdr_of, get_elf_section, matches, ulp_name, SectionHeader}
use libpulp.Elf.Loops.{IsWhole, headers}
use libpulp.Elf.Search.{Image, loaded_of, section_of, get_elf_section-loaded}
use libpulp.Elf.Load.{gdb_load, gdb_load-parsed}
use libpulp.Metadata.Read.{parsed}
use libpulp.Metadata.Steps.{cursor}
use libpulp.Metadata.Parse.{parse_metadata_from_mem}
use libpulp.Elf.Inject.{packed}
use libpulp.Tests.Buffers.{small, small-IsFresh}
use libpulp.Elf.Names.{find_header}

abbrev bytes : Memory
bytes =
    store
      (store
        (store
          (store
            (store
              (store
                (store
                  (store
                    (store (store (store (λ p. 0) 0 (127 ∷ 69 ∷ 76 ∷ 70 ∷ [])) 40 (64 ∷ [])) 58
                      (64 ∷ []))
                    60 (2 ∷ []))
                  88 (192 ∷ []))
                96 (6 ∷ []))
              128 (1 ∷ []))
            152 (200 ∷ []))
          160 (3 ∷ []))
        193 (46 ∷ 117 ∷ 108 ∷ 112 ∷ []))
      200 (5 ∷ 6 ∷ 7 ∷ [])

given :
    (c : Memory) (k n pos : ℕ) (bs : List ℕ)
    → k ≤ n
    → some (load c pos k) ≡ some bs
    → (bs ≡ load c pos (length bs)) × (length bs ≤ n)
given c k n pos bs le e =
    let same = some-injective (load c pos k) bs e in
    let long : length bs ≡ k = ap length (sym same) ∙ length-load c pos k in
    (sym same ∙ ap (load c pos) (sym long), omega arith)

abbrev file : OpenFile
file = record {
  content = bytes;
  size = 203;
  lseek = λ offset pos. offset;
  read = λ n pos. some (load bytes pos (n - (n + pos - 203)));
  lseek_lem = λ offset pos lt. refl;
  read_lem = λ n pos bs e. given bytes (n - (n + pos - 203)) n pos bs (omega arith) e;
}

file-IsWhole : IsWhole file
file-IsWhole n pos fits small =
    let k : n - (n + pos - 203) ≡ n = omega arith in ap (λ k. some (load bytes pos k)) k

file_image : Image file
unfolding ehdr_of shdr_of store load value_le headers
file_image = record {
  ehdr = ehdr_of (load bytes 0 64);
  parsed = refl;
  magic = refl;
  entsize = refl;
  room = omega arith;
  offsets = omega arith;
  table = omega arith;
  strndx = omega arith;
  strtab = shdr_of (load bytes 64 64);
  strings = refl;
  strsize = omega arith;
  content = omega arith;
  terminated = refl;
  names = (omega arith, (omega arith, tt));
}

abbrev stack : Memory
stack p = 9

abbrev empty : Memory
empty p = 0

found : section_of file file_image ulp_name ≡ some (shdr_of (load bytes 128 64))
unfolding ehdr_of shdr_of store load value_le headers find_header matches file_image
found = refl

found_inside : (shdr_of (load bytes 128 64)).sh_offset + (shdr_of (load bytes 128 64)).sh_size ≤ 203
unfolding shdr_of store load value_le
found_inside = omega arith

get_elf_section-loaded_example :
    get_elf_section stack 100 empty ulp_name (some file)
    ≡ some (loaded_of file 100 empty (section_of file file_image ulp_name))
get_elf_section-loaded_example =
    get_elf_section-loaded file file-IsWhole file_image ulp_name stack empty 100
      (λ e. omega arith, (λ e. omega arith, (λ e. omega arith, (λ e. omega arith, tt))))
      (omega arith)
      (λ h e.
        subst (λ x. x.sh_offset + x.sh_size ≤ 203)
          (some-injective (shdr_of (load bytes 128 64)) h (sym found ∙ e)) found_inside)

-- The same file with the metadata of a patch in that section.
abbrev patch_bytes : Memory
patch_bytes = store (store bytes 160 (135 ∷ [])) 200 (packed small)

abbrev patch_file : OpenFile
patch_file = record {
  content = patch_bytes;
  size = 335;
  lseek = λ offset pos. offset;
  read = λ n pos. some (load patch_bytes pos (n - (n + pos - 335)));
  lseek_lem = λ offset pos lt. refl;
  read_lem = λ n pos bs e. given patch_bytes (n - (n + pos - 335)) n pos bs (omega arith) e;
}

patch_file-IsWhole : IsWhole patch_file
patch_file-IsWhole n pos fits small =
    let k : n - (n + pos - 335) ≡ n = omega arith in ap (λ k. some (load patch_bytes pos k)) k

patch_image : Image patch_file
unfolding ehdr_of shdr_of store load value_le headers bytes_le
patch_image = record {
  ehdr = ehdr_of (load patch_bytes 0 64);
  parsed = refl;
  magic = refl;
  entsize = refl;
  room = omega arith;
  offsets = omega arith;
  table = omega arith;
  strndx = omega arith;
  strtab = shdr_of (load patch_bytes 64 64);
  strings = refl;
  strsize = omega arith;
  content = omega arith;
  terminated = refl;
  names = (omega arith, (omega arith, tt));
}

abbrev ulp_header : SectionHeader
ulp_header = shdr_of (load patch_bytes 128 64)

patch_found : section_of patch_file patch_image ulp_name ≡ some ulp_header
unfolding ehdr_of shdr_of store load value_le headers find_header matches patch_image bytes_le
patch_found = refl

patch_inside : ulp_header.sh_offset + ulp_header.sh_size ≤ 335
unfolding shdr_of store load value_le bytes_le
patch_inside = omega arith

patch_packed : load patch_bytes ulp_header.sh_offset ulp_header.sh_size ≡ packed small
unfolding shdr_of store load value_le bytes_le
patch_packed = refl

patch_room : ulp_header.sh_size + 6 ≤ 512 * 1024
unfolding shdr_of store load value_le bytes_le
patch_room = omega arith

gdb_load-parsed_example :
    (final : Memory) × (c : ℕ) × (n : ℕ) × (junk : List ℕ) × (gdb_load stack small.so_filename
        (some patch_file)
      ≡ some (0, final))
    × (parse_metadata_from_mem (λ k. true) (cursor (load final 0 (512 * 1024)) 0 0)
        ≡ parsed small (cursor junk c n))
gdb_load-parsed_example =
    gdb_load-parsed (λ k. true) patch_file patch_image ulp_header small stack patch_file-IsWhole
      (λ k. refl) small-IsFresh patch_found patch_inside patch_packed patch_room
