-- ===== src/Elf/Search.antt =====
-- Get_Elf_Section against a description of the file.
use libpulp.Base.{
  none, ℕ, zero, suc, ◌+◌, ◌-◌, ◌*◌, ◌≤◌, ◌<◌, ◌^◌, ◌≡◌, refl, sym, ap, ◌∙◌, List, some, true,
  false, ◌==◌, if◌then◌else◌, arith, ◌⊎◌, inl, inr, Option, same, ltb, subst,
}
use libpulp.Base.Memory.{Memory, load, length-load, store}
use libpulp.Elf.Defs.{
  OpenFile, SectionHeader, shdr_of, matches, whole, behind, shdr_at, shdr_named, ElfHeader,
  elf_get_shdr, elf_load_section, elf_load_strtbl, elf_parse_ehdr, Loaded, check_magic, ehdr_of,
  fill, load_strtbl, negative, elf_magic, strtbl_size_max, section, loaded_read,
  elf_get_shdr_by_name, get_elf_section, get_parsed, load_named, header_size,
}
use libpulp.Elf.Names.{find_header, store-load_at, find_header_same, matches-copy}
use libpulp.Errors.Codes.{einval}
use libpulp.Metadata.Encode.{All}
use libpulp.InsnQueue.Commands.{IsText}
use libpulp.Elf.Loops.{headers, IsWhole, read_whole, shdr_named-headers, shdr_at-header}

-- What the file has to be: an ELF header and a section table inside it, with headers of the right
-- size; a string table that fits its buffer, ends with a null character and has all names.
pub record Image (f : OpenFile) : Type 0 where
  pub ehdr : ElfHeader
  pub parsed : ehdr ≡ ehdr_of (load f.content 0 64)
  pub magic : same ehdr.e_ident elf_magic ≡ true
  pub entsize : ehdr.e_shentsize ≡ 64
  pub room : 64 ≤ f.size
  pub offsets : f.size < 2 ^ 63
  pub table : ehdr.e_shoff + 64 * ehdr.e_shnum ≤ f.size
  pub strndx : ehdr.e_shstrndx < ehdr.e_shnum
  pub strtab : SectionHeader
  pub strings : strtab ≡ shdr_of (load f.content (ehdr.e_shoff + 64 * ehdr.e_shstrndx) 64)
  pub strsize : strtab.sh_size ≤ strtbl_size_max
  pub content : strtab.sh_offset + strtab.sh_size ≤ f.size
  pub terminated : f.content (strtab.sh_offset + (strtab.sh_size - 1)) ≡ 0
  pub names : All (λ h. h.sh_name < strtab.sh_size) (headers f.content ehdr.e_shoff ehdr.e_shnum)

-- The first section of that name in the file.
abbrev pub section_of : (f : OpenFile) → Image f → List ℕ → Option SectionHeader
section_of f image name =
    find_header (λ p. matches name f.content (image.strtab.sh_offset + p))
      (headers f.content image.ehdr.e_shoff image.ehdr.e_shnum)

-- What is loaded of a section: all of its bytes, or nothing.
unfoldable pub loaded_of : OpenFile → ℕ → Memory → Option SectionHeader → Loaded
loaded_of f dest_size dest none = negative einval dest
loaded_of f dest_size dest (some h) =
    if ltb dest_size h.sh_size
    then negative einval dest
    else if h.sh_size == 0
    then negative einval dest
    else section h.sh_size (store dest 0 (load f.content h.sh_offset h.sh_size))

loaded_read-load :
    (dest c : Memory) (offset size : ℕ)
    → loaded_read size dest (some (load c offset size)) ≡ (
        if size == 0
        then negative einval dest
        else section size (store dest 0 (load c offset size)))
unfolding loaded_read load store
loaded_read-load dest c offset zero = refl
loaded_read-load dest c offset (suc n) = let long = length-load c (suc offset) n in ground arith

fits_or_not : (dest_size size : ℕ) → (size ≤ dest_size) ⊎ (dest_size < size)
fits_or_not dest_size size = ground arith

module _ (f : OpenFile) (reads : IsWhole f) (image : Image f) where
  parse_ehdr-header : (pos : ℕ) → (elf_parse_ehdr f pos).0 ≡ some image.ehdr
  unfolding elf_parse_ehdr check_magic
  parse_ehdr-header pos =
      let start : f.lseek 0 pos ≡ 0 = f.lseek_lem 0 pos (omega arith) in
      let (got, next) = read_whole f reads 64 0 image.room (omega arith) in
      let good : same (ehdr_of (load f.content 0 64)).e_ident elf_magic ≡ true =
        subst (λ e. same e.e_ident elf_magic ≡ true) image.parsed image.magic in
      ap (λ p. check_magic (whole 64 (f.read 64 p))) start
      ∙ ap check_magic got
      ∙ ap (λ c. if c then some (ehdr_of (load f.content 0 64)) else none) good
      ∙ ap some (sym image.parsed)

  get_shdr-strtab :
      (pos : ℕ) → (elf_get_shdr f image.ehdr.e_shstrndx image.ehdr pos).0 ≡ some image.strtab
  unfolding elf_get_shdr
  get_shdr-strtab pos =
      let start : f.lseek image.ehdr.e_shoff pos ≡ image.ehdr.e_shoff =
        f.lseek_lem image.ehdr.e_shoff pos
          (let a = image.table in let b = image.offsets in omega arith) in
      let first : image.ehdr.e_shstrndx - 0 ≡ image.ehdr.e_shstrndx = omega arith in
      ap (λ p. (shdr_at f image.ehdr.e_shnum 0 image.ehdr.e_shstrndx p).0) start
      ∙ shdr_at-header f reads image.ehdr.e_shnum 0 image.ehdr.e_shstrndx image.ehdr.e_shoff
          image.table (omega arith) (let a = image.strndx in omega arith)
      ∙ ap (λ i. some (shdr_of (load f.content (image.ehdr.e_shoff + 64 * i) 64))) first
      ∙ ap some (sym image.strings)

  load_strtbl-strings :
      (stack : Memory) (pos q : ℕ)
      → q < image.strtab.sh_size
      → (elf_load_strtbl f stack image.ehdr pos).0 q ≡ f.content (image.strtab.sh_offset + q)
  unfolding elf_load_strtbl load_strtbl fill
  load_strtbl-strings stack pos q lt =
      let shdr = (elf_get_shdr f image.ehdr.e_shstrndx image.ehdr pos) in
      let h = image.strtab in
      let inside = image.content in
      let small = image.strsize in
      let limit = image.offsets in
      let start : f.lseek h.sh_offset shdr.1 ≡ h.sh_offset =
        f.lseek_lem h.sh_offset shdr.1 (omega arith) in
      let got = reads h.sh_size h.sh_offset inside (omega arith) in
      let zero_first : 0 + q ≡ q = omega arith in
      let fits : ltb strtbl_size_max h.sh_size ≡ false = ground arith in
      let kept : Memory × ℕ = (stack, shdr.1) in
      let at = f.lseek h.sh_offset shdr.1 in
      let loaded : Memory × ℕ =
        (fill stack (f.read h.sh_size at), behind at (f.read h.sh_size at)) in
      ap (λ o. (load_strtbl f stack o shdr.1).0 q) (get_shdr-strtab pos)
      ∙ ap (λ c. (if c then kept else loaded).0 q) fits
      ∙ ap (λ p. fill stack (f.read h.sh_size p) q) start
      ∙ ap (λ o. fill stack o q) got
      ∙ subst
          (λ x.
            store stack 0 (load f.content h.sh_offset h.sh_size) x ≡ f.content (h.sh_offset + q))
          zero_first (store-load_at stack f.content 0 h.sh_offset h.sh_size q lt)

  load_section-whole :
      (dest_size : ℕ) (dest : Memory) (h : SectionHeader) (pos : ℕ)
      → dest_size < 2 ^ 31
      → h.sh_offset + h.sh_size ≤ f.size
      → elf_load_section f dest_size dest h pos ≡ loaded_of f dest_size dest (some h)
  unfolding elf_load_section loaded_of fill
  load_section-whole dest_size dest h pos small inside = elim (fits_or_not dest_size h.sh_size) [
    | inr large ↦ ground arith
    | inl fits ↦
        let limit = image.offsets in
        let start : f.lseek h.sh_offset pos ≡ h.sh_offset =
          f.lseek_lem h.sh_offset pos (omega arith) in
        let got = reads h.sh_size h.sh_offset inside (omega arith) in
        let loaded : loaded_read h.sh_size dest (f.read h.sh_size (f.lseek h.sh_offset pos))
            ≡ loaded_read h.sh_size dest (some (load f.content h.sh_offset h.sh_size)) =
          ap (λ p. loaded_read h.sh_size dest (f.read h.sh_size p)) start
          ∙ ap (loaded_read h.sh_size dest) got in
        let exact = loaded_read-load dest f.content h.sh_offset h.sh_size in ground arith
  ]

  -- The string table in the buffer finds the same section as the file itself.
  named-section :
      (name : List ℕ) (stack : Memory) (pos : ℕ)
      → IsText name
      → (let (strtbl, pos1) = elf_load_strtbl f stack image.ehdr pos in
          (elf_get_shdr_by_name f name image.ehdr strtbl pos1).0 ≡ section_of f image name)
  unfolding elf_get_shdr_by_name
  named-section name stack pos text =
      let (strtbl, pos1) = elf_load_strtbl f stack image.ehdr pos in
      let e = image.ehdr in
      let h = image.strtab in
      let start : f.lseek e.e_shoff pos1 ≡ e.e_shoff =
        f.lseek_lem e.e_shoff pos1 (let a = image.table in let b = image.offsets in omega arith) in
      let copy : (q : ℕ) → q < h.sh_size → strtbl q ≡ f.content (h.sh_offset + q) =
        λ q lt. load_strtbl-strings stack pos q lt in
      ap (λ p. (shdr_named f e.e_shnum name strtbl p).0) start
      ∙ shdr_named-headers f reads e.e_shnum name strtbl e.e_shoff image.table
      ∙ find_header_same (matches name strtbl) (λ p. matches name f.content (h.sh_offset + p))
          h.sh_size (headers f.content e.e_shoff e.e_shnum)
          (λ p lt.
            matches-copy name strtbl f.content p h.sh_offset h.sh_size text copy
              (copy (h.sh_size - 1) (omega arith) ∙ image.terminated) lt)
          image.names

  load_named-found :
      (dest_size : ℕ) (dest : Memory) (o : Option SectionHeader) (pos : ℕ)
      → dest_size < 2 ^ 31
      → ((h : SectionHeader) → o ≡ some h → h.sh_offset + h.sh_size ≤ f.size)
      → load_named f dest_size dest (o, pos) ≡ loaded_of f dest_size dest o
  unfolding load_named loaded_of
  load_named-found dest_size dest none pos small inside = refl
  load_named-found dest_size dest (some h) pos small inside =
      load_section-whole dest_size dest h pos small (inside h refl)

-- A file that read gives whole: an ELF header, a section table with headers of 64 bytes inside of
-- the file, and a string table that fits the buffer, ends with a null character and in which all
-- names begin. If the first section of the name is inside of the file, then Get_Elf_Section gives
-- what is loaded of exactly that section, as the file itself names it: all of its bytes, if it is
-- not empty and the destination is large enough, and -EINVAL otherwise, also without such a
-- section; where the size of the destination is below 2 ^ 31. What stood in the buffers before plays
-- no part.
pub get_elf_section-loaded :
    (f : OpenFile) (reads : IsWhole f) (image : Image f) (name : List ℕ) (stack dest : Memory)
    (dest_size : ℕ)
    → IsText name
    → dest_size < 2 ^ 31
    → ((h : SectionHeader) → section_of f image name ≡ some h → h.sh_offset + h.sh_size ≤ f.size)
    → get_elf_section stack dest_size dest name (some f)
      ≡ some (loaded_of f dest_size dest (section_of f image name))
unfolding get_elf_section get_parsed
get_elf_section-loaded f reads image name stack dest dest_size text small inside =
    let pos = (elf_parse_ehdr f 0).1 in
    let header = parse_ehdr-header f reads image 0 in
    let e = image.ehdr in
    let (strtbl, pos1) = elf_load_strtbl f stack e pos in
    let named = elf_get_shdr_by_name f name e strtbl pos1 in
    let loaded = load_named f dest_size dest named in
    let sized : (e.e_shentsize == header_size) ≡ true = let a = image.entsize in ground arith in
    ap (λ o. get_parsed f stack dest_size dest name (o, pos)) header
    ∙ ap (λ c. if c then some loaded else none) sized
    ∙ ap (λ o. some (load_named f dest_size dest (o, named.1)))
        (named-section f reads image name stack pos text)
    ∙ ap some (
        load_named-found f reads image dest_size dest (section_of f image name) named.1 small
          inside)
