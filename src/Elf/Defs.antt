-- ===== src/Elf/Defs.antt =====
-- lib/minielf.c. The file is a record of what lseek and read do at each position; the result of
-- lseek is not looked at. An e_shentsize that is not the size of a header only sets the error state
-- in the source, which then goes on with a buffer of the wrong size: that is not followed.
use libpulp.Base.{
  ℕ, zero, suc, ◌+◌, ◌≤◌, ◌<◌, ◌^◌, ◌≡◌, List, [], ◌∷◌, Option, none, some, Bool, ◌==◌, ◌&&◌, not,
  ltb, length, take, drop, same, if◌then◌else◌,
}
use libpulp.Base.Memory.{Memory, load, store, value_le}
use libpulp.Errors.Codes.{einval, enoent}

-- An open file: its bytes, where lseek leads from a position, and what read gives there, after
-- which the position is behind what was read.
pub record OpenFile : Type 0 where
  pub content : Memory
  pub size : ℕ
  pub lseek : ℕ → ℕ → ℕ
  pub read : ℕ → ℕ → Option (List ℕ)
  pub lseek_lem : (offset pos : ℕ) → offset < 2 ^ 63 → lseek offset pos ≡ offset
  pub read_lem :
      (n pos : ℕ) (bs : List ℕ)
      → read n pos ≡ some bs
      → (bs ≡ load content pos (length bs)) × (length bs ≤ n)

-- Elf_Ehdr, the fields that are read
pub record ElfHeader : Type 0 where
  pub e_ident : List ℕ
  pub e_shoff : ℕ
  pub e_shentsize : ℕ
  pub e_shnum : ℕ
  pub e_shstrndx : ℕ

-- Elf_Shdr, the fields that are read
pub record SectionHeader : Type 0 where
  pub sh_name : ℕ
  pub sh_offset : ℕ
  pub sh_size : ℕ

-- A field of w bytes.
abbrev pub field : ℕ → ℕ → List ℕ → ℕ
field offset w bs = value_le (take w (drop offset bs))

unfoldable pub ehdr_of : List ℕ → ElfHeader
ehdr_of bs = record {
  e_ident = take 4 bs;
  e_shoff = field 40 8 bs;
  e_shentsize = field 58 2 bs;
  e_shnum = field 60 2 bs;
  e_shstrndx = field 62 2 bs;
}

unfoldable pub shdr_of : List ℕ → SectionHeader
shdr_of bs = record { sh_name = field 0 4 bs; sh_offset = field 24 8 bs; sh_size = field 32 8 bs }

-- sizeof(Elf_Ehdr) and sizeof(Elf_Shdr)
abbrev pub header_size : ℕ
header_size = 64

-- ELFMAG
abbrev pub elf_magic : List ℕ
elf_magic = 127 ∷ 69 ∷ 76 ∷ 70 ∷ []

-- STRTBL_SIZE_MAX
abbrev pub strtbl_size_max : ℕ
strtbl_size_max = 0x500

-- strcmp(name, &strtbl[p]) == 0
unfoldable pub matches : List ℕ → Memory → ℕ → Bool
matches [] strtbl p = strtbl p == 0
matches (c ∷ cs) strtbl p = strtbl p == c && matches cs strtbl (suc p)

-- How Elf_Load_Section and Get_Elf_Section end: with a length, or a negated errno.
pub data Loaded : Type 0 where
  section : ℕ → Memory → Loaded
  negative : ℕ → Memory → Loaded

-- The position behind what read gave.
abbrev pub behind : ℕ → Option (List ℕ) → ℕ
behind pos none = pos
behind pos (some bs) = pos + length bs

-- A read of exactly n bytes, or none.
unfoldable pub whole : ℕ → Option (List ℕ) → Option (List ℕ)
whole n none = none
whole n (some bs) = if length bs == n then some bs else none

unfoldable pub check_magic : Option (List ℕ) → Option ElfHeader
check_magic none = none
check_magic (some bs) =
    let ehdr = ehdr_of bs in if same ehdr.e_ident elf_magic then some ehdr else none

-- What a read leaves in a buffer, a short one included.
unfoldable pub fill : Memory → Option (List ℕ) → Memory
fill buffer none = buffer
fill buffer (some bs) = store buffer 0 bs

-- The buffer behind the read of a section, and whether that was all of it.
unfoldable pub loaded_read : ℕ → Memory → Option (List ℕ) → Loaded
loaded_read sh_size dest none = negative einval dest
loaded_read sh_size dest (some bs) =
    let dest' = store dest 0 bs in
    if length bs == sh_size && not (sh_size == 0)
    then section sh_size dest'
    else negative einval dest'

-- A round of the loop of Elf_Get_Shdr behind its read, with the later rounds given.
unfoldable pub at_step :
    Bool → Option (List ℕ) → ℕ → Option SectionHeader × ℕ → Option SectionHeader × ℕ
at_step here none pos rest = (none, pos)
at_step here (some bs) pos rest = if here then (some (shdr_of bs), pos) else rest

-- A round of the loop of Elf_Get_Shdr_By_Name behind its read.
unfoldable pub named_step :
    List ℕ → Memory → Option (List ℕ) → ℕ → Option SectionHeader × ℕ → Option SectionHeader × ℕ
named_step name strtbl none pos rest = (none, pos)
named_step name strtbl (some bs) pos rest =
    let shdr = shdr_of bs in if matches name strtbl shdr.sh_name then (some shdr, pos) else rest

-- The functions take the position of the file and give the one that they leave.
module _ (f : OpenFile) where
  -- Elf_Parse_Ehdr
  unfoldable pub elf_parse_ehdr : ℕ → Option ElfHeader × ℕ
  elf_parse_ehdr pos =
      let start = f.lseek 0 pos in
      let got = f.read header_size start in (check_magic (whole header_size got), behind start got)

  -- The loop of Elf_Get_Shdr, with the count of headers that are left.
  unfoldable pub shdr_at : ℕ → ℕ → ℕ → ℕ → Option SectionHeader × ℕ
  shdr_at zero i index pos = (none, pos)
  shdr_at (suc left) i index pos =
      let got = f.read header_size pos in
      let rest = shdr_at left (suc i) index (behind pos got) in
      at_step (index == i) (whole header_size got) (behind pos got) rest

  -- Elf_Get_Shdr
  unfoldable pub elf_get_shdr : ℕ → ElfHeader → ℕ → Option SectionHeader × ℕ
  elf_get_shdr index ehdr pos = shdr_at ehdr.e_shnum 0 index (f.lseek ehdr.e_shoff pos)

  -- The loop of Elf_Get_Shdr_By_Name, with the count of headers that are left.
  unfoldable pub shdr_named : ℕ → List ℕ → Memory → ℕ → Option SectionHeader × ℕ
  shdr_named zero name strtbl pos = (none, pos)
  shdr_named (suc left) name strtbl pos =
      let got = f.read header_size pos in
      let rest = shdr_named left name strtbl (behind pos got) in
      named_step name strtbl (whole header_size got) (behind pos got) rest

  -- Elf_Get_Shdr_By_Name
  unfoldable pub elf_get_shdr_by_name : List ℕ → ElfHeader → Memory → ℕ → Option SectionHeader × ℕ
  elf_get_shdr_by_name name ehdr strtbl pos =
      shdr_named ehdr.e_shnum name strtbl (f.lseek ehdr.e_shoff pos)

  unfoldable pub load_strtbl : Memory → Option SectionHeader → ℕ → Memory × ℕ
  load_strtbl strtbl none pos = (strtbl, pos)
  load_strtbl strtbl (some shdr) pos =
      let start = f.lseek shdr.sh_offset pos in
      let got = f.read shdr.sh_size start in
      if ltb strtbl_size_max shdr.sh_size
      then (strtbl, pos)
      else (fill strtbl got, behind start got)

  -- Elf_Load_Strtbl: what stands in the buffer then. Its return value is not looked at.
  unfoldable pub elf_load_strtbl : Memory → ElfHeader → ℕ → Memory × ℕ
  elf_load_strtbl strtbl ehdr pos =
      let (shdr, pos') = elf_get_shdr ehdr.e_shstrndx ehdr pos in load_strtbl strtbl shdr pos'

  -- Elf_Load_Section, and the test of the length behind it.
  unfoldable pub elf_load_section : ℕ → Memory → SectionHeader → ℕ → Loaded
  elf_load_section dest_size dest shdr pos =
      let loaded =
        loaded_read shdr.sh_size dest (f.read shdr.sh_size (f.lseek shdr.sh_offset pos)) in
      if ltb dest_size shdr.sh_size then negative einval dest else loaded

  unfoldable pub load_named : ℕ → Memory → Option SectionHeader × ℕ → Loaded
  load_named dest_size dest (none, pos) = negative einval dest
  load_named dest_size dest (some shdr, pos) = elf_load_section dest_size dest shdr pos

  -- Get_Elf_Section behind the header; `stack` is what stands in its buffer for the string table.
  -- `none` is an e_shentsize that is not the size of a header.
  unfoldable pub get_parsed : Memory → ℕ → Memory → List ℕ → Option ElfHeader × ℕ → Option Loaded
  get_parsed stack dest_size dest name (none, pos) = some (negative einval dest)
  get_parsed stack dest_size dest name (some ehdr, pos) =
      let (strtbl, pos1) = elf_load_strtbl stack ehdr pos in
      let named = elf_get_shdr_by_name name ehdr strtbl pos1 in
      if ehdr.e_shentsize == header_size then some (load_named dest_size dest named) else none

-- Get_Elf_Section; `none` is a file that cannot be opened
unfoldable pub get_elf_section : Memory → ℕ → Memory → List ℕ → Option OpenFile → Option Loaded
get_elf_section stack dest_size dest name none = some (negative enoent dest)
get_elf_section stack dest_size dest name (some f) =
    get_parsed f stack dest_size dest name (elf_parse_ehdr f 0)

-- ".ulp" and ".ulp.rev"
abbrev pub ulp_name : List ℕ
ulp_name = 46 ∷ 117 ∷ 108 ∷ 112 ∷ []

abbrev pub ulp_rev_name : List ℕ
ulp_rev_name = 46 ∷ 117 ∷ 108 ∷ 112 ∷ 46 ∷ 114 ∷ 101 ∷ 118 ∷ []

-- Get_ULP_Section
unfoldable pub get_ulp_section : Memory → ℕ → Memory → Option OpenFile → Option Loaded
get_ulp_section stack dest_size dest f = get_elf_section stack dest_size dest ulp_name f

-- Get_ULP_REV_Section
unfoldable pub get_ulp_rev_section : Memory → ℕ → Memory → Option OpenFile → Option Loaded
get_ulp_rev_section stack dest_size dest f = get_elf_section stack dest_size dest ulp_rev_name f
