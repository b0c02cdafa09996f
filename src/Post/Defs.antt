-- ===== src/Post/Defs.antt =====
-- nops_fixup of tools/post.c and merge_nops_at_addr of tools/arch/x86_64/post-arch.c. What libelf
-- gives for the file is a record; an assertion that fails is `none`.
use libpulp.Base.{
  ℕ, ◌+◌, ◌-◌, ◌%◌, List, [], ◌∷◌, Option, none, some, ◌==◌, ◌&&◌, ◌||◌, ltb, if◌then◌else◌, length,
}
use libpulp.Base.Memory.{Memory, store_byte}
use libpulp.Base.Words.{size_mod, add_size}
use libpulp.Arch.Defs.{has_endbr64, insn_endbr64, pre_nops_len}

-- Elf64_Sym, the fields that are read
pub record Symbol : Type 0 where
  pub st_value : ℕ
  pub st_shndx : ℕ

-- The file: its symbol tables, the section __patchable_function_entries, and of each section the
-- address and the bytes, by their offset.
pub record ElfFile : Type 0 where
  pub symtab : Option (List Symbol)
  pub dynsym : Option (List Symbol)
  pub patchable_function_entries : Option (List ℕ)
  pub sh_addr : ℕ → ℕ
  pub d_buf : ℕ → Memory

-- The table that is searched.
unfoldable pub symbols_of : ElfFile → Option (List Symbol)
symbols_of elf = elim elf.symtab [ some syms ↦ some syms | none ↦ elf.dynsym ]

-- The loop over the symbols, up to the one that is found.
unfoldable pub find_symbol : ℕ → List Symbol → Option Symbol
find_symbol addr [] = none
find_symbol addr (sym ∷ syms) = if sym.st_value == addr then some sym else find_symbol addr syms

-- Where the nops of the function at `func_addr` stand.
unfoldable pub nops_at : Memory → ℕ → ℕ
nops_at buf func_addr =
    if has_endbr64 buf func_addr then func_addr + length insn_endbr64 else func_addr

-- The bytes of the section, with the two nops of the function made one.
unfoldable pub merge_bytes : Memory → ℕ → Option Memory
merge_bytes buf func_addr =
    let at = nops_at buf func_addr in
    if buf (at + 1) == 0x90 && (buf at == 0x90 || buf at == 0x66)
    then some (store_byte buf at 0x66)
    else none

abbrev pub set_buf : ℕ → Memory → ElfFile → ElfFile
set_buf shndx buf elf = record elf { d_buf = λ i. if i == shndx then buf else elf.d_buf i }

-- The offset of an address in its section.
abbrev pub offset_in : ElfFile → Symbol → ℕ
offset_in elf sym = (sym.st_value + size_mod - elf.sh_addr sym.st_shndx) % size_mod

unfoldable pub merge_symbol : Option Symbol → ElfFile → Option ElfFile
merge_symbol none elf = some elf
merge_symbol (some sym) elf = elim (merge_bytes (elf.d_buf sym.st_shndx) (offset_in elf sym)) [
  | none ↦ none
  | some buf ↦ some (set_buf sym.st_shndx buf elf)
]

-- merge_nops_at_addr
unfoldable pub merge_nops_at_addr : ℕ → ℕ → ElfFile → Option ElfFile
merge_nops_at_addr addr amount elf =
    if ltb amount 2 then some elf else if ltb 2 amount then some elf else elim (symbols_of elf) [
      | none ↦ some elf
      | some syms ↦ merge_symbol (find_symbol addr syms) elf
    ]

-- ULP_NOPS_LEN - PRE_NOPS_LEN
abbrev pub entry_nops_len : ℕ
entry_nops_len = 2

-- The loop of nops_fixup.
unfoldable pub fixup_entries : List ℕ → ElfFile → Option ElfFile
fixup_entries [] elf = some elf
fixup_entries (addr ∷ addrs) elf =
    elim (merge_nops_at_addr (add_size addr pre_nops_len) entry_nops_len elf) [
      | none ↦ none
      | some elf' ↦ fixup_entries addrs elf'
    ]

-- nops_fixup
unfoldable pub nops_fixup : ElfFile → Option ElfFile
nops_fixup elf = elim elf.patchable_function_entries [
  | none ↦ some elf
  | some addrs ↦ fixup_entries addrs elf
]
