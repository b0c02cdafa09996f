-- ===== src/Tests/Nops.antt =====
-- A section with one function, which begins with endbr64 and two nops.
use libpulp.Base.{◌≡◌, refl, [], ◌∷◌, none, some, get_or, ◌-◌}
use libpulp.Base.Memory.{Memory, load, store_byte}
use libpulp.Arch.Defs.{has_endbr64}
use libpulp.Post.Defs.{
  ElfFile, Symbol, symbols_of, find_symbol, merge_nops_at_addr, merge_symbol, merge_bytes, nops_at,
  set_buf, offset_in, nops_fixup, fixup_entries,
}
use libpulp.Post.Merge.{Merged, merge_nops_at_addr-Merged}

abbrev code : Memory
code p = get_or (0xf3 ∷ 0x0f ∷ 0x1e ∷ 0xfa ∷ 0x90 ∷ 0x90 ∷ 0xc3 ∷ []) (p - 14) 0x90

abbrev function : Symbol
function = record { st_value = 0x100e; st_shndx = 3 }

abbrev file : ElfFile
file = record {
  symtab = none;
  dynsym = some (record { st_value = 0; st_shndx = 0 } ∷ function ∷ []);
  patchable_function_entries = some (0x1000 ∷ []);
  sh_addr = λ i. 0x1000;
  d_buf = λ i. code;
}

abbrev merged : ElfFile
merged = set_buf 3 (store_byte code 18 0x66) file

fixed : nops_fixup file ≡ some merged
unfolding nops_fixup fixup_entries merge_nops_at_addr symbols_of find_symbol merge_symbol
    merge_bytes nops_at has_endbr64 load
fixed = refl

merges : merge_nops_at_addr 0x100e 2 file ≡ some merged
unfolding merge_nops_at_addr symbols_of find_symbol merge_symbol merge_bytes nops_at has_endbr64
    load
merges = refl

in_table : symbols_of file ≡ file.dynsym
unfolding symbols_of
in_table = refl

finds : find_symbol 0x100e (record { st_value = 0; st_shndx = 0 } ∷ function ∷ []) ≡ some function
unfolding find_symbol
finds = refl

merge_nops_at_addr-Merged_example : Merged (file.d_buf 3) (merged.d_buf 3) (offset_in file function)
merge_nops_at_addr-Merged_example =
    merge_nops_at_addr-Merged 0x100e file merged
      (record { st_value = 0; st_shndx = 0 } ∷ function ∷ []) function in_table finds merges
