-- ===== src/Arch/Defs.antt =====
-- lib/arch/x86_64/patch.c. The memory of the process is read directly and written through the
-- instruction queue (`memwrite` of lib/ulp.c).
use libpulp.Base.{
  ℕ, List, [], ◌∷◌, ◌++◌, Bool, if◌then◌else◌, length, same, ◌+◌, ◌==◌, ◌-◌, ◌||◌, ◌&&◌,
}
use libpulp.Base.Memory.{bytes_le, Memory, load}
use libpulp.InsnQueue.Insert.{Globals, insert_write}
use libpulp.Errors.Codes.{enone, enopatchable}

-- PRE_NOPS_LEN: room before the entry for `jmp *0(%rip)` and its 8-byte target
abbrev pub pre_nops_len : ℕ
pre_nops_len = 14

-- insn_endbr64
abbrev pub insn_endbr64 : List ℕ
insn_endbr64 = 0xf3 ∷ 0x0f ∷ 0x1e ∷ 0xfa ∷ []

-- The jump through the data first_insn, 6 bytes.
abbrev pub jmp_rip : List ℕ
jmp_rip = 0xff ∷ 0x25 ∷ 0 ∷ 0 ∷ 0 ∷ 0 ∷ []

-- ulp_prologue with `data` in its data entry: a jump back by 16 stands at the function's entry.
abbrev pub ulp_prologue : ℕ → List ℕ
ulp_prologue target = jmp_rip ++ (bytes_le 8 target ++ (0xeb ∷ 0xf0 ∷ []))

-- ulp_prologue_endbr64: the jump, back by 20, stands behind the endbr64.
abbrev pub ulp_prologue_endbr64 : ℕ → List ℕ
ulp_prologue_endbr64 target = jmp_rip ++ (bytes_le 8 target ++ (insn_endbr64 ++ (0xeb ∷ 0xec ∷ [])))

-- insn_nop2
abbrev pub insn_nop2 : List ℕ
insn_nop2 = 0x66 ∷ 0x90 ∷ []

-- memwrite of lib/ulp.c: whether the write could be queued, for NULL or not.
unfoldable pub memwrite : ℕ → List ℕ → Globals → Bool × Globals
memwrite dest src g = let (e, g') = insert_write dest src g in (e == enone, g')

-- ulp_patch_prologue_layout
unfoldable pub ulp_patch_prologue_layout : ℕ → List ℕ → Globals → Globals
unfolding memwrite
ulp_patch_prologue_layout old_fentry prologue g = (memwrite old_fentry prologue g).1

-- Whether the function starts with endbr64.
unfoldable pub has_endbr64 : Memory → ℕ → Bool
has_endbr64 m addr = same (load m addr (length insn_endbr64)) insn_endbr64

-- ulp_skip_prologue
unfoldable pub ulp_skip_prologue : Memory → ℕ → Globals → Globals
unfolding memwrite
ulp_skip_prologue m fentry g =
    let bias = if has_endbr64 m fentry then length insn_endbr64 else 0 in
    (memwrite (fentry + bias) insn_nop2 g).1

-- The test of ulp_patch_addr for two nops or a short jump at the entry.
unfoldable pub is_patchable : Memory → ℕ → Bool
is_patchable m at = m at == 0xeb || (m (at + 1) == 0x90 && (m at == 0x90 || m at == 0x66))

-- ulp_patch_addr; `m` is the memory of the process when it is called
unfoldable pub ulp_patch_addr : Memory → ℕ → ℕ → Bool → Globals → ℕ × Globals
ulp_patch_addr m old_faddr new_faddr enable g =
    let endbr64 = has_endbr64 m old_faddr in
    let as_bytes = if endbr64 then old_faddr + length insn_endbr64 else old_faddr in
    let prologue = if endbr64 then ulp_prologue_endbr64 new_faddr else ulp_prologue new_faddr in
    let addr = old_faddr - pre_nops_len in
    if is_patchable m as_bytes
    then (
      enone,
      if enable then ulp_patch_prologue_layout addr prologue g else ulp_skip_prologue m old_faddr g,
    )
    else (enopatchable, g)
