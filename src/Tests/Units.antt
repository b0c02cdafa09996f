-- ===== src/Tests/Units.antt =====
-- The prologue of one function, diverted and restored.
use libpulp.Base.{◌≡◌, [], ◌∷◌, ◌++◌, none, some, true, false, refl, arith}
use libpulp.Base.Memory.{Memory, load}
use libpulp.Errors.Codes.{enone}
use libpulp.InsnQueue.Commands.{Holds}
use libpulp.InsnQueue.Protocol.{applied}
use libpulp.Arch.Defs.{ulp_patch_addr, is_patchable, has_endbr64}
use libpulp.Arch.Jump.{first_insn, diverted_to}
use libpulp.Arch.Patch.{prologue_write, nop_write, ulp_patch_addr-diverts, ulp_patch_addr-restores}
use libpulp.Tests.Queues.{start, empty-Holds}

abbrev nops : Memory
nops a = 0x90

abbrev zeros : Memory
zeros a = 0

nops_patchable : is_patchable nops (first_insn nops 1000) ≡ true
unfolding is_patchable first_insn has_endbr64 load
nops_patchable = refl

zeros_unpatchable : is_patchable zeros (first_insn zeros 1000) ≡ false
unfolding is_patchable first_insn has_endbr64 load
zeros_unpatchable = refl

diverts_example :
    let r = ulp_patch_addr nops 1000 2000 true start in
    let m = applied (prologue_write nops 1000 2000 ∷ []) nops in
    (r.0 ≡ enone)
    × Holds ([] ++ prologue_write nops 1000 2000 ∷ []) r.1.queue
    × (diverted_to m 1000 ≡ some 2000)
    × (is_patchable m (first_insn m 1000) ≡ true)
diverts_example =
    ulp_patch_addr-diverts nops 1000 2000 [] start empty-Holds (omega arith) (omega arith)
      (omega arith) (omega arith) nops_patchable

restores_example :
    let r = ulp_patch_addr nops 1000 2000 false start in
    let m = applied (nop_write nops 1000 ∷ []) nops in
    (r.0 ≡ enone)
    × Holds ([] ++ nop_write nops 1000 ∷ []) r.1.queue
    × (diverted_to m 1000 ≡ none)
    × (is_patchable m (first_insn m 1000) ≡ true)
restores_example =
    ulp_patch_addr-restores nops 1000 2000 [] start empty-Holds (omega arith) (omega arith)
      nops_patchable
