-- ===== src/Arch/Jump.antt =====
-- What the processor does at the entry of a function, as far as live patching is concerned: the
-- short jump at the entry leads to an indirect jump before it, and that one to the replacement.
use libpulp.Base.{
  ℕ, ◌+◌, ◌-◌, ◌<◌, ◌≡◌, ◌∷◌, [], Option, none, some, true, false, ◌==◌, if◌then◌else◌, same, arith,
  ◌^◌, suc, ◌≢◌, ap,
}
use libpulp.Base.Memory.{Memory, load, value_le, bytes_le, value_le-bytes_le}
use libpulp.Arch.Defs.{insn_endbr64, jmp_rip, has_endbr64, is_patchable}

-- The first instruction behind an endbr64.
unfoldable pub first_insn : Memory → ℕ → ℕ
first_insn m f = if has_endbr64 m f then f + 4 else f

-- Where a call of the function at `f` is diverted to: `eb d` jumps by the signed byte `d`, and
-- `ff 25 00 00 00 00` to the address in the 8 bytes behind it.
unfoldable pub diverted_to : Memory → ℕ → Option ℕ
diverted_to m f =
    let e = first_insn m f in
    let back = 256 - m (e + 1) in
    let jump = e + 2 - back in
    if m e == 0xeb
    then if same (load m jump 6) jmp_rip then some (value_le (load m (jump + 6) 8)) else none
    else none

-- A function whose entry bytes are `eb d` jumps `256 - d` back from behind them.
pub diverted_by :
    (m : Memory) (f b d target : ℕ)
    → m (first_insn m f) ≡ 0xeb
    → m (first_insn m f + 1) ≡ d
    → b + 256 ≡ first_insn m f + 2 + d
    → d < 256
    → load m b 6 ≡ jmp_rip
    → load m (b + 6) 8 ≡ bytes_le 8 target
    → target < 2 ^ 64
    → (diverted_to m f ≡ some target) × (is_patchable m (first_insn m f) ≡ true)
unfolding diverted_to is_patchable
diverted_by m f b d target first second back small jump dest fits =
    let from : first_insn m f + 2 - (256 - d) ≡ b = omega arith in
    (
      rw (second, from, jump, dest, first) (ap some (value_le-bytes_le 8 target (omega arith))),
      rw first,
    )

-- A function whose entry bytes are the two-byte nop runs its own code.
pub not_diverted :
    (m : Memory) (f : ℕ)
    → m (first_insn m f) ≡ 0x66
    → m (first_insn m f + 1) ≡ 0x90
    → (diverted_to m f ≡ none) × (is_patchable m (first_insn m f) ≡ true)
unfolding diverted_to is_patchable
not_diverted m f first second = (rw first, rw (second, first))

-- Two bytes in a row.
pub two_bytes : (m : Memory) (a x y : ℕ) → load m a 2 ≡ x ∷ y ∷ [] → (m a ≡ x) × (m (a + 1) ≡ y)
unfolding load
two_bytes m a x y e = let next : a + 1 ≡ suc a = omega arith in (cc, rw next (cc))

pub first_insn_plain : (m : Memory) (f : ℕ) → m f ≢ 0xf3 → first_insn m f ≡ f
unfolding first_insn has_endbr64 load
first_insn_plain m f h = let first : (m f == 0xf3) ≡ false = ground arith in rw first

pub first_insn_endbr64 : (m : Memory) (f : ℕ) → load m f 4 ≡ insn_endbr64 → first_insn m f ≡ f + 4
unfolding first_insn has_endbr64
first_insn_endbr64 m f e = rw e
