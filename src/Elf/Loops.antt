-- ===== src/Elf/Loops.antt =====
-- The loops of Elf_Get_Shdr and Elf_Get_Shdr_By_Name against the table of the file.
use mathlib.Core.Path.{ap₂}
use libpulp.Base.{
  ℕ, zero, suc, ◌+◌, ◌-◌, ◌*◌, ◌≤◌, ◌<◌, ◌^◌, ◌≡◌, refl, sym, ap, ◌∙◌, List, [], ◌∷◌, some, Bool,
  true, false, ◌==◌, if◌then◌else◌, arith, ◌⊎◌, inl, inr,
}
use libpulp.Base.Memory.{Memory, load, length-load}
use libpulp.Elf.Defs.{
  OpenFile, SectionHeader, shdr_of, matches, whole, behind, shdr_at, shdr_named, at_step,
  named_step,
}
use libpulp.Elf.Names.{find_header}

-- The section headers from an offset on.
unfoldable pub headers : Memory → ℕ → ℕ → List SectionHeader
headers c offset zero = []
headers c offset (suc n) = shdr_of (load c offset 64) ∷ headers c (offset + 64) n

-- A file that is read whole where it has the bytes.
abbrev pub IsWhole : OpenFile → Type 0
IsWhole f = (n pos : ℕ) → pos + n ≤ f.size → n < 2 ^ 31 → f.read n pos ≡ some (load f.content pos n)

if_first : {A : Type 0} (c : Bool) (x y : A × ℕ) → (if c then x else y).0 ≡ (if c then x.0 else y.0)
if_first true x y = refl
if_first false x y = refl

here_or_later : (i index : ℕ) → i ≤ index → (i ≡ index) ⊎ (suc i ≤ index)
here_or_later i index le = ground arith

module _ (f : OpenFile) (reads : IsWhole f) where
  pub read_whole :
      (n pos : ℕ)
      → pos + n ≤ f.size
      → n < 2 ^ 31
      → (whole n (f.read n pos) ≡ some (load f.content pos n))
        × (behind pos (f.read n pos) ≡ pos + n)
  unfolding whole
  read_whole n pos fits small =
      let long = length-load f.content pos n in
      let got = reads n pos fits small in
      (ap (whole n) got ∙ ground arith, ap (behind pos) got ∙ ap (λ k. pos + k) long)

  pub shdr_named-headers :
      (left : ℕ) (name : List ℕ) (strtbl : Memory) (pos : ℕ)
      → pos + 64 * left ≤ f.size
      → (shdr_named f left name strtbl pos).0
        ≡ find_header (matches name strtbl) (headers f.content pos left)
  unfolding shdr_named named_step find_header headers
  shdr_named-headers zero name strtbl pos fits = refl
  shdr_named-headers (suc left) name strtbl pos fits =
      let (got, next) = read_whole 64 pos (omega arith) (omega arith) in
      let rest = shdr_named-headers left name strtbl (pos + 64) (omega arith) in
      let h = shdr_of (load f.content pos 64) in
      ap₂ (λ w p. (named_step name strtbl w p (shdr_named f left name strtbl p)).0) got next
      ∙ (if_first (matches name strtbl h.sh_name) (some h, pos + 64)
            (shdr_named f left name strtbl (pos + 64))
          ∙ ap (λ r. if matches name strtbl h.sh_name then some h else r) rest)

  pub shdr_at-header :
      (left i index pos : ℕ)
      → pos + 64 * left ≤ f.size
      → i ≤ index
      → index < i + left
      → (shdr_at f left i index pos).0 ≡ some (shdr_of (load f.content (pos + 64 * (index - i)) 64))
  unfolding shdr_at at_step
  shdr_at-header zero i index pos fits le lt = absurd (omega arith)
  shdr_at-header (suc left) i index pos fits le lt =
      let (got, next) = read_whole 64 pos (omega arith) (omega arith) in
      let h = shdr_of (load f.content pos 64) in
      ap₂ (λ w p. (at_step (index == i) w p (shdr_at f left (suc i) index p)).0) got next
      ∙ (if_first (index == i) (some h, pos + 64) (shdr_at f left (suc i) index (pos + 64))
          ∙ elim (here_or_later i index le) [
            | inl e ↦
                let first : pos + 64 * (index - i) ≡ pos = omega arith in rw (first) (ground arith)
            | inr more ↦
                let rest =
                  shdr_at-header left (suc i) index (pos + 64) (omega arith) more (omega arith) in
                let same_place : pos + 64 + 64 * (index - suc i) ≡ pos + 64 * (index - i) =
                  omega arith in
                rw (sym same_place) (ground arith)
          ])
