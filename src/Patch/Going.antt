-- ===== src/Patch/Going.antt =====
-- Where a function goes once a patch is reverted.
use libpulp.Base.{
  ℕ, List, [], ◌∷◌, ◌++◌, Option, none, some, Bool, true, false, ◌&&◌, not, ◌<◌, ◌^◌, ◌≡◌, refl,
  ◌∙◌, arith, if◌then◌else◌, inl, inr, Bool-cases, same, map,
}
use libpulp.Patch.Defs.{Detour}
use libpulp.Patch.Detours.{find_active}
use libpulp.Patch.Revert.{deactivate}

-- Where a function goes without the patch: to the newest of the other detours that is active, or to
-- its own code.
abbrev pub going : List ℕ → List Detour → Option ℕ
going id [] = none
going id (d ∷ ds) = if d.active && not (same d.patch_id id) then some d.target_addr else going id ds

-- The targets are addresses.
abbrev pub Targets : List Detour → Type 0
Targets [] = Unit
Targets (d ∷ ds) = (d.target_addr < 2 ^ 64) × Targets ds

abbrev pub target_of : Option Detour → Option ℕ
target_of none = none
target_of (some d) = some d.target_addr

abbrev pub Fits : Option Detour → Type 0
Fits none = Unit
Fits (some d) = d.target_addr < 2 ^ 64

pub going_lem :
    (id : List ℕ) (ds : List Detour)
    → target_of (find_active (map (deactivate id) ds)) ≡ going id ds
unfolding find_active
going_lem id [] = refl
going_lem id (d ∷ ds) =
    let rest = going_lem id ds in
    elim (Bool-cases (same d.patch_id id)) [
      | inl e ↦ rw e (rest ∙ ground arith)
      | inr e ↦ elim (Bool-cases d.active) [ inl on ↦ rw (e, on) refl | inr off ↦ rw (e, off) rest ]
    ]

if-Fits : (c : Bool) (x y : Option Detour) → Fits x → Fits y → Fits (if c then x else y)
if-Fits true x y h k = h
if-Fits false x y h k = k

pub find_active-Fits : (ds : List Detour) → Targets ds → Fits (find_active ds)
unfolding find_active
find_active-Fits [] h = tt
find_active-Fits (d ∷ ds) h =
    if-Fits d.active (some d) (find_active ds) h.0 (find_active-Fits ds h.1)

pub Targets-append : (xs ys : List Detour) → Targets xs → Targets ys → Targets (xs ++ ys)
Targets-append [] ys h k = k
Targets-append (x ∷ xs) ys h k = (h.0, Targets-append xs ys h.1 k)

pub deactivate-target : (id : List ℕ) (d : Detour) → (deactivate id d).target_addr ≡ d.target_addr
deactivate-target id d = ground arith
