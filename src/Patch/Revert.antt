-- ===== src/Patch/Revert.antt =====
-- ulp_revert_all_units of lib/ulp.c: which detours it leaves active.
use libpulp.Base.{
  append_nil, ℕ, List, [], ◌∷◌, ◌++◌, Bool, true, false, ◌||◌, ◌≡◌, refl, sym, ap, ◌∙◌, map, same,
  arith, if◌then◌else◌, or_false,
}
use libpulp.Base.Memory.{Memory}
use libpulp.InsnQueue.Insert.{Globals}
use libpulp.Patch.Defs.{Detour, DetourRoot}
use libpulp.Patch.Detours.{revert_detours, revert_all_units}

-- A detour once the patch is reverted.
abbrev pub deactivate : List ℕ → Detour → Detour
deactivate id d = if same d.patch_id id then record d { active = false } else d

abbrev pub deactivate_root : List ℕ → DetourRoot → DetourRoot
deactivate_root id r = record r { detours = map (deactivate id) r.detours }

-- Whether the patch has a detour among them.
abbrev pub diverts : List ℕ → List Detour → Bool
diverts id [] = false
diverts id (d ∷ ds) = same d.patch_id id || diverts id ds

pub append-cons :
    {A : Type 0} (xs : List A) (x : A) (ys : List A) → (xs ++ x ∷ []) ++ ys ≡ xs ++ x ∷ ys
append-cons [] x ys = refl
append-cons (y ∷ xs) x ys = ap (◌∷◌ y) (append-cons xs x ys)

-- Detours of other patches only: nothing happens.
pub deactivate_none :
    (id : List ℕ) (ds : List Detour) → diverts id ds ≡ false → map (deactivate id) ds ≡ ds
deactivate_none id [] h = refl
deactivate_none id (d ∷ ds) h =
    let (other, rest) = or_false (same d.patch_id id) (diverts id ds) h in
    rw (other) (ap (◌∷◌ d) (deactivate_none id ds rest))

pub hit_now :
    {A : Type 0} (a b : Bool) → (a || b) ≡ true → b ≡ false → (x y : A) → (if a then x else y) ≡ x
hit_now true b h e x y = refl
hit_now false b h e x y = ground arith

module _ (m : Memory) (id : List ℕ) (addr : ℕ) where
  revert_detours-detours :
      (seen ds : List Detour) (g : Globals)
      → (revert_detours m id addr seen ds g).0 ≡ seen ++ map (deactivate id) ds
  unfolding revert_detours
  revert_detours-detours seen [] g = sym (append_nil seen)
  revert_detours-detours seen (d ∷ ds) g =
      revert_detours-detours (seen ++ deactivate id d ∷ []) ds _
      ∙ append-cons seen (deactivate id d) (map (deactivate id) ds)

  pub revert_detours-quiet :
      (seen ds : List Detour) (g : Globals)
      → diverts id ds ≡ false
      → (revert_detours m id addr seen ds g).1 ≡ g
  unfolding revert_detours
  revert_detours-quiet seen [] g h = refl
  revert_detours-quiet seen (d ∷ ds) g h =
      let (other, rest) = or_false (same d.patch_id id) (diverts id ds) h in
      rw (revert_detours, other) (revert_detours-quiet (seen ++ d ∷ []) ds g rest)

-- ulp_revert_all_units leaves every root as it was, but that the detours of the patch are inactive.
pub revert_all_units-detours :
    (m : Memory) (id : List ℕ) (rs : List DetourRoot) (g : Globals)
    → (revert_all_units m id rs g).0 ≡ map (deactivate_root id) rs
unfolding revert_all_units
revert_all_units-detours m id [] g = refl
revert_all_units-detours m id (r ∷ rs) g =
    let rest =
      revert_all_units-detours m id rs (revert_detours m id r.patched_addr [] r.detours g).1 in
    rw (revert_detours-detours m id r.patched_addr [] r.detours g)
      (ap (◌∷◌ (deactivate_root id r)) rest)
