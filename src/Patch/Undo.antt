-- ===== src/Patch/Undo.antt =====
-- Applying a patch with ulp_apply_all_units and taking it back with ulp_revert_patch.
use libpulp.Base.{
  ℕ, List, [], ◌∷◌, ◌++◌, ◌+◌, ◌*◌, ◌≤◌, ◌==◌, some, false, ◌≡◌, refl, sym, ap, ◌∙◌, arith, inl,
  inr, Bool-cases, map,
}
use libpulp.Patch.Defs.{DetourRoot, State, World, Metadata}
use libpulp.Patch.Apply.{ulp_apply_all_units, fix_references}
use libpulp.Patch.Load.{ulp_revert_patch}
use mathlib.Core.Option.{some-injective}
use libpulp.Patch.Going.{going, going_lem, target_of}
use libpulp.Patch.Written.{AllUndoable, Undoes, count_detours, revert_all_units-Undoes}
use libpulp.Patch.Detours.{get_detour_root_by_address, find_active}
use libpulp.InsnQueue.Commands.{Command, Holds}
use libpulp.InsnQueue.Defs.{insn_buffer_max}
use libpulp.Patch.Revert.{
  deactivate, deactivate_root, diverts, deactivate_none, revert_all_units-detours,
}
use libpulp.Patch.Active.{active, active-cons, without, apply_units-active}

-- No detour is of the patch.
abbrev pub Absent : List ℕ → List DetourRoot → Type 0
Absent id [] = Unit
Absent id (r ∷ rs) = (diverts id r.detours ≡ false) × Absent id rs

without-Absent : (id : List ℕ) (rs : List DetourRoot) → Absent id rs → without id rs ≡ rs
without-Absent id [] h = refl
without-Absent id (r ∷ rs) h = rw (deactivate_none id r.detours h.0, without-Absent id rs h.1) refl

fix_references-roots :
    (w : World) (ulp : Metadata) (st : State) → (fix_references w ulp st).1.roots ≡ st.roots
unfolding fix_references
fix_references-roots w ulp st = ground arith

ulp_apply_all_units-active :
    (w : World) (ulp : Metadata) (a : ℕ) (st : State)
    → active a (without ulp.patch_id (ulp_apply_all_units w ulp st).1.roots)
      ≡ active a (without ulp.patch_id st.roots)
unfolding ulp_apply_all_units
ulp_apply_all_units-active w ulp a st = grind (arith, apply_units-active, fix_references-roots)

active_again :
    (w w' : World) (ulp : Metadata) (st : State) (a : ℕ)
    → Absent ulp.patch_id st.roots
    → active a (ulp_revert_patch w' ulp.patch_id (ulp_apply_all_units w ulp st).1).1.roots
      ≡ active a st.roots
unfolding ulp_revert_patch
active_again w w' ulp st a h =
    let st' = (ulp_apply_all_units w ulp st).1 in
    ap (active a) (revert_all_units-detours w'.memory ulp.patch_id st'.roots st'.insnq)
    ∙ ulp_apply_all_units-active w ulp a st
    ∙ ap (active a) (without-Absent ulp.patch_id st.roots h)

found-without :
    (id : List ℕ) (a : ℕ) (r : DetourRoot) (rs : List DetourRoot)
    → get_detour_root_by_address a rs ≡ some r
    → active a (without id rs) ≡ find_active (map (deactivate id) r.detours)
unfolding get_detour_root_by_address
found-without id a r [] h = absurd (cc)
found-without id a r (q ∷ rs) h = elim (Bool-cases (q.patched_addr == a)) [
  | inl here ↦
      let same : q ≡ r = some-injective q r (rw here at h) in
      active-cons a (deactivate_root id q) (without id rs)
      ∙ rw here (ap (λ k. find_active (map (deactivate id) k.detours)) same)
  | inr other ↦
      active-cons a (deactivate_root id q) (without id rs)
      ∙ rw other (found-without id a r rs (rw other at h))
]

-- Where no detour was of a patch before it was applied, whatever ulp_apply_all_units returned, and
-- the functions with detours begin with an entry that can be patched, at an address from 14 to
-- 2 ^ 64 - 5, with targets below 2 ^ 64, and the queue has 40 bytes left for each detour: once the
-- patch is reverted, a function that has detours takes the one that it took before the patch. Behind
-- the commands that were in the queue stand the writes for one function after the other, of which
-- the last for each function with a detour of the patch leads a call of it to where it goes
-- without the patch; and this is, for the function at hand, where it went before.
pub ulp_revert_patch-ulp_apply_all_units :
    (w w' : World) (ulp : Metadata) (st : State) (a : ℕ) (r : DetourRoot) (base : List Command)
    → let st1 = (ulp_apply_all_units w ulp st).1 in
      let st2 = (ulp_revert_patch w' ulp.patch_id st1).1 in
      Absent ulp.patch_id st.roots
      → get_detour_root_by_address a st1.roots ≡ some r
      → AllUndoable w'.memory st1.roots
      → Holds base st1.insnq.queue
      → st1.insnq.queue.size + 40 * count_detours st1.roots ≤ insn_buffer_max
      → (active a st2.roots ≡ active a st.roots)
        × ((ws : List Command) × Holds (base ++ ws) st2.insnq.queue
            × Undoes ulp.patch_id w'.memory st1.roots ws)
        × (going ulp.patch_id r.detours ≡ target_of (active a st.roots))
unfolding ulp_revert_patch
ulp_revert_patch-ulp_apply_all_units w w' ulp st a r base absent found ready holds room =
    let st1 = (ulp_apply_all_units w ulp st).1 in
    let id = ulp.patch_id in
    let again = active_again w w' ulp st a absent in
    let bare : active a (without id st1.roots) ≡ active a st.roots =
      ulp_apply_all_units-active w ulp a st ∙ ap (active a) (without-Absent id st.roots absent) in
    (
      again,
      revert_all_units-Undoes base w'.memory id st1.roots st1.insnq ready holds room,
      sym (going_lem id r.detours)
          ∙ ap target_of (sym (found-without id a r st1.roots found) ∙ bare),
    )
