-- ===== src/Patch/Written.antt =====
-- ulp_revert_all_units of lib/ulp.c: what it queues for the entries of the functions.
use mathlib.Core.List.{append_assoc}
use libpulp.Base.{
  ℕ, suc, ◌+◌, ◌*◌, ◌≤◌, ◌<◌, ◌≡◌, ◌⊎◌, refl, sym, ◌∙◌, subst, List, [], ◌∷◌, ◌++◌, Option, none,
  some, Bool, true, false, length, arith, if◌then◌else◌, ◌^◌, inl, inr, Bool-cases, same, map,
  append_nil,
}
use libpulp.Base.Memory.{Memory}
use libpulp.Arch.Defs.{is_patchable}
use libpulp.Arch.Jump.{first_insn}
use libpulp.Arch.Queued.{Leads, Room, Wrote, divert-Wrote, restore-Wrote, Wrote-Room}
use libpulp.InsnQueue.Defs.{insn_buffer_max}
use libpulp.InsnQueue.Insert.{Globals}
use libpulp.InsnQueue.Commands.{Command, Holds}
use libpulp.Patch.Defs.{Detour, DetourRoot}
use libpulp.Patch.Detours.{revert_detours, revert_all_units, find_active, repatch}
use libpulp.Patch.Going.{
  going, going_lem, Targets, target_of, Fits, find_active-Fits, Targets-append, deactivate-target,
}
use libpulp.Patch.Revert.{
  deactivate, diverts, append-cons, deactivate_none, revert_detours-quiet, hit_now,
}

-- The entry of the function can be patched, and its address leaves room around it.
abbrev pub IsEntry : Memory → ℕ → Type 0
IsEntry m addr = (14 ≤ addr) × (addr + 4 < 2 ^ 64) × (is_patchable m (first_insn m addr) ≡ true)

module _ (base : List Command) (m : Memory) (id : List ℕ) (addr : ℕ) (entry : IsEntry m addr) where
  repatch-Wrote :
      (n : ℕ) (o : Option Detour) (g : Globals)
      → Fits o
      → Room base (suc n) g
      → Wrote base n m addr (target_of o) (repatch m addr o g)
  unfolding repatch
  repatch-Wrote n none g fits room = restore-Wrote base n m addr 0 g room entry.1 entry.2
  repatch-Wrote n (some d) g fits room =
      divert-Wrote base n m addr d.target_addr g room entry.0 (omega arith) fits entry.2

  less_Room : (n k : ℕ) (g : Globals) → k ≤ n → Room base n g → Room base k g
  less_Room n k g le (ws, holds, room) = (ws, holds, omega arith)

  less_Wrote :
      (n k : ℕ) (to : Option ℕ) (g : Globals)
      → k ≤ n
      → Wrote base n m addr to g
      → Wrote base k m addr to g
  less_Wrote n k to g le (ws, c, holds, room, leads) = (ws, c, holds, omega arith, leads)

  step-Room :
      (hit : Bool) (n : ℕ) (o : Option Detour) (g : Globals)
      → Fits o
      → Room base (suc n) g
      → Room base n (if hit then repatch m addr o g else g)
  step-Room true n o g fits room =
      Wrote-Room base n m addr (target_of o) (repatch m addr o g) (repatch-Wrote n o g fits room)
  step-Room false n o g fits room = less_Room (suc n) n g (omega arith) room

  -- The last write for the function leads it to the newest detour that stays active.
  revert_detours-Wrote :
      (n : ℕ) (seen ds : List Detour) (g : Globals)
      → Room base (length ds + n) g
      → Targets seen
      → Targets ds
      → diverts id ds ≡ true
      → Wrote base n m addr
          (target_of (find_active (seen ++ map (deactivate id) ds)))
          (revert_detours m id addr seen ds g).1
  unfolding revert_detours
  revert_detours-Wrote n seen [] g room old new h = ground arith
  revert_detours-Wrote n seen (d ∷ ds) g room old new h =
      let d' = deactivate id d in
      let hit = same d.patch_id id in
      let o = find_active (seen ++ d' ∷ ds) in
      let g1 = if hit then repatch m addr o g else g in
      let enough : Room base (suc (length ds + n)) g =
        less_Room (length (d ∷ ds) + n) (suc (length ds + n)) g (omega arith) room in
      let mine : d'.target_addr < 2 ^ 64 =
        subst (λ x. x < 2 ^ 64) (sym (deactivate-target id d)) new.0 in
      let fits : Fits o =
        find_active-Fits (seen ++ d' ∷ ds) (Targets-append seen (d' ∷ ds) old (mine, new.1)) in
      elim (Bool-cases (diverts id ds)) [
        | inl e ↦
            subst
              (λ xs.
                Wrote base n m addr (target_of (find_active xs))
                  (revert_detours m id addr (seen ++ d' ∷ []) ds g1).1)
              (append-cons seen d' (map (deactivate id) ds))
              (revert_detours-Wrote n (seen ++ d' ∷ []) ds g1
                (step-Room hit (length ds + n) o g fits enough)
                (Targets-append seen (d' ∷ []) old (mine, tt)) new.1 e)
        | inr e ↦
            let same_end : (revert_detours m id addr (seen ++ d' ∷ []) ds g1).1
                ≡ repatch m addr o g =
              revert_detours-quiet m id addr (seen ++ d' ∷ []) ds g1 e
              ∙ hit_now hit (diverts id ds) h e (repatch m addr o g) g in
            subst
              (λ x.
                Wrote base n m addr (target_of (find_active (seen ++ d' ∷ x)))
                  (revert_detours m id addr (seen ++ d' ∷ []) ds g1).1)
              (sym (deactivate_none id ds e))
              (subst (Wrote base n m addr (target_of o)) (sym same_end) (
                less_Wrote (length ds + n) n (target_of o) (repatch m addr o g) (omega arith)
                  (repatch-Wrote (length ds + n) o g fits enough)))
      ]

-- What is queued for a function: nothing if it has no detour of the patch, and else the last write
-- leads it to where it goes without the patch.
abbrev pub IsUndoing : List ℕ → Memory → DetourRoot → List Command → Type 0
IsUndoing id m r now =
    ((diverts id r.detours ≡ false) × (now ≡ []))
    ⊎ ((diverts id r.detours ≡ true)
        × ((ws : List Command) × (c : Command) × (now ≡ ws ++ c ∷ [])
            × Leads m r.patched_addr (going id r.detours) c))

-- The commands are those for one function after the other.
abbrev pub Undoes : List ℕ → Memory → List DetourRoot → List Command → Type 0
Undoes id m [] ws = ws ≡ []
Undoes id m (r ∷ rs) ws =
    (now : List Command) × (later : List Command) × (ws ≡ now ++ later)
    × IsUndoing id m r now
    × Undoes id m rs later

abbrev pub AllUndoable : Memory → List DetourRoot → Type 0
AllUndoable m [] = Unit
AllUndoable m (r ∷ rs) = IsEntry m r.patched_addr × Targets r.detours × AllUndoable m rs

abbrev pub count_detours : List DetourRoot → ℕ
count_detours [] = 0
count_detours (r ∷ rs) = length r.detours + count_detours rs

root-IsUndoing :
    (base : List Command) (m : Memory) (id : List ℕ) (n : ℕ) (r : DetourRoot) (g : Globals)
    → IsEntry m r.patched_addr
    → Targets r.detours
    → Holds base g.queue
    → g.queue.size + 40 * (length r.detours + n) ≤ insn_buffer_max
    → let g' = (revert_detours m id r.patched_addr [] r.detours g).1 in
      (now : List Command) × Holds (base ++ now) g'.queue
      × (g'.queue.size + 40 * n ≤ insn_buffer_max)
      × IsUndoing id m r now
root-IsUndoing base m id n r g entry targets holds room =
    let g' = (revert_detours m id r.patched_addr [] r.detours g).1 in
    let start : Holds (base ++ []) g.queue =
      subst (λ l. Holds l g.queue) (sym (append_nil base)) holds in
    elim (Bool-cases (diverts id r.detours)) [
      | inr none_here ↦
          let still : g' ≡ g = revert_detours-quiet m id r.patched_addr [] r.detours g none_here in
          (
            [],
            subst (λ k. Holds (base ++ []) k.queue) (sym still) start,
            subst (λ k. k.queue.size + 40 * n ≤ insn_buffer_max) (sym still) (omega arith),
            inl (none_here, refl),
          )
      | inl here ↦
          let (ws, c, held, left, leads) =
            revert_detours-Wrote base m id r.patched_addr entry n [] r.detours g ([], start, room)
              tt targets here in
          (
            ws ++ c ∷ [],
            held,
            left,
            inr (
              here,
              (
                ws,
                c,
                refl,
                subst (λ to. Leads m r.patched_addr to c) (going_lem id r.detours) leads,
              ),
            ),
          )
    ]

-- Where each function with detours begins with an entry that can be patched, at an address from 14
-- to 2 ^ 64 - 5, the targets are below 2 ^ 64 and the queue has 40 bytes left for each detour:
-- behind the commands that were in the queue, ulp_revert_all_units queues for each function in turn
-- nothing, if it has no detour of the patch, and otherwise writes of which the last one, once it is
-- done in a memory in which the function begins with an endbr64 exactly if it does now, makes a call
-- of the function go to its newest active detour of another patch, or to its own code if there is
-- none.
pub revert_all_units-Undoes :
    (base : List Command) (m : Memory) (id : List ℕ) (rs : List DetourRoot) (g : Globals)
    → AllUndoable m rs
    → Holds base g.queue
    → g.queue.size + 40 * count_detours rs ≤ insn_buffer_max
    → (ws : List Command) × Holds (base ++ ws) (revert_all_units m id rs g).1.queue
      × Undoes id m rs ws
unfolding revert_all_units
revert_all_units-Undoes base m id [] g ready holds room =
    ([], subst (λ l. Holds l g.queue) (sym (append_nil base)) holds, refl)
revert_all_units-Undoes base m id (r ∷ rs) g ready holds room =
    let (now, held, left, undoing) =
      root-IsUndoing base m id (count_detours rs) r g ready.0 ready.1 holds room in
    let g1 = (revert_detours m id r.patched_addr [] r.detours g).1 in
    let (later, whole, rest) = revert_all_units-Undoes (base ++ now) m id rs g1 ready.2 held left in
    (
      now ++ later,
      subst (λ l. Holds l (revert_all_units m id rs g1).1.queue) (append_assoc base now later)
          whole,
      (now, later, refl, undoing, rest),
    )
