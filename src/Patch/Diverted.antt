-- ===== src/Patch/Diverted.antt =====
-- ulp_apply_all_units of lib/ulp.c: what it queues for the entries of the functions.
use libpulp.Base.{
  ℕ, suc, ◌+◌, ◌*◌, ◌%◌, ◌≤◌, ◌<◌, ◌≡◌, refl, sym, subst, List, [], ◌∷◌, ◌++◌, some, true, length,
  arith, ◌^◌, append_nil,
}
use libpulp.Arch.Defs.{ulp_patch_addr}
use libpulp.Arch.Queued.{Leads, divert-Queued}
use libpulp.InsnQueue.Defs.{insn_buffer_max}
use libpulp.InsnQueue.Commands.{Command, Holds}
use libpulp.Patch.Defs.{State, World, UlpUnit, Metadata}
use libpulp.Patch.Detours.{push_new_root, push_new_detour, allocate}
use libpulp.Patch.Apply.{
  ensure_root, apply_function, apply_units, divert, fix_references, ulp_apply_all_units,
}
use libpulp.Patch.References.{fix_references-Room}
use libpulp.Patch.Taken.{apply_units_lem, AllTaken, ulp_apply_all_units-AllTaken}
use libpulp.Errors.Codes.{enone}
use libpulp.Patch.Revert.{append-cons}
use libpulp.Strings.{get_basename}

-- For each unit one command, which leads its old function to its new one.
abbrev pub Diverts : World → List ℕ → ℕ → List UlpUnit → List Command → Type 0
Diverts w lib handle [] ws = ws ≡ []
Diverts w lib handle (u ∷ us) ws =
    (c : Command) × (later : List Command) × (ws ≡ c ∷ later)
    × Leads w.memory (w.loaded_symbol lib u.old_fname u.old_faddr)
        (some (w.so_symbol u.new_fname handle)) c
    × Diverts w lib handle us later

-- What dlsym and the symbol tables give are addresses, with room before each function.
abbrev pub HasAddresses : World → List ℕ → List UlpUnit → Type 0
HasAddresses w lib [] = (name : List ℕ) (handle : ℕ) → w.so_symbol name handle < 2 ^ 64
HasAddresses w lib (u ∷ us) =
    let old = w.loaded_symbol lib u.old_fname u.old_faddr in
    (14 ≤ old) × (old < 2 ^ 64) × HasAddresses w lib us

so_symbols :
    (w : World) (lib : List ℕ) (us : List UlpUnit)
    → HasAddresses w lib us
    → (name : List ℕ) (handle : ℕ) → w.so_symbol name handle < 2 ^ 64
so_symbols w lib [] h = h
so_symbols w lib (u ∷ us) h = so_symbols w lib us h.2

ensure_root-insnq : (w : World) (old : ℕ) (st : State) → (ensure_root w old st).1.insnq ≡ st.insnq
unfolding ensure_root push_new_root allocate
ensure_root-insnq w old st = ground arith

apply_function_queue :
    (w : World) (id : List ℕ) (old new : ℕ) (st : State)
    → (apply_function w id old new st).0 ≡ enone
    → let r = ulp_patch_addr w.memory old new true (ensure_root w old st).1.insnq in
      (r.0 ≡ enone) × ((apply_function w id old new st).1.insnq ≡ r.1)
unfolding apply_function divert push_new_detour allocate
apply_function_queue w id old new st h = ground arith

apply_units-Diverts :
    (w : World) (id lib : List ℕ) (handle n : ℕ) (us : List UlpUnit) (base : List Command)
    (st : State)
    → HasAddresses w lib us
    → Holds base st.insnq.queue
    → st.insnq.queue.size + 40 * (length us + n) ≤ insn_buffer_max
    → (apply_units w id lib handle us st).0 ≡ enone
    → let q = (apply_units w id lib handle us st).1.insnq.queue in
      (ws : List Command) × Holds (base ++ ws) q
      × (q.size + 40 * n ≤ insn_buffer_max)
      × Diverts w lib handle us ws
unfolding apply_units
apply_units-Diverts w id lib handle n [] base st known holds room ok =
    ([], subst (λ l. Holds l st.insnq.queue) (sym (append_nil base)) holds, omega arith, refl)
apply_units-Diverts w id lib handle n (u ∷ us) base st known holds room ok =
    let (fun_ok, rest_ok, e) = apply_units_lem w id lib handle u us st ok in
    let old = w.loaded_symbol lib u.old_fname u.old_faddr in
    let new = w.so_symbol u.new_fname handle in
    let st1 = (apply_function w id old new st).1 in
    let g = (ensure_root w old st).1.insnq in
    let (good, queued) = apply_function_queue w id old new st fun_ok in
    let same : g ≡ st.insnq = ensure_root-insnq w old st in
    let (c, held, left, leads) =
      divert-Queued base (length us + n) w.memory old new g
        (subst (λ k. Holds base k.queue) (sym same) holds)
        (subst (λ k. k.queue.size + 40 * suc (length us + n) ≤ insn_buffer_max) (sym same)
          (omega arith))
        known.0 known.1 (so_symbols w lib us known.2 u.new_fname handle) good in
    let (later, whole, spare, diverts) =
      apply_units-Diverts w id lib handle n us (base ++ c ∷ []) st1 known.2
        (subst (λ k. Holds (base ++ c ∷ []) k.queue) (sym queued) held)
        (subst (λ k. k.queue.size + 40 * (length us + n) ≤ insn_buffer_max) (sym queued) left)
        rest_ok in
    let end = (apply_units w id lib handle us st1).1 in
    subst
      (λ s.
        (ws : List Command) × Holds (base ++ ws) s.insnq.queue
        × (s.insnq.queue.size + 40 * n ≤ insn_buffer_max)
        × Diverts w lib handle (u ∷ us) ws)
      (sym e)
      (
        c ∷ later,
        subst (λ l. Holds l end.insnq.queue) (append-cons base c later) whole,
        spare,
        (c, later, refl, leads, diverts),
      )

ulp_apply_all_units-ends :
    (w : World) (ulp : Metadata) (st : State)
    → (ulp_apply_all_units w ulp st).0 ≡ enone
    → let begun = record st { global_universe = (st.global_universe + 1) % 2 ^ 64 } in
      let run =
        apply_units w ulp.patch_id
          (get_basename ulp.objs.name)
          ulp.so_handler
          ulp.objs.units
          begun in
      (run.0 ≡ enone) × ((ulp_apply_all_units w ulp st).1 ≡ (fix_references w ulp run.1).1)
unfolding ulp_apply_all_units
ulp_apply_all_units-ends w ulp st h = ground arith

-- Where ulp_apply_all_units returns 0, the functions that the units name lie at addresses from 14 on,
-- addresses and the symbols of the patch are below 2 ^ 64, and the queue has 40 bytes left for each
-- unit and each reference: each of these functions goes to a detour of the patch, and behind the
-- commands that were in the queue stands exactly one for each unit, in their order, before all
-- others. Once that is done in a memory in which the old function begins with an endbr64 exactly if
-- it does now, a call of the old function goes to the new one.
pub ulp_apply_all_units-Diverts :
    (w : World) (ulp : Metadata) (st : State) (base : List Command)
    → HasAddresses w (get_basename ulp.objs.name) ulp.objs.units
    → Holds base st.insnq.queue
    → st.insnq.queue.size + 40 * (length ulp.objs.units + length ulp.refs) ≤ insn_buffer_max
    → (ulp_apply_all_units w ulp st).0 ≡ enone
    → let lib = get_basename ulp.objs.name in
      let st' = (ulp_apply_all_units w ulp st).1 in
      AllTaken w ulp.patch_id lib ulp.objs.units st'.roots
      × ((ws : List Command) × (others : List Command) × Holds
            ((base ++ ws) ++ others)
            st'.insnq.queue
          × Diverts w lib ulp.so_handler ulp.objs.units ws)
ulp_apply_all_units-Diverts w ulp st base known holds room ok =
    let lib = get_basename ulp.objs.name in
    let begun = record st { global_universe = (st.global_universe + 1) % 2 ^ 64 } in
    let (units_ok, e) = ulp_apply_all_units-ends w ulp st ok in
    let (ws, held, left, diverts) =
      apply_units-Diverts w ulp.patch_id lib ulp.so_handler (length ulp.refs) ulp.objs.units base
        begun known holds room units_ok in
    let st1 = (apply_units w ulp.patch_id lib ulp.so_handler ulp.objs.units begun).1 in
    let (others, whole, spare) =
      fix_references-Room w ulp (base ++ ws) st1 (so_symbols w lib ulp.objs.units known) held
        left in
    (
      ulp_apply_all_units-AllTaken w ulp st ok,
      (
        ws,
        others,
        subst (λ s. Holds ((base ++ ws) ++ others) s.insnq.queue) (sym e) whole,
        diverts,
      ),
    )
