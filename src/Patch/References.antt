-- ===== src/Patch/References.antt =====
-- The references that ulp_apply_all_units of lib/ulp.c fixes: what they queue.
use libpulp.Base.{
  ℕ, ◌+◌, ◌*◌, ◌%◌, ◌≤◌, ◌<◌, ◌≡◌, ◌⊎◌, sym, subst, List, [], ◌∷◌, ◌++◌, ◌==◌, ◌&&◌, length, arith,
  ◌^◌, inl, inr, Bool-cases, append_nil, length-append, Option-cases,
}
use libpulp.Base.Memory.{bytes_le, length-bytes_le}
use libpulp.Arch.Defs.{memwrite}
use libpulp.Arch.Queued.{Room, insert-Room}
use libpulp.InsnQueue.Defs.{insn_buffer_max}
use libpulp.InsnQueue.Insert.{Globals}
use libpulp.InsnQueue.Commands.{Command, write, insert, Holds}
use libpulp.Patch.Defs.{State, World, Metadata, Reference}
use libpulp.Patch.Apply.{fix_references, apply_references, reference_address, reference_words}
use libpulp.Strings.{get_basename}

small_words : (base tls : ℕ) (ref : Reference) → length (reference_words base tls ref) ≤ 16
unfolding reference_words
small_words base tls ref = elim (Bool-cases ref.tls) [
  | inl e ↦ rw e (
      omega (
        arith,
        length-append (bytes_le 8 tls) (bytes_le 8 ref.target_offset),
        length-bytes_le 8 tls,
        length-bytes_le 8 ref.target_offset,
      ))
  | inr e ↦ rw e (omega (arith, length-bytes_le 8 ((base + ref.target_offset) % 2 ^ 64)))
]

address_bound :
    (w : World) (handle base : ℕ) (ref : Reference)
    → ((name : List ℕ) (h : ℕ) → w.so_symbol name h < 2 ^ 64)
    → reference_address w handle base ref < 2 ^ 64
unfolding reference_address
address_bound w handle base ref symbols =
    let named = symbols ref.reference_name handle in
    elim (Bool-cases (ref.patch_offset == 0)) [ inl e ↦ rw e named | inr e ↦ rw e (omega arith) ]

apply_references-Room :
    (w : World) (handle target tls patch : ℕ) (refs : List Reference) (base : List Command)
    (g : Globals)
    → ((name : List ℕ) (h : ℕ) → w.so_symbol name h < 2 ^ 64)
    → Room base (length refs) g
    → Room base 0 (apply_references w handle target tls patch refs g).1
unfolding apply_references memwrite
apply_references-Room w handle target tls patch [] base g symbols room = room
apply_references-Room w handle target tls patch (ref ∷ refs) base g symbols (ws, holds, room) =
    let at = reference_address w handle patch ref in
    let bytes = reference_words target tls ref in
    let short = small_words target tls ref in
    let c = write at bytes in
    let (more, left) =
      insert-Room base ws (length refs) c g holds (omega arith)
        (address_bound w handle patch ref symbols, omega arith) (omega arith) in
    elim (Bool-cases (at == 0 && ref.patch_offset == 0)) [
      | inl missing ↦ rw (apply_references, missing) (ws, holds, omega arith)
      | inr there ↦
          rw (apply_references, there)
            (apply_references-Room w handle target tls patch refs base (insert c g).1 symbols
              (ws ++ c ∷ [], more, left))
    ]

fix_references_cases :
    (w : World) (ulp : Metadata) (st : State)
    → ((fix_references w ulp st).1.insnq ≡ st.insnq)
      ⊎ ((target : ℕ) × (tls : ℕ) × (patch : ℕ) × ((fix_references w ulp st).1.insnq
            ≡ (apply_references w ulp.so_handler target tls patch ulp.refs st.insnq).1))
unfolding fix_references
fix_references_cases w ulp st =
    let target = get_basename ulp.objs.name in
    let base = w.library_base target in
    elim (Bool-cases (base == 0xff)) [
      | inl e ↦ inl (ground arith)
      | inr e ↦ elim (Option-cases (w.link_map ulp.so_handler)) [
        | inl f ↦ inl (ground arith)
        | inr (addr, f) ↦ elim (Bool-cases (addr == 0)) [
          | inl z ↦ inl (ground arith)
          | inr z ↦ inr (base, w.library_tls target, addr, ground arith)
        ]
      ]
    ]

pub fix_references-Room :
    (w : World) (ulp : Metadata) (base : List Command) (st : State)
    → ((name : List ℕ) (h : ℕ) → w.so_symbol name h < 2 ^ 64)
    → Holds base st.insnq.queue
    → st.insnq.queue.size + 40 * length ulp.refs ≤ insn_buffer_max
    → Room base 0 (fix_references w ulp st).1.insnq
fix_references-Room w ulp base st symbols holds room =
    let plain : Holds (base ++ []) st.insnq.queue =
      subst (λ l. Holds l st.insnq.queue) (sym (append_nil base)) holds in
    elim (fix_references_cases w ulp st) [
      | inl e ↦ subst (Room base 0) (sym e) ([], plain, omega arith)
      | inr (target, tls, patch, e) ↦ subst (Room base 0) (sym e) (
          apply_references-Room w ulp.so_handler target tls patch ulp.refs base st.insnq symbols
            ([], plain, room))
    ]
