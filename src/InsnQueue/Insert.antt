-- ===== src/InsnQueue/Insert.antt =====
-- lib/insn_queue.c: how libpulp.so appends to its queue. The globals that these functions share
-- are `__ulp_insn_queue` and `__ulp_error_state`.
use libpulp.Base.{
  ℕ, ◌+◌, ◌-◌, ◌%◌, List, [], ◌∷◌, ◌++◌, Option, none, some, Bool, true, false, length, ltb, ◌==◌,
  if◌then◌else◌, ◌||◌, bit_and,
}
use libpulp.Base.Memory.{Memory, store, bytes_le}
use libpulp.Base.Words.{int_mod, add_int, add_size, int_to_size, is_positive}
use libpulp.Errors.Codes.{enone, einsnq}
use libpulp.InsnQueue.Defs.{
  Queue, insn_buffer_max, ulp_insn_print, ulp_insn_write, insn_len, write_len,
}

pub record Globals : Type 0 where
  pub queue : Queue
  pub error_state : ℕ

-- align_to on int patterns; `bytes` is a power of two
unfoldable pub align_to : ℕ → ℕ → ℕ
align_to val bytes = let mask = bytes - 1 in bit_and (add_int val mask) (int_mod - 1 - mask)

-- insnq_get_writable_area: the offset of the area in the buffer and the new queue, or NULL.
-- `msg_size` is a size_t.
unfoldable pub get_writable_area : Queue → ℕ → Option (ℕ × Queue)
get_writable_area q msg_size =
    if msg_size == 0
    then none
    else if ltb insn_buffer_max (add_size msg_size (int_to_size q.size))
    then none
    else some (
      q.size,
      record q {
        size = add_size (int_to_size q.size) msg_size % int_mod;
        num_insns = add_int q.num_insns 1;
      },
    )

-- The stores into the area, in the order of the source: type, 24-bit size, then the rest.
abbrev pub put_base : Memory → ℕ → ℕ → ℕ → Memory
put_base m a type size = store (store m a (type ∷ [])) (a + 1) (bytes_le 3 size)

-- insnq_insert_print; `string` is what stands before the null character. Its instruction's size:
unfoldable pub print_insn_size : List ℕ → ℕ
print_insn_size string =
    let string_size = (length string + 1) % int_mod in
    align_to (add_size insn_len (int_to_size string_size) % int_mod) 4

-- and the rest of the function, which knows the size.
unfoldable pub insert_print_sized : ℕ → List ℕ → Globals → ℕ × Globals
insert_print_sized insn_size string g = elim (get_writable_area g.queue (int_to_size insn_size)) [
  | none ↦ (einsnq, record g { error_state = einsnq })
  | some (at, q) ↦
      let based = put_base q.buffer at ulp_insn_print insn_size in
      (enone, record g { queue = record q { buffer = store based (at + 4) (string ++ 0 ∷ []) } })
]

unfoldable pub insert_print : List ℕ → Globals → ℕ × Globals
unfolding print_insn_size insert_print_sized
insert_print string g = insert_print_sized (print_insn_size string) string g

-- insnq_insert_write; `bytes` are the `n` bytes that the last argument points to.
unfoldable pub write_insn_size : List ℕ → ℕ
write_insn_size bytes =
    align_to (add_size write_len (int_to_size (length bytes % int_mod)) % int_mod) 8

unfoldable pub insert_write_sized : ℕ → ℕ → List ℕ → Globals → ℕ × Globals
insert_write_sized insn_size addr bytes g =
    elim (get_writable_area g.queue (int_to_size insn_size)) [
      | none ↦ (einsnq, record g { error_state = einsnq })
      | some (at, q) ↦
          let based = put_base q.buffer at ulp_insn_write insn_size in
          let sized = store based (at + 4) (bytes_le 4 (length bytes)) in
          let addressed = store sized (at + 8) (bytes_le 8 addr) in
          (enone, record g { queue = record q { buffer = store addressed (at + 16) bytes } })
    ]

unfoldable pub insert_write : ℕ → List ℕ → Globals → ℕ × Globals
unfolding write_insn_size insert_write_sized
insert_write addr bytes g = insert_write_sized (write_insn_size bytes) addr bytes g

-- insnq_ensure_emptiness: whether something is left in the queue, which is an error state.
unfoldable pub ensure_emptiness : Globals → Bool × Globals
ensure_emptiness g =
    if is_positive g.queue.num_insns || is_positive g.queue.size
    then (true, record g { error_state = einsnq })
    else (false, g)
