-- ===== src/InsnQueue/Layout.antt =====
-- The bytes that lib/insn_queue.c writes for a command, read back as the interpreter reads them.
use libpulp.Base.{ℕ, ◌+◌, ◌<◌, ◌≡◌, ap, ◌∙◌, [], ◌∷◌, ◌++◌, length, arith, length-append}
use libpulp.Base.Memory.{
  Memory, load, store, bytes_le, store_below, load-store_self, load-store_before, load-store_width,
}
use libpulp.InsnQueue.Defs.{ulp_insn_print, ulp_insn_write}
use libpulp.InsnQueue.Insert.{put_base}
use libpulp.InsnQueue.Bounds.{print_size, write_size}
use libpulp.InsnQueue.Commands.{Command, print, write, IsCommand, IsInsn}

-- What the area at the end of the queue is filled with.
abbrev pub filled : Memory → ℕ → Command → Memory
filled m at (print text) =
    store (put_base m at ulp_insn_print (print_size text)) (at + 4) (text ++ 0 ∷ [])
filled m at (write addr bytes) =
    let based = put_base m at ulp_insn_write (write_size bytes) in
    let sized = store based (at + 4) (bytes_le 4 (length bytes)) in
    store (store sized (at + 8) (bytes_le 8 addr)) (at + 16) bytes

-- Filling the area leaves what stands before it alone.
pub filled_before : (m : Memory) (at p : ℕ) (c : Command) → p < at → filled m at c p ≡ m p
filled_before m at p (print text) h =
    let size = bytes_le 3 (print_size text) in
    store_below (put_base m at ulp_insn_print (print_size text)) (at + 4) p (text ++ 0 ∷ [])
      (omega arith)
    ∙ store_below (store m at (ulp_insn_print ∷ [])) (at + 1) p size (omega arith)
    ∙ store_below m at p (ulp_insn_print ∷ []) h
filled_before m at p (write addr bytes) h =
    let size = bytes_le 3 (write_size bytes) in
    let based = put_base m at ulp_insn_write (write_size bytes) in
    let sized = store based (at + 4) (bytes_le 4 (length bytes)) in
    store_below (store sized (at + 8) (bytes_le 8 addr)) (at + 16) p bytes (omega arith)
    ∙ store_below sized (at + 8) p (bytes_le 8 addr) (omega arith)
    ∙ store_below based (at + 4) p (bytes_le 4 (length bytes)) (omega arith)
    ∙ store_below (store m at (ulp_insn_write ∷ [])) (at + 1) p size (omega arith)
    ∙ store_below m at p (ulp_insn_write ∷ []) h

-- The type byte and the size of an instruction, read back.
put_base_type : (m : Memory) (at type size : ℕ) → put_base m at type size at ≡ type
put_base_type m at type size =
    store_below (store m at (type ∷ [])) (at + 1) at (bytes_le 3 size) (omega arith)
    ∙ (unfold store in ground arith)

put_base_size :
    (m : Memory) (at type size : ℕ) → load (put_base m at type size) (at + 1) 3 ≡ bytes_le 3 size
put_base_size m at type size = load-store_width (store m at (type ∷ [])) (at + 1) 3 size

-- The area holds the instruction.
pub filled-IsInsn : (m : Memory) (at : ℕ) (c : Command) → IsCommand c → IsInsn (filled m at c) at c
filled-IsInsn m at (print text) h =
    let based = put_base m at ulp_insn_print (print_size text) in
    let body = text ++ 0 ∷ [] in
    (
      store_below based (at + 4) at body (omega arith)
          ∙ put_base_type m at ulp_insn_print (print_size text),
      load-store_before based (at + 1) 3 (at + 4) body (omega arith)
          ∙ put_base_size m at ulp_insn_print (print_size text),
      ap (λ n. load (store based (at + 4) body) (at + 4) n)
            (omega (arith, length-append text (0 ∷ [])))
          ∙ load-store_self based (at + 4) body,
      h.0,
    )
filled-IsInsn m at (write addr bytes) h =
    let size = write_size bytes in
    let n_bytes = bytes_le 4 (length bytes) in
    let based = put_base m at ulp_insn_write size in
    let sized = store based (at + 4) n_bytes in
    let addressed = store sized (at + 8) (bytes_le 8 addr) in
    (
      store_below addressed (at + 16) at bytes (omega arith)
          ∙ store_below sized (at + 8) at (bytes_le 8 addr) (omega arith)
          ∙ store_below based (at + 4) at n_bytes (omega arith)
          ∙ put_base_type m at ulp_insn_write size,
      load-store_before addressed (at + 1) 3 (at + 16) bytes (omega arith)
          ∙ load-store_before sized (at + 1) 3 (at + 8) (bytes_le 8 addr) (omega arith)
          ∙ load-store_before based (at + 1) 3 (at + 4) n_bytes (omega arith)
          ∙ put_base_size m at ulp_insn_write size,
      load-store_before addressed (at + 4) 4 (at + 16) bytes (omega arith)
          ∙ load-store_before sized (at + 4) 4 (at + 8) (bytes_le 8 addr) (omega arith)
          ∙ load-store_width based (at + 4) 4 (length bytes),
      load-store_before addressed (at + 8) 8 (at + 16) bytes (omega arith)
          ∙ load-store_width sized (at + 8) 8 addr,
      load-store_self addressed (at + 16) bytes,
      h.0,
    )
