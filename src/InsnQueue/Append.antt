-- ===== src/InsnQueue/Append.antt =====
-- What a call of insnq_insert_print or insnq_insert_write does to the queue, on every path.
use libpulp.Base.{
  ℕ, ◌+◌, ◌^◌, ◌<◌, ◌≡◌, ap, ◌∙◌, List, none, some, length, arith, leb, if◌then◌else◌,
}
use libpulp.Base.Words.{int_to_size}
use libpulp.Errors.Codes.{enone, einsnq}
use libpulp.InsnQueue.Defs.{Queue, insn_buffer_max, insn_len, write_len}
use libpulp.InsnQueue.Insert.{
  Globals, align_to, get_writable_area, insert_print, insert_write, print_insn_size,
  write_insn_size, insert_print_sized, insert_write_sized,
}
use libpulp.InsnQueue.Bounds.{
  IsValid, align_to_four, align_to_eight, grown, get_writable_area_lem, print_size, write_size,
}
use libpulp.InsnQueue.Commands.{Command, print, write, insert, size_of, IsCommand}
use libpulp.InsnQueue.Layout.{filled}

-- The globals after a command was queued.
abbrev pub queued : Command → Globals → Globals
queued c g =
    let q = grown g.queue (size_of c) in
    record g { queue = record q { buffer = filled g.queue.buffer g.queue.size c } }

print_insn_size_lem :
    (text : List ℕ) → length text < 2 ^ 30 → print_insn_size text ≡ print_size text
unfolding print_insn_size
print_insn_size_lem text h =
    ap (λ k. align_to k 4) (ground arith)
    ∙ align_to_four (insn_len + (length text + 1)) (omega arith)
    ∙ omega arith

write_insn_size_lem :
    (bytes : List ℕ) → length bytes < 2 ^ 30 → write_insn_size bytes ≡ write_size bytes
unfolding write_insn_size
write_insn_size_lem bytes h =
    ap (λ k. align_to k 8) (ground arith) ∙ align_to_eight (write_len + length bytes) (omega arith)

-- The area for a size that an int holds.
area_lem :
    {q : Queue} (k : ℕ)
    → IsValid q
    → 0 < k
    → k < 2 ^ 31
    → get_writable_area q (int_to_size k)
      ≡ (if leb (q.size + k) insn_buffer_max then some (q.size, grown q k) else none)
area_lem {q} k v pos h =
    let e : int_to_size k ≡ k = ground arith in rw e (get_writable_area_lem k v pos h)

print_sized :
    (text : List ℕ) (g : Globals)
    → IsValid g.queue
    → print_size text < 2 ^ 31
    → insert_print_sized (print_size text) text g ≡ (
        if leb (g.queue.size + print_size text) insn_buffer_max
        then (enone, queued (print text) g)
        else (einsnq, record g { error_state = einsnq }))
unfolding insert_print_sized
print_sized text g v h =
    rw (area_lem (print_size text) v (omega arith) h, insert_print_sized) (ground arith)

write_sized :
    (addr : ℕ) (bytes : List ℕ) (g : Globals)
    → IsValid g.queue
    → write_size bytes < 2 ^ 31
    → insert_write_sized (write_size bytes) addr bytes g ≡ (
        if leb (g.queue.size + write_size bytes) insn_buffer_max
        then (enone, queued (write addr bytes) g)
        else (einsnq, record g { error_state = einsnq }))
unfolding insert_write_sized
write_sized addr bytes g v h =
    rw (area_lem (write_size bytes) v (omega arith) h, insert_write_sized) (ground arith)

pub insert_lem :
    (c : Command) (g : Globals)
    → IsValid g.queue
    → IsCommand c
    → insert c g ≡ (
        if leb (g.queue.size + size_of c) insn_buffer_max
        then (enone, queued c g)
        else (einsnq, record g { error_state = einsnq }))
insert_lem (print text) g v h =
    unfold insert_print in rw (print_insn_size_lem text h.1) (print_sized text g v (omega arith))
insert_lem (write addr bytes) g v h =
    unfold insert_write in
    rw (write_insn_size_lem bytes h.1) (write_sized addr bytes g v (omega arith))
