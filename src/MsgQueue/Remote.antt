-- ===== src/MsgQueue/Remote.antt =====
-- print_message_buffer of tools/messages.c without --debug: the tool copies the queue out of the
-- process and prints it.
use mathlib.Core.Path.{ap₂}
use libpulp.Base.{
  ℕ, zero, suc, ◌+◌, ◌-◌, ◌≤◌, ◌<◌, ◌^◌, ◌≡◌, ◌≢◌, refl, ap, ◌∙◌, List, [], ◌∷◌, ◌++◌, Option, none,
  some, false, ◌==◌, take, drop, length, replicate, length-replicate, if◌then◌else◌, arith, subst,
}
use libpulp.Base.Memory.{
  Memory, load, store, bytes_le, value_le, value_le-bytes_le, drop-load, take-load,
}
use libpulp.Base.Words.{is_positive}
use libpulp.Ptrace.Defs.{Tracee, Transfer, done, failed, running, Complete, read_memory}
use libpulp.Ptrace.Read.{read_memory-load}
use libpulp.Threads.Defs.{Tracer}
use libpulp.MsgQueue.Defs.{MsgQueue, msgq_buffer_max, msgq_print, print_from}
use libpulp.MsgQueue.Laid.{place}
use libpulp.Elf.Names.{store-load_at}

-- get_msgq_address, where each object of libpulp.so in the list has the address of its queue, or 0
unfoldable pub get_msgq_address : List ℕ → ℕ
get_msgq_address [] = 0
get_msgq_address (a ∷ others) = let rest = get_msgq_address others in if a == 0 then rest else a

-- sizeof(struct msg_queue)
abbrev pub msgq_size : ℕ
msgq_size = 2097164

unfoldable pub cleared : ℕ → List ℕ
cleared n = replicate n 0

-- The copy of the queue from its bytes.
unfoldable pub queue_of : List ℕ → MsgQueue
queue_of bytes = record {
  buffer = λ p. store (λ q. 0) 0 bytes p;
  top = value_le (take 4 (drop 2097152 bytes));
  bottom = value_le (take 4 (drop 2097156 bytes));
  distance = value_le (take 4 (drop 2097160 bytes));
}

-- msgq_print, which prints nothing for a negative distance
unfoldable pub print_queue : MsgQueue → List ℕ
print_queue q = let shown = msgq_print q in if is_positive q.distance then shown else []

module _ {R S : Type 0} (t : Tracee S) (k : Tracer R S) (fuel : ℕ) where
  -- Behind the read: the return value and what is printed.
  unfoldable pub print_read : ℕ → Transfer S → Option (ℕ × List ℕ × S)
  print_read pid running = none
  print_read pid (failed s) = some (1, [], (k.detach pid s).1)
  print_read pid (done bytes s) =
      let (kept, s') = k.detach pid s in
      let text = print_queue (queue_of bytes) in
      if kept then some (1, [], s') else some (0, text, s')

  -- print_message_buffer; `none` is a read that has not ended within its fuel
  unfoldable pub print_message_buffer : ℕ → List ℕ → S → Option (ℕ × List ℕ × S)
  print_message_buffer pid dynobjs s =
      let msgq_addr = get_msgq_address dynobjs in
      let (refused, s1) = k.attach pid s in
      let rest = print_read pid (read_memory t fuel msgq_size (cleared msgq_size) msgq_addr s1) in
      if msgq_addr == 0 then some (1, [], s) else if refused then some (1, [], s1) else rest

-- The queue stands in a memory at an address, in the layout of struct msg_queue.
pub record IsQueue (q : MsgQueue) (m : Memory) (a : ℕ) : Type 0 where
  pub buffer : (i : ℕ) → i < msgq_buffer_max → m (a + i) ≡ q.buffer i
  pub top : load m (a + 2097152) 4 ≡ bytes_le 4 q.top
  pub bottom : load m (a + 2097156) 4 ≡ bytes_le 4 q.bottom
  pub distance : load m (a + 2097160) 4 ≡ bytes_le 4 q.distance

print_from_same :
    (b b' : Memory) (n p : ℕ)
    → p < msgq_buffer_max
    → ((i : ℕ) → i < msgq_buffer_max → b i ≡ b' i)
    → print_from n b p ≡ print_from n b' p
unfolding print_from
print_from_same b b' zero p lt agree = refl
print_from_same b b' (suc n) p lt agree =
    ap₂ (λ c cs. c ∷ cs) (agree p lt) (print_from_same b b' n (place p 1) (omega arith) agree)

field_of :
    (m : Memory) (a i v : ℕ)
    → i + 4 ≤ msgq_size
    → v < 2 ^ 31
    → load m (a + i) 4 ≡ bytes_le 4 v
    → value_le (take 4 (drop i (load m a msgq_size))) ≡ v
field_of m a i v inside small e =
    let split : msgq_size - i ≡ 4 + (msgq_size - i - 4) = omega arith in
    ap (λ bs. value_le (take 4 bs)) (drop-load m a i msgq_size (omega arith))
    ∙ ap (λ n. value_le (take 4 (load m (a + i) n))) split
    ∙ ap value_le (take-load m (a + i) 4 (msgq_size - i - 4) ∙ e)
    ∙ value_le-bytes_le 4 v (omega arith)

printed :
    (n p : ℕ) (b : Memory)
    → n < 2 ^ 31
    → (if is_positive n then print_from n b p else []) ≡ print_from n b p
unfolding print_from
printed zero p b small = refl
printed (suc n) p b small = ground arith

in_struct : (i : ℕ) → i < msgq_buffer_max → i < msgq_size
in_struct i lt = omega arith

from_zero : (i : ℕ) → 0 + i ≡ i
from_zero i = omega arith

copied_byte :
    (m : Memory) (a i : ℕ)
    → i < msgq_buffer_max
    → store (λ p. 0) 0 (load m a msgq_size) i ≡ m (a + i)
copied_byte m a i lt =
    subst (λ x. store (λ p. 0) 0 (load m a msgq_size) x ≡ m (a + i)) (from_zero i)
      (store-load_at (λ p. 0) m 0 a msgq_size i (in_struct i lt))

int_bound : (v : ℕ) → v < msgq_buffer_max → v < 2 ^ 31
int_bound v lt = omega arith

in_struct_4 : 2097156 + 4 ≤ msgq_size
in_struct_4 = omega arith

in_struct_8 : 2097160 + 4 ≤ msgq_size
in_struct_8 = omega arith

-- The copy prints what the queue itself would print.
queue_of-prints :
    (q : MsgQueue) (m : Memory) (a : ℕ)
    → q.top < 2 ^ 31
    → q.bottom < msgq_buffer_max
    → q.distance < 2 ^ 31
    → IsQueue q m a
    → print_queue (queue_of (load m a msgq_size)) ≡ msgq_print q
unfolding queue_of print_queue msgq_print
queue_of-prints q m a top bottom distance image =
    let bytes = load m a msgq_size in
    let b : Memory = store (λ p. 0) 0 bytes in
    let from : value_le (take 4 (drop 2097156 bytes)) ≡ q.bottom =
      field_of m a 2097156 q.bottom in_struct_4 (int_bound q.bottom bottom) image.bottom in
    let count : value_le (take 4 (drop 2097160 bytes)) ≡ q.distance =
      field_of m a 2097160 q.distance in_struct_8 distance image.distance in
    let copy : (i : ℕ) → i < msgq_buffer_max → b i ≡ q.buffer i =
      λ i lt. copied_byte m a i lt ∙ image.buffer i lt in
    ap₂ (λ d p. if is_positive d then print_from d b p else []) count from
    ∙ printed q.distance q.bottom b distance
    ∙ print_from_same b q.buffer q.distance q.bottom bottom copy

size_bound : msgq_size < 2 ^ 64
size_bound = omega arith

cleared_size : (n : ℕ) → length (cleared n) ≡ n
unfolding cleared
cleared_size n = length-replicate n 0

-- The objects without a queue are passed over.
get_msgq_address-first :
    (n a : ℕ) (others : List ℕ) → a ≢ 0 → get_msgq_address (replicate n 0 ++ (a ∷ others)) ≡ a
unfolding get_msgq_address
get_msgq_address-first zero a others there = ground arith
get_msgq_address-first (suc n) a others there = get_msgq_address-first n a others there

-- If the process can be attached to, the kernel transfers the whole queue and the process can be
-- detached from, then print_message_buffer returns 0 and prints what msgq_print prints of the queue
-- of the process. That stands at the address `a`, the first one of the list of objects that is not
-- 0, in the layout of struct msg_queue; its top and distance are below 2 ^ 31, its bottom is below
-- MSGQ_BUFFER_MAX.
pub print_message_buffer-prints :
    {R S : Type 0} (t : Tracee S) (k : Tracer R S) (fuel pid n a : ℕ) (others : List ℕ)
    (q : MsgQueue) (s s2 : S)
    → let s1 = (k.attach pid s).1 in
      a ≢ 0
      → (k.attach pid s).0 ≡ false
      → Complete t msgq_size a s1 s2
      → (k.detach pid s2).0 ≡ false
      → q.top < 2 ^ 31
      → q.bottom < msgq_buffer_max
      → q.distance < 2 ^ 31
      → IsQueue q (t.byte s1) a
      → print_message_buffer t k (suc fuel) pid (replicate n 0 ++ (a ∷ others)) s
        ≡ some (0, msgq_print q, (k.detach pid s2).1)
unfolding print_message_buffer print_read
print_message_buffer-prints t k fuel pid n a others q s s2 there attached complete detached top
      bottom distance image =
    let s1 = (k.attach pid s).1 in
    let dynobjs : List ℕ = replicate n 0 ++ (a ∷ others) in
    let first : get_msgq_address dynobjs ≡ a = get_msgq_address-first n a others there in
    let text = queue_of-prints q (t.byte s1) a top bottom distance image in
    let got =
      (read_memory-load t fuel msgq_size (cleared msgq_size) a s1 s2 size_bound
        (cleared_size msgq_size) complete).0 in
    let rest : print_read t k (suc fuel) pid
          (read_memory t (suc fuel) msgq_size (cleared msgq_size) a s1)
        ≡ some (0, msgq_print q, (k.detach pid s2).1) =
      ap (print_read t k (suc fuel) pid) got ∙ ground arith in
    let found : print_message_buffer t k (suc fuel) pid dynobjs s ≡ (
        if a == 0
        then some (1, [], s)
        else if (k.attach pid s).0
        then some (1, [], s1)
        else print_read t k (suc fuel) pid
            (read_memory t (suc fuel) msgq_size (cleared msgq_size) a s1)) =
      ap
        (λ x.
          if x == 0
          then some (1, [], s)
          else if (k.attach pid s).0
          then some (1, [], s1)
          else print_read t k (suc fuel) pid
              (read_memory t (suc fuel) msgq_size (cleared msgq_size) x s1))
        first in
    found ∙ ground arith
