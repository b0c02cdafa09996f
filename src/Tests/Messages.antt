-- ===== src/Tests/Messages.antt =====
-- Messages in the circular buffer.
use libpulp.Base.{
  ℕ, zero, suc, ◌<◌, ◌≡◌, refl, List, [], ◌∷◌, Option, some, none, get_or, arith, ◌≢◌, drop, ◌⊎◌,
  if◌then◌else◌, ◌+◌, ◌^◌, ◌==◌,
}
use libpulp.Base.Memory.{store, Memory, load, bytes_le, length-load}
use libpulp.MsgQueue.Defs.{
  MsgQueue, msgq_push, msgq_print, strlen, skip_nulls, skip_message, drop_first, make_room,
  wrap_top, commit, commit_room, push_message, msgq_strpush, print_from, empty_queue,
}
use libpulp.MsgQueue.Commit.{Text}
use libpulp.MsgQueue.Remote.{IsQueue, print_message_buffer, msgq_size, print_message_buffer-prints}
use libpulp.Tests.Process.{process}
use libpulp.Tests.Calls.{tracer}
use libpulp.MsgQueue.Print.{shown, Texts, push_all, joined, push_all-shown}

-- "ok" and "go"
abbrev ok : List ℕ
ok = 111 ∷ 107 ∷ []

abbrev go : List ℕ
go = 103 ∷ 111 ∷ []

two_visible : (a b : ℕ) → a ≢ 0 → b ≢ 0 → (i : ℕ) → i < 2 → get_or (a ∷ b ∷ []) i 0 ≢ 0
two_visible a b ha hb zero lt = ha
two_visible a b ha hb (suc zero) lt = hb
two_visible a b ha hb (suc (suc i)) lt = absurd (omega arith)

two-Text : (a b : ℕ) → a ≢ 0 → b ≢ 0 → Text (a ∷ b ∷ [])
two-Text a b ha hb = record {
  positive = omega arith;
  visible = two_visible a b ha hb;
  short = omega arith;
}

both-Texts : Texts (ok ∷ go ∷ [])
both-Texts zero lt = two-Text 111 107 (omega arith) (omega arith)
both-Texts (suc zero) lt = two-Text 103 111 (omega arith) (omega arith)
both-Texts (suc (suc i)) lt = absurd (omega arith)

shown_of : Option MsgQueue → List ℕ
shown_of none = []
shown_of (some q) = shown (msgq_print q)

-- A queue with "ok" at the end of the buffer.
abbrev near_end : MsgQueue
near_end = record {
  buffer = store (λ p. 7) 2097148 (111 ∷ 107 ∷ 0 ∷ []);
  top = 2097151;
  bottom = 2097148;
  distance = 3;
}

wraps : shown_of (msgq_push go near_end) ≡ 111 ∷ 107 ∷ 103 ∷ 111 ∷ []
unfolding shown_of msgq_push msgq_strpush push_message commit_room commit wrap_top make_room
    drop_first skip_message skip_nulls strlen shown msgq_print print_from store
wraps = refl

push_all-shown_example :
    (q : MsgQueue) × (j : ℕ) × (push_all (ok ∷ go ∷ []) empty_queue ≡ some q)
    × (shown (msgq_print q) ≡ joined (drop j (ok ∷ go ∷ [])))
    × ((j ≡ 0) ⊎ (j < 2))
push_all-shown_example = push_all-shown (ok ∷ go ∷ []) both-Texts

-- A process with a queue of three null characters at 3000000.
abbrev memory : Memory
memory x = if x == 5097160 then 3 else 0

abbrev held : Memory
held = (tracer.attach 3 memory).1

abbrev remote_queue : MsgQueue
remote_queue = record {
  buffer = λ i. process.byte held (3000000 + i);
  top = 0;
  bottom = 0;
  distance = 3;
}

remote_image : IsQueue remote_queue (process.byte held) 3000000
unfolding load bytes_le
remote_image = record { buffer = λ i lt. refl; top = refl; bottom = refl; distance = refl }

three_small : 3 < 2 ^ 31
three_small = omega arith

far_apart : let a : ℕ = 3000000 in a ≢ 0
far_apart e = omega arith

print_message_buffer-prints_example :
    print_message_buffer process tracer 1 3 (0 ∷ 3000000 ∷ 4000000 ∷ []) memory
    ≡ some (0, msgq_print remote_queue, (tracer.detach 3 held).1)
print_message_buffer-prints_example =
    print_message_buffer-prints process tracer 0 3 1 3000000 (4000000 ∷ []) remote_queue memory held
      far_apart refl
      (
        load (process.byte held) 3000000 msgq_size,
        refl,
        length-load (process.byte held) 3000000 msgq_size,
      )
      refl (omega arith) (omega arith) three_small remote_image
