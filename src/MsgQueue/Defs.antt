-- ===== src/MsgQueue/Defs.antt =====
-- lib/msg_queue.c and msgq_print of tools/messages.c. The sums of the code are below 2 ^ 32.
use libpulp.Base.{
  ℕ, zero, suc, ◌+◌, ◌-◌, ◌%◌, List, [], ◌∷◌, ◌++◌, Option, none, some, true, false, leb, ltb, ◌==◌,
  length, take, get_or, replicate, if◌then◌else◌,
}
use libpulp.Base.Memory.{Memory, store}

-- MSGQ_BUFFER_MAX
abbrev pub msgq_buffer_max : ℕ
msgq_buffer_max = 2097152

-- struct msg_queue; the buffer is its bytes at 0 up to the maximum
pub record MsgQueue : Type 0 where
  pub buffer : Memory
  pub top : ℕ
  pub bottom : ℕ
  pub distance : ℕ

-- strlen(&buffer[p]), which is not followed behind the buffer's end
unfoldable pub strlen : ℕ → Memory → ℕ → Option ℕ
strlen zero b p = none
strlen (suc fuel) b p = elim (b p == 0) [
  | true ↦ some 0
  | false ↦ elim (strlen fuel b (suc p)) [ none ↦ none | some n ↦ some (suc n) ]
]

-- The loop over null characters, with its `travel`. A round for each place of the buffer shows
-- that the loop never ends.
unfoldable pub skip_nulls : ℕ → Memory → ℕ → ℕ → Option (ℕ × ℕ)
skip_nulls zero b bottom travel = none
skip_nulls (suc fuel) b bottom travel = elim (b bottom == 0) [
  | true ↦ skip_nulls fuel b ((bottom + 1) % msgq_buffer_max) (suc travel)
  | false ↦ some (bottom, travel)
]

unfoldable pub skip_message : Memory → ℕ → Option ℕ → Option (ℕ × ℕ)
skip_message b bottom none = none
skip_message b bottom (some n) =
    skip_nulls msgq_buffer_max b ((bottom + (n + 1)) % msgq_buffer_max) (n + 1)

-- A round of the loop that makes room, up to the new `bottom` and the `travel`.
unfoldable pub drop_first : Memory → ℕ → Option (ℕ × ℕ)
drop_first b bottom = skip_message b bottom (strlen (msgq_buffer_max - bottom) b bottom)

-- The loop that makes room. `none` is a loop that does not end, or that makes the distance
-- negative.
unfoldable pub make_room : ℕ → Memory → ℕ → ℕ → ℕ → Option (ℕ × ℕ)
make_room zero b msg_size bottom distance = none
make_room (suc fuel) b msg_size bottom distance = elim (leb msgq_buffer_max (distance + msg_size)) [
  | true ↦ elim (drop_first b bottom) [
    | none ↦ none
    | some (bottom', travel) ↦ elim (leb travel distance) [
      | true ↦ make_room fuel b msg_size bottom' (distance - travel)
      | false ↦ none
    ]
  ]
  | false ↦ some (bottom, distance)
]

-- A message that does not fit behind `top` goes to the start of the buffer.
unfoldable pub wrap_top : ℕ → MsgQueue → MsgQueue
wrap_top msg_size q =
    let rest = msgq_buffer_max - q.top in
    elim (leb msgq_buffer_max (q.top + msg_size)) [
      | true ↦ record {
        buffer = store q.buffer q.top (replicate rest 0);
        top = 0;
        bottom = q.bottom;
        distance = q.distance + rest;
      }
      | false ↦ q
    ]

-- The copy of the message, and the new fields.
unfoldable pub commit : List ℕ → ℕ → MsgQueue → ℕ → ℕ → MsgQueue
commit msg msg_size q bottom distance = record {
  buffer = store q.buffer q.top (take msg_size msg);
  top = (q.top + msg_size) % msgq_buffer_max;
  bottom = bottom;
  distance = distance + msg_size;
}

unfoldable pub commit_room : List ℕ → ℕ → MsgQueue → Option (ℕ × ℕ) → Option MsgQueue
commit_room msg msg_size q none = none
commit_room msg msg_size q (some (bottom, distance)) = some (commit msg msg_size q bottom distance)

-- msgq_strpush behind its first return
unfoldable pub push_message : List ℕ → ℕ → MsgQueue → Option MsgQueue
push_message msg msg_size q =
    let w = wrap_top msg_size q in
    commit_room msg msg_size w (make_room msgq_buffer_max w.buffer msg_size w.bottom w.distance)

-- msgq_strpush; `msg` is what the buffer of that name holds
unfoldable pub msgq_strpush : List ℕ → ℕ → MsgQueue → Option MsgQueue
msgq_strpush msg msg_size q =
    let pushed = push_message msg msg_size q in
    if get_or msg 0 0 == 0 then some q else if ltb msgq_buffer_max msg_size then some q else pushed

-- msgq_push and msgq_vpush of a format that vsnprintf expands to `text`: it writes as much of the
-- text as fits with a null character behind it, and returns the length of the whole.
unfoldable pub msgq_push : List ℕ → MsgQueue → Option MsgQueue
msgq_push text q = msgq_strpush (take (msgq_buffer_max - 1) text ++ (0 ∷ [])) (length text + 1) q

-- The queue of a process that has just started.
abbrev pub empty_queue : MsgQueue
empty_queue = record { buffer = λ p. 0; top = 0; bottom = 0; distance = 0 }

-- The loop of msgq_print, as the characters that it prints.
unfoldable pub print_from : ℕ → Memory → ℕ → List ℕ
print_from zero b bottom = []
print_from (suc distance) b bottom =
    b bottom ∷ print_from distance b ((bottom + 1) % msgq_buffer_max)

-- msgq_print
unfoldable pub msgq_print : MsgQueue → List ℕ
msgq_print q = print_from q.distance q.buffer q.bottom
