-- ===== src/MsgQueue/Push.antt =====
-- What msgq_push keeps of the queue, and what the tool prints of it.
use libpulp.Base.{
  ℕ, ◌+◌, ◌-◌, ◌≤◌, ◌<◌, ◌≡◌, ◌≢◌, ◌⊎◌, inl, inr, refl, sym, ap, ◌∙◌, subst, List, [], ◌∷◌, ◌++◌,
  length, get_or, arith, take, take_all, Option, some, drop, ◌*◌,
}
use libpulp.MsgQueue.Defs.{
  msgq_buffer_max, MsgQueue, commit, commit_room, msgq_push, push_message, wrap_top, make_room,
  msgq_strpush,
}
use libpulp.MsgQueue.Laid.{place}
use libpulp.MsgQueue.Evict.{Room, make_room_fits, make_room_lem}
use libpulp.MsgQueue.Wrap.{padded_below, Laid-length, straight-Room, wrapped-Room, padded_end}
use libpulp.MsgQueue.Commit.{Text, Kept, copy_bytes, commit-Kept}

-- A message behind the others, and what had to go for it.
abbrev pub Pushed : Option MsgQueue → List (List ℕ) → List ℕ → Type 0
Pushed o ms m = (q : MsgQueue) × (j : ℕ) × (o ≡ some q) × Kept q (drop j ms ++ (m ∷ []))

-- The loop that makes room, and the copy behind it.
Room-Pushed :
    (msg : List ℕ) (w : MsgQueue) (m : List ℕ) (ms : List (List ℕ)) (p' d' : ℕ)
    → take (length m + 1) msg ≡ m ++ (0 ∷ [])
    → Text m
    → (w.top ≡ 0) ⊎ (w.buffer 0 ≢ 0)
    → w.top + (length m + 1) < msgq_buffer_max
    → make_room msgq_buffer_max w.buffer (length m + 1) w.bottom w.distance ≡ some (p', d')
    → Room w.buffer (length m + 1) w.bottom w.distance w.top ms p' d'
    → Pushed
        (commit_room msg
          (length m + 1)
          w
          (make_room msgq_buffer_max w.buffer (length m + 1) w.bottom w.distance))
        ms
        m
unfolding commit_room
Room-Pushed msg w m ms p' d' bytes text start fits made room = (
  commit msg (length m + 1) w p' d',
  room.dropped,
  ap (commit_room msg (length m + 1) w) made,
  commit-Kept msg w m (drop room.dropped ms) p' d' bytes text start fits room.fits room.inside
      room.ends room.laid,
)

fits_behind : (top size : ℕ) → (top + size < msgq_buffer_max) ⊎ (msgq_buffer_max ≤ top + size)
fits_behind top size = ground arith

empty_top : (p d top : ℕ) → place p d ≡ top → p ≡ 0 → d ≡ 0 → top ≡ 0
empty_top p d top ends e f = omega arith

small_distance : (d size : ℕ) → d ≡ 0 → size < msgq_buffer_max → d + size < msgq_buffer_max
small_distance d size e lt = omega arith

few :
    (ms : List (List ℕ)) (d : ℕ)
    → d < msgq_buffer_max
    → length ms * 2 ≤ d
    → length ms < msgq_buffer_max
few ms d lt le = omega arith

lower : (d : ℕ) → d < msgq_buffer_max → d ≤ msgq_buffer_max
lower d lt = omega arith

-- A message that fits behind the last one.
push_behind :
    (msg : List ℕ) (q : MsgQueue) (m : List ℕ) (ms : List (List ℕ))
    → take (length m + 1) msg ≡ m ++ (0 ∷ [])
    → Text m
    → Kept q ms
    → q.top + (length m + 1) < msgq_buffer_max
    → Pushed
        (commit_room msg
          (length m + 1)
          q
          (make_room msgq_buffer_max q.buffer (length m + 1) q.bottom q.distance))
        ms
        m
push_behind msg q m ms bytes text kept fits = elim kept.last [
  | inl (none_yet, start, zero_distance) ↦
      Room-Pushed msg q m ms q.bottom q.distance bytes text
        (inl (empty_top q.bottom q.distance q.top kept.ends start zero_distance)) fits
        (make_room_fits q.buffer 2097151 (length m + 1) q.bottom q.distance
          (small_distance q.distance (length m + 1) zero_distance text.short))
        (record {
          dropped = 0;
          laid = kept.laid;
          fits = (small_distance q.distance (length m + 1) zero_distance text.short);
          inside = kept.inside;
          ends = kept.ends;
        })
  | inr (some_yet, two, visible, start) ↦
      let (p', d', made, room) =
        make_room_lem q.buffer msgq_buffer_max (length m + 1) q.bottom q.distance q.top ms
          (few ms q.distance kept.bounded (Laid-length q.buffer q.bottom q.distance ms kept.laid))
          kept.inside (lower q.distance kept.bounded) text.short kept.ends
          (inr (two, fits, visible)) kept.laid in
      Room-Pushed msg q m ms p' d' bytes text (inr start) fits made room
]

-- Whether the messages go around the end of the buffer.
around :
    (p d top : ℕ)
    → p < msgq_buffer_max
    → d < msgq_buffer_max
    → place p d ≡ top
    → 2 ≤ top
    → ((p + d ≡ top) × (top < msgq_buffer_max)) ⊎ (p + d ≡ msgq_buffer_max + top)
around p d top inside bounded ends two = ground arith

from_start : (m : List ℕ) → length m + 1 < msgq_buffer_max → 0 + (length m + 1) < msgq_buffer_max
from_start m lt = omega arith

-- A message that goes to the start.
push_start :
    (msg : List ℕ) (q : MsgQueue) (m : List ℕ) (ms : List (List ℕ))
    → take (length m + 1) msg ≡ m ++ (0 ∷ [])
    → Text m
    → Kept q ms
    → msgq_buffer_max ≤ q.top + (length m + 1)
    → let rest = msgq_buffer_max - q.top in
      let w : MsgQueue = record {
        buffer = padded_end q.buffer q.top;
        top = 0;
        bottom = q.bottom;
        distance = q.distance + rest;
      } in
      Pushed
        (commit_room msg
          (length m + 1)
          w
          (make_room msgq_buffer_max w.buffer (length m + 1) w.bottom w.distance))
        ms
        m
push_start msg q m [] bytes text kept wraps = absurd (elim kept.last [
  | inl (_, start, zero_distance) ↦
      let top = empty_top q.bottom q.distance q.top kept.ends start zero_distance in
      let short = text.short in omega arith
  | inr (some_yet, _, _, _) ↦ omega arith
])
push_start msg q m (n ∷ ms) bytes text kept wraps = elim kept.last [
  | inl (none_yet, _, _) ↦ absurd (cc)
  | inr (some_yet, two, visible, start) ↦
      let rest = msgq_buffer_max - q.top in
      let w : MsgQueue = record {
        buffer = padded_end q.buffer q.top;
        top = 0;
        bottom = q.bottom;
        distance = q.distance + rest;
      } in
      let start' : padded_end q.buffer q.top 0 ≢ 0 =
        λ e. start (sym (padded_below q.buffer q.top 0 (omega arith)) ∙ e) in
      let positive : 1 ≤ length m + 1 = omega arith in
      elim (around q.bottom q.distance q.top kept.inside kept.bounded kept.ends two) [
        | inl straight ↦
            let (p', d', made, room) =
              straight-Room q.buffer msgq_buffer_max (length m + 1) q.bottom q.distance q.top n ms
                (omega arith) text.short straight.0 straight.1 start' kept.laid in
            Room-Pushed msg w m (n ∷ ms) p' d' bytes text (inl refl) (from_start m text.short) made
              room
        | inr wrapped ↦
            let (p', d', made, room) =
              wrapped-Room q.buffer (length m + 1) q.bottom q.distance q.top (n ∷ ms) positive
                text.short kept.inside kept.bounded wrapped (omega arith) start' start kept.laid in
            Room-Pushed msg w m (n ∷ ms) p' d' bytes text (inl refl) (from_start m text.short) made
              room
      ]
]

wrap_top_fits : (size : ℕ) (q : MsgQueue) → q.top + size < msgq_buffer_max → wrap_top size q ≡ q
unfolding wrap_top
wrap_top_fits size q lt = ground arith

wrap_top_wraps :
    (size : ℕ) (q : MsgQueue)
    → msgq_buffer_max ≤ q.top + size
    → wrap_top size q ≡ record {
      buffer = padded_end q.buffer q.top;
      top = 0;
      bottom = q.bottom;
      distance = q.distance + (msgq_buffer_max - q.top);
    }
unfolding wrap_top
wrap_top_wraps size q lt = ground arith

-- Behind the first return of msgq_strpush.
push_message-Kept :
    (msg : List ℕ) (q : MsgQueue) (m : List ℕ) (ms : List (List ℕ))
    → take (length m + 1) msg ≡ m ++ (0 ∷ [])
    → Text m
    → Kept q ms
    → Pushed (push_message msg (length m + 1) q) ms m
unfolding push_message
push_message-Kept msg q m ms bytes text kept =
    let size = length m + 1 in
    elim (fits_behind q.top (length m + 1)) [
      | inl fits ↦
          subst
            (λ w.
              Pushed
                (commit_room msg (length m + 1) w
                  (make_room msgq_buffer_max w.buffer (length m + 1) w.bottom w.distance))
                ms m)
            (sym (wrap_top_fits size q fits)) (push_behind msg q m ms bytes text kept fits)
      | inr wraps ↦
          subst
            (λ w.
              Pushed
                (commit_room msg (length m + 1) w
                  (make_room msgq_buffer_max w.buffer (length m + 1) w.bottom w.distance))
                ms m)
            (sym (wrap_top_wraps size q wraps)) (push_start msg q m ms bytes text kept wraps)
    ]

strpush_behind :
    (msg : List ℕ) (size : ℕ) (q : MsgQueue)
    → get_or msg 0 0 ≢ 0
    → size < msgq_buffer_max
    → msgq_strpush msg size q ≡ push_message msg size q
unfolding msgq_strpush
strpush_behind msg size q visible lt = ground arith

first_visible : (m : List ℕ) → Text m → get_or (m ++ (0 ∷ [])) 0 0 ≢ 0
first_visible [] text = let long = text.positive in absurd (omega arith)
first_visible (c ∷ m) text = text.visible 0 (omega arith)

first_byte : (m : List ℕ) → Text m → get_or (take (msgq_buffer_max - 1) m ++ (0 ∷ [])) 0 0 ≢ 0
first_byte m text =
    let short = text.short in
    let whole : take (msgq_buffer_max - 1) m ≡ m = take_all (msgq_buffer_max - 1) m (omega arith) in
    subst (λ x. get_or (x ++ (0 ∷ [])) 0 0 ≢ 0) (sym whole) (first_visible m text)

-- A message keeps the queue well formed.
pub msgq_push-Kept :
    (q : MsgQueue) (ms : List (List ℕ)) (m : List ℕ)
    → Kept q ms
    → Text m
    → Pushed (msgq_push m q) ms m
unfolding msgq_push
msgq_push-Kept q ms m kept text =
    let msg = take (msgq_buffer_max - 1) m ++ (0 ∷ []) in
    subst (λ o. Pushed o ms m)
      (sym (strpush_behind msg (length m + 1) q (first_byte m text) text.short))
      (push_message-Kept msg q m ms (copy_bytes m text.short) text kept)
