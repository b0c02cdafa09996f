-- ===== src/MsgQueue/Wrap.antt =====
-- A message that does not fit behind `top`: what the padding leaves of the queue.
use native.Mathlib.Decide.{ℕ_discrete}
use libpulp.Base.{
  ℕ, zero, suc, ◌+◌, ◌-◌, ◌≤◌, ◌<◌, ◌≡◌, ◌≢◌, ◌⊎◌, inl, inr, refl, sym, ap, ◌∙◌, subst, List, [],
  ◌∷◌, length, arith, some, drop, replicate, ◌*◌,
}
use libpulp.Base.Memory.{Memory, store, store_below, store_byte}
use libpulp.MsgQueue.Defs.{msgq_buffer_max, make_room, drop_first, skip_message, strlen, skip_nulls}
use libpulp.MsgQueue.Laid.{place, Laid, Laid-Agree, Laid-pad}
use libpulp.MsgQueue.Evict.{Room, make_room_lem, make_room_round, strlen_lem, skip_nulls_lem}

-- The buffer with its end filled with null characters.
abbrev pub padded_end : Memory → ℕ → Memory
padded_end b top = store b top (replicate (msgq_buffer_max - top) 0)

store-replicate :
    (n top p : ℕ) (b : Memory) → top ≤ p → p < top + n → store b top (replicate n 0) p ≡ 0
unfolding store
store-replicate zero top p b le lt = absurd (omega arith)
store-replicate (suc n) top p b le lt = elim (ℕ_discrete top p) [
  | yes e ↦
      subst (λ x. store b top (replicate (suc n) 0) x ≡ 0) e
        (store_below (store_byte b top 0) (suc top) top (replicate n 0) (omega arith)
          ∙ ground arith)
  | no ne ↦ store-replicate n (suc top) p (store_byte b top 0) (omega arith) (omega arith)
]

padded_above : (b : Memory) (top p : ℕ) → top ≤ p → p < msgq_buffer_max → padded_end b top p ≡ 0
padded_above b top p le lt = store-replicate (msgq_buffer_max - top) top p b le (omega arith)

pub padded_below : (b : Memory) (top p : ℕ) → p < top → padded_end b top p ≡ b p
padded_below b top p lt = store_below b top p (replicate (msgq_buffer_max - top) 0) lt

-- The messages of a queue whose end is not before its start, behind the jump to the start.
record Split (b : Memory) (top : ℕ) (ms : List (List ℕ)) : Type 0 where
  skipped : ℕ
  first : List ℕ
  others : List (List ℕ)
  rest : drop skipped ms ≡ first ∷ others
  laid : Laid b 0 top (first ∷ others)

Split-here :
    (b : Memory) (d : ℕ) (m : List ℕ) (ms : List (List ℕ)) (top : ℕ)
    → 0 < d
    → d ≡ top
    → Laid b 0 d ms
    → Split b top (m ∷ ms)
Split-here b d m [] top positive e laid = absurd (omega arith)
Split-here b d m (n ∷ ms) top positive e laid = record {
  skipped = 1;
  first = n;
  others = ms;
  rest = refl;
  laid = subst (λ x. Laid b 0 x (n ∷ ms)) e laid;
}

crosses :
    (p size : ℕ)
    → (p + size < msgq_buffer_max) ⊎ (p + size ≡ msgq_buffer_max) ⊎ (msgq_buffer_max < p + size)
crosses p size = ground arith

-- No message lies across the end of the buffer, and the padding ends there.
Split-wrapped :
    (b : Memory) (p d : ℕ) (ms : List (List ℕ))
    → p < msgq_buffer_max
    → msgq_buffer_max < p + d
    → b 0 ≢ 0
    → Laid b p d ms
    → Split b (p + d - msgq_buffer_max) ms
Split-wrapped b p d [] inside wraps start laid = absurd (omega arith)
Split-wrapped b p d (m ∷ ms) inside wraps start (k, first, le, rest) =
    let size = length m + suc k in
    elim (crosses p size) [
      | inl before ↦
          let later =
            Split-wrapped b (place p size) (d - size) ms (omega arith) (omega arith) start rest in
          record {
            skipped = suc later.skipped;
            first = later.first;
            others = later.others;
            rest = later.rest;
            laid = subst (λ x. Laid b 0 x (later.first ∷ later.others)) (omega arith) later.laid;
          }
      | inr (inl ends) ↦
          Split-here b (d - size) m ms (p + d - msgq_buffer_max) (omega arith) (omega arith)
            (subst (λ x. Laid b x (d - size) ms) (omega arith) rest)
      | inr (inr across) ↦
          let here = first.fits in
          absurd (
            start (
              subst (λ x. b x ≡ 0) (omega arith)
                (first.nulls (msgq_buffer_max - p - length m) (omega arith))))
    ]

-- A message and its terminator take two bytes at least.
pub Laid-length : (b : Memory) (p d : ℕ) (ms : List (List ℕ)) → Laid b p d ms → length ms * 2 ≤ d
Laid-length b p d [] laid = omega arith
Laid-length b p d (m ∷ ms) (k, first, le, rest) =
    let size = length m + suc k in
    let here = first.positive in
    let others = Laid-length b (place p size) (d - size) ms rest in omega arith

-- A queue with its end padded_end, before the loop that makes room.
pub straight-Room :
    (b : Memory) (fuel size p d top : ℕ) (m : List ℕ) (ms : List (List ℕ))
    → 1048576 ≤ fuel
    → size < msgq_buffer_max
    → p + d ≡ top
    → top < msgq_buffer_max
    → padded_end b top 0 ≢ 0
    → Laid b p d (m ∷ ms)
    → (p' d' : ℕ) × (make_room fuel (padded_end b top) size p (d + (msgq_buffer_max - top))
        ≡ some (p', d'))
      × Room (padded_end b top) size p (d + (msgq_buffer_max - top)) 0 (m ∷ ms) p' d'
straight-Room b fuel size p d top m ms enough short e lt start laid =
    let rest = msgq_buffer_max - top in
    let kept : Laid (padded_end b top) p (d + rest) (m ∷ ms) =
      Laid-pad (padded_end b top) p d rest m ms
        (λ j lt'. padded_above b top (place p (d + j)) (omega arith) (omega arith))
        (Laid-Agree b (padded_end b top) p d (m ∷ ms)
          (λ i lt'. padded_below b top (place p i) (omega arith)) laid) in
    let bound = Laid-length b p d (m ∷ ms) laid in
    make_room_lem (padded_end b top) fuel size p (d + rest) 0 (m ∷ ms) (omega arith) (omega arith)
      (omega arith) short (omega arith) (inl (refl, start)) kept

-- The first round of the loop crosses all of the padding.
cross_padding :
    (b : Memory) (p top : ℕ)
    → top ≤ p
    → p < msgq_buffer_max
    → padded_end b top 0 ≢ 0
    → drop_first (padded_end b top) p ≡ some (0, msgq_buffer_max - p)
unfolding drop_first skip_message
cross_padding b p top le lt start =
    let k = msgq_buffer_max - p - 1 in
    let found : strlen (msgq_buffer_max - p) (padded_end b top) p ≡ some 0 =
      strlen_lem (padded_end b top) 0 (msgq_buffer_max - p) p (omega arith)
        (λ i lt'. absurd (omega arith)) (padded_above b top (p + 0) (omega arith) (omega arith)) in
    let last : place (place p 1) k ≡ 0 = omega arith in
    let sum : 1 + k ≡ msgq_buffer_max - p = omega arith in
    let rest : skip_nulls msgq_buffer_max (padded_end b top) (place p 1) 1
        ≡ some (place (place p 1) k, 1 + k) =
      skip_nulls_lem (padded_end b top) k msgq_buffer_max (place p 1) 1 (omega arith) (omega arith)
        (λ j lt'. padded_above b top (place (place p 1) j) (omega arith) (omega arith))
        (λ e. start (subst (λ x. padded_end b top x ≡ 0) last e)) in
    rw (found) (rest ∙ rw (last, sum) refl)

drop-nil : (i : ℕ) → drop {A = List ℕ} i [] ≡ []
drop-nil zero = refl
drop-nil (suc i) = refl

pub drop_add : (i j : ℕ) (ms ns : List (List ℕ)) → drop i ms ≡ ns → drop j ns ≡ drop (i + j) ms
drop_add zero j ms ns e = ap (drop j) (sym e) ∙ ap (λ k. drop k ms) (omega arith)
drop_add (suc i) j [] ns e = ap (drop j) (sym e) ∙ drop-nil j ∙ sym (drop-nil (suc i + j))
drop_add (suc i) j (m ∷ ms) ns e =
    let next : suc i + j ≡ suc (i + j) = omega arith in
    drop_add i j ms ns e ∙ ap (λ k. drop k (m ∷ ms)) (sym next)

-- A queue around the end, with that end padded_end: the messages there are gone at once.
pub wrapped-Room :
    (b : Memory) (size p d top : ℕ) (ms : List (List ℕ))
    → 1 ≤ size
    → size < msgq_buffer_max
    → p < msgq_buffer_max
    → d < msgq_buffer_max
    → p + d ≡ msgq_buffer_max + top
    → 1 ≤ top
    → padded_end b top 0 ≢ 0
    → b 0 ≢ 0
    → Laid b p d ms
    → (p' d' : ℕ) × (make_room msgq_buffer_max
          (padded_end b top)
          size
          p
          (d + (msgq_buffer_max - top))
        ≡ some (p', d'))
      × Room (padded_end b top) size p (d + (msgq_buffer_max - top)) 0 ms p' d'
wrapped-Room b size p d top ms positive short inside small e lt start start' laid =
    let rest = msgq_buffer_max - top in
    let parts = Split-wrapped b p d ms inside (omega arith) start' laid in
    let same : p + d - msgq_buffer_max ≡ top = omega arith in
    let part = subst (λ x. Laid b 0 x (parts.first ∷ parts.others)) same parts.laid in
    let jump = msgq_buffer_max - p in
    let round : make_room msgq_buffer_max (padded_end b top) size p (d + rest)
        ≡ make_room 2097151 (padded_end b top) size 0 (d + rest - jump) =
      make_room_round (padded_end b top) 2097151 size p (d + rest) 0 jump (omega arith)
        (cross_padding b p top (omega arith) inside start) (omega arith) in
    let (p', d', made, room) =
      straight-Room b 2097151 size 0 top top parts.first parts.others (omega arith) short
        (omega arith) (omega arith) start part in
    let left : d + rest - jump ≡ top + rest = omega arith in
    (
      p',
      d',
      round ∙ ap (λ x. make_room 2097151 (padded_end b top) size 0 x) left ∙ made,
      record {
        dropped = parts.skipped + room.dropped;
        laid =
            subst (Laid (padded_end b top) p' d')
              (drop_add parts.skipped room.dropped ms (parts.first ∷ parts.others) parts.rest)
              room.laid;
        fits = room.fits;
        inside = room.inside;
        ends = room.ends;
      },
    )
