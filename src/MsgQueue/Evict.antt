-- ===== src/MsgQueue/Evict.antt =====
-- The loop of msgq_strpush that drops the oldest messages.
use libpulp.Base.{
  ℕ, zero, suc, ◌+◌, ◌-◌, ◌≤◌, ◌<◌, ◌≡◌, ◌≢◌, ◌⊎◌, inl, inr, refl, sym, ap, ◌∙◌, subst, List, [],
  ◌∷◌, length, arith, some, drop,
}
use libpulp.Base.Memory.{Memory}
use libpulp.MsgQueue.Defs.{msgq_buffer_max, strlen, skip_nulls, skip_message, drop_first, make_room}
use libpulp.MsgQueue.Laid.{place, First, Laid}

-- strlen finds the terminator.
pub strlen_lem :
    (b : Memory) (n fuel p : ℕ)
    → n < fuel
    → ((i : ℕ) → i < n → b (p + i) ≢ 0)
    → b (p + n) ≡ 0
    → strlen fuel b p ≡ some n
unfolding strlen
strlen_lem b n zero p lt visible null = absurd (omega arith)
strlen_lem b zero (suc fuel) p lt visible null =
    let here : b p ≡ 0 = subst (λ x. b x ≡ 0) (omega arith) null in ground arith
strlen_lem b (suc n) (suc fuel) p lt visible null =
    let here : b p ≢ 0 = λ e. visible 0 (omega arith) (subst (λ x. b x ≡ 0) (omega arith) e) in
    let rest : strlen fuel b (suc p) ≡ some n =
      strlen_lem b n fuel (suc p) (omega arith)
        (λ i lt' e. visible (suc i) (omega arith) (subst (λ x. b x ≡ 0) (omega arith) e))
        (subst (λ x. b x ≡ 0) (omega arith) null) in
    ground arith

-- The loop over null characters stops at the first other one.
pub skip_nulls_lem :
    (b : Memory) (k fuel p travel : ℕ)
    → k < fuel
    → p < msgq_buffer_max
    → ((j : ℕ) → j < k → b (place p j) ≡ 0)
    → b (place p k) ≢ 0
    → skip_nulls fuel b p travel ≡ some (place p k, travel + k)
unfolding skip_nulls
skip_nulls_lem b k zero p travel lt inside nulls end = absurd (omega arith)
skip_nulls_lem b zero (suc fuel) p travel lt inside nulls end =
    let here : place p 0 ≡ p = omega arith in
    let sum : travel + 0 ≡ travel = omega arith in
    let there : b p ≢ 0 = λ e. end (ap b here ∙ e) in rw (here, sum) (ground arith)
skip_nulls_lem b (suc k) (suc fuel) p travel lt inside nulls end =
    let first : b p ≡ 0 = subst (λ x. b x ≡ 0) (omega arith) (nulls 0 (omega arith)) in
    let next : (j : ℕ) → place (place p 1) j ≡ place p (suc j) = λ j. omega arith in
    let sum : suc travel + k ≡ travel + suc k = omega arith in
    let rest : skip_nulls fuel b (place p 1) (suc travel)
        ≡ some (place (place p 1) k, suc travel + k) =
      skip_nulls_lem b k fuel (place p 1) (suc travel) (omega arith) (omega arith)
        (λ j lt'. ap b (next j) ∙ nulls (suc j) (omega arith))
        (λ e. end (sym (ap b (next k)) ∙ e)) in
    let onward : skip_nulls (suc fuel) b p travel ≡ skip_nulls fuel b (place p 1) (suc travel) =
      ground arith in
    onward ∙ rest ∙ rw (next k, sum) refl

-- A round drops the message at `bottom` and the null characters behind it.
pub drop_first_lem :
    (b : Memory) (p k : ℕ) (m : List ℕ)
    → First b p k m
    → length m + suc k ≤ msgq_buffer_max
    → b (place p (length m + suc k)) ≢ 0
    → drop_first b p ≡ some (place p (length m + suc k), length m + suc k)
unfolding drop_first skip_message
drop_first_lem b p k m first le end =
    let n = length m in
    let fits = first.fits in
    let found : strlen (msgq_buffer_max - p) b p ≡ some n =
      strlen_lem b n (msgq_buffer_max - p) p (omega arith) first.visible
        (subst (λ x. b x ≡ 0) (omega arith) (first.nulls 0 (omega arith))) in
    let next : (j : ℕ) → place (place p (n + 1)) j ≡ place p (n + suc j) = λ j. omega arith in
    let sum : n + 1 + k ≡ n + suc k = omega arith in
    let rest : skip_nulls msgq_buffer_max b (place p (n + 1)) (n + 1)
        ≡ some (place (place p (n + 1)) k, n + 1 + k) =
      skip_nulls_lem b k msgq_buffer_max (place p (n + 1)) (n + 1) (omega arith) (omega arith)
        (λ j lt. ap b (next j) ∙ first.nulls (suc j) (omega arith))
        (λ e. end (sym (ap b (next k)) ∙ e)) in
    rw (found, rest, next k, sum) refl

-- What stands where the next message goes: the start of a padded buffer, or the place behind the
-- last message.
abbrev pub End : Memory → ℕ → ℕ → Type 0
End b size top =
    ((top ≡ 0) × (b 0 ≢ 0)) ⊎ ((2 ≤ top) × (top + size < msgq_buffer_max) × (b (top - 2) ≢ 0))

-- The room that the loop makes by dropping the oldest j messages.
pub record Room (b : Memory) (size p d top : ℕ) (ms : List (List ℕ)) (p' d' : ℕ) : Type 0 where
  pub dropped : ℕ
  pub laid : Laid b p' d' (drop dropped ms)
  pub fits : d' + size < msgq_buffer_max
  pub inside : p' < msgq_buffer_max
  pub ends : place p' d' ≡ top

pub make_room_fits :
    (b : Memory) (fuel size p d : ℕ)
    → d + size < msgq_buffer_max
    → make_room (suc fuel) b size p d ≡ some (p, d)
unfolding make_room
make_room_fits b fuel size p d lt = ground arith

pub make_room_round :
    (b : Memory) (fuel size p d p' travel : ℕ)
    → msgq_buffer_max ≤ d + size
    → drop_first b p ≡ some (p', travel)
    → travel ≤ d
    → make_room (suc fuel) b size p d ≡ make_room fuel b size p' (d - travel)
unfolding make_room
make_room_round b fuel size p d p' travel le e lt = ground arith

-- Behind the first message, there is a character that is not null.
next_visible :
    (b : Memory) (size p d top k : ℕ) (m : List ℕ) (ms : List (List ℕ))
    → p < msgq_buffer_max
    → msgq_buffer_max ≤ d + size
    → place p d ≡ top
    → End b size top
    → First b p k m
    → length m + suc k ≤ d
    → Laid b (place p (length m + suc k)) (d - (length m + suc k)) ms
    → b (place p (length m + suc k)) ≢ 0
next_visible b size p d top k m [] inside le ends (inl (zero_top, start)) first fits rest e =
    start (subst (λ x. b x ≡ 0) (omega arith) e)
next_visible b size p d top zero m [] inside le ends (inr (two, room, last)) first fits rest e =
    let here = first.fits in absurd (omega arith)
next_visible b size p d top (suc k) m [] inside le ends (inr (two, room, last)) first fits rest e =
    last (subst (λ x. b x ≡ 0) (omega arith) (first.nulls k (omega arith)))
next_visible b size p d top k m (n ∷ ms) inside le ends end first fits (k', next, _, _) e =
    let long = next.positive in next.visible 0 (omega arith) (subst (λ x. b x ≡ 0) (omega arith) e)

fits_or_not : (d size : ℕ) → (d + size < msgq_buffer_max) ⊎ (msgq_buffer_max ≤ d + size)
fits_or_not d size = ground arith

-- The loop ends with room for the message, and has dropped the oldest messages.
pub make_room_lem :
    (b : Memory) (fuel size p d top : ℕ) (ms : List (List ℕ))
    → length ms < fuel
    → p < msgq_buffer_max
    → d ≤ msgq_buffer_max
    → size < msgq_buffer_max
    → place p d ≡ top
    → End b size top
    → Laid b p d ms
    → (p' d' : ℕ) × (make_room fuel b size p d ≡ some (p', d')) × Room b size p d top ms p' d'
make_room_lem b zero size p d top ms enough inside small short ends end laid = absurd (omega arith)
make_room_lem b (suc fuel) size p d top [] enough inside small short ends end laid = (
  p,
  d,
  make_room_fits b fuel size p d (omega arith),
  record { dropped = 0; laid = laid; fits = omega arith; inside = inside; ends = ends },
)
make_room_lem b (suc fuel) size p d top (m ∷ ms) enough inside small short ends end laid =
    elim (fits_or_not d size) [
      | inl room ↦ (
        p,
        d,
        make_room_fits b fuel size p d room,
        record { dropped = 0; laid = laid; fits = room; inside = inside; ends = ends },
      )
      | inr full ↦
          let (k, first, le, rest) = laid in
          let travel = length m + suc k in
          let round =
            make_room_round b fuel size p d (place p travel) travel full
              (drop_first_lem b p k m first (omega arith)
                (next_visible b size p d top k m ms inside full ends end first le rest))
              le in
          let (p', d', e, room) =
            make_room_lem b fuel size (place p travel) (d - travel) top ms (omega arith)
              (omega arith) (omega arith) short (omega arith) end rest in
          (
            p',
            d',
            round ∙ e,
            record {
              dropped = suc room.dropped;
              laid = room.laid;
              fits = room.fits;
              inside = room.inside;
              ends = room.ends;
            },
          )
    ]
