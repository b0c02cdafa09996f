-- ===== src/Tests/Rings.antt =====
-- A queue for one pointer, with counters for semaphores.
use mathlib.Core.Option.{some-injective}
use libpulp.Pcqueue.Defs.{
  load_elem, enqueued, Wait, acquired, interrupted, blocked, Semaphores, System, ProducerConsumer,
  producer_consumer_new, producer_consumer_init, enqueue_step, dequeue_step, enqueue_at, dequeue_at,
  wait_full, wait_empty, signal_empty,
}
use libpulp.Base.{
  Option-cases, inl, inr, ◌∙◌, subst, ℕ, zero, suc, List, [], ◌∷◌, ◌++◌, Option, none, some, ◌≡◌,
  refl, arith, ◌≤◌, length, sym, ap,
}
use libpulp.Pcqueue.Run.{Reach, started, produced, consumed, begin}
use libpulp.Pcqueue.Ring.{Holds, wrapped}
use libpulp.Pcqueue.Fifo.{Reach-fifo}
use libpulp.Pcqueue.Live.{Reach-live}

wait : ℕ → Wait ℕ
wait zero = blocked
wait (suc k) = acquired k

wait-acquired : (s s' : ℕ) → wait s ≡ acquired s' → s ≡ suc s'
unfolding wait
wait-acquired zero s' e = absurd (cc)
wait-acquired (suc k) s' e = ap suc (ground arith)

wait-blocked : (s : ℕ) → wait s ≡ blocked → s ≡ 0
unfolding wait
wait-blocked zero e = refl
wait-blocked (suc k) e = absurd (cc)

wait-not-interrupted : (s s' x : ℕ) → wait s ≡ interrupted x s' → s' ≡ s
unfolding wait
wait-not-interrupted zero s' x e = absurd (cc)
wait-not-interrupted (suc k) s' x e = absurd (cc)

abbrev counters : Semaphores ℕ
counters = record {
  value = λ s. s;
  sem_init = some;
  sem_wait = wait;
  sem_post = λ s. some (suc s);
  post_errno = 75;
  init_lem = λ n s e. sym (some-injective n s e);
  acquired_lem = wait-acquired;
  interrupted_lem = wait-not-interrupted;
  blocked_lem = wait-blocked;
  post_lem = λ s s' e. sym (some-injective (suc s) s' e);
}

-- Some steps of the two threads: `some v` is one of the producer, with v to enqueue next.
unfoldable play : List (Option ℕ) → System ℕ → Option (System ℕ)
play [] s = some s
play (some v ∷ moves) s = elim (enqueue_step counters v s) [ none ↦ none | some t ↦ play moves t ]
play (none ∷ moves) s = elim (dequeue_step counters s) [ none ↦ none | some t ↦ play moves t ]

play-Reach :
    (n : ℕ) (moves : List (Option ℕ)) (s t : System ℕ)
    → Reach counters n s
    → play moves s ≡ some t
    → Reach counters n t
unfolding play
play-Reach n [] s t r e = subst (Reach counters n) (some-injective s t e) r
play-Reach n (some v ∷ moves) s t r e = elim (Option-cases (enqueue_step counters v s)) [
  | inl stuck ↦ let same : play (some v ∷ moves) s ≡ none = rw (play, stuck) refl in absurd (cc)
  | inr (u, goes) ↦
      let same : play (some v ∷ moves) s ≡ play moves u = rw (play, goes) refl in
      play-Reach n moves u t (produced v s u r goes) (sym same ∙ e)
]
play-Reach n (none ∷ moves) s t r e = elim (Option-cases (dequeue_step counters s)) [
  | inl stuck ↦ let same : play (none ∷ moves) s ≡ none = rw (play, stuck) refl in absurd (cc)
  | inr (u, goes) ↦
      let same : play (none ∷ moves) s ≡ play moves u = rw (play, goes) refl in
      play-Reach n moves u t (consumed s u r goes) (sym same ∙ e)
]

abbrev made : ProducerConsumer ℕ
made = record { n = 1; head = 0; tail = 0; empty = 0; full = 1; elem = 99 ∷ [] }

-- One element enqueued, and the consumer inside its first call.
abbrev half_way : System ℕ
half_way = record {
  queue = record { n = 1; head = 0; tail = 0; empty = 0; full = 0; elem = 7 ∷ [] };
  producer = enqueued 0;
  consumer = load_elem;
  stored = 7 ∷ [];
  loaded = [];
  lost_empty = 0;
  lost_full = 0;
}

half_way-Reach : Reach counters 1 half_way
unfolding play enqueue_step enqueue_at wait_full signal_empty dequeue_step dequeue_at wait_empty
    wait producer_consumer_new producer_consumer_init
half_way-Reach =
    play-Reach 1 (some 7 ∷ some 7 ∷ some 7 ∷ some 7 ∷ none ∷ []) (begin made) half_way
      (started (99 ∷ []) made refl refl) refl

Reach-fifo_example :
    (xs : List ℕ) × (half_way.stored ≡ half_way.loaded ++ xs)
    × (length xs ≤ 1)
    × Holds 1 half_way.queue.elem (wrapped 1 half_way.queue.tail) xs
Reach-fifo_example = Reach-fifo counters 1 half_way (omega arith) half_way-Reach

Reach-live_example : (t : System ℕ) × (dequeue_step counters half_way ≡ some t)
unfolding enqueue_step enqueue_at wait_full wait
Reach-live_example = Reach-live counters 1 8 half_way (omega arith) half_way-Reach refl refl refl
