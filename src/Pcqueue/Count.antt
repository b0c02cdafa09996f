-- ===== src/Pcqueue/Count.antt =====
-- The counts that the two semaphores keep of a queue, under every outcome of their calls.
use mathlib.Core.Option.{some-injective}
use libpulp.Base.{none, some, Option, ℕ, ◌+◌, ◌<◌, ◌≡◌, List, ◌++◌, length, arith, refl, subst, suc}
use libpulp.Pcqueue.Defs.{
  Wait, acquired, interrupted, blocked, Semaphores, Producer, enqueued, store_elem, wrap_head,
  post_empty, Consumer, dequeued, load_elem, wrap_tail, post_full, System, wait_full, signal_empty,
  signal_full, wait_empty,
}
use libpulp.Pcqueue.Ring.{wrapped, slot, Holds}

-- 1 while the producer owns a slot that it has not filled.
abbrev pub storing : Producer → ℕ
storing (enqueued r) = 0
storing (store_elem x) = 1
storing wrap_head = 0
storing post_empty = 0

-- 1 while the producer has not told of the element that it stored.
abbrev pub announcing : Producer → ℕ
announcing (enqueued r) = 0
announcing (store_elem x) = 0
announcing wrap_head = 1
announcing post_empty = 1

-- 1 while the head may stand behind the last slot.
abbrev pub head_slack : Producer → ℕ
head_slack (enqueued r) = 0
head_slack (store_elem x) = 0
head_slack wrap_head = 1
head_slack post_empty = 0

abbrev pub loading : Consumer → ℕ
loading (dequeued r) = 0
loading load_elem = 1
loading (wrap_tail x) = 0
loading (post_full x) = 0

-- 1 while the consumer has not given back the slot that it emptied.
abbrev pub freeing : Consumer → ℕ
freeing (dequeued r) = 0
freeing load_elem = 0
freeing (wrap_tail x) = 1
freeing (post_full x) = 1

abbrev pub tail_slack : Consumer → ℕ
tail_slack (dequeued r) = 0
tail_slack load_elem = 0
tail_slack (wrap_tail x) = 1
tail_slack (post_full x) = 0

-- The queue of n slots holds `xs`, the oldest first.
pub record Inv {S : Type 0} (sem : Semaphores S) (n : ℕ) (s : System S) (xs : List ℕ) : Type 0 where
  pub limit : s.queue.n ≡ n
  pub size : length s.queue.elem ≡ n
  pub head-lt : s.queue.head < n + head_slack s.producer
  pub tail-lt : s.queue.tail < n + tail_slack s.consumer
  pub head_at : wrapped n s.queue.head ≡ slot n (wrapped n s.queue.tail) (length xs)
  pub holds : Holds n s.queue.elem (wrapped n s.queue.tail) xs
  pub history : s.stored ≡ s.loaded ++ xs
  pub slots :
      sem.value s.queue.full + storing s.producer + length xs + freeing s.consumer + s.lost_full ≡ n
  pub items :
      sem.value s.queue.empty + loading s.consumer + announcing s.producer + s.lost_empty
      ≡ length xs

module _ {S : Type 0} (sem : Semaphores S) (n : ℕ) where
  abbrev pub Next : System S → Type 0
  Next t = (xs : List ℕ) × Inv sem n t xs

  pub land : (u t : System S) → some u ≡ some t → Next u → Next t
  land u t h i = subst Next (some-injective u t h) i

  -- A change of the semaphores and program points alone, the ring kept.
  recount :
      (s : System S) (xs : List ℕ) (f e : S) (p : Producer) (c : Consumer) (k l : ℕ)
      → Inv sem n s xs
      → (head_slack p ≡ head_slack s.producer) × (tail_slack c ≡ tail_slack s.consumer)
      → sem.value f + storing p + freeing c + l
        ≡ sem.value s.queue.full + storing s.producer + freeing s.consumer + s.lost_full
      → sem.value e + loading c + announcing p + k
        ≡ sem.value s.queue.empty + loading s.consumer + announcing s.producer + s.lost_empty
      → Next (record s {
        queue = record s.queue { full = f; empty = e };
        producer = p;
        consumer = c;
        lost_empty = k;
        lost_full = l;
      })
  recount s xs f e p c k l i slack full empty = (
    xs,
    record {
      limit = i.limit;
      size = i.size;
      head-lt = omega (arith, i.head-lt, slack.0);
      tail-lt = omega (arith, i.tail-lt, slack.1);
      head_at = i.head_at;
      holds = i.holds;
      history = i.history;
      slots = omega (arith, i.slots);
      items = omega (arith, i.items);
    },
  )

  pub wait_full-Inv :
      (v r : ℕ) (w : Wait S) (s t : System S) (xs : List ℕ)
      → s.producer ≡ enqueued r
      → sem.sem_wait s.queue.full ≡ w
      → wait_full sem v w s ≡ some t
      → Inv sem n s xs
      → Next t
  unfolding wait_full
  wait_full-Inv v r blocked s t xs p e h i = absurd (cc)
  wait_full-Inv v r (interrupted x f) s t xs p e h i =
      let kept = sem.interrupted_lem s.queue.full f x e in
      land (record s { queue = record s.queue { full = f }; producer = enqueued x }) t h
        (recount s xs f s.queue.empty (enqueued x) s.consumer s.lost_empty s.lost_full i
          (rw p refl, refl) (rw p (omega arith)) (rw p (omega arith)))
  wait_full-Inv v r (acquired f) s t xs p e h i =
      let kept = sem.acquired_lem s.queue.full f e in
      land (record s { queue = record s.queue { full = f }; producer = store_elem v }) t h
        (recount s xs f s.queue.empty (store_elem v) s.consumer s.lost_empty s.lost_full i
          (rw p refl, refl) (rw p (omega arith)) (rw p (omega arith)))

  pub signal_empty-Inv :
      (w : Option S) (s t : System S) (xs : List ℕ)
      → s.producer ≡ post_empty
      → sem.sem_post s.queue.empty ≡ w
      → signal_empty sem w s ≡ some t
      → Inv sem n s xs
      → Next t
  unfolding signal_empty
  signal_empty-Inv none s t xs p e h i =
      let back = enqueued sem.post_errno in
      land (record s { producer = back; lost_empty = suc s.lost_empty }) t h
        (recount s xs s.queue.full s.queue.empty back s.consumer (suc s.lost_empty) s.lost_full i
          (rw p refl, refl) (rw p (omega arith)) (rw p (omega arith)))
  signal_empty-Inv (some k) s t xs p e h i =
      let more = sem.post_lem s.queue.empty k e in
      land (record s { queue = record s.queue { empty = k }; producer = enqueued 0 }) t h
        (recount s xs s.queue.full k (enqueued 0) s.consumer s.lost_empty s.lost_full i
          (rw p refl, refl) (rw p (omega arith)) (rw p (omega arith)))

  pub wait_empty-Inv :
      (r : ℕ) (w : Wait S) (s t : System S) (xs : List ℕ)
      → s.consumer ≡ dequeued r
      → sem.sem_wait s.queue.empty ≡ w
      → wait_empty sem w s ≡ some t
      → Inv sem n s xs
      → Next t
  unfolding wait_empty
  wait_empty-Inv r blocked s t xs p e h i = absurd (cc)
  wait_empty-Inv r (interrupted x k) s t xs p e h i =
      let kept = sem.interrupted_lem s.queue.empty k x e in
      land (record s { queue = record s.queue { empty = k }; consumer = dequeued 0 }) t h
        (recount s xs s.queue.full k s.producer (dequeued 0) s.lost_empty s.lost_full i
          (refl, rw p refl) (rw p (omega arith)) (rw p (omega arith)))
  wait_empty-Inv r (acquired k) s t xs p e h i =
      let kept = sem.acquired_lem s.queue.empty k e in
      land (record s { queue = record s.queue { empty = k }; consumer = load_elem }) t h
        (recount s xs s.queue.full k s.producer load_elem s.lost_empty s.lost_full i
          (refl, rw p refl) (rw p (omega arith)) (rw p (omega arith)))

  pub signal_full-Inv :
      (x : ℕ) (w : Option S) (s t : System S) (xs : List ℕ)
      → s.consumer ≡ post_full x
      → sem.sem_post s.queue.full ≡ w
      → signal_full sem x w s ≡ some t
      → Inv sem n s xs
      → Next t
  unfolding signal_full
  signal_full-Inv x none s t xs p e h i =
      land (record s { consumer = dequeued 0; lost_full = suc s.lost_full }) t h
        (recount s xs s.queue.full s.queue.empty s.producer (dequeued 0) s.lost_empty
          (suc s.lost_full) i (refl, rw p refl) (rw p (omega arith)) (rw p (omega arith)))
  signal_full-Inv x (some f) s t xs p e h i =
      let more = sem.post_lem s.queue.full f e in
      land (record s { queue = record s.queue { full = f }; consumer = dequeued x }) t h
        (recount s xs f s.queue.empty s.producer (dequeued x) s.lost_empty s.lost_full i
          (refl, rw p refl) (rw p (omega arith)) (rw p (omega arith)))
