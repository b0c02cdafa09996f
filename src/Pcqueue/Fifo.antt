-- ===== src/Pcqueue/Fifo.antt =====
-- What the queue holds, under every interleaving of the two threads.
use mathlib.Core.Option.{some-injective}
use libpulp.Pcqueue.Run.{started, produced, consumed, Reach, begin}
use libpulp.Base.{
  none, some, Option, ℕ, ◌<◌, ◌≡◌, List, ◌++◌, length, arith, refl, subst, sym, ◌∷◌, [], ◌∙◌, ◌≤◌,
}
use libpulp.Pcqueue.Defs.{
  Semaphores, Producer, enqueued, store_elem, wrap_head, post_empty, Consumer, dequeued, load_elem,
  wrap_tail, post_full, System, enqueue_at, dequeue_at, enqueue_step, producer_consumer_new,
  dequeue_step, producer_consumer_init, ProducerConsumer,
}
use libpulp.Pcqueue.Ring.{wrapped, Holds}
use libpulp.Pcqueue.Count.{
  Inv, Next, land, wait_full-Inv, signal_empty-Inv, wait_empty-Inv, signal_full-Inv, loading,
}
use libpulp.Pcqueue.Moves.{store_elem-Inv, wrap_head-Inv, load_elem-Inv, wrap_tail-Inv}

module _ {S : Type 0} (sem : Semaphores S) (n : ℕ) where
  enqueue_at-Inv :
      (v : ℕ) (p : Producer) (s t : System S) (xs : List ℕ)
      → s.producer ≡ p
      → enqueue_at sem v p s ≡ some t
      → Inv sem n s xs
      → Next sem n t
  unfolding enqueue_at
  enqueue_at-Inv v (enqueued r) s t xs p h i =
      wait_full-Inv sem n v r (sem.sem_wait s.queue.full) s t xs p refl h i
  enqueue_at-Inv v (store_elem x) s t xs p h i =
      land sem n _ t h (xs ++ (x ∷ []), store_elem-Inv sem n x s xs p i)
  enqueue_at-Inv v wrap_head s t xs p h i = land sem n _ t h (xs, wrap_head-Inv sem n s xs p i)
  enqueue_at-Inv v post_empty s t xs p h i =
      signal_empty-Inv sem n (sem.sem_post s.queue.empty) s t xs p refl h i

  dequeue_at-Inv :
      (c : Consumer) (s t : System S) (xs : List ℕ)
      → s.consumer ≡ c
      → dequeue_at sem c s ≡ some t
      → Inv sem n s xs
      → Next sem n t
  unfolding dequeue_at
  dequeue_at-Inv (dequeued r) s t xs c h i =
      wait_empty-Inv sem n r (sem.sem_wait s.queue.empty) s t xs c refl h i
  dequeue_at-Inv load_elem s t [] c h i =
      let own : loading s.consumer ≡ 1 = rw c refl in absurd (omega (arith, i.items))
  dequeue_at-Inv load_elem s t (x ∷ xs) c h i =
      let (read, next) = load_elem-Inv sem n s x xs c i in land sem n _ t h (xs, rw read next)
  dequeue_at-Inv (wrap_tail y) s t xs c h i = land sem n _ t h (xs, wrap_tail-Inv sem n y s xs c i)
  dequeue_at-Inv (post_full y) s t xs c h i =
      signal_full-Inv sem n y (sem.sem_post s.queue.full) s t xs c refl h i

  begin-Inv :
      (elem : List ℕ) (q : ProducerConsumer S)
      → 0 < n
      → length elem ≡ n
      → (e f : Option S) → sem.sem_init 0 ≡ e
      → sem.sem_init n ≡ f
      → producer_consumer_new sem n (some elem) ≡ some q
      → Next sem n (begin q)
  unfolding producer_consumer_new producer_consumer_init
  begin-Inv elem q room size none f a b h = absurd (ground arith)
  begin-Inv elem q room size (some e) none a b h = absurd (ground arith)
  begin-Inv elem q room size (some e) (some f) a b h =
      let made : ProducerConsumer S = record {
        n = n;
        head = 0;
        tail = 0;
        empty = e;
        full = f;
        elem = elem;
      } in
      let none_yet = sem.init_lem 0 e a in
      let all_free = sem.init_lem n f b in
      let new : producer_consumer_new sem n (some elem) ≡ some made =
        rw (producer_consumer_new, producer_consumer_init, a, b) refl in
      subst (λ k. Next sem n (begin k)) (some-injective made q (sym new ∙ h))
        (
          [],
          record {
            limit = refl;
            size = size;
            head-lt = omega arith;
            tail-lt = omega arith;
            head_at = ground arith;
            holds = λ i lt. absurd (omega arith);
            history = refl;
            slots = omega arith;
            items = omega arith;
          },
        )

  -- The invariant of the queue, in every state of every interleaving.
  pub Reach-Inv : (s : System S) → 0 < n → Reach sem n s → Next sem n s
  unfolding enqueue_step dequeue_step
  Reach-Inv _ room (started elem q size new) =
      begin-Inv elem q room size (sem.sem_init 0) (sem.sem_init n) refl refl new
  Reach-Inv _ room (produced v s t reach step) =
      let (xs, i) = Reach-Inv s room reach in enqueue_at-Inv v s.producer s t xs refl step i
  Reach-Inv _ room (consumed s t reach step) =
      let (xs, i) = Reach-Inv s room reach in dequeue_at-Inv s.consumer s t xs refl step i

-- For a queue made for n > 0 pointers, in every state that its producer and its consumer reach
-- by any interleaving of their accesses, whatever the semaphore calls return: the values loaded
-- from the ring so far are the first of those stored into it, in the order of the stores, and the
-- others, at most n, are the ones that its slots hold from the tail on.
pub Reach-fifo :
    {S : Type 0} (sem : Semaphores S) (n : ℕ) (s : System S)
    → 0 < n
    → Reach sem n s
    → (xs : List ℕ) × (s.stored ≡ s.loaded ++ xs)
      × (length xs ≤ n)
      × Holds n s.queue.elem (wrapped n s.queue.tail) xs
Reach-fifo sem n s room reach =
    let (xs, i) = Reach-Inv sem n s room reach in (xs, i.history, omega (arith, i.slots), i.holds)
