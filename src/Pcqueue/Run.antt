-- ===== src/Pcqueue/Run.antt =====
-- The interleavings of a producer and a consumer of one queue.
use libpulp.Base.{ℕ, List, [], some, ◌≡◌, length}
use libpulp.Pcqueue.Defs.{
  Semaphores, ProducerConsumer, System, enqueued, dequeued, producer_consumer_new, enqueue_step,
  dequeue_step,
}

-- Both threads before their first call.
abbrev pub begin : {S : Type 0} → ProducerConsumer S → System S
begin q = record {
  queue = q;
  producer = enqueued 0;
  consumer = dequeued 0;
  stored = [];
  loaded = [];
  lost_empty = 0;
  lost_full = 0;
}

-- What a queue made for n pointers is after some accesses by either thread, in any order; the
-- producer may enqueue anything.
pub data Reach {S : Type 0} (sem : Semaphores S) (n : ℕ) : System S → Type 0 where
  started :
      (elem : List ℕ) (q : ProducerConsumer S)
      → length elem ≡ n
      → producer_consumer_new sem n (some elem) ≡ some q
      → Reach sem n (begin q)
  produced :
      (v : ℕ) (s t : System S) → Reach sem n s → enqueue_step sem v s ≡ some t → Reach sem n t
  consumed : (s t : System S) → Reach sem n s → dequeue_step sem s ≡ some t → Reach sem n t
