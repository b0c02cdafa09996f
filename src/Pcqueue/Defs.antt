-- ===== src/Pcqueue/Defs.antt =====
-- tools/pcqueue.c without MORE_THAN_ONE_ONE: one thread enqueues and one dequeues. Each call is cut
-- into the accesses to shared memory that the other thread can come between.
use libpulp.Base.{
  ℕ, suc, ◌≡◌, List, [], ◌∷◌, ◌++◌, Option, none, some, leb, if◌then◌else◌, set, get_or,
}

-- How a sem_wait ends, if it ends.
pub data Wait (S : Type 0) : Type 0 where
  acquired : S → Wait S
  interrupted : ℕ → S → Wait S
  blocked : Wait S

-- The semaphores of the C library, by what their manual pages say of the value. An interrupted
-- sem_wait and a sem_post that fails leave the value; both give an errno.
pub record Semaphores (S : Type 0) : Type 0 where
  pub value : S → ℕ
  pub sem_init : ℕ → Option S
  pub sem_wait : S → Wait S
  pub sem_post : S → Option S
  pub post_errno : ℕ
  pub init_lem : (n : ℕ) (s : S) → sem_init n ≡ some s → value s ≡ n
  pub acquired_lem : (s s' : S) → sem_wait s ≡ acquired s' → value s ≡ suc (value s')
  pub interrupted_lem : (s s' : S) (e : ℕ) → sem_wait s ≡ interrupted e s' → value s' ≡ value s
  pub blocked_lem : (s : S) → sem_wait s ≡ blocked → value s ≡ 0
  pub post_lem : (s s' : S) → sem_post s ≡ some s' → value s' ≡ suc (value s)

-- struct producer_consumer
pub record ProducerConsumer (S : Type 0) : Type 0 where
  pub n : ℕ
  pub head : ℕ
  pub tail : ℕ
  pub empty : S
  pub full : S
  pub elem : List ℕ

-- Where a thread is in producer_consumer_enqueue; `enqueued r` is outside, the last call having
-- returned r.
pub data Producer : Type 0 where
  enqueued : ℕ → Producer
  store_elem : ℕ → Producer
  wrap_head : Producer
  post_empty : Producer

-- Where a thread is in producer_consumer_dequeue; the pointer read is its local `ret`.
pub data Consumer : Type 0 where
  dequeued : ℕ → Consumer
  load_elem : Consumer
  wrap_tail : ℕ → Consumer
  post_full : ℕ → Consumer

-- The queue and its two threads, with the history of what was stored and loaded, and of the
-- sem_post calls that failed.
pub record System (S : Type 0) : Type 0 where
  pub queue : ProducerConsumer S
  pub producer : Producer
  pub consumer : Consumer
  pub stored : List ℕ
  pub loaded : List ℕ
  pub lost_empty : ℕ
  pub lost_full : ℕ

module _ {S : Type 0} (sem : Semaphores S) where
  -- producer_consumer_init of a queue whose memory, behind the fields, holds `elem`
  unfoldable pub producer_consumer_init : ℕ → List ℕ → Option (ProducerConsumer S)
  producer_consumer_init n elem = elim (sem.sem_init 0) [
    | none ↦ none
    | some empty ↦ elim (sem.sem_init n) [
      | none ↦ none
      | some full ↦
          some (record { n = n; head = 0; tail = 0; empty = empty; full = full; elem = elem })
    ]
  ]

  -- producer_consumer_new; what malloc gives for the n pointers is the argument
  unfoldable pub producer_consumer_new : ℕ → Option (List ℕ) → Option (ProducerConsumer S)
  producer_consumer_new n none = none
  producer_consumer_new n (some elem) = producer_consumer_init n elem

  unfoldable pub wait_full : ℕ → Wait S → System S → Option (System S)
  wait_full v blocked s = none
  wait_full v (interrupted e f) s =
      some (record s { queue = record s.queue { full = f }; producer = enqueued e })
  wait_full v (acquired f) s =
      some (record s { queue = record s.queue { full = f }; producer = store_elem v })

  unfoldable pub signal_empty : Option S → System S → Option (System S)
  signal_empty none s =
      some (record s { producer = enqueued sem.post_errno; lost_empty = suc s.lost_empty })
  signal_empty (some e) s =
      some (record s { queue = record s.queue { empty = e }; producer = enqueued 0 })

  unfoldable pub enqueue_at : ℕ → Producer → System S → Option (System S)
  enqueue_at v (enqueued r) s = wait_full v (sem.sem_wait s.queue.full) s
  enqueue_at v (store_elem x) s = some (record s {
    queue = record s.queue { elem = set s.queue.elem s.queue.head x; head = suc s.queue.head };
    producer = wrap_head;
    stored = s.stored ++ (x ∷ []);
  })
  enqueue_at v wrap_head s = some (record s {
    queue = record s.queue { head = if leb s.queue.n s.queue.head then 0 else s.queue.head };
    producer = post_empty;
  })
  enqueue_at v post_empty s = signal_empty (sem.sem_post s.queue.empty) s

  -- The next access of producer_consumer_enqueue(queue, v), `none` while sem_wait blocks.
  unfoldable pub enqueue_step : ℕ → System S → Option (System S)
  enqueue_step v s = enqueue_at v s.producer s

  unfoldable pub wait_empty : Wait S → System S → Option (System S)
  wait_empty blocked s = none
  wait_empty (interrupted e k) s =
      some (record s { queue = record s.queue { empty = k }; consumer = dequeued 0 })
  wait_empty (acquired k) s =
      some (record s { queue = record s.queue { empty = k }; consumer = load_elem })

  unfoldable pub signal_full : ℕ → Option S → System S → Option (System S)
  signal_full x none s = some (record s { consumer = dequeued 0; lost_full = suc s.lost_full })
  signal_full x (some f) s =
      some (record s { queue = record s.queue { full = f }; consumer = dequeued x })

  unfoldable pub dequeue_at : Consumer → System S → Option (System S)
  dequeue_at (dequeued r) s = wait_empty (sem.sem_wait s.queue.empty) s
  dequeue_at load_elem s = some (record s {
    queue = record s.queue { tail = suc s.queue.tail };
    consumer = wrap_tail (get_or s.queue.elem s.queue.tail 0);
    loaded = s.loaded ++ (get_or s.queue.elem s.queue.tail 0 ∷ []);
  })
  dequeue_at (wrap_tail x) s = some (record s {
    queue = record s.queue { tail = if leb s.queue.n s.queue.tail then 0 else s.queue.tail };
    consumer = post_full x;
  })
  dequeue_at (post_full x) s = signal_full x (sem.sem_post s.queue.full) s

  -- The next access of producer_consumer_dequeue(queue), which returns NULL, 0, on an error.
  unfoldable pub dequeue_step : System S → Option (System S)
  dequeue_step s = dequeue_at s.consumer s
