-- ===== src/Pcqueue/Live.antt =====
-- The two threads of a queue do not wait for each other.
use libpulp.Base.{none, some, Option, ℕ, ◌<◌, ◌≡◌, arith, refl, inl, inr, Option-cases, ◌≢◌}
use libpulp.Pcqueue.Defs.{
  Wait, acquired, interrupted, blocked, Semaphores, Producer, enqueued, store_elem, wrap_head,
  post_empty, Consumer, dequeued, load_elem, wrap_tail, post_full, System, wait_full, enqueue_at,
  signal_empty, signal_full, wait_empty, dequeue_at, enqueue_step, dequeue_step,
}
use libpulp.Pcqueue.Run.{Reach}
use libpulp.Pcqueue.Count.{storing, announcing, loading, freeing}
use libpulp.Pcqueue.Fifo.{Reach-Inv}

module _ {S : Type 0} (sem : Semaphores S) where
  wait_full_blocks : (v : ℕ) (w : Wait S) (s : System S) → wait_full sem v w s ≡ none → w ≡ blocked
  unfolding wait_full
  wait_full_blocks v blocked s h = refl
  wait_full_blocks v (interrupted e f) s h = ground arith
  wait_full_blocks v (acquired f) s h = ground arith

  signal_empty_goes : (w : Option S) (s : System S) → signal_empty sem w s ≢ none
  unfolding signal_empty
  signal_empty_goes none s h = ground arith
  signal_empty_goes (some e) s h = ground arith

  enqueue_blocks :
      (v : ℕ) (p : Producer) (s : System S)
      → s.producer ≡ p
      → enqueue_at sem v p s ≡ none
      → (sem.value s.queue.full ≡ 0) × (storing s.producer ≡ 0) × (announcing s.producer ≡ 0)
  unfolding enqueue_at
  enqueue_blocks v (enqueued r) s p h = (
    sem.blocked_lem s.queue.full (wait_full_blocks v (sem.sem_wait s.queue.full) s h),
    rw p refl,
    rw p refl,
  )
  enqueue_blocks v (store_elem x) s p h = ground arith
  enqueue_blocks v wrap_head s p h = ground arith
  enqueue_blocks v post_empty s p h = absurd (signal_empty_goes (sem.sem_post s.queue.empty) s h)

  wait_empty_blocks : (w : Wait S) (s : System S) → wait_empty sem w s ≡ none → w ≡ blocked
  unfolding wait_empty
  wait_empty_blocks blocked s h = refl
  wait_empty_blocks (interrupted e f) s h = ground arith
  wait_empty_blocks (acquired f) s h = ground arith

  signal_full_goes : (x : ℕ) (w : Option S) (s : System S) → signal_full sem x w s ≢ none
  unfolding signal_full
  signal_full_goes x none s h = ground arith
  signal_full_goes x (some e) s h = ground arith

  dequeue_blocks :
      (c : Consumer) (s : System S)
      → s.consumer ≡ c
      → dequeue_at sem c s ≡ none
      → (sem.value s.queue.empty ≡ 0) × (loading s.consumer ≡ 0) × (freeing s.consumer ≡ 0)
  unfolding dequeue_at
  dequeue_blocks (dequeued r) s c h = (
    sem.blocked_lem s.queue.empty (wait_empty_blocks (sem.sem_wait s.queue.empty) s h),
    rw c refl,
    rw c refl,
  )
  dequeue_blocks load_elem s c h = ground arith
  dequeue_blocks (wrap_tail x) s c h = ground arith
  dequeue_blocks (post_full x) s c h = absurd (signal_full_goes x (sem.sem_post s.queue.full) s h)

-- For a queue made for n > 0 pointers, in every state that its producer and its consumer reach and
-- in which no sem_post has failed so far: if the producer cannot go on, the consumer can.
pub Reach-live :
    {S : Type 0} (sem : Semaphores S) (n v : ℕ) (s : System S)
    → 0 < n
    → Reach sem n s
    → s.lost_empty ≡ 0
    → s.lost_full ≡ 0
    → enqueue_step sem v s ≡ none
    → (t : System S) × (dequeue_step sem s ≡ some t)
unfolding enqueue_step dequeue_step
Reach-live sem n v s room reach kept_empty kept_full stuck =
    let (xs, i) = Reach-Inv sem n s room reach in
    let (no_slot, idle, quiet) = enqueue_blocks sem v s.producer s refl stuck in
    elim (Option-cases (dequeue_step sem s)) [
      | inl none_left ↦
          let (no_item, away, kept) = dequeue_blocks sem s.consumer s refl none_left in
          absurd (omega (arith, i.slots, i.items))
      | inr next ↦ next
    ]
