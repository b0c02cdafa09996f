-- ===== src/Pcqueue/Moves.antt =====
-- The accesses to the ring of slots keep the invariant of the queue.
use mathlib.Core.List.{append_assoc}
use libpulp.Base.{
  ℕ, ◌<◌, ◌≡◌, List, ◌++◌, length, arith, refl, subst, suc, set, sym, ◌∷◌, [], get_or, length-set,
  length-append, ◌∙◌, ap,
}
use libpulp.Pcqueue.Defs.{
  Semaphores, store_elem, wrap_head, post_empty, load_elem, wrap_tail, post_full, System,
}
use libpulp.Pcqueue.Ring.{wrapped, slot, Holds, Holds-tail, Holds-set}
use libpulp.Pcqueue.Count.{Inv, head_slack, tail_slack, storing, announcing, loading, freeing}

module _ {S : Type 0} (sem : Semaphores S) (n : ℕ) where
  pub store_elem-Inv :
      (x : ℕ) (s : System S) (xs : List ℕ)
      → s.producer ≡ store_elem x
      → Inv sem n s xs
      → Inv sem n
          (record s {
            queue = record s.queue {
              elem = set s.queue.elem s.queue.head x;
              head = suc s.queue.head;
            };
            producer = wrap_head;
            stored = s.stored ++ (x ∷ []);
          })
          (xs ++ (x ∷ []))
  store_elem-Inv x s xs p i =
      let q = s.queue in
      let own : storing s.producer ≡ 1 = rw p refl in
      let quiet : announcing s.producer ≡ 0 = rw p refl in
      let tight : head_slack s.producer ≡ 0 = rw p refl in
      let room : length xs < n = omega (arith, i.slots) in
      let lo : q.head < n = omega (arith, i.head-lt) in
      let tail : wrapped n q.tail < n = ground arith in
      let at : q.head ≡ slot n (wrapped n q.tail) (length xs) = ground (arith, i.head_at) in
      record {
        limit = i.limit;
        size = omega (arith, i.size, length-set q.elem q.head x);
        head-lt = omega arith;
        tail-lt = i.tail-lt;
        head_at = ground (arith, length-append xs (x ∷ []));
        holds = Holds-set n (wrapped n q.tail) q.head x q.elem xs i.size tail room at i.holds;
        history = ap (λ k. k ++ (x ∷ [])) i.history ∙ append_assoc s.loaded xs (x ∷ []);
        slots = omega (arith, i.slots, length-append xs (x ∷ []));
        items = omega (arith, i.items, length-append xs (x ∷ []));
      }

  pub wrap_head-Inv :
      (s : System S) (xs : List ℕ)
      → s.producer ≡ wrap_head
      → Inv sem n s xs
      → Inv sem n
          (record s {
            queue = record s.queue { head = wrapped s.queue.n s.queue.head };
            producer = post_empty;
          })
          xs
  wrap_head-Inv s xs p i =
      let own : storing s.producer ≡ 0 = rw p refl in
      let told : announcing s.producer ≡ 1 = rw p refl in
      let room : 0 < n = omega (arith, i.slots, i.items) in
      record {
        limit = i.limit;
        size = i.size;
        head-lt = ground (arith, i.limit);
        tail-lt = i.tail-lt;
        head_at = ground (arith, i.limit, i.head_at);
        holds = i.holds;
        history = i.history;
        slots = omega (arith, i.slots);
        items = omega (arith, i.items);
      }

  pub load_elem-Inv :
      (s : System S) (x : ℕ) (xs : List ℕ)
      → s.consumer ≡ load_elem
      → Inv sem n s (x ∷ xs)
      → (get_or s.queue.elem s.queue.tail 0 ≡ x)
        × Inv sem n
            (record s {
              queue = record s.queue { tail = suc s.queue.tail };
              consumer = wrap_tail x;
              loaded = s.loaded ++ (x ∷ []);
            })
            xs
  load_elem-Inv s x xs c i =
      let q = s.queue in
      let own : loading s.consumer ≡ 1 = rw c refl in
      let kept : freeing s.consumer ≡ 0 = rw c refl in
      let tight : tail_slack s.consumer ≡ 0 = rw c refl in
      let lo : q.tail < n = omega (arith, i.tail-lt) in
      let here : wrapped n q.tail ≡ q.tail = ground arith in
      let room : length xs < n = omega (arith, i.slots) in
      let rest =
        Holds-tail n q.tail x q.elem xs lo room
          (subst (λ k. Holds n q.elem k (x ∷ xs)) here i.holds) in
      (
        rest.0,
        record {
          limit = i.limit;
          size = i.size;
          head-lt = i.head-lt;
          tail-lt = omega arith;
          head_at = ground (arith, i.head_at);
          holds = rest.1;
          history = i.history ∙ sym (append_assoc s.loaded (x ∷ []) xs);
          slots = omega (arith, i.slots);
          items = omega (arith, i.items);
        },
      )

  pub wrap_tail-Inv :
      (y : ℕ) (s : System S) (xs : List ℕ)
      → s.consumer ≡ wrap_tail y
      → Inv sem n s xs
      → Inv sem n
          (record s {
            queue = record s.queue { tail = wrapped s.queue.n s.queue.tail };
            consumer = post_full y;
          })
          xs
  wrap_tail-Inv y s xs c i =
      let own : loading s.consumer ≡ 0 = rw c refl in
      let told : freeing s.consumer ≡ 1 = rw c refl in
      let room : 0 < n = omega (arith, i.slots) in
      let same : wrapped s.queue.n s.queue.tail ≡ wrapped n s.queue.tail =
        ground (arith, i.limit) in
      let again : wrapped n (wrapped s.queue.n s.queue.tail) ≡ wrapped n s.queue.tail =
        ground (arith, i.limit) in
      record {
        limit = i.limit;
        size = i.size;
        head-lt = i.head-lt;
        tail-lt = ground (arith, i.limit);
        head_at = ground (arith, i.limit, i.head_at);
        holds = subst (λ k. Holds n s.queue.elem k xs) (sym again) i.holds;
        history = i.history;
        slots = omega (arith, i.slots);
        items = omega (arith, i.items);
      }
