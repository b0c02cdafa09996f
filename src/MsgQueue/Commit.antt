-- ===== src/MsgQueue/Commit.antt =====
-- The copy of a message into the buffer, and what it keeps of the queue.
use libpulp.Base.{
  ℕ, zero, suc, ◌+◌, ◌-◌, ◌≤◌, ◌<◌, ◌≡◌, ◌≢◌, ◌⊎◌, inl, inr, sym, ap, ◌∙◌, subst, List, [], ◌∷◌,
  ◌++◌, length, get_or, arith, take, take_all, length-append,
}
use libpulp.Base.Memory.{
  Memory, store, store_below, store_above, load, load-store_self, store_append, load-store_before,
}
use libpulp.MsgQueue.Defs.{msgq_buffer_max, MsgQueue, commit}
use libpulp.MsgQueue.Laid.{place, First, Laid, Laid-Agree, Laid-append}

-- A text without null characters, which a message can hold.
pub record Text (m : List ℕ) : Type 0 where
  pub positive : 1 ≤ length m
  pub visible : (i : ℕ) → i < length m → get_or m i 0 ≢ 0
  pub short : length m + 1 < msgq_buffer_max

-- The queue holds the messages ms, the oldest first.
pub record Kept (q : MsgQueue) (ms : List (List ℕ)) : Type 0 where
  pub inside : q.bottom < msgq_buffer_max
  pub bounded : q.distance < msgq_buffer_max
  pub ends : place q.bottom q.distance ≡ q.top
  pub laid : Laid q.buffer q.bottom q.distance ms
  pub last :
      ((ms ≡ []) × (q.bottom ≡ 0) × (q.distance ≡ 0))
      ⊎ ((1 ≤ length ms) × (2 ≤ q.top) × (q.buffer (q.top - 2) ≢ 0) × (q.buffer 0 ≢ 0))

get_or-load : (b : Memory) (p n i : ℕ) → i < n → get_or (load b p n) i 0 ≡ b (p + i)
unfolding load
get_or-load b p zero i lt = absurd (omega arith)
get_or-load b p (suc n) zero lt = ap b (omega arith)
get_or-load b p (suc n) (suc i) lt = get_or-load b (suc p) n i (omega arith) ∙ ap b (omega arith)

store_last : (b : Memory) (p : ℕ) → store b p (0 ∷ []) p ≡ 0
unfolding store
store_last b p = ground arith

-- The copy of a message into the buffer.
copied :
    (b : Memory) (top : ℕ) (m : List ℕ)
    → Text m
    → top + (length m + 1) < msgq_buffer_max
    → First (store b top (m ++ (0 ∷ []))) top 0 m
copied b top m text lt =
    let n = length m in
    let parts = store_append b top m (0 ∷ []) in
    let bytes : load (store b top (m ++ (0 ∷ []))) top n ≡ m =
      ap (λ x. load x top n) parts
      ∙ load-store_before (store b top m) top n (top + n) (0 ∷ []) (omega arith)
      ∙ load-store_self b top m in
    record {
      fits = omega arith;
      positive = text.positive;
      bytes = bytes;
      visible = λ i lt' e. text.visible i lt' (
          ap (λ x. get_or x i 0) (sym bytes)
          ∙ get_or-load (store b top (m ++ (0 ∷ []))) top n i lt'
          ∙ e);
      nulls = λ j le.
          let here : place top (n + j) ≡ top + n = omega arith in
          ap (store b top (m ++ (0 ∷ []))) here
          ∙ ap (λ x. x (top + n)) parts
          ∙ store_last (store b top m) (top + n);
    }

-- What msg_strpush copies of the buffer that vsnprintf has filled.
pub copy_bytes :
    (m : List ℕ)
    → length m + 1 < msgq_buffer_max
    → take (length m + 1) (take (msgq_buffer_max - 1) m ++ (0 ∷ [])) ≡ m ++ (0 ∷ [])
copy_bytes m lt =
    let whole : take (msgq_buffer_max - 1) m ≡ m = take_all (msgq_buffer_max - 1) m (omega arith) in
    let size = length-append m (0 ∷ []) in
    ap (λ x. take (length m + 1) (x ++ (0 ∷ []))) whole
    ∙ take_all (length m + 1) (m ++ (0 ∷ [])) (omega arith)

-- The room for the message is apart from the messages that stay.
apart :
    (p d top i size : ℕ)
    → top + size < msgq_buffer_max
    → d + size < msgq_buffer_max
    → p < msgq_buffer_max
    → place p d ≡ top
    → i < d
    → (place p i < top) ⊎ (top + size ≤ place p i)
apart p d top i size fits room inside ends lt = ground arith

first_place : (top : ℕ) → (top ≡ 0) ⊎ (0 < top)
first_place top = ground arith

some_message : (ms : List (List ℕ)) (m : List ℕ) → 1 ≤ length (ms ++ (m ∷ []))
some_message [] m = omega arith
some_message (n ∷ ms) m = omega arith

-- The queue behind the copy.
pub commit-Kept :
    (msg : List ℕ) (w : MsgQueue) (m : List ℕ) (ms : List (List ℕ)) (p d : ℕ)
    → take (length m + 1) msg ≡ m ++ (0 ∷ [])
    → Text m
    → (w.top ≡ 0) ⊎ (w.buffer 0 ≢ 0)
    → w.top + (length m + 1) < msgq_buffer_max
    → d + (length m + 1) < msgq_buffer_max
    → p < msgq_buffer_max
    → place p d ≡ w.top
    → Laid w.buffer p d ms
    → Kept (commit msg (length m + 1) w p d) (ms ++ (m ∷ []))
unfolding commit
commit-Kept msg w m ms p d bytes text start fits room inside ends laid =
    let b = store w.buffer w.top (m ++ (0 ∷ [])) in
    let n = length m in
    let long = text.positive in
    let size = length-append m (0 ∷ []) in
    let first : First b w.top 0 m = copied w.buffer w.top m text fits in
    let away : (i : ℕ) → i < d → b (place p i) ≡ w.buffer (place p i) = λ i lt.
      elim (apart p d w.top i (n + 1) fits room inside ends lt) [
        | inl below ↦ store_below w.buffer w.top (place p i) (m ++ (0 ∷ [])) below
        | inr above ↦ store_above w.buffer w.top (place p i) (m ++ (0 ∷ [])) (omega arith)
      ] in
    let start' : b 0 ≢ 0 = elim (first_place w.top) [
      | inl zero_top ↦ λ e. first.visible 0 (omega arith) (subst (λ x. b x ≡ 0) (omega arith) e)
      | inr above ↦ elim start [
        | inl zero_top ↦ absurd (omega arith)
        | inr visible ↦ λ e. visible (sym (store_below w.buffer w.top 0 (m ++ (0 ∷ [])) above) ∙ e)
      ]
    ] in
    subst
      (λ x.
        Kept
          (record {
            buffer = store w.buffer w.top x;
            top = place w.top (n + 1);
            bottom = p;
            distance = d + (n + 1);
          })
          (ms ++ (m ∷ [])))
      (sym bytes)
      (record {
        inside = inside;
        bounded = room;
        ends = omega arith;
        laid =
            Laid-append b p d ms m (Laid-Agree w.buffer b p d ms away laid) inside
              (subst (λ x. First b x 0 m) (sym ends) first);
        last = inr (
          some_message ms m,
          omega arith,
          λ e. first.visible (n - 1) (omega arith) (subst (λ x. b x ≡ 0) (omega arith) e),
          start',
        );
      })
