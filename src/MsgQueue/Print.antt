-- ===== src/MsgQueue/Print.antt =====
-- msgq_print, and the queue over the life of a process.
use libpulp.Base.{
  ℕ, zero, suc, ◌+◌, ◌-◌, ◌≤◌, ◌<◌, ◌≡◌, ◌≢◌, ◌⊎◌, inl, inr, refl, sym, ap, ◌∙◌, subst, List, [],
  ◌∷◌, ◌++◌, length, get_or, arith, some, none, drop, length-append, ◌==◌, Option, if◌then◌else◌,
}
use libpulp.Base.Memory.{Memory, load}
use libpulp.MsgQueue.Defs.{
  msgq_buffer_max, MsgQueue, msgq_push, msgq_print, print_from, empty_queue,
}
use libpulp.MsgQueue.Laid.{place, Laid}
use libpulp.MsgQueue.Commit.{Text, Kept}
use libpulp.MsgQueue.Push.{msgq_push-Kept}
use libpulp.MsgQueue.Wrap.{drop_add}

-- What a terminal shows of characters: no null character.
unfoldable pub shown : List ℕ → List ℕ
shown [] = []
shown (c ∷ cs) = if c == 0 then shown cs else (c ∷ shown cs)

-- The messages one after the other.
abbrev pub joined : List (List ℕ) → List ℕ
joined [] = []
joined (m ∷ ms) = m ++ joined ms

print_step :
    (b : Memory) (p x n : ℕ) → x ≡ suc n → print_from x b p ≡ b p ∷ print_from n b (place p 1)
unfolding print_from
print_step b p x n e = ap (λ k. print_from k b p) e

shown_null : (c : ℕ) (cs : List ℕ) → c ≡ 0 → shown (c ∷ cs) ≡ shown cs
unfolding shown
shown_null c cs e = ground arith

shown_other : (c : ℕ) (cs : List ℕ) → c ≢ 0 → shown (c ∷ cs) ≡ c ∷ shown cs
unfolding shown
shown_other c cs e = ground arith

shown_end : (b : Memory) (p : ℕ) → shown (print_from 0 b p) ≡ []
unfolding shown print_from
shown_end b p = refl

shown_nulls :
    (b : Memory) (p n d : ℕ)
    → p < msgq_buffer_max
    → ((j : ℕ) → j < n → b (place p j) ≡ 0)
    → shown (print_from (n + d) b p) ≡ shown (print_from d b (place p n))
shown_nulls b p zero d lt nulls =
    let here : place p 0 ≡ p = omega arith in
    ap (λ k. shown (print_from k b p)) (omega arith) ∙ ap (λ k. shown (print_from d b k)) (sym here)
shown_nulls b p (suc n) d lt nulls =
    let there : place (place p 1) n ≡ place p (suc n) = omega arith in
    ap shown (print_step b p (suc n + d) (n + d) (omega arith))
    ∙ shown_null (b p) (print_from (n + d) b (place p 1))
        (subst (λ x. b x ≡ 0) (omega arith) (nulls 0 (omega arith)))
    ∙ shown_nulls b (place p 1) n d (omega arith)
        (λ j lt'. subst (λ x. b x ≡ 0) (omega arith) (nulls (suc j) (omega arith)))
    ∙ ap (λ k. shown (print_from d b k)) there

shown_message :
    (b : Memory) (p d n : ℕ)
    → p + n < msgq_buffer_max
    → ((i : ℕ) → i < n → b (p + i) ≢ 0)
    → shown (print_from (n + d) b p) ≡ load b p n ++ shown (print_from d b (place p n))
unfolding load
shown_message b p d zero lt visible =
    let here : place p 0 ≡ p = omega arith in
    ap (λ k. shown (print_from k b p)) (omega arith) ∙ ap (λ k. shown (print_from d b k)) (sym here)
shown_message b p d (suc n) lt visible =
    let next : place p 1 ≡ suc p = omega arith in
    let there : place (suc p) n ≡ place p (suc n) = omega arith in
    ap shown (print_step b p (suc n + d) (n + d) (omega arith))
    ∙ shown_other (b p) (print_from (n + d) b (place p 1))
        (λ e. visible 0 (omega arith) (subst (λ x. b x ≡ 0) (omega arith) e))
    ∙ ap (λ k. b p ∷ shown (print_from (n + d) b k)) next
    ∙ ap (λ cs. b p ∷ cs)
        (shown_message b (suc p) d n (omega arith)
            (λ i lt' e. visible (suc i) (omega arith) (subst (λ x. b x ≡ 0) (omega arith) e))
          ∙ ap (λ k. load b (suc p) n ++ shown (print_from d b k)) there)

Laid-shown :
    (b : Memory) (p d : ℕ) (ms : List (List ℕ))
    → p < msgq_buffer_max
    → Laid b p d ms
    → shown (print_from d b p) ≡ joined ms
Laid-shown b p d [] lt laid = ap (λ k. shown (print_from k b p)) laid ∙ shown_end b p
Laid-shown b p d (m ∷ ms) lt (k, first, le, rest) =
    let n = length m in
    let left = d - (n + suc k) in
    let there : place (place p n) (suc k) ≡ place p (n + suc k) = omega arith in
    let whole : d ≡ n + (suc k + left) = omega arith in
    ap (λ x. shown (print_from x b p)) whole
    ∙ shown_message b p (suc k + left) n first.fits first.visible
    ∙ ap (λ cs. cs ++ shown (print_from (suc k + left) b (place p n))) first.bytes
    ∙ ap (λ cs. m ++ cs)
        (shown_nulls b (place p n) (suc k) left (omega arith)
            (λ j lt'. subst (λ x. b x ≡ 0) (omega arith) (first.nulls j (omega arith)))
          ∙ ap (λ x. shown (print_from left b x)) there
          ∙ Laid-shown b (place p (n + suc k)) left ms (omega arith) rest)

-- msgq_push for each of the texts, the first one first.
unfoldable pub push_all : List (List ℕ) → MsgQueue → Option MsgQueue
push_all [] q = some q
push_all (m ∷ ms) q = elim (msgq_push m q) [ none ↦ none | some q' ↦ push_all ms q' ]

-- Every text can be a message.
abbrev pub Texts : List (List ℕ) → Type 0
Texts ms = (i : ℕ) → i < length ms → Text (get_or ms i [])

drop_front :
    (j : ℕ) (xs ys : List (List ℕ))
    → (k : ℕ) × (drop j xs ++ ys ≡ drop k (xs ++ ys)) × (k ≤ length xs)
drop_front zero xs ys = (0, refl, omega arith)
drop_front (suc j) [] ys = (0, refl, omega arith)
drop_front (suc j) (x ∷ xs) ys = let (k, e, le) = drop_front j xs ys in (suc k, e, omega arith)

append_one :
    (xs : List (List ℕ)) (m : List ℕ) (ys : List (List ℕ)) → (xs ++ (m ∷ [])) ++ ys ≡ xs ++ (m ∷ ys)
append_one [] m ys = refl
append_one (x ∷ xs) m ys = ap (λ k. x ∷ k) (append_one xs m ys)

-- The queue behind more messages: the oldest j have gone, but the last one has not.
abbrev pub Recent : Option MsgQueue → List (List ℕ) → Type 0
Recent o ms =
    (q : MsgQueue) × (j : ℕ) × (o ≡ some q) × Kept q (drop j ms) × ((j ≡ 0) ⊎ (j < length ms))

push_all_step :
    (m : List ℕ) (ms : List (List ℕ)) (q q' : MsgQueue)
    → msgq_push m q ≡ some q'
    → push_all (m ∷ ms) q ≡ push_all ms q'
unfolding push_all
push_all_step m ms q q' e =
    ap (λ o. elim o as (λ _. Option MsgQueue) [ none ↦ none | some r ↦ push_all ms r ]) e

append_nil : (xs : List (List ℕ)) → xs ++ [] ≡ xs
append_nil [] = refl
append_nil (x ∷ xs) = ap (λ k. x ∷ k) (append_nil xs)

push_all-Recent :
    (q : MsgQueue) (i : ℕ) (old ms : List (List ℕ))
    → Kept q (drop i old)
    → (i ≡ 0) ⊎ (i < length old)
    → Texts ms
    → Recent (push_all ms q) (old ++ ms)
unfolding push_all
push_all-Recent q i old [] kept recent texts =
    let whole : old ≡ old ++ [] = sym (append_nil old) in
    (
      q,
      i,
      refl,
      subst (λ x. Kept q (drop i x)) whole kept,
      subst (λ x. (i ≡ 0) ⊎ (i < length x)) whole recent,
    )
push_all-Recent q i old (m ∷ ms) kept recent texts =
    let (q', j, e, kept') = msgq_push-Kept q (drop i old) m kept (texts 0 (omega arith)) in
    let (k, same, le) = drop_front (i + j) old (m ∷ []) in
    let held = ap (λ x. x ++ (m ∷ [])) (drop_add i j old (drop i old) refl) ∙ same in
    let size = length-append old (m ∷ []) in
    let behind =
      push_all-Recent q' k (old ++ (m ∷ [])) ms (subst (Kept q') held kept') (inr (omega arith))
        (λ n lt. texts (suc n) (omega arith)) in
    subst (λ x. Recent x (old ++ (m ∷ ms))) (sym (push_all_step m ms q q' e))
      (subst (Recent (push_all ms q')) (append_one old m ms) behind)

empty_queue-Kept : Kept empty_queue []
empty_queue-Kept = record {
  inside = omega arith;
  bounded = omega arith;
  ends = omega arith;
  laid = refl;
  last = inl (refl, refl, refl);
}

-- A process that starts with an empty queue and posts texts, each without null characters, not
-- empty, and at least two characters shorter than the buffer: every msgq_push returns, and in the
-- end msgq_print shows the texts in their order, the oldest ones left out, but the last one is
-- never left out.
pub push_all-shown :
    (ms : List (List ℕ))
    → Texts ms
    → (q : MsgQueue) × (j : ℕ) × (push_all ms empty_queue ≡ some q)
      × (shown (msgq_print q) ≡ joined (drop j ms))
      × ((j ≡ 0) ⊎ (j < length ms))
unfolding msgq_print
push_all-shown ms texts =
    let (q, j, e, kept, recent) =
      push_all-Recent empty_queue 0 [] ms empty_queue-Kept (inl refl) texts in
    (q, j, e, Laid-shown q.buffer q.bottom q.distance (drop j ms) kept.inside kept.laid, recent)
