-- ===== src/MsgQueue/Laid.antt =====
-- How messages lie in the circular buffer: each one unbroken, with null characters behind it.
use libpulp.Base.{
  ℕ, suc, ◌+◌, ◌-◌, ◌%◌, ◌≤◌, ◌<◌, ◌≡◌, ◌≢◌, ◌⊎◌, inl, inr, sym, ◌∙◌, subst, List, [], ◌∷◌, ◌++◌,
  length, arith,
}
use libpulp.Base.Memory.{Memory, load, load_ext}
use libpulp.MsgQueue.Defs.{msgq_buffer_max}

-- The place i bytes behind p.
abbrev pub place : ℕ → ℕ → ℕ
place p i = (p + i) % msgq_buffer_max

-- The message m is at p, with k more null characters behind its terminator.
pub record First (b : Memory) (p k : ℕ) (m : List ℕ) : Type 0 where
  pub fits : p + length m < msgq_buffer_max
  pub positive : 1 ≤ length m
  pub bytes : load b p (length m) ≡ m
  pub visible : (i : ℕ) → i < length m → b (p + i) ≢ 0
  pub nulls : (j : ℕ) → j ≤ k → b (place p (length m + j)) ≡ 0

-- The d bytes from p on are the messages, the oldest first.
abbrev pub Laid : Memory → ℕ → ℕ → List (List ℕ) → Type 0
Laid b p d [] = d ≡ 0
Laid b p d (m ∷ ms) =
    (k : ℕ) × First b p k m
    × (length m + suc k ≤ d)
    × Laid b (place p (length m + suc k)) (d - (length m + suc k)) ms

-- Two buffers agree on the d bytes from p on.
abbrev pub Agree : Memory → Memory → ℕ → ℕ → Type 0
Agree b b' p d = (i : ℕ) → i < d → b' (place p i) ≡ b (place p i)

pub First-agree :
    (b b' : Memory) (p k d : ℕ) (m : List ℕ)
    → length m + suc k ≤ d
    → Agree b b' p d
    → First b p k m
    → First b' p k m
First-agree b b' p k d m le agree first =
    let fits = first.fits in
    let at : (i : ℕ) → i < length m → b' (p + i) ≡ b (p + i) = λ i lt.
      let inside : place p i ≡ p + i = omega arith in
      subst (λ a. b' a ≡ b a) inside (agree i (omega arith)) in
    record {
      fits = first.fits;
      positive = first.positive;
      bytes =
          load_ext b' b p (length m) (λ a lo hi.
            let offset : p + (a - p) ≡ a = omega arith in
            subst (λ x. b' x ≡ b x) offset (at (a - p) (omega arith)))
          ∙ first.bytes;
      visible = λ i lt e. first.visible i lt (sym (at i lt) ∙ e);
      nulls = λ j le'. agree (length m + j) (omega arith) ∙ first.nulls j le';
    }

-- Places behind a place.
pub place-place : (p i j : ℕ) → place (place p i) j ≡ place p (i + j)
place-place p i j = omega arith

pub Laid-Agree :
    (b b' : Memory) (p d : ℕ) (ms : List (List ℕ)) → Agree b b' p d → Laid b p d ms → Laid b' p d ms
Laid-Agree b b' p d [] agree laid = laid
Laid-Agree b b' p d (m ∷ ms) agree (k, first, le, rest) =
    let size = length m + suc k in
    (
      k,
      First-agree b b' p k d m le agree first,
      le,
      Laid-Agree b b' (place p size) (d - size) ms
          (λ i lt.
            subst (λ a. b' a ≡ b a) (sym (place-place p size i)) (agree (size + i) (omega arith)))
          rest,
    )

le_or_lt : (j k : ℕ) → (j ≤ k) ⊎ (k < j)
le_or_lt j k = ground arith

-- More null characters behind the messages.
pub Laid-pad :
    (b : Memory) (p d e : ℕ) (m : List ℕ) (ms : List (List ℕ))
    → ((j : ℕ) → j < e → b (place p (d + j)) ≡ 0)
    → Laid b p d (m ∷ ms)
    → Laid b p (d + e) (m ∷ ms)
Laid-pad b p d e m [] zeros (k, first, le, rest) = (
  k + e,
  record {
    fits = first.fits;
    positive = first.positive;
    bytes = first.bytes;
    visible = first.visible;
    nulls = λ j lt. elim (le_or_lt j k) [
      | inl below ↦ first.nulls j below
      | inr above ↦
          subst (λ x. b (place p x) ≡ 0) (omega arith) (zeros (length m + j - d) (omega arith))
    ];
  },
  omega arith,
  omega arith,
)
Laid-pad b p d e m (n ∷ ms) zeros (k, first, le, rest) =
    let size = length m + suc k in
    (
      k,
      first,
      omega arith,
      subst (λ x. Laid b (place p size) x (n ∷ ms)) (omega arith)
          (Laid-pad b (place p size) (d - size) e n ms
            (λ j lt. subst (λ a. b a ≡ 0) (omega arith) (zeros j lt)) rest),
    )

-- One message more at the end.
pub Laid-append :
    (b : Memory) (p d : ℕ) (ms : List (List ℕ)) (m : List ℕ)
    → Laid b p d ms
    → p < msgq_buffer_max
    → First b (place p d) 0 m
    → Laid b p (d + (length m + 1)) (ms ++ (m ∷ []))
Laid-append b p d [] m laid lt first =
    (0, subst (λ a. First b a 0 m) (omega arith) first, omega arith, omega arith)
Laid-append b p d (n ∷ ms) m (k, here, le, rest) lt first =
    let size = length n + suc k in
    (
      k,
      here,
      omega arith,
      subst (λ x. Laid b (place p size) x (ms ++ (m ∷ []))) (omega arith)
          (Laid-append b (place p size) (d - size) ms m rest (omega arith)
            (subst (λ a. First b a 0 m) (omega arith) first)),
    )
