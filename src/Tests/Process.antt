-- ===== src/Tests/Process.antt =====
-- A process whose memory is a function, and whose every ptrace call is served whole.
use mathlib.Core.Path.{◌≡◌}
use libpulp.Base.{
  inl, inr, Bool-cases, ℕ, suc, ◌%◌, ◌<◌, List, [], ◌∷◌, Bool, true, ◌&&◌, ltb, refl, ap, ◌∙◌,
  fun_ext, arith, Option, some, if◌then◌else◌, length, ◌≤◌, none, take, sym, take_all,
}
use libpulp.Base.Memory.{
  Memory, store, store_byte, IsBytes, value_le, load, bytes_le, length-load, bytes_le-IsBytes,
}
use libpulp.Ptrace.Defs.{Responsive, Tracee}

abbrev all_bytes : List ℕ → Bool
all_bytes [] = true
all_bytes (b ∷ bs) = ltb b 256 && all_bytes bs

-- What is seen of the memory: a byte at each address.
abbrev pub seen : Memory → Memory
seen m a = m a % 256

seen-store_byte :
    (m : Memory) (a b : ℕ) → b < 256 → seen (store_byte m a b) ≡ store_byte (seen m) a b
seen-store_byte m a b h = fun_ext (λ p. ground arith)

pub seen-store :
    (m : Memory) (a : ℕ) (bs : List ℕ) → IsBytes bs → seen (store m a bs) ≡ store (seen m) a bs
unfolding store
seen-store m a [] h = refl
seen-store m a (b ∷ bs) h =
    seen-store (store_byte m a b) (suc a) bs h.1
    ∙ ap (λ k. store k (suc a) bs) (seen-store_byte m a b h.0)

all_bytes→IsBytes : (bs : List ℕ) → all_bytes bs ≡ true → IsBytes bs
all_bytes→IsBytes [] h = tt
all_bytes→IsBytes (b ∷ bs) h = (ground arith, all_bytes→IsBytes bs (ground arith))

IsBytes→all_bytes : (bs : List ℕ) → IsBytes bs → all_bytes bs ≡ true
IsBytes→all_bytes [] h = refl
IsBytes→all_bytes (b ∷ bs) h = let byte = h.0 in ground (arith, IsBytes→all_bytes bs h.1)

-- A value is not lost in `some`.
pub some_inj {ℓ} : {A : Type ℓ} (x y : A) → some x ≡ some y → x ≡ y
some_inj {A = A} x y h = ap (λ o. elim o as (λ k. A) [ none ↦ x | some k ↦ k ]) h

unfoldable pub write_vector : List ℕ → ℕ → Memory → Option (ℕ × Memory)
write_vector bs a m = if all_bytes bs then some (length bs, store m a bs) else none

write_vector_parts :
    (bs : List ℕ) (a r : ℕ) (m m' : Memory)
    → write_vector bs a m ≡ some (r, m')
    → (all_bytes bs ≡ true) × (length bs ≡ r) × (store m a bs ≡ m')
unfolding write_vector
write_vector_parts bs a r m m' h = elim (Bool-cases (all_bytes bs)) [
  | inl bytes ↦
      let e : write_vector bs a m ≡ some (length bs, store m a bs) =
        rw (write_vector, bytes) refl in
      let pair = some_inj {A = ℕ × Memory} (length bs, store m a bs) (r, m') (sym e ∙ h) in
      (bytes, ap (λ x. x.0) pair, ap (λ x. x.1) pair)
  | inr bad ↦ ground arith
]

pub write_vector_lem :
    (bs : List ℕ) (a r : ℕ) (m m' : Memory)
    → write_vector bs a m ≡ some (r, m')
    → (r ≤ length bs) × (seen m' ≡ store (seen m) a (take r bs))
write_vector_lem bs a r m m' h =
    let (bytes, whole, e) = write_vector_parts bs a r m m' h in
    (
      omega arith,
      ap seen (sym e)
          ∙ seen-store m a bs (all_bytes→IsBytes bs bytes)
          ∙ ap (store (seen m) a)
              (sym (ap (λ k. take k bs) (sym whole) ∙ take_all (length bs) bs (omega arith))),
    )

pub readv_law :
    (len a : ℕ) (m m' : Memory) (bs : List ℕ)
    → ◌≡◌ {A = Option (List ℕ × Memory)} (some (load (seen m) a len, m)) (some (bs, m'))
    → (bs ≡ load (seen m) a (length bs)) × (length bs ≤ len) × (seen m' ≡ seen m)
readv_law len a m m' bs h =
    let pair = some_inj {A = List ℕ × Memory} (load (seen m) a len, m) (bs, m') h in
    let got = sym (ap (λ x. x.0) pair) in
    let long : length bs ≡ len = ap length got ∙ length-load (seen m) a len in
    (got ∙ ap (load (seen m) a) (sym long), omega arith, ap (λ x. seen x.1) (sym pair))

abbrev pub process : Tracee Memory
process = record {
  byte = seen;
  peek = λ a m. some (value_le (load (seen m) a 8));
  poke = λ a w m. some (store m a (bytes_le 8 w));
  readv = λ len a m. some (load (seen m) a len, m);
  writev = write_vector;
  byte-lt = λ m a. omega arith;
  peek_lem = λ a m w h. some_inj _ _ (sym h);
  poke_lem = λ a w m m' h.
      ap seen (sym (some_inj _ _ h)) ∙ seen-store m a (bytes_le 8 w) (bytes_le-IsBytes 8 w);
  readv_lem = λ len a m m' bs h. readv_law len a m m' bs h;
  writev_lem = write_vector_lem;
}

pub process-Responsive : Responsive process
unfolding write_vector
process-Responsive = record {
  peeks = λ a m. (value_le (load (seen m) a 8), refl);
  pokes = λ a w m. (store m a (bytes_le 8 w), refl);
  reads = λ len a m. (m, (load (seen m) a len, refl, length-load (seen m) a len));
  writes = λ bs a m h. (store m a bs, rw (write_vector, IsBytes→all_bytes bs h) refl);
}
