-- ===== src/Base/Memory.antt =====
-- Byte-addressed memory as a function, and little-endian integers as byte strings.
use mathlib.Core.Path.{ap₂}
use native.Mathlib.Decide.{ℕ_discrete}
use libpulp.Base.{
  fun_ext, take, drop, drop-append, take-append, ◌-◌, ℕ, zero, suc, ◌+◌, ◌*◌, ◌/◌, ◌%◌, ◌^◌, ◌≤◌,
  ◌<◌, ◌≡◌, refl, sym, ap, ◌∙◌, ◌++◌, List, [], ◌∷◌, arith, ◌==◌, if◌then◌else◌, length,
}
use native.Mathlib.Nat.{pow-suc}
use Prim.Native.Nat.add

abbrev pub Memory : Type 0
Memory = ℕ → ℕ

abbrev pub store_byte : Memory → ℕ → ℕ → Memory
store_byte m a v p = if p == a then v else m p

-- memcpy(a, bytes, length)
unfoldable pub store : Memory → ℕ → List ℕ → Memory
store m a [] = m
store m a (b ∷ bs) = store (store_byte m a b) (suc a) bs

-- The n bytes at a.
unfoldable pub load : Memory → ℕ → ℕ → List ℕ
load m a zero = []
load m a (suc n) = m a ∷ load m (suc a) n

pub store_below : (m : Memory) (a p : ℕ) (bs : List ℕ) → p < a → store m a bs p ≡ m p
unfolding store
store_below m a p [] h = refl
store_below m a p (b ∷ bs) h = ground (arith, store_below (store_byte m a b) (suc a) p bs)

pub store_above : (m : Memory) (a p : ℕ) (bs : List ℕ) → a + length bs ≤ p → store m a bs p ≡ m p
unfolding store
store_above m a p [] h = refl
store_above m a p (b ∷ bs) h = ground (arith, store_above (store_byte m a b) (suc a) p bs)

pub length-load : (m : Memory) (a n : ℕ) → length (load m a n) ≡ n
unfolding load
length-load m a zero = refl
length-load m a (suc n) = ap suc (length-load m (suc a) n)

pub load-store_self : (m : Memory) (a : ℕ) (bs : List ℕ) → load (store m a bs) a (length bs) ≡ bs
unfolding load store
load-store_self m a [] = refl
load-store_self m a (b ∷ bs) = ground (
  arith,
  store_below (store_byte m a b) (suc a) a bs,
  load-store_self (store_byte m a b) (suc a) bs,
)

-- Two memories that agree on a range load alike.
pub load_ext :
    (m k : Memory) (a n : ℕ) → ((p : ℕ) → a ≤ p → p < a + n → m p ≡ k p) → load m a n ≡ load k a n
unfolding load
load_ext m k a zero h = refl
load_ext m k a (suc n) h =
    ground (arith, h a, load_ext m k (suc a) n (λ p lo hi. h p (omega arith) (omega arith)))

pub load-store_before :
    (m : Memory) (a n b : ℕ) (bs : List ℕ) → a + n ≤ b → load (store m b bs) a n ≡ load m a n
load-store_before m a n b bs h =
    load_ext (store m b bs) m a n (λ p lo hi. store_below m b p bs (omega arith))

pub load-store_after :
    (m : Memory) (a n b : ℕ) (bs : List ℕ)
    → b + length bs ≤ a
    → load (store m b bs) a n ≡ load m a n
load-store_after m a n b bs h =
    load_ext (store m b bs) m a n (λ p lo hi. store_above m b p bs (omega arith))

pub store_append :
    (m : Memory) (a : ℕ) (xs ys : List ℕ)
    → store m a (xs ++ ys) ≡ store (store m a xs) (a + length xs) ys
unfolding store
store_append m a [] ys = ap (λ k. store m k ys) (omega arith)
store_append m a (x ∷ xs) ys =
    store_append (store_byte m a x) (suc a) xs ys
    ∙ ap (λ k. store (store (store_byte m a x) (suc a) xs) k ys) (omega arith)

pub load_split : (m : Memory) (a i j : ℕ) → load m a (i + j) ≡ load m a i ++ load m (a + i) j
unfolding load
load_split m a zero j = rw (add.zero j) (ap (λ k. load m k j) (omega arith))
load_split m a (suc i) j = rw (add.suc i j) (
    ap (λ l. m a ∷ l)
      (load_split m (suc a) i j ∙ ap (λ k. load m (suc a) i ++ load m k j) (omega arith)))

-- The `w` bytes of an integer, the low one first.
unfoldable pub bytes_le : ℕ → ℕ → List ℕ
bytes_le zero v = []
bytes_le (suc w) v = v % 256 ∷ bytes_le w (v / 256)

unfoldable pub value_le : List ℕ → ℕ
value_le [] = 0
value_le (b ∷ bs) = b + 256 * value_le bs

pub length-bytes_le : (w v : ℕ) → length (bytes_le w v) ≡ w
unfolding bytes_le
length-bytes_le zero v = refl
length-bytes_le (suc w) v = ap suc (length-bytes_le w (v / 256))

pub value_le-bytes_le : (w v : ℕ) → v < 256 ^ w → value_le (bytes_le w v) ≡ v
unfolding bytes_le value_le
value_le-bytes_le zero v h = omega arith
value_le-bytes_le (suc w) v h =
    let p : v / 256 < 256 ^ w = omega (arith, pow-suc 256 w) in
    omega (arith, value_le-bytes_le w (v / 256) p)

pub load-store_width : (m : Memory) (a w v : ℕ) → load (store m a (bytes_le w v)) a w ≡ bytes_le w v
load-store_width m a w v =
    ap (λ n. load (store m a (bytes_le w v)) a n) (sym (length-bytes_le w v))
    ∙ load-store_self m a (bytes_le w v)

-- Every element is a byte.
abbrev pub IsBytes : List ℕ → Type 0
IsBytes [] = Unit
IsBytes (b ∷ bs) = (b < 256) × IsBytes bs

pub bytes_le-value_le : (bs : List ℕ) → IsBytes bs → bytes_le (length bs) (value_le bs) ≡ bs
unfolding bytes_le value_le
bytes_le-value_le [] h = refl
bytes_le-value_le (b ∷ bs) h =
    ap₂ ◌∷◌ (omega arith)
      (ap (λ v. bytes_le (length bs) v) (omega arith) ∙ bytes_le-value_le bs h.1)

-- Writing back what was read changes nothing.
pub store-load : (m : Memory) (a n : ℕ) → store m a (load m a n) ≡ m
unfolding store load
store-load m a zero = refl
store-load m a (suc n) =
    let same : store_byte m a (m a) ≡ m = fun_ext λ p. ground arith in
    ap (λ k. store k (suc a) (load m (suc a) n)) same ∙ store-load m (suc a) n

pub load-IsBytes : (m : Memory) (a n : ℕ) → ((p : ℕ) → m p < 256) → IsBytes (load m a n)
unfolding load
load-IsBytes m a zero h = tt
load-IsBytes m a (suc n) h = (h a, load-IsBytes m (suc a) n h)

pub append-IsBytes : (xs ys : List ℕ) → IsBytes xs → IsBytes ys → IsBytes (xs ++ ys)
append-IsBytes [] ys h k = k
append-IsBytes (x ∷ xs) ys h k = (h.0, append-IsBytes xs ys h.1 k)

pub take-IsBytes : (n : ℕ) (xs : List ℕ) → IsBytes xs → IsBytes (take n xs)
take-IsBytes zero xs h = tt
take-IsBytes (suc n) [] h = tt
take-IsBytes (suc n) (x ∷ xs) h = (h.0, take-IsBytes n xs h.1)

pub drop-IsBytes : (n : ℕ) (xs : List ℕ) → IsBytes xs → IsBytes (drop n xs)
drop-IsBytes zero xs h = h
drop-IsBytes (suc n) [] h = tt
drop-IsBytes (suc n) (x ∷ xs) h = drop-IsBytes n xs h.1

pub drop-load : (m : Memory) (a i n : ℕ) → i ≤ n → drop i (load m a n) ≡ load m (a + i) (n - i)
drop-load m a i n h =
    ap (λ k. drop i (load m a k)) (omega arith)
    ∙ ap (drop i) (load_split m a i (n - i))
    ∙ ap (λ k. drop k (load m a i ++ load m (a + i) (n - i))) (sym (length-load m a i))
    ∙ drop-append (load m a i) (load m (a + i) (n - i))

-- A copy of a range of another memory.
pub store-load_copy :
    (m k : Memory) (a n p : ℕ) → a ≤ p → p < a + n → store m a (load k a n) p ≡ k p
unfolding store load
store-load_copy m k a zero p lo hi = absurd (omega arith)
store-load_copy m k a (suc n) p lo hi = elim (ℕ_discrete a p) [
  | yes e ↦
      store_below (store_byte m a (k a)) (suc a) p (load k (suc a) n) (omega arith) ∙ ground arith
  | no ne ↦ store-load_copy (store_byte m a (k a)) k (suc a) n p (omega arith) (omega arith)
]

pub take-load : (m : Memory) (a i j : ℕ) → take i (load m a (i + j)) ≡ load m a i
take-load m a i j =
    ap (take i) (load_split m a i j)
    ∙ ap (λ n. take n (load m a i ++ load m (a + i) j)) (sym (length-load m a i))
    ∙ take-append (load m a i) (load m (a + i) j)

-- The middle part of what was stored.
pub load_part :
    (m : Memory) (a : ℕ) (xs ys zs : List ℕ)
    → load (store m a (xs ++ (ys ++ zs))) (a + length xs) (length ys) ≡ ys
load_part m a xs ys zs =
    let m1 = store m a xs in
    let b = a + length xs in
    ap (λ k. load k b (length ys)) (store_append m a xs (ys ++ zs) ∙ store_append m1 b ys zs)
    ∙ load-store_before (store m1 b ys) b (length ys) (b + length ys) zs (omega arith)
    ∙ load-store_self m1 b ys

pub load_front :
    (m : Memory) (a : ℕ) (xs ys : List ℕ) → load (store m a (xs ++ ys)) a (length xs) ≡ xs
load_front m a xs ys =
    ap (λ k. load k a (length xs)) (store_append m a xs ys)
    ∙ load-store_before (store m a xs) a (length xs) (a + length xs) ys (omega arith)
    ∙ load-store_self m a xs

pub load_back :
    (m : Memory) (a : ℕ) (xs ys : List ℕ)
    → load (store m a (xs ++ ys)) (a + length xs) (length ys) ≡ ys
load_back m a xs ys =
    ap (λ k. load k (a + length xs) (length ys)) (store_append m a xs ys)
    ∙ load-store_self (store m a xs) (a + length xs) ys

pub bytes_le-IsBytes : (w v : ℕ) → IsBytes (bytes_le w v)
unfolding bytes_le
bytes_le-IsBytes zero v = tt
bytes_le-IsBytes (suc w) v = (omega arith, bytes_le-IsBytes w (v / 256))
