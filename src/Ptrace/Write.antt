-- ===== src/Ptrace/Write.antt =====
-- write_bytes_ptrace stores the buffer long by long, and the bytes behind the last whole long by
-- reading and changing the long they stand in.
use libpulp.Base.{
  ℕ, zero, suc, ◌+◌, ◌-◌, ◌*◌, ◌/◌, ◌^◌, ◌≤◌, ◌<◌, ◌≡◌, refl, sym, ap, ◌∙◌, List, [], ◌∷◌, ◌++◌,
  Option, none, some, Bool, true, false, length, take, drop, arith, length-append, length-take,
  length-drop, take_all, take_add, Option-cases, lt→ltb, inl, inr,
}
use libpulp.Base.Memory.{
  load, store, bytes_le, value_le, IsBytes, store_append, store-load, load-IsBytes, take-IsBytes,
  drop-IsBytes, append-IsBytes, bytes_le-value_le, length-load, drop-load, load-store_after,
}
use libpulp.Base.Words.{add_size}
use libpulp.Ptrace.Defs.{Tracee, Responsive, write_remainder, write_longs, write_bytes_ptrace}

long_lem : (l : List ℕ) → IsBytes l → length l ≡ 8 → bytes_le 8 (value_le l) ≡ l
long_lem l h e = ap (λ n. bytes_le n (value_le l)) (sym e) ∙ bytes_le-value_le l h

module _ {S : Type 0} (t : Tracee S) where
  -- `i` bytes of the buffer were stored at `addr`, and nothing else was changed; all of them,
  -- if no failure is reported.
  pub record Wrote (buf : List ℕ) (addr : ℕ) (s : S) (r : Bool × S) : Type 0 where
    pub count : ℕ
    pub count_le : count ≤ length buf
    pub whole : r.0 ≡ false → count ≡ length buf
    pub memory : t.byte r.1 ≡ store (t.byte s) addr (take count buf)

  nothing : (buf : List ℕ) (addr : ℕ) (s : S) → Wrote buf addr s (true, s)
  nothing buf addr s = record {
    count = 0;
    count_le = omega arith;
    whole = λ e. absurd (cc e);
    memory = unfold store in refl;
  }

  -- The long that is poked for the last bytes has them in front, and then what was there.
  remainder_word :
      (buf : List ℕ) (addr : ℕ) (s : S) (w : ℕ)
      → IsBytes buf
      → length buf < 8
      → t.peek addr s ≡ some w
      → store (t.byte s) addr (bytes_le 8 (value_le (buf ++ drop (length buf) (bytes_le 8 w))))
        ≡ store (t.byte s) addr buf
  remainder_word buf addr s w h short e =
      let m = t.byte s in
      let n = length buf in
      let rest = load m (addr + n) (8 - n) in
      let old : bytes_le 8 w ≡ load m addr 8 =
        ap (bytes_le 8) (t.peek_lem addr s w e)
        ∙ long_lem (load m addr 8) (load-IsBytes m addr 8 (t.byte-lt s)) (length-load m addr 8) in
      let tail : drop n (bytes_le 8 w) ≡ rest =
        ap (drop n) old ∙ drop-load m addr n 8 (omega arith) in
      let word : bytes_le 8 (value_le (buf ++ rest)) ≡ buf ++ rest =
        long_lem (buf ++ rest)
          (append-IsBytes buf rest h (load-IsBytes m (addr + n) (8 - n) (t.byte-lt s)))
          (omega (arith, length-append buf rest, length-load m (addr + n) (8 - n))) in
      ap (λ l. store m addr (bytes_le 8 (value_le (buf ++ l)))) tail
      ∙ ap (store m addr) word
      ∙ store_append m addr buf rest
      ∙ ap (store (store m addr buf) (addr + n))
          (sym (load-store_after m (addr + n) (8 - n) addr buf (omega arith)))
      ∙ store-load (store m addr buf) (addr + n) (8 - n)

  -- The outcome of the poke of the last long.
  poked_as :
      (buf : List ℕ) (addr : ℕ) (s : S) (word : ℕ) (o : Option S)
      → t.poke addr word s ≡ o
      → store (t.byte s) addr (bytes_le 8 word) ≡ store (t.byte s) addr buf
      → Wrote buf addr s (elim o [ none ↦ (true, s) | some s' ↦ (false, s') ])
  poked_as buf addr s word none e same = nothing buf addr s
  poked_as buf addr s word (some s') e same = record {
    count = length buf;
    count_le = omega arith;
    whole = λ e. refl;
    memory =
        t.poke_lem addr word s s' e
        ∙ same
        ∙ ap (store (t.byte s) addr) (sym (take_all (length buf) buf (omega arith)));
  }

  -- The outcome of the loop after a whole long was poked.
  later :
      (buf : List ℕ) (addr : ℕ) (s s' : S) (r : Bool × S)
      → 8 ≤ length buf
      → IsBytes buf
      → t.poke addr (value_le (take 8 buf)) s ≡ some s'
      → Wrote (drop 8 buf) (addr + 8) s' r
      → Wrote buf addr s r
  later buf addr s s' r long h pokes ih = record {
    count = 8 + ih.count;
    count_le = omega (arith, length-drop 8 buf, ih.count_le);
    whole = λ e. omega (arith, length-drop 8 buf, ih.whole e);
    memory =
        ih.memory
        ∙ ap (λ m. store m (addr + 8) (take ih.count (drop 8 buf)))
            (t.poke_lem addr (value_le (take 8 buf)) s s' pokes
              ∙ ap (store (t.byte s) addr)
                  (long_lem (take 8 buf) (take-IsBytes 8 buf h) (omega (arith, length-take 8 buf))))
        ∙ ap (λ k. store (store (t.byte s) addr (take 8 buf)) k (take ih.count (drop 8 buf)))
            (omega (arith, length-take 8 buf))
        ∙ sym (store_append (t.byte s) addr (take 8 buf) (take ih.count (drop 8 buf)))
        ∙ ap (store (t.byte s) addr) (sym (take_add 8 ih.count buf));
  }

  write_remainder-Wrote :
      (buf : List ℕ) (addr : ℕ) (s : S)
      → IsBytes buf
      → length buf < 8
      → Wrote buf addr s (write_remainder t buf addr s)
  unfolding write_remainder
  write_remainder-Wrote [] addr s h short = record {
    count = 0;
    count_le = omega arith;
    whole = λ e. refl;
    memory = unfold store in refl;
  }
  write_remainder-Wrote (b ∷ bs) addr s h short = elim (Option-cases (t.peek addr s)) [
    | inl none_read ↦
        rw (none_read, write_remainder, lt→ltb 0 (suc (length bs)) (omega arith))
          (nothing (b ∷ bs) addr s)
    | inr (w, read) ↦
        let word = value_le ((b ∷ bs) ++ drop (suc (length bs)) (bytes_le 8 w)) in
        rw (read, write_remainder, lt→ltb 0 (suc (length bs)) (omega arith))
          (poked_as (b ∷ bs) addr s word (t.poke addr word s) refl
            (remainder_word (b ∷ bs) addr s w h short read))
  ]

  write_longs-Wrote :
      (num_longs : ℕ) (buf : List ℕ) (addr : ℕ) (s : S)
      → IsBytes buf
      → 8 * num_longs ≤ length buf
      → length buf < 8 * num_longs + 8
      → addr + length buf < 2 ^ 64
      → Wrote buf addr s (write_longs t num_longs buf addr s)
  unfolding write_longs
  write_longs-Wrote zero buf addr s h lo hi fits = write_remainder-Wrote buf addr s h (omega arith)
  write_longs-Wrote (suc k) buf addr s h lo hi fits =
      elim (Option-cases (t.poke addr (value_le (take 8 buf)) s)) [
        | inl fails ↦ rw (fails, write_longs) (nothing buf addr s)
        | inr (s', pokes) ↦
            let next : add_size addr 8 ≡ addr + 8 = omega arith in
            let ih =
              write_longs-Wrote k (drop 8 buf) (addr + 8) s' (drop-IsBytes 8 buf h)
                (omega (arith, length-drop 8 buf)) (omega (arith, length-drop 8 buf))
                (omega (arith, length-drop 8 buf)) in
            rw (pokes, write_longs, next)
              (later buf addr s s' (write_longs t k (drop 8 buf) (addr + 8) s') (omega arith) h
                pokes ih)
      ]

  -- On a range of bytes inside the address space, write_bytes_ptrace changes nothing but that
  -- range, which gets a front part of the buffer, and the whole of it if the function reports
  -- success.
  pub write_bytes_ptrace-Wrote :
      (buf : List ℕ) (addr : ℕ) (s : S)
      → IsBytes buf
      → addr + length buf < 2 ^ 64
      → Wrote buf addr s (write_bytes_ptrace t buf addr s)
  unfolding write_bytes_ptrace
  write_bytes_ptrace-Wrote buf addr s h fits =
      write_longs-Wrote (length buf / 8) buf addr s h (omega arith) (omega arith) fits

  -- In a responsive process the write succeeds.
  write_longs_succeeds :
      (num_longs : ℕ) (buf : List ℕ) (addr : ℕ) (s : S)
      → Responsive t
      → (write_longs t num_longs buf addr s).0 ≡ false
  unfolding write_longs write_remainder
  write_longs_succeeds zero [] addr s h = refl
  write_longs_succeeds zero (b ∷ bs) addr s h =
      let p = h.peeks addr s in
      let q = h.pokes addr (value_le ((b ∷ bs) ++ drop (suc (length bs)) (bytes_le 8 p.0))) s in
      rw (p.1, q.1, write_longs, write_remainder, lt→ltb 0 (suc (length bs)) (omega arith))
  write_longs_succeeds (suc k) buf addr s h =
      let p = h.pokes addr (value_le (take 8 buf)) s in
      rw (p.1, write_longs) (write_longs_succeeds k (drop 8 buf) (add_size addr 8) p.0 h)

  pub write_bytes_ptrace_succeeds :
      (buf : List ℕ) (addr : ℕ) (s : S) → Responsive t → (write_bytes_ptrace t buf addr s).0 ≡ false
  unfolding write_bytes_ptrace
  write_bytes_ptrace_succeeds buf addr s h = write_longs_succeeds (length buf / 8) buf addr s h
