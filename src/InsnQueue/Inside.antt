-- ===== src/InsnQueue/Inside.antt =====
-- insn_interpret_write as a whole.
use libpulp.Base.{
  ℕ, ◌+◌, ◌-◌, ◌/◌, ◌^◌, ◌<◌, ◌≡◌, ◌⊎◌, inl, inr, refl, sym, ap, ◌∙◌, subst, List, Option, none,
  some, false, length, bit_and, bit_or, get_or, arith, Bool-cases,
}
use libpulp.Base.Memory.{store}
use libpulp.Base.Words.{size_mod, add_size}
use libpulp.Bits.{bit_and_high}
use libpulp.InsnQueue.Pages.{
  Pages, page_size, page_of, prot_write, Written, fault, returns, get_prots, set_prots,
  restore_prots, write_pages, insn_interpret_write,
}
use libpulp.InsnQueue.Protect.{
  nth_page, get_prots_lem, set_prots-Set, set_prots-byte, set_prots-is_writable,
}

module _ {S : Type 0} (t : Pages S) where
  -- What the function leaves: the bytes written and each protection as it was; or an errno, with
  -- the bytes written or not, and nothing else of the memory changed.
  abbrev pub Ends : ℕ → ℕ → List ℕ → S → Written S → Type 0
  Ends size a bs s fault = ⊥
  Ends size a bs s (returns r s') =
      ((r ≡ size) × (t.byte s' ≡ store (t.byte s) a bs) × ((q : ℕ) → t.prot s' q ≡ t.prot s q))
      ⊎ ((r ≡ t.errno s') × ((t.byte s' ≡ t.byte s) ⊎ (t.byte s' ≡ store (t.byte s) a bs)))

  abbrev writable : ℕ → ℕ
  writable p = bit_or p prot_write

  -- Setting the protections that were read undoes the change.
  prots_back :
      (page : ℕ) (prots : List ℕ) (s s1 s2 : S)
      → (set_prots t writable page prots s).0 ≡ false
      → s1 ≡ (set_prots t writable page prots s).1
      → ((q : ℕ) → t.prot s2 q ≡ t.prot s1 q)
      → (set_prots t (λ p. p) page prots s2).0 ≡ false
      → ((i : ℕ) → i < length prots → get_or prots i 0 ≡ t.prot s (nth_page page i))
      → (q : ℕ) → t.prot (set_prots t (λ p. p) page prots s2).1 q ≡ t.prot s q
  prots_back page prots s s1 s2 good e copied back read q =
      elim (set_prots-Set t (λ p. p) page prots s2 q back) [
        | inl (i, lt, at, v) ↦ v ∙ read i lt ∙ sym (ap (t.prot s) at)
        | inr (kept, away) ↦ elim (set_prots-Set t writable page prots s q good) [
          | inl (i, lt, at, v) ↦ absurd (away i lt at)
          | inr (kept1, away1) ↦ kept ∙ copied q ∙ ap (λ k. t.prot k q) e ∙ kept1
        ]
      ]

  restored-Ends :
      (page size a : ℕ) (bs prots : List ℕ) (s s2 : S)
      → (set_prots t writable page prots s).0 ≡ false
      → t.byte s2 ≡ store (t.byte (set_prots t writable page prots s).1) a bs
      → ((q : ℕ) → t.prot s2 q ≡ t.prot (set_prots t writable page prots s).1 q)
      → ((i : ℕ) → i < length prots → get_or prots i 0 ≡ t.prot s (nth_page page i))
      → Ends size a bs s (restore_prots t page prots size (some s2))
  unfolding restore_prots
  restored-Ends page size a bs prots s s2 good bytes copied read =
      let s1 = (set_prots t writable page prots s).1 in
      let s3 = (set_prots t (λ p. p) page prots s2).1 in
      let written : t.byte s3 ≡ store (t.byte s) a bs =
        set_prots-byte t (λ p. p) page prots s2
        ∙ bytes
        ∙ ap (λ m. store m a bs) (set_prots-byte t writable page prots s) in
      elim (Bool-cases (set_prots t (λ p. p) page prots s2).0) [
        | inl bad ↦
            let e : restore_prots t page prots size (some s2) ≡ returns (t.errno s3) s3 =
              rw (restore_prots, bad) refl in
            subst (Ends size a bs s) (sym e) (inr (refl, inr written))
        | inr back ↦
            let e : restore_prots t page prots size (some s2) ≡ returns size s3 =
              rw (restore_prots, back) refl in
            subst (Ends size a bs s) (sym e)
              (inl (refl, written, prots_back page prots s s1 s2 good refl copied back read))
      ]

  write_pages-Ends :
      (count page size a : ℕ) (bs : List ℕ) (o : Option (List ℕ)) (s : S)
      → get_prots t count page s ≡ o
      → page ≡ page_of a
      → count ≡ 1 + (page_of (a + length bs) - page_of a) / page_size
      → Ends size a bs s (write_pages t page size a bs o s)
  unfolding write_pages
  write_pages-Ends count page size a bs none s e start many = inr (refl, inl refl)
  write_pages-Ends count page size a bs (some prots) s e start many =
      let (sized, read) = get_prots_lem t count page s prots e in
      let s1 = (set_prots t writable page prots s).1 in
      elim (Bool-cases (set_prots t writable page prots s).0) [
        | inl bad ↦
            let same : write_pages t page size a bs (some prots) s ≡ returns (t.errno s1) s1 =
              rw (write_pages, bad) refl in
            subst (Ends size a bs s) (sym same)
              (inr (refl, inl (set_prots-byte t writable page prots s)))
        | inr good ↦
            (let (s2, made, bytes, kept) =
                t.memcpy_lem a bs s1
                  (set_prots-is_writable t page a (length bs) prots s good start (sized ∙ many)) in
              let same : write_pages t page size a bs (some prots) s
                  ≡ restore_prots t page prots size (some s2) =
                rw (write_pages, good, made) refl in
              subst (Ends size a bs s) (sym same) (
                restored-Ends page size a bs prots s s2 good bytes kept
                  (λ i lt. read i (subst (λ n. i < n) sized lt))))
      ]

-- For a range that does not wrap around: insn_interpret_write never copies into a page that is not
-- writable. It returns the size of the instruction, with the bytes written and the protection of
-- every page as before; or an errno, with the memory as before but for the bytes, if these.
pub insn_interpret_write-Ends :
    {S : Type 0} (t : Pages S) (size a : ℕ) (bs : List ℕ) (s : S)
    → a + length bs < 2 ^ 64
    → Ends t size a bs s (insn_interpret_write t size a bs s)
unfolding insn_interpret_write
insn_interpret_write-Ends t size a bs s fits =
    let n = length bs in
    let sum : add_size a n ≡ a + n = omega arith in
    let first : bit_and a (size_mod - page_size) ≡ page_of a = bit_and_high 12 52 a (omega arith) in
    let last : bit_and (add_size a n) (size_mod - page_size) ≡ page_of (a + n) =
      ap (λ k. bit_and k (size_mod - page_size)) sum ∙ bit_and_high 12 52 (a + n) fits in
    let count =
      1
      + (bit_and (add_size a n) (size_mod - page_size) - bit_and a (size_mod - page_size))
        / page_size in
    write_pages-Ends t count (bit_and a (size_mod - page_size)) size a bs _ s refl first
      (omega (arith, first, last))
