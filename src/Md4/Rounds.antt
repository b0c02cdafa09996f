-- ===== src/Md4/Rounds.antt =====
-- The lines of tools/md4.c are the operations of the rounds of RFC 1320.
use libpulp.Base.{ℕ, zero, suc, ◌+◌, ◌%◌, ◌^◌, ◌≡◌, refl, sym, ap, ◌∙◌, List, [], ◌∷◌, arith}
use libpulp.Md4.Defs.{
  Digest, Register, reg_a, reg_b, reg_c, reg_d, following, get, put, operation, run_lines, lines_1,
  lines_2, lines_3, select, majority, parity, block, initial, final_additions,
}
use libpulp.Md4.Rfc.{
  rotate_left, step, steps, aux_f, aux_g, aux_h, word_1, word_2, word_3, shifts, root_2, root_3,
  compress, initial_registers,
}
use libpulp.Base.Memory.{value_le}

-- The registers as the line that begins at `r` names them.
abbrev view : Register → Digest → Digest
view r s = record {
  a = get r s;
  b = get (following r) s;
  c = get (following (following r)) s;
  d = get (following (following (following r))) s;
}

unfoldable previous : Register → Register
previous reg_a = reg_d
previous reg_b = reg_a
previous reg_c = reg_b
previous reg_d = reg_c

operation-step :
    (f : ℕ → ℕ → ℕ → ℕ) (t : ℕ) (xs : List ℕ) (r : Register) (i shift : ℕ) (s : Digest)
    → view (previous r) (operation rotate_left f t xs r i shift s) ≡ step f t xs i shift (view r s)
unfolding previous operation step following get put
operation-step f t xs reg_a i shift s = refl
operation-step f t xs reg_b i shift s = refl
operation-step f t xs reg_c i shift s = refl
operation-step f t xs reg_d i shift s = refl

-- The lines of a round, from the i-th on.
unfoldable table : (ℕ → ℕ) → (ℕ → ℕ) → ℕ → Register → ℕ → List (Register × ℕ × ℕ)
table word shift zero r i = []
table word shift (suc n) r i = (r, word i, shift i) ∷ table word shift n (previous r) (suc i)

unfoldable back : ℕ → Register → Register
back zero r = r
back (suc n) r = back n (previous r)

run_lines-steps :
    (f : ℕ → ℕ → ℕ → ℕ) (t : ℕ) (xs : List ℕ) (word shift : ℕ → ℕ) (n i : ℕ) (r : Register)
    (s : Digest)
    → view (back n r) (run_lines rotate_left f t xs (table word shift n r i) s)
      ≡ steps f t xs word shift n i (view r s)
unfolding run_lines steps table back
run_lines-steps f t xs word shift zero i r s = refl
run_lines-steps f t xs word shift (suc n) i r s =
    run_lines-steps f t xs word shift n (suc i) (previous r)
      (operation rotate_left f t xs r (word i) (shift i) s)
    ∙ ap (steps f t xs word shift n (suc i)) (operation-step f t xs r (word i) (shift i) s)

own_view : (s : Digest) → view reg_a s ≡ s
unfolding get following
own_view s = refl

whole_turn : back 16 reg_a ≡ reg_a
unfolding back previous
whole_turn = refl

-- A round of 16 lines.
round_lem :
    (f : ℕ → ℕ → ℕ → ℕ) (t : ℕ) (xs : List ℕ) (word shift : ℕ → ℕ) (lines : List (Register × ℕ × ℕ))
    (s : Digest)
    → lines ≡ table word shift 16 reg_a 0
    → run_lines rotate_left f t xs lines s ≡ steps f t xs word shift 16 0 s
round_lem f t xs word shift lines s e =
    let end = run_lines rotate_left f t xs (table word shift 16 reg_a 0) s in
    ap (λ l. run_lines rotate_left f t xs l s) e
    ∙ sym (own_view end)
    ∙ ap (λ r. view r end) (sym whole_turn)
    ∙ run_lines-steps f t xs word shift 16 0 reg_a s
    ∙ ap (steps f t xs word shift 16 0) (own_view s)

lines_1_lem : lines_1 ≡ table word_1 (shifts 3 7 11 19) 16 reg_a 0
unfolding table previous
lines_1_lem = refl

lines_2_lem : lines_2 ≡ table word_2 (shifts 3 5 9 13) 16 reg_a 0
unfolding table previous
lines_2_lem = refl

lines_3_lem : lines_3 ≡ table word_3 (shifts 3 9 11 15) 16 reg_a 0
unfolding table previous
lines_3_lem = refl

sum_comm : (x y : ℕ) → x + y ≡ y + x
sum_comm x y = omega arith

final_additions_lem :
    (s saved : Digest)
    → final_additions s saved ≡ record {
      a = (saved.a + s.a) % 2 ^ 32;
      b = (saved.b + s.b) % 2 ^ 32;
      c = (saved.c + s.c) % 2 ^ 32;
      d = (saved.d + s.d) % 2 ^ 32;
    }
unfolding final_additions
final_additions_lem s saved =
    rw (sum_comm s.a saved.a, sum_comm s.b saved.b, sum_comm s.c saved.c, sum_comm s.d saved.d) refl

pub block-compress : (xs : List ℕ) (s : Digest) → block rotate_left xs s ≡ compress xs s
unfolding block compress select majority parity
block-compress xs s =
    let one = round_lem aux_f 0 xs word_1 (shifts 3 7 11 19) lines_1 s lines_1_lem in
    let r1 = steps aux_f 0 xs word_1 (shifts 3 7 11 19) 16 0 s in
    let two = round_lem aux_g root_2 xs word_2 (shifts 3 5 9 13) lines_2 r1 lines_2_lem in
    let r2 = steps aux_g root_2 xs word_2 (shifts 3 5 9 13) 16 0 r1 in
    let three = round_lem aux_h root_3 xs word_3 (shifts 3 9 11 15) lines_3 r2 lines_3_lem in
    let r3 = steps aux_h root_3 xs word_3 (shifts 3 9 11 15) 16 0 r2 in
    ap
      (λ x.
        final_additions
          (run_lines rotate_left parity root_3 xs lines_3
            (run_lines rotate_left majority root_2 xs lines_2 x))
          s)
      one
    ∙ ap (λ x. final_additions (run_lines rotate_left parity root_3 xs lines_3 x) s) two
    ∙ ap (λ x. final_additions x s) three
    ∙ final_additions_lem r3 s

pub initial_lem : initial ≡ initial_registers
unfolding initial_registers value_le
initial_lem = refl
