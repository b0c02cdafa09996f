-- ===== src/Tests/Digests.antt =====
-- The digest of the message abc, as RFC 1320 gives it.
use libpulp.Base.{ℕ, true, List, [], ◌∷◌, some, ◌≡◌, refl, arith}
use libpulp.Md4.Defs.{
  md4, md4_of, zeros_of, fill_buffer, fill_size, process_blocks, read_words, read_word, block,
  run_lines, operation, select, majority, parity, rotated, get, put, following, append_item,
  result_of, final_additions,
}
use libpulp.Md4.Rfc.{digest}
use libpulp.Md4.Digest.{md4-digest}

abbrev message : List ℕ
message = 97 ∷ 98 ∷ 99 ∷ []

digest_abc :
    md4 (λ n. true) message
    ≡ some (
        0xa4 ∷ 0x48 ∷ 0x01 ∷ 0x7a ∷ 0xaf ∷ 0x21 ∷ 0xd8 ∷ 0x52 ∷ 0x5f ∷ 0xc1 ∷ 0x0a ∷ 0xe8 ∷ 0x7a
        ∷ 0xa6 ∷ 0x72 ∷ 0x9d ∷ [])
unfolding md4 md4_of zeros_of fill_buffer fill_size process_blocks read_words read_word block
    run_lines operation select majority parity rotated get put following append_item result_of
    final_additions
digest_abc = refl

md4-digest_example : md4 (λ n. true) message ≡ some (digest message)
md4-digest_example =
    md4-digest (λ n. true) message (omega arith, (omega arith, (omega arith, tt))) (omega arith)
