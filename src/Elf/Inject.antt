-- ===== src/Elf/Inject.antt =====
-- lib/gdb_interface.c: the metadata of a live patch without its path, as it stands in the section,
-- is given the path of the file that it was loaded from.
use mathlib.Core.Path.{ap₂}
use mathlib.Core.List.{append_assoc}
use libpulp.Base.{
  refl, take_all, ℕ, ◌+◌, ◌-◌, ◌%◌, ◌≡◌, sym, ap, ◌∙◌, List, [], ◌∷◌, ◌++◌, Option, none, some,
  ◌==◌, ltb, length, take, if◌then◌else◌, arith, take-append, ◌≤◌, drop-append, length-append, drop,
}
use libpulp.Base.Memory.{
  Memory, load, store, bytes_le, load_split, load-store_before, load-store_after, load-store_self,
  length-load, length-bytes_le,
}
use libpulp.Base.Words.{int_mod}
use libpulp.Errors.Codes.{enomem, einvalidulp}
use libpulp.Patch.Defs.{Metadata}
use libpulp.Metadata.Steps.{counted}
use libpulp.Metadata.Whole.{encode_lists, encode_with}
use libpulp.Call.Calls.{metadata_buf_len}
use libpulp.Elf.Defs.{Loaded, section, negative}
use libpulp.Metadata.Read.{text}
use libpulp.InsnQueue.Commands.{IsText}

-- The bytes of the patch's type and id.
abbrev pub metadata_left : ℕ
metadata_left = 33

-- The move of the rest to the right, and the two copies.
unfoldable pub inject_bytes : List ℕ → ℕ → ℕ → ℕ → Memory → Memory
inject_bytes path path_size path_object_size metadata_right buffer =
    let moved =
      store buffer (metadata_left + path_object_size) (load buffer metadata_left metadata_right) in
    let sized = store moved metadata_left (bytes_le 4 path_size) in
    store sized (metadata_left + 4) (take path_size (path ++ (0 ∷ [])))

-- inject_lp_path on the buffer; `none` is a move of a negative length.
unfoldable pub inject_lp_path : List ℕ → ℕ → Memory → Option (ℕ × Memory)
inject_lp_path path metadata_size buffer =
    let path_size = (length path + 1) % int_mod in
    let path_object_size = (4 + path_size) % int_mod in
    let final =
      inject_bytes path path_size path_object_size (metadata_size - metadata_left) buffer in
    if ltb metadata_buf_len (metadata_size + path_object_size)
    then some (enomem, buffer)
    else if ltb metadata_size metadata_left
    then none
    else some (0, final)

-- What gdb_ulp_apply returns behind inject_lp_path, before it calls __ulp_apply_patch.
unfoldable pub injected : Option (ℕ × Memory) → Option (ℕ × Memory)
injected none = none
injected (some (ret, buffer)) = if ret == 0 then some (0, buffer) else some (einvalidulp, buffer)

-- gdb_ulp_apply, and gdb_ulp_revert with the other section, up to the call of __ulp_apply_patch:
-- the return value, if it is not 0, and the buffer.
unfoldable pub gdb_prepare : List ℕ → Option Loaded → Option (ℕ × Memory)
gdb_prepare path none = none
gdb_prepare path (some (negative errno buffer)) = some (errno, buffer)
gdb_prepare path (some (section len buffer)) = injected (inject_lp_path path len buffer)

-- The section that the packer writes: the metadata without the path of its container.
abbrev pub packed : Metadata → List ℕ
packed ulp =
    ((ulp.type ∷ []) ++ ulp.patch_id)
    ++ ((counted ulp.objs.build_id ++ (counted ulp.objs.name ++ [])) ++ encode_lists ulp)

-- The four parts of the buffer.
parts :
    (b : Memory) (path : List ℕ) (r : ℕ)
    → let so = path ++ (0 ∷ []) in
      let n = length so in
      let moved = store b (33 + (4 + n)) (load b 33 r) in
      let final = store (store moved 33 (bytes_le 4 n)) 37 so in
      load final 0 (33 + (4 + (n + r))) ≡ load b 0 33 ++ (bytes_le 4 n ++ (so ++ load b 33 r))
parts b path r =
    let so = path ++ (0 ∷ []) in
    let n = length so in
    let moved = store b (33 + (4 + n)) (load b 33 r) in
    let sized = store moved 33 (bytes_le 4 n) in
    let final = store sized 37 so in
    let four = length-bytes_le 4 n in
    let rest = length-load b 33 r in
    let first : load final 0 33 ≡ load b 0 33 =
      load-store_before sized 0 33 37 so (omega arith)
      ∙ load-store_before moved 0 33 33 (bytes_le 4 n) (omega arith)
      ∙ load-store_before b 0 33 (33 + (4 + n)) (load b 33 r) (omega arith) in
    let second : load final 33 4 ≡ bytes_le 4 n =
      load-store_before sized 33 4 37 so (omega arith)
      ∙ ap (load sized 33) (sym four)
      ∙ load-store_self moved 33 (bytes_le 4 n) in
    let third : load final 37 n ≡ so = load-store_self sized 37 so in
    let fourth : load final (33 + (4 + n)) r ≡ load b 33 r =
      load-store_after sized (33 + (4 + n)) r 37 so (omega arith)
      ∙ load-store_after moved (33 + (4 + n)) r 33 (bytes_le 4 n) (omega arith)
      ∙ ap (load moved (33 + (4 + n))) (sym rest)
      ∙ load-store_self b (33 + (4 + n)) (load b 33 r) in
    let place : 37 + n ≡ 33 + (4 + n) = omega arith in
    load_split final 0 33 (4 + (n + r))
    ∙ ap₂ (λ x y. x ++ y) first
        (load_split final 33 4 (n + r)
          ∙ ap₂ (λ x y. x ++ y) second
              (load_split final 37 n r
                ∙ ap₂ (λ x y. x ++ y) third (ap (λ a. load final a r) place ∙ fourth)))

-- The metadata's bytes with the path between the id and the rest.
encode_with-parts :
    (so : List ℕ) (ulp : Metadata)
    → let rest = (counted ulp.objs.build_id ++ (counted ulp.objs.name ++ [])) ++ encode_lists ulp in
      encode_with so ulp
      ≡ ((ulp.type ∷ []) ++ ulp.patch_id) ++ (bytes_le 4 (length so) ++ (so ++ rest))
encode_with-parts so ulp =
    let ids = counted ulp.objs.build_id ++ (counted ulp.objs.name ++ []) in
    let lists = encode_lists ulp in
    let size = bytes_le 4 (length so) in
    ap (λ k. ulp.type ∷ k)
      (append_assoc ulp.patch_id (counted so ++ ids) lists
        ∙ ap (λ k. ulp.patch_id ++ k)
            (append_assoc (counted so) ids lists ∙ append_assoc size so (ids ++ lists)))

pub text-null : (bs : List ℕ) → IsText bs → text (bs ++ (0 ∷ [])) ≡ bs
unfolding text
text-null [] h = refl
text-null (b ∷ bs) h = let nonzero = h.0 in ground (arith, text-null bs h.1)

-- The two parts of a range that is known as a whole.
halves :
    (b : Memory) (n r : ℕ) (xs ys : List ℕ)
    → length xs ≡ n
    → load b 0 (n + r) ≡ xs ++ ys
    → (load b 0 n ≡ xs) × (load b n r ≡ ys)
halves b n r xs ys long e =
    let split : load b 0 n ++ load b n r ≡ xs ++ ys =
      ap (λ a. load b 0 n ++ load b a r) (omega arith) ∙ sym (load_split b 0 n r) ∙ e in
    let size = length-load b 0 n in
    (
      sym (take-append (load b 0 n) (load b n r))
          ∙ ap (λ k. take k (load b 0 n ++ load b n r)) (size ∙ sym long)
          ∙ ap (take (length xs)) split
          ∙ take-append xs ys,
      sym (drop-append (load b 0 n) (load b n r))
          ∙ ap (λ k. drop k (load b 0 n ++ load b n r)) (size ∙ sym long)
          ∙ ap (drop (length xs)) split
          ∙ drop-append xs ys,
    )

inject_fits :
    (path : List ℕ) (r : ℕ) (b : Memory)
    → (33 + r) + (5 + length path) ≤ metadata_buf_len
    → let path_size = (length path + 1) % int_mod in
      inject_lp_path path (33 + r) b
      ≡ some (0, inject_bytes path path_size ((4 + path_size) % int_mod) (33 + r - 33) b)
unfolding inject_lp_path
inject_fits path r b room = ground arith

-- The buffer behind inject_lp_path begins with the encoding of the whole metadata.
pub inject_lp_path-encode :
    (b : Memory) (r : ℕ) (ulp : Metadata)
    → length ulp.patch_id ≡ 32
    → load b 0 (33 + r) ≡ packed ulp
    → (33 + r) + (5 + length ulp.so_filename) ≤ metadata_buf_len
    → (final : Memory) × (inject_lp_path ulp.so_filename (33 + r) b ≡ some (0, final))
      × (load final 0 (33 + r + (5 + length ulp.so_filename))
          ≡ encode_with (ulp.so_filename ++ (0 ∷ [])) ulp)
unfolding inject_bytes
inject_lp_path-encode b r ulp id packs room =
    let path = ulp.so_filename in
    let so = path ++ (0 ∷ []) in
    let n = length so in
    let long : n ≡ length path + 1 = length-append path (0 ∷ []) in
    let head = (ulp.type ∷ []) ++ ulp.patch_id in
    let rest = (counted ulp.objs.build_id ++ (counted ulp.objs.name ++ [])) ++ encode_lists ulp in
    let (left, right) = halves b 33 r head rest (omega arith) packs in
    let moved = store b (33 + (4 + n)) (load b 33 r) in
    let final = store (store moved 33 (bytes_le 4 n)) 37 so in
    let path_size = (length path + 1) % int_mod in
    let object_size = (4 + path_size) % int_mod in
    let written = inject_bytes path path_size object_size (33 + r - 33) b in
    let tests : inject_lp_path path (33 + r) b ≡ some (0, written) = inject_fits path r b room in
    let same_size : path_size ≡ n = omega arith in
    let same_object : object_size ≡ 4 + n = omega arith in
    let same_rest : 33 + r - 33 ≡ r = omega arith in
    let bytes : written ≡ final =
      ap (λ k. inject_bytes path k object_size (33 + r - 33) b) same_size
      ∙ ap (λ k. inject_bytes path n k (33 + r - 33) b) same_object
      ∙ ap (λ k. inject_bytes path n (4 + n) k b) same_rest
      ∙ ap (λ k. store (store moved 33 (bytes_le 4 n)) 37 k) (take_all n so (omega arith)) in
    (
      final,
      tests ∙ ap (λ k. some (0, k)) bytes,
      ap (load final 0) (omega arith)
          ∙ parts b path r
          ∙ ap₂ (λ x y. x ++ (bytes_le 4 n ++ (so ++ y))) left right
          ∙ sym (encode_with-parts so ulp),
    )
