-- ===== src/Zfile/Compressor/Laws.antt =====
-- What `LZ4Compressor` of src/overlaybd/zfile/compressor.cpp does, where LZ4 compresses every block.
use native.Mathlib.Nat.{mul-div_cancel}
use dadi_fast_cdc.Prelude.{
  ℕ, ◌+◌, ◌*◌, ◌/◌, ◌%◌, ◌^◌, ◌≤◌, ◌<◌, ◌≡◌, refl, sym, ap, ◌∙◌, Option, some, false,
}
use dadi_fast_cdc.Prelude.{
  List, [], ◌∷◌, ◌++◌, ltb, arith, length, length-drop, length-take, take, drop, take-all,
  take-plus, concat, lengths, sum, All,
}
use dadi_fast_cdc.Zfile.ChunkLoop.Tiling.{FitsBlock}
use dadi_fast_cdc.Zfile.Builder.{buf_size}
use dadi_fast_cdc.Zfile.Builder.Written.{Compresses}
use dadi_fast_cdc.Zfile.Compressor.{
  src_pieces, put_piece, do_pieces, run_batch, only_piece, run_one,
}

-- The pieces of a buffer have the lengths wanted, and are its first bytes.
pub lengths-src_pieces :
    (src lens : List ℕ) → sum lens ≤ length src → lengths (src_pieces src lens) ≡ lens
lengths-src_pieces src [] h = refl
lengths-src_pieces src (n ∷ lens) h =
    ap (λ k. k ∷ lengths (src_pieces (drop n src) lens)) (length-take n src (omega arith))
    ∙ ap (λ l. n ∷ l) (lengths-src_pieces (drop n src) lens (omega (arith, length-drop n src)))

pub concat-src_pieces : (src lens : List ℕ) → concat (src_pieces src lens) ≡ take (sum lens) src
concat-src_pieces src [] = refl
concat-src_pieces src (n ∷ lens) =
    ap (λ l. take n src ++ l) (concat-src_pieces (drop n src) lens)
    ∙ sym (take-plus n (sum lens) src)

-- The codes of the blocks.
abbrev pub outs : (List ℕ → List ℕ) → List (List ℕ) → List (List ℕ)
outs out [] = []
outs out (xs ∷ xss) = out xs ∷ outs out xss

-- All blocks fit.
abbrev pub AllFit : ℕ → List (List ℕ) → Type 0
AllFit block_size xss = All (FitsBlock block_size) (lengths xss)

put_piece-some :
    (ys : List ℕ) (yss : List (List ℕ))
    → 0 < length ys
    → put_piece (some ys) (some yss) ≡ some (ys ∷ yss)
put_piece-some [] yss h = absurd (omega arith)
put_piece-some (y ∷ ys) yss h = refl

-- A capacity of `n` buffers has room for one in each part.
dst_len-lem : (n room : ℕ) → 0 < n → n * room < 2 ^ 64 → n * room % 2 ^ 64 / n ≡ room
dst_len-lem n room some_chunk low =
    let whole : n * room % 2 ^ 64 ≡ room * n = omega (arith, low) in
    ap (λ (k : ℕ). k / n) whole ∙ mul-div_cancel room some_chunk

-- One block is a batch of one chunk.
run_one-lem :
    (lz4 : List ℕ → ℕ → Option (List ℕ)) (least dst_len : ℕ) (src ys : List ℕ)
    → least ≤ dst_len
    → 0 < length ys
    → lz4 src dst_len ≡ some ys
    → run_one lz4 least src dst_len ≡ some ys
unfolding run_one run_batch do_pieces
run_one-lem lz4 least dst_len src ys room some_bytes e =
    let one : dst_len / 1 ≡ dst_len = omega arith in
    let enough : ltb dst_len least ≡ false = ground arith in
    rw (one, enough, take-all (length src) src (omega arith), e)
      (ap only_piece (put_piece-some ys [] some_bytes))

module _ (crc : List ℕ → ℕ) (lz4_compress lz4_decompress : List ℕ → ℕ → Option (List ℕ))
    (block_size longest : ℕ)
    (laws : Compresses crc lz4_decompress lz4_compress block_size longest) where
  do_pieces-outs :
      (xss : List (List ℕ))
      → AllFit block_size xss
      → do_pieces lz4_compress xss (block_size + buf_size) ≡ some (outs laws.out xss)
  unfolding do_pieces
  do_pieces-outs [] h = refl
  do_pieces-outs (xs ∷ xss) h =
      rw (laws.code_of xs h.0.0 h.0.1, do_pieces-outs xss h.1)
        (put_piece-some (laws.out xs) (outs laws.out xss) (laws.some_bytes xs))

  -- `compress` and `decompress` of one block, for the writers and the reader.
  pub run_one-Compresses :
      (max_dst_size : ℕ)
      → max_dst_size ≤ block_size + buf_size
      → Compresses crc
          (run_one lz4_decompress block_size)
          (run_one lz4_compress max_dst_size)
          block_size
          longest
  run_one-Compresses max_dst_size room = record {
    out = laws.out;
    code_of = λ xs some_bytes few.
        run_one-lem lz4_compress max_dst_size (block_size + buf_size) xs (laws.out xs) room
          (laws.some_bytes xs) (laws.code_of xs some_bytes few);
    some_bytes = laws.some_bytes;
    bounded = laws.bounded;
    back = λ xs some_bytes few.
        run_one-lem lz4_decompress block_size block_size (laws.out xs) xs (omega arith) some_bytes
          (laws.back xs some_bytes few);
    checksum = laws.checksum;
    fits = laws.fits;
  }

  -- A batch of chunks that fit, with room for `buf_size` bytes more for each.
  pub run_batch-outs :
      (nbatch max_dst_size : ℕ) (room : max_dst_size ≤ block_size + buf_size) (src lens : List ℕ)
      → 0 < length lens
      → length lens ≤ nbatch
      → sum lens ≤ length src
      → All (FitsBlock block_size) lens
      → length lens * (block_size + buf_size) < 2 ^ 64
      → run_batch lz4_compress nbatch max_dst_size src lens
          (length lens * (block_size + buf_size) % 2 ^ 64)
        ≡ some (outs (run_one-Compresses max_dst_size room).out (src_pieces src lens))
  unfolding run_batch run_one-Compresses
  run_batch-outs nbatch max_dst_size room src lens some_chunk few within fit low =
      let enough : ltb (block_size + buf_size) max_dst_size ≡ false = ground arith in
      let in_vectors : ltb nbatch (length lens) ≡ false = ground arith in
      rw (dst_len-lem (length lens) (block_size + buf_size) some_chunk low, enough, in_vectors)
        (do_pieces-outs (src_pieces src lens) (rw (lengths-src_pieces src lens within) fit))
