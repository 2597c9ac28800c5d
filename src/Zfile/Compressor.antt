-- ===== src/Zfile/Compressor.antt =====
-- `LZ4Compressor` and `BaseCompressor` of src/overlaybd/zfile/compressor.cpp, without QAT. LZ4 is a
-- parameter: `LZ4_compress_default` and `LZ4_decompress_safe` of the bytes and the room for the
-- result, `none` for a negative result, which is the error of the decoder. The pieces of the output
-- buffer lie `dst_buffer_capacity / n` bytes apart; the model has them as a list.
pub mod Laws
mod Tests
use dadi_fast_cdc.Prelude.{ℕ, ◌/◌, Option, none, some}
use dadi_fast_cdc.Prelude.{List, [], ◌∷◌, ltb, if◌then◌else◌, length, take, drop}

-- `uncompressed_data[i]`, or `compressed_data[i]`: the pieces lie one behind another.
abbrev pub src_pieces : List ℕ → List ℕ → List (List ℕ)
src_pieces src [] = []
src_pieces src (n ∷ src_chunk_len) = take n src ∷ src_pieces (drop n src) src_chunk_len

-- A result of 0 is an error too.
abbrev pub put_piece : Option (List ℕ) → Option (List (List ℕ)) → Option (List (List ℕ))
put_piece none rest = none
put_piece (some []) rest = none
put_piece (some (y ∷ ys)) none = none
put_piece (some (y ∷ ys)) (some yss) = some ((y ∷ ys) ∷ yss)

-- The loop of `do_compress` and `do_decompress`, over `lz4` of each piece.
unfoldable pub do_pieces :
    (List ℕ → ℕ → Option (List ℕ)) → List (List ℕ) → ℕ → Option (List (List ℕ))
do_pieces lz4 [] dst_len = some []
do_pieces lz4 (xs ∷ xss) dst_len = put_piece (lz4 xs dst_len) (do_pieces lz4 xss dst_len)

-- `compress_batch` with `max_dst_size`, and `decompress_batch` with `src_blk_size`, of one chunk at
-- least. The vectors of the pieces have `nbatch` elements: a batch of more chunks is written behind
-- their end, which is undefined; it is `none` here, as an error is.
unfoldable pub run_batch :
    (List ℕ → ℕ → Option (List ℕ)) → ℕ → ℕ → List ℕ → List ℕ → ℕ → Option (List (List ℕ))
run_batch lz4 nbatch least src src_chunk_len dst_buffer_capacity =
    let dst_len = dst_buffer_capacity / length src_chunk_len in
    if ltb dst_len least
    then none
    else if ltb nbatch (length src_chunk_len)
    then none
    else do_pieces lz4 (src_pieces src src_chunk_len) dst_len

abbrev pub only_piece : Option (List (List ℕ)) → Option (List ℕ)
only_piece none = none
only_piece (some []) = some []
only_piece (some (ys ∷ yss)) = some ys

-- `compress`, and `decompress`: a batch of one chunk, for which every compressor has the room.
unfoldable pub run_one : (List ℕ → ℕ → Option (List ℕ)) → ℕ → List ℕ → ℕ → Option (List ℕ)
run_one lz4 least src dst_len = only_piece (run_batch lz4 1 least src (length src ∷ []) dst_len)
