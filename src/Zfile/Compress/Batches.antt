-- ===== src/Zfile/Compress/Batches.antt =====
-- A batch, and the batches of a buffer, in `zfile_compress` of src/overlaybd/zfile/zfile.cpp.
use mathlib.Core.Path.{subst}
use mathlib.Core.List.{append_assoc, append-nil}
use native.Mathlib.Nat.{mul-le-mul_right}
use dadi_fast_cdc.Prelude.{ℕ, ◌+◌, ◌≤◌, ◌≡◌, refl, sym, ap, ◌∙◌, Option, true}
use dadi_fast_cdc.Prelude.{
  List, [], ◌∷◌, ◌++◌, arith, length, length-drop, take, drop, drop-drop, sum, All,
}
use dadi_fast_cdc.Zfile.ChunkLoop.{Batch}
use dadi_fast_cdc.Zfile.ChunkLoop.Tiling.{Tile, GoodBatch}
use dadi_fast_cdc.Zfile.Builder.{buf_size}
use dadi_fast_cdc.Zfile.Builder.Session.{take-drop, no_length}
use dadi_fast_cdc.Zfile.Compressor.{src_pieces}
use dadi_fast_cdc.Zfile.Compressor.Laws.{
  outs, lengths-src_pieces, concat-src_pieces, run_batch-outs,
}
use dadi_fast_cdc.Zfile.Compress.{Options, Compression, append_codes, append_batch, append_batches}
use dadi_fast_cdc.Zfile.Compress.Blocks.{Services, Kept, compress_batch, append_codes-Kept, laws}

module _ {D : Type 0} (o : Options) (nbatch : ℕ) (w : Services D o.block_size nbatch)
    (front : List ℕ) where
  abbrev Holds : Compression D → List ℕ → ℕ → Type 0
  Holds s whole total = Kept o nbatch w o.block_size front s whole total

  abbrev batch_of : List ℕ → List ℕ → ℕ → Option (List (List ℕ))
  batch_of = compress_batch o nbatch w o.block_size front

  abbrev block_out : List ℕ → List ℕ
  block_out = (laws o nbatch w o.block_size front).out

  -- A batch within the buffer.
  append_batch-Kept :
      (raw_data : List ℕ) (s : Compression D) (whole : List ℕ) (total : ℕ) (b : Batch)
      → Holds s whole total
      → GoodBatch nbatch o.block_size b
      → b.from + sum b.lens ≤ length raw_data
      → (s1 : Compression D) × (append_batch w.crc32c_salt batch_of w.write_to o raw_data s b
          ≡ (s1, true))
        × Holds s1 (whole ++ take (sum b.lens) (drop b.from raw_data)) total
  unfolding append_batch
  append_batch-Kept raw_data s whole total b k good inside =
      let src = drop b.from raw_data in
      let within : sum b.lens ≤ length src = omega (arith, length-drop b.from raw_data) in
      let same = lengths-src_pieces src b.lens within in
      let pieces = src_pieces src b.lens in
      let r =
        append_codes-Kept o nbatch w o.block_size front pieces s whole total k (rw same good.2) in
      let e =
        run_batch-outs w.crc32c_salt w.lz4_compress w.lz4_decompress o.block_size w.longest
          w.compresses nbatch w.max_dst_size w.room src b.lens good.0 good.1 within good.2
          (omega (arith, mul-le-mul_right (o.block_size + buf_size) good.1, w.low)) in
      rw e (
        r.0,
        ap (λ l. append_codes w.crc32c_salt batch_of w.write_to o s l (outs block_out pieces))
              (sym same)
            ∙ r.1,
        subst (λ l. Holds (r.0) (whole ++ l) total) (concat-src_pieces src b.lens) r.2,
      )

  Tile-le : (a : ℕ) (bs : List Batch) (n : ℕ) → Tile a bs n → a ≤ n
  Tile-le a [] n t = omega (arith, t)
  Tile-le a (b ∷ bs) n t = omega (arith, Tile-le (a + sum b.lens) bs n t.1)

  -- The batches of a buffer, from `a` on.
  pub append_batches-Kept :
      (raw_data : List ℕ) (bs : List Batch) (a : ℕ) (s : Compression D) (whole : List ℕ) (total : ℕ)
      → Holds s whole total
      → Tile a bs (length raw_data)
      → All (GoodBatch nbatch o.block_size) bs
      → (s1 : Compression D) × (append_batches w.crc32c_salt batch_of w.write_to o raw_data s bs
          ≡ (s1, true))
        × Holds s1 (whole ++ drop a raw_data) total
  unfolding append_batches
  append_batches-Kept raw_data [] a s whole total k tile good =
      let none_left = no_length (drop a raw_data) (omega (arith, length-drop a raw_data, tile)) in
      (
        s,
        refl,
        subst (λ l. Holds s l total) (sym (append-nil whole) ∙ ap (λ l. whole ++ l) (sym none_left))
            k,
      )
  append_batches-Kept raw_data (b ∷ bs) a s whole total k tile good =
      let n = sum b.lens in
      let ends = Tile-le (a + n) bs (length raw_data) tile.1 in
      let r = append_batch-Kept raw_data s whole total b k good.0 (omega (arith, tile.0)) in
      let more =
        append_batches-Kept raw_data bs (a + n) (r.0) (whole ++ take n (drop b.from raw_data)) total
          r.2 tile.1 good.1 in
      let same : (whole ++ take n (drop b.from raw_data)) ++ drop (a + n) raw_data
          ≡ whole ++ drop a raw_data =
        append_assoc whole (take n (drop b.from raw_data)) (drop (a + n) raw_data)
        ∙ ap (λ (i : ℕ). whole ++ (take n (drop i raw_data) ++ drop (a + n) raw_data)) tile.0
        ∙ ap (λ l. whole ++ (take n (drop a raw_data) ++ l)) (sym (drop-drop n a raw_data))
        ∙ ap (λ l. whole ++ l) (take-drop n (drop a raw_data)) in
      rw r.1 (more.0, more.1, subst (λ l. Holds (more.0) l total) same more.2)
