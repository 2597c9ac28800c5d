-- ===== src/Zfile/ChunkLoop.antt =====
-- How `zfile_compress` of src/overlaybd/zfile/zfile.cpp cuts one buffer of `readn` bytes into chunks
-- and hands these to the compressor in batches of at most `nbatch`. The compression and the writing
-- of the batches, which may fail, are in Compress.
pub mod Tiling
use dadi_fast_cdc.Prelude.{
  ℕ, zero, suc, ◌+◌, ◌-◌, Option, none, some, true, false, List, [], ◌∷◌, ◌++◌,
}
use dadi_fast_cdc.Prelude.{ltb, leb, ◌==◌, ◌||◌, if◌then◌else◌, length, drop}
use dadi_fast_cdc.FastCdc.Globals.{Globals}
use dadi_fast_cdc.Zfile.Chunker.{Chunker, next_chunk}

-- One call of `compress_batch`: where in the buffer it begins, and `raw_chunk_len`.
pub record Batch : Type 0 where
  pub from : ℕ
  pub lens : List ℕ

-- The batches handed over so far, `batch_start_offset`, and `raw_chunk_len[0 .. n - 1]`.
pub record Progress : Type 0 where
  pub batches : List Batch
  pub batch_start_offset : ℕ
  pub raw_chunk_len : List ℕ

abbrev pub start : Progress
start = record { batches = []; batch_start_offset = 0; raw_chunk_len = [] }

-- `if (chunk_size == 0 || chunk_size > remaining) chunk_size = remaining`
abbrev pub last_chunk : ℕ → ℕ → ℕ
last_chunk chunk remaining = if chunk == 0 || ltb remaining chunk then remaining else chunk

-- One chunk of `size` bytes that ends at `offset` joins the batch; a full batch is handed over.
unfoldable pub add_chunk : ℕ → Progress → ℕ → ℕ → Progress
add_chunk nbatch s size offset =
    let lens = s.raw_chunk_len ++ (size ∷ []) in
    if leb nbatch (length lens)
    then record {
      batches = s.batches ++ (record { from = s.batch_start_offset; lens = lens } ∷ []);
      batch_start_offset = offset;
      raw_chunk_len = [];
    }
    else record s { raw_chunk_len = lens }

-- `while (offset < readn)`. `none` is a read outside the buffer, or no fuel left.
unfoldable pub cut_chunks :
    ℕ → Chunker → ℕ → List ℕ → ℕ → Globals → ℕ → Progress → Option (Progress × Globals)
unfolding add_chunk
cut_chunks zero c nbatch raw readn g offset s = none
cut_chunks (suc fuel) c nbatch raw readn g offset s = elim (ltb offset readn) [
  | false ↦ some (s, g)
  | true ↦
      let (result, g') = next_chunk g c (some (drop offset raw)) (readn - offset) in
      elim result [
        | none ↦ none
        | some chunk ↦
            let size = last_chunk chunk (readn - offset) in
            cut_chunks fuel c nbatch raw readn g' (offset + size)
              (add_chunk nbatch s size (offset + size))
      ]
]

-- After the loop the chunks left over, if any, are handed over too.
unfoldable pub last_batch : Progress → List Batch
last_batch s =
    if length s.raw_chunk_len == 0
    then s.batches
    else s.batches ++ (record { from = s.batch_start_offset; lens = s.raw_chunk_len } ∷ [])

abbrev pub finished : Option (Progress × Globals) → Option (List Batch × Globals)
finished none = none
finished (some (s, g)) = some (last_batch s, g)

-- The FastCDC branch for one buffer; each round takes a byte at least, so `readn + 1` rounds do.
unfoldable pub chunk_buffer : Chunker → ℕ → Globals → List ℕ → ℕ → Option (List Batch × Globals)
unfolding cut_chunks last_batch
chunk_buffer c nbatch g raw readn = finished (cut_chunks (readn + 1) c nbatch raw readn g 0 start)

-- The branch without FastCDC: blocks of `block_size`, the last one shorter.
unfoldable pub fixed_chunks : ℕ → ℕ → ℕ → List ℕ
fixed_chunks zero block_size readn = []
fixed_chunks (suc fuel) block_size readn = elim (ltb 0 readn) [
  | false ↦ []
  | true ↦ elim (ltb readn block_size) [
    | true ↦ readn ∷ []
    | false ↦ block_size ∷ fixed_chunks fuel block_size (readn - block_size)
  ]
]
