-- ===== src/Zfile/Tests.antt =====
-- Runs of the chunker and of the chunk loop of the zfile writer on small data.
use dadi_fast_cdc.Prelude.{ℕ, ◌≡◌, refl, true, some, List, arith, All}
use dadi_fast_cdc.FastCdc.Globals.{Globals}
use dadi_fast_cdc.FastCdc.Tests.{large, zeros, length-zeros, zeros-IsBytes}
use dadi_fast_cdc.Zfile.Chunker.{Chunker, construct, next_chunk}
use dadi_fast_cdc.Zfile.Chunker.Bounds.{GoodChunk, next_chunk-GoodChunk}
use dadi_fast_cdc.Zfile.ChunkLoop.{Batch, chunk_buffer}
use dadi_fast_cdc.Zfile.ChunkLoop.Tiling.{Tile, GoodBatch, chunk_buffer-Tile}

abbrev sizes : Chunker
sizes = record { m_min_size = 2048; m_avg_size = 4096; m_max_size = 6500 }

-- FastCDC's variables after the constructor with these sizes.
abbrev constructed : Globals
constructed = record large { min_size = 2048; max_size = 6500; expect_cs = 4096 }

constructed-is :
    (md5 : List ℕ → List ℕ)
    → construct md5 (record { globals = large; s_initialized = true }) 2048 4096 6500
      ≡ (sizes, record { globals = constructed; s_initialized = true })
unfolding construct
constructed-is md5 = refl

next_chunk-GoodChunk_example :
    (r : ℕ) × (next_chunk constructed sizes (some zeros) 7000
      ≡ (some r, record constructed { min_size = 6144 }))
    × GoodChunk sizes 7000 r
next_chunk-GoodChunk_example =
    next_chunk-GoodChunk constructed sizes zeros 7000 zeros-IsBytes (omega (arith, length-zeros))
      (omega arith) (omega arith) (omega arith) refl

chunk_buffer-Tile_example :
    (out : List Batch) × (g : Globals) × (chunk_buffer sizes 4 constructed zeros 7000
      ≡ some (out, g))
    × Tile 0 out 7000
    × All (GoodBatch 4 6500) out
    × (g.max_size ≡ 6500)
chunk_buffer-Tile_example =
    chunk_buffer-Tile sizes 4 constructed zeros 7000 zeros-IsBytes (omega (arith, length-zeros))
      (omega arith) (omega arith) refl (omega arith)
