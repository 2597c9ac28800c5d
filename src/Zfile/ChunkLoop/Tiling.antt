-- ===== src/Zfile/ChunkLoop/Tiling.antt =====
-- The chunks that `zfile_compress` cuts from a buffer cover it exactly.
use dadi_fast_cdc.Prelude.{ℕ, zero, suc, ◌+◌, ◌-◌, ◌≤◌, ◌<◌, ◌≡◌, refl, ap, ◌∙◌, inl, inr, some}
use dadi_fast_cdc.Prelude.{◌==◌, true, List, [], ◌∷◌, ◌++◌, arith, length, drop, All, All-append}
use dadi_fast_cdc.Prelude.{
  sum, sum-append, length-append, length-drop, get_or-drop, Bool-cases, ltb, leb,
}
use dadi_fast_cdc.FastCdc.Globals.{Globals}
use dadi_fast_cdc.FastCdc.Fingerprint.{IsBytes}
use dadi_fast_cdc.Zfile.Chunker.{Chunker, next_chunk}
use dadi_fast_cdc.Zfile.Chunker.Bounds.{next_chunk-GoodChunk}
use dadi_fast_cdc.Zfile.ChunkLoop.{
  Batch, Progress, start, last_chunk, add_chunk, cut_chunks, last_batch, chunk_buffer, fixed_chunks,
}

-- The batches lie one behind another, from `a` to `b`.
abbrev pub Tile : ℕ → List Batch → ℕ → Type 0
Tile a [] b = a ≡ b
Tile a (x ∷ xs) b = (x.from ≡ a) × Tile (a + sum x.lens) xs b

Tile-append :
    (a b c : ℕ) (xs : List Batch) (x : Batch)
    → Tile a xs b
    → x.from ≡ b
    → b + sum x.lens ≡ c
    → Tile a (xs ++ (x ∷ [])) c
Tile-append a b c [] x t e f = (e ∙ sym_of t, ap (λ (k : ℕ). k + sum x.lens) t ∙ f)
  where
    sym_of : a ≡ b → b ≡ a
    sym_of p = omega arith
Tile-append a b c (y ∷ ys) x t e f = (t.0, Tile-append (a + sum y.lens) b c ys x t.1 e f)

-- A chunk is not empty and fits the block size `m`.
abbrev pub FitsBlock : ℕ → ℕ → Type 0
FitsBlock m l = (0 < l) × (l ≤ m)

-- A batch has at least one chunk and at most `nbatch`, each of them fits.
abbrev pub GoodBatch : ℕ → ℕ → Batch → Type 0
GoodBatch nbatch m b = (0 < length b.lens) × (length b.lens ≤ nbatch) × All (FitsBlock m) b.lens

-- What the loop keeps at `offset`.
pub record Covers (nbatch m offset : ℕ) (s : Progress) : Type 0 where
  pub tile : Tile 0 s.batches s.batch_start_offset
  pub current : s.batch_start_offset + sum s.raw_chunk_len ≡ offset
  pub room : length s.raw_chunk_len < nbatch
  pub good : All (GoodBatch nbatch m) s.batches
  pub fits : All (FitsBlock m) s.raw_chunk_len

add_chunk-Covers :
    (nbatch m size offset : ℕ) (s : Progress)
    → FitsBlock m size
    → Covers nbatch m offset s
    → Covers nbatch m (offset + size) (add_chunk nbatch s size (offset + size))
unfolding add_chunk
add_chunk-Covers nbatch m size offset s f inv = elim (Bool-cases (leb nbatch (length lens))) [
  | inl t ↦ rw t (record {
    tile = Tile-append 0 s.batch_start_offset (offset + size) s.batches _ inv.tile refl total;
    current = omega arith;
    room = omega arith;
    good =
        All-append (GoodBatch nbatch m) s.batches _ inv.good
          ((omega (arith, one_more), omega (arith, one_more), all_fit), tt);
    fits = tt;
  })
  | inr t ↦ rw t (record {
    tile = inv.tile;
    current = total;
    room = ground arith;
    good = inv.good;
    fits = all_fit;
  })
]
  where
    lens : List ℕ
    lens = s.raw_chunk_len ++ (size ∷ [])

    one_more : length lens ≡ length s.raw_chunk_len + 1
    one_more = length-append s.raw_chunk_len (size ∷ [])

    total : s.batch_start_offset + sum lens ≡ offset + size
    total = omega (arith, sum-append s.raw_chunk_len (size ∷ []), inv.current)

    all_fit : All (FitsBlock m) lens
    all_fit = All-append (FitsBlock m) s.raw_chunk_len (size ∷ []) inv.fits (f, tt)

sum_empty : (xs : List ℕ) → (length xs == 0) ≡ true → sum xs ≡ 0
sum_empty [] h = refl
sum_empty (x ∷ xs) h = ground arith

last_batch-Tile :
    (nbatch m readn : ℕ) (s : Progress)
    → Covers nbatch m readn s
    → Tile 0 (last_batch s) readn × All (GoodBatch nbatch m) (last_batch s)
unfolding last_batch
last_batch-Tile nbatch m readn s inv = elim (Bool-cases (length s.raw_chunk_len == 0)) [
  | inl t ↦
      let all_done : s.batch_start_offset ≡ readn =
        omega (arith, sum_empty s.raw_chunk_len t, inv.current) in
      rw t (rw all_done at inv.tile, inv.good)
  | inr t ↦ rw t (
    Tile-append 0 s.batch_start_offset readn s.batches _ inv.tile refl inv.current,
    All-append (GoodBatch nbatch m) s.batches _ inv.good
        ((ground arith, omega (arith, inv.room), inv.fits), tt),
  )
]

whole_chunk : (r n : ℕ) → 0 < r → r ≤ n → last_chunk r n ≡ r
whole_chunk r n pos inside = ground arith

module _ (c : Chunker) (nbatch : ℕ) (raw : List ℕ) (readn : ℕ) (bytes : IsBytes raw)
    (fits : readn ≤ length raw) (low : 0 < c.m_min_size)
    (ordered : c.m_min_size ≤ c.m_max_size) where
  IsBytes-drop : (k : ℕ) → IsBytes (drop k raw)
  IsBytes-drop k j h = rw get_or-drop (bytes (k + j) (omega (arith, length-drop k raw)))

  cut_chunks-suc :
      (fuel offset size : ℕ) (g g' : Globals) (s : Progress)
      → ltb offset readn ≡ true
      → next_chunk g c (some (drop offset raw)) (readn - offset) ≡ (some size, g')
      → last_chunk size (readn - offset) ≡ size
      → cut_chunks (suc fuel) c nbatch raw readn g offset s
        ≡ cut_chunks fuel c nbatch raw readn g'
            (offset + size)
            (add_chunk nbatch s size (offset + size))
  unfolding cut_chunks
  cut_chunks-suc fuel offset size g g' s t e whole = ground arith

  cut_chunks-Covers :
      (fuel offset : ℕ) (g : Globals) (s : Progress)
      → g.max_size ≡ c.m_max_size
      → offset ≤ readn
      → readn - offset < fuel
      → Covers nbatch c.m_max_size offset s
      → (out : Progress) × (g' : Globals) × (cut_chunks fuel c nbatch raw readn g offset s
          ≡ some (out, g'))
        × Covers nbatch c.m_max_size readn out
        × (g'.max_size ≡ c.m_max_size)
  unfolding cut_chunks
  cut_chunks-Covers zero offset g s same inside enough inv = absurd (omega arith)
  cut_chunks-Covers (suc fuel) offset g s same inside enough inv =
      elim (Bool-cases (ltb offset readn)) [
        | inr t ↦
            let all_read : offset ≡ readn = ground arith in
            (s, g, rw (t, cut_chunks), rw all_read at inv, same)
        | inl t ↦
            let n : ℕ = readn - offset in
            let some_left : offset < readn = ground arith in
            let chunk =
              next_chunk-GoodChunk g c (drop offset raw) n (IsBytes-drop offset)
                (omega (arith, length-drop offset raw)) (omega arith) low ordered same in
            let size = chunk.0 in
            let good : FitsBlock c.m_max_size size × (size ≤ n) = omega (arith, chunk.2) in
            let rest =
              cut_chunks-Covers fuel (offset + size) (record g { min_size = 6144 })
                (add_chunk nbatch s size (offset + size)) same (omega arith) (omega arith)
                (add_chunk-Covers nbatch c.m_max_size size offset s good.0 inv) in
            (
              rest.0,
              rest.1,
              cut_chunks-suc fuel offset size g (record g { min_size = 6144 }) s t chunk.1
                    (whole_chunk size n (omega arith) good.1)
                  ∙ rest.2,
              rest.3,
              rest.4,
            )
      ]

-- For a chunker with `0 < m_min_size ≤ m_max_size`, `MaxSize` as its constructor leaves it and
-- `0 < nbatch`: the loop ends and reads nothing outside the buffer; the batches lie one behind
-- another and cover the bytes `0 .. readn - 1` exactly; each holds from one to `nbatch` chunks, and
-- each chunk has from one to `m_max_size` bytes. `MaxSize` stays.
pub chunk_buffer-Tile :
    (c : Chunker) (nbatch : ℕ) (g : Globals) (raw : List ℕ) (readn : ℕ)
    → IsBytes raw
    → readn ≤ length raw
    → 0 < c.m_min_size
    → c.m_min_size ≤ c.m_max_size
    → g.max_size ≡ c.m_max_size
    → 0 < nbatch
    → (out : List Batch) × (g' : Globals) × (chunk_buffer c nbatch g raw readn ≡ some (out, g'))
      × Tile 0 out readn
      × All (GoodBatch nbatch c.m_max_size) out
      × (g'.max_size ≡ c.m_max_size)
unfolding chunk_buffer
chunk_buffer-Tile c nbatch g raw readn bytes fits low ordered same pos =
    let empty : Covers nbatch c.m_max_size 0 start = record {
      tile = refl;
      current = refl;
      room = pos;
      good = tt;
      fits = tt;
    } in
    let loop =
      cut_chunks-Covers c nbatch raw readn bytes fits low ordered (readn + 1) 0 g start same
        (omega arith) (omega arith) empty in
    let all = last_batch-Tile nbatch c.m_max_size readn loop.0 loop.3 in
    (last_batch loop.0, loop.1, rw loop.2, all.0, all.1, loop.4)

-- The branch without FastCDC, given enough fuel and a block size that is not zero: the blocks add up
-- to `readn`, and each has from one to `block_size` bytes.
pub fixed_chunks-sum :
    (fuel block_size readn : ℕ)
    → 0 < block_size
    → readn < fuel
    → (sum (fixed_chunks fuel block_size readn) ≡ readn)
      × All (FitsBlock block_size) (fixed_chunks fuel block_size readn)
unfolding fixed_chunks
fixed_chunks-sum zero block_size readn pos h = absurd (omega arith)
fixed_chunks-sum (suc fuel) block_size readn pos h =
    ground (arith, fixed_chunks-sum fuel block_size (readn - block_size))
