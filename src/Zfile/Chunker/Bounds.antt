-- ===== src/Zfile/Chunker/Bounds.antt =====
-- The sizes that `FastCDCChunker::next_chunk` returns.
use dadi_fast_cdc.Prelude.{ℕ, ◌≤◌, ◌<◌, ◌≡◌, inl, inr, some, List, arith, length}
use dadi_fast_cdc.Prelude.{false, ◌==◌}
use dadi_fast_cdc.FastCdc.Globals.{Globals}
use dadi_fast_cdc.FastCdc.Fingerprint.{IsBytes}
use dadi_fast_cdc.FastCdc.FirstCut.{NormalizedChunk, normalized_chunking_64-NormalizedChunk}
use dadi_fast_cdc.Zfile.Chunker.{Chunker, actual_length, adjust, next_chunk}

pub NormalizedChunk-bounds :
    (g : Globals) (p : List ℕ) (n r : ℕ)
    → NormalizedChunk g p n r
    → 0 < n
    → n ≤ g.max_size
    → (0 < r) × (r ≤ n)
NormalizedChunk-bounds g p n r (inl (a, b)) pos fits = omega arith
NormalizedChunk-bounds g p n r (inr (inl (a, b, c, d, e))) pos fits = omega arith
NormalizedChunk-bounds g p n r (inr (inr (a, b, inl (c, d, e, f)))) pos fits = omega arith
NormalizedChunk-bounds g p n r (inr (inr (a, b, inr (c, d)))) pos fits = omega arith

-- A chunk within the chunker's sizes and within the data.
abbrev pub GoodChunk : Chunker → ℕ → ℕ → Type 0
GoodChunk c n r = (0 < r) × (r ≤ n) × (r ≤ c.m_max_size) × (c.m_min_size ≤ n → c.m_min_size ≤ r)

adjust-GoodChunk :
    (c : Chunker) (n r : ℕ)
    → 0 < r
    → r ≤ n
    → r ≤ c.m_max_size
    → 0 < n
    → 0 < c.m_min_size
    → c.m_min_size ≤ c.m_max_size
    → GoodChunk c n (adjust c n r)
adjust-GoodChunk c n r a b d pos low ordered =
    (ground arith, ground arith, ground arith, λ h. ground arith)

-- On data that is there, with `0 < m_min_size ≤ m_max_size` and `MaxSize` as the constructor leaves
-- it, `next_chunk` reads nothing outside the data; the chunk is not empty, lies within the data,
-- is at most `m_max_size`, and at least `m_min_size` where there is as much data. `MaxSize` stays.
pub next_chunk-GoodChunk :
    (g : Globals) (c : Chunker) (p : List ℕ) (n : ℕ)
    → IsBytes p
    → n ≤ length p
    → 0 < n
    → 0 < c.m_min_size
    → c.m_min_size ≤ c.m_max_size
    → g.max_size ≡ c.m_max_size
    → (r : ℕ) × (next_chunk g c (some p) n ≡ (some r, record g { min_size = 6144 }))
      × GoodChunk c n r
unfolding next_chunk
next_chunk-GoodChunk g c p n bytes fits pos low ordered same =
    let m = actual_length c n in
    let short : m ≤ n = ground arith in
    let inside : m ≤ c.m_max_size = ground arith in
    let some_data : 0 < m = ground arith in
    let out =
      normalized_chunking_64-NormalizedChunk g p m bytes (omega arith) (inl (rw same inside)) in
    let size = NormalizedChunk-bounds g p m out.0 out.2 some_data (rw same inside) in
    let busy : (n == 0) ≡ false = ground arith in
    (
      adjust c n out.0,
      rw (busy, out.1),
      (adjust-GoodChunk c n out.0 size.0 (omega arith) (omega arith) pos low ordered),
    )
