-- ===== src/Zfile/Pread/Parts.antt =====
-- Which part of which block a range of the original file is, in `BlockReader` of
-- src/overlaybd/zfile/zfile.cpp, for blocks of any size.
use dadi_fast_cdc.Prelude.{ℕ, suc, ◌+◌, ◌-◌, ◌^◌, ◌≤◌, ◌<◌, ◌≡◌, refl, ap, inl, inr, none, false}
use dadi_fast_cdc.Prelude.{
  List, ◌==◌, if◌then◌else◌, Bool-cases, ==_iff, ==_false, arith, length, take, sum, lengths,
  sum-take_le, sum-take_all,
}
use dadi_fast_cdc.Zfile.BlockReader.{
  CompressionFile, BlockReader, Block, get_inblock_offset, raw_size, block_part,
}
use dadi_fast_cdc.Zfile.Pread.Stored.{size_sub-lem}

-- Where block `i` begins in the original file.
abbrev pub start : List (List ℕ) → ℕ → ℕ
start blocks i = sum (take i (lengths blocks))

-- The blocks `first_idx .. end_idx - 1` hold the bytes `first .. offset + cnt - 1`, and the reader
-- finds them.
pub record Locates (z : CompressionFile) (blocks : List (List ℕ))
    (offset cnt first original first_idx end_idx : ℕ) : Type 0 where
  pub busy : 0 < cnt
  pub forward : first_idx < end_idx
  pub in_range : end_idx ≤ length blocks
  pub begins : start blocks first_idx ≤ first
  pub inside : first < start blocks (suc first_idx)
  pub early : first ≤ offset
  pub at_first :
      (if first_idx == original then get_inblock_offset z offset first_idx else 0)
      ≡ first - start blocks first_idx
  pub later : (i : ℕ) → first_idx < i → (i == original) ≡ false
  pub full : (i : ℕ) → suc i < end_idx → raw_size z i ≡ start blocks (suc i) - start blocks i
  pub at_last :
      (i : ℕ)
      → suc i ≡ end_idx
      → get_inblock_offset z (offset + cnt - 1) i ≡ offset + cnt - 1 - start blocks i
  pub ends_in : (i : ℕ) → suc i ≡ end_idx → start blocks i < offset + cnt
  pub ends_by : offset + cnt ≤ start blocks end_idx
  pub grows : (i : ℕ) → i < end_idx → start blocks i < start blocks (suc i)
  pub low : sum (lengths blocks) < 2 ^ 63

module _ (z : CompressionFile) (blocks : List (List ℕ))
    (offset cnt first original first_idx end_idx : ℕ)
    (h : Locates z blocks offset cnt first original first_idx end_idx) where
  -- What `get_current_block` says of block `i`.
  abbrev pub cp_end : ℕ → ℕ
  cp_end i =
      if suc i == end_idx
      then offset + cnt - 1 - start blocks i + 1
      else start blocks (suc i) - start blocks i

  abbrev pub the_block : ℕ → ℕ → Block
  the_block i compressed_size = record {
    compressed_size = compressed_size;
    cp_begin = first - start blocks i;
    cp_len = cp_end i - (first - start blocks i);
  }

  abbrev pub the_reader : {F : Type 0} → F → ℕ → ℕ → ℕ → List ℕ → BlockReader F
  the_reader file buf_offset begin_idx i buf = record {
    file = file;
    buf = buf;
    buf_offset = buf_offset;
    begin_idx = begin_idx;
    original_begin_idx = original;
    idx = i;
    end_idx = end_idx;
    original_offset = offset;
    last = offset + cnt - 1;
    eno = none;
  }

  cp_begin-lem :
      (i : ℕ)
      → first_idx ≤ i
      → (if i == original then get_inblock_offset z offset i else 0) ≡ first - start blocks i
  cp_begin-lem i from = elim (Bool-cases (i == first_idx)) [
    | inl y ↦ rw ((==_iff i first_idx).0 y) h.at_first
    | inr y ↦
        let behind : first_idx < i = ground (arith, ==_false i first_idx y) in
        rw (h.later i behind)
          (omega (arith, h.inside, sum-take_le (suc first_idx) i (lengths blocks) behind))
  ]

  cp_end-lem :
      (i : ℕ)
      → first_idx ≤ i
      → i < end_idx
      → (if suc i == end_idx then get_inblock_offset z (offset + cnt - 1) i + 1 else raw_size z i)
        ≡ cp_end i
  cp_end-lem i from to = elim (Bool-cases (suc i == end_idx)) [
    | inl y ↦ let e = (==_iff (suc i) end_idx).0 y in rw y (ap (λ k. k + 1) (h.at_last i e))
    | inr y ↦ rw y (h.full i (ground (arith, ==_false (suc i) end_idx y)))
  ]

  -- The part is not empty, and within the block.
  pub cp_begin-before : (i : ℕ) → first_idx ≤ i → i < end_idx → first - start blocks i < cp_end i
  cp_begin-before i from to =
      let grown = h.grows i to in
      elim (Bool-cases (suc i == end_idx)) [
        | inl y ↦
            let e = (==_iff (suc i) end_idx).0 y in rw y (omega (arith, h.early, h.ends_in i e))
        | inr y ↦ rw y (
            omega (
              arith,
              h.inside,
              sum-take_le (suc first_idx) (suc i) (lengths blocks) (omega arith),
              grown,
            ))
      ]

  -- A part does not reach behind its block.
  pub cp_end-within : (i : ℕ) → i < end_idx → cp_end i ≤ start blocks (suc i) - start blocks i
  cp_end-within i to = elim (Bool-cases (suc i == end_idx)) [
    | inl y ↦
        let e = (==_iff (suc i) end_idx).0 y in
        rw y (omega (arith, h.ends_in i e, h.ends_by, ap (start blocks) e, h.busy))
    | inr y ↦ rw y (omega arith)
  ]

  pub block_part-lem :
      {F : Type 0} (file : F) (o b i : ℕ) (buf : List ℕ) (size : ℕ)
      → first_idx ≤ i
      → i < end_idx
      → block_part z (the_reader file o b i buf) size ≡ the_block i size
  unfolding block_part
  block_part-lem file o b i buf size from to =
      rw (cp_begin-lem i from, cp_end-lem i from to)
        (rw
          (size_sub-lem (cp_end i) (first - start blocks i)
            (omega (arith, cp_begin-before i from to))
            (omega (arith, cp_end-within i to, sum-take_all (suc i) (lengths blocks), h.low)))
          refl)
