-- ===== src/Zfile/Pread/FastCdc.antt =====
-- `pread` of src/overlaybd/zfile/zfile.cpp of a zfile with blocks of any size, which FastCDC cut.
use dadi_fast_cdc.Prelude.{
  ℕ, zero, suc, ◌+◌, ◌-◌, ◌^◌, ◌≤◌, ◌<◌, min, ◌≡◌, refl, sym, ap, ◌∙◌, inl, inr, Option, some, Bool,
  true, false,
}
use dadi_fast_cdc.Prelude.{
  List, [], ◌∷◌, ltb, ◌==◌, Bool-cases, ==_iff, arith, length, take, drop, get_or, sum, concat,
  lengths, length-lengths, length-concat, sum-take_le, sum-take-suc, drop-lengths, length-drop,
  take-min,
}
use dadi_fast_cdc.Zfile.BlockReader.{
  CompressionFile, variable_blocks, find_begin, find_end, cumulative_size, get_inblock_offset,
  raw_size, new_reader, max_read_size,
}
use dadi_fast_cdc.Zfile.Pread.{clip, returned, pread}
use dadi_fast_cdc.Zfile.Pread.Clip.{clip-min}
use dadi_fast_cdc.Zfile.Pread.Stored.{Stored, AreCodes, slot, size_sub-lem}
use dadi_fast_cdc.Zfile.Pread.Parts.{Locates, start, the_reader}
use dadi_fast_cdc.Zfile.Pread.Loop.{pread-whole}

-- Element `k` of the list holds `x`, counting from `base`.
pub record Found (sizes : List ℕ) (base x k : ℕ) : Type 0 where
  pub in_range : k < length sizes
  pub from : base + sum (take k sizes) ≤ x
  pub to : x < base + sum (take (suc k) sizes)

-- Both loops of the constructor find it.
find-Found :
    (sizes : List ℕ) (i base x : ℕ)
    → base ≤ x
    → x < base + sum sizes
    → (k : ℕ) × Found sizes base x k
      × (find_begin sizes i base x ≡ i + k)
      × (find_end sizes i base x ≡ suc (i + k))
find-Found [] i base x le less = absurd (omega arith)
find-Found (size ∷ sizes) i base x le less = elim (Bool-cases (ltb x (base + size))) [
  | inl t ↦ rw t (
    0,
    record { in_range = omega arith; from = omega arith; to = ground arith },
    omega arith,
    omega arith,
  )
  | inr t ↦
      let r = find-Found sizes (suc i) (base + size) x (ground arith) (omega arith) in
      rw t (
        suc (r.0),
        record {
          in_range = omega (arith, r.1.in_range);
          from = omega (arith, r.1.from);
          to = omega (arith, r.1.to);
        },
        omega (arith, r.2),
        omega (arith, r.3),
      )
]

cumulative_size-sum : (sizes : List ℕ) (i : ℕ) → cumulative_size sizes i ≡ sum (take i sizes)
cumulative_size-sum sizes zero = refl
cumulative_size-sum [] (suc i) = refl
cumulative_size-sum (size ∷ sizes) (suc i) = omega (arith, cumulative_size-sum sizes i)

get_or-sum :
    (sizes : List ℕ) (i : ℕ)
    → i < length sizes
    → get_or sizes i 0 ≡ sum (take (suc i) sizes) - sum (take i sizes)
get_or-sum [] i h = absurd (omega arith)
get_or-sum (size ∷ sizes) zero h = omega arith
get_or-sum (size ∷ sizes) (suc i) h = omega (arith, get_or-sum sizes i (omega arith))

-- No block is empty.
pub start-grows :
    (crc : List ℕ → ℕ) (dec : List ℕ → ℕ → Option (List ℕ)) (z : CompressionFile)
    (codes blocks : List (List ℕ)) (i : ℕ)
    → AreCodes crc dec z codes blocks
    → i < length blocks
    → start blocks i < start blocks (suc i)
start-grows crc dec z codes blocks i coded in_range =
    let s = slot crc dec z i codes blocks coded in_range in
    omega (
      arith,
      sum-take-suc i (lengths blocks) (lengths s.blocks_after) (length s.raw)
          (drop-lengths i blocks ∙ ap lengths s.from_raw),
      s.is_code.some_bytes,
    )

-- The header says FastCDC, and the raw sizes are those of the blocks.
pub record IsFastCdc (z : CompressionFile) (blocks : List (List ℕ)) : Type 0 where
  pub fastcdc : z.fastcdc ≡ true
  pub raw_sizes : z.raw_block_sizes ≡ lengths blocks
  pub size : z.original_file_size ≡ sum (lengths blocks)
  pub low : sum (lengths blocks) < 2 ^ 63
  pub block_size : z.block_size ≤ max_read_size
  pub valid : z.valid ≡ 1

module _ {F : Type 0} (crc : List ℕ → ℕ) (dec : List ℕ → ℕ → Option (List ℕ))
    (file_pread : F → ℕ → ℕ → Option (List ℕ)) (z : CompressionFile) (file : F)
    (codes blocks : List (List ℕ)) (st : Stored crc dec file_pread z file codes blocks)
    (h : IsFastCdc z blocks) where
  variable_lem : 0 < length blocks → variable_blocks z ≡ true
  variable_lem some_block =
      let sized : (length z.raw_block_sizes == 0) ≡ false =
        ground (arith, ap length h.raw_sizes, length-lengths blocks) in
      rw (h.fastcdc, sized) refl

  inblock-lem :
      (x i : ℕ)
      → 0 < length blocks
      → start blocks i ≤ x
      → x < sum (lengths blocks)
      → get_inblock_offset z x i ≡ x - start blocks i
  unfolding get_inblock_offset
  inblock-lem x i some_block from below =
      rw (variable_lem some_block, h.raw_sizes, cumulative_size-sum (lengths blocks) i)
        (size_sub-lem x (start blocks i) from (omega (arith, h.low)))

  raw_size-lem : (i : ℕ) → i < length blocks → raw_size z i ≡ start blocks (suc i) - start blocks i
  unfolding raw_size
  raw_size-lem i in_range =
      let known : ltb i (length (lengths blocks)) ≡ true = ground (arith, length-lengths blocks) in
      rw (variable_lem (omega arith), h.raw_sizes, known)
        (get_or-sum (lengths blocks) i (omega (arith, length-lengths blocks)))

  Locates-FastCdc :
      (offset cnt b e : ℕ)
      → 0 < cnt
      → offset + cnt ≤ sum (lengths blocks)
      → Found (lengths blocks) 0 offset b
      → Found (lengths blocks) 0 (offset + cnt - 1) e
      → Locates z blocks offset cnt offset b b (suc e)
  Locates-FastCdc offset cnt b e busy within from to =
      let size = length-lengths blocks in
      let ahead : b < suc e = elim (Bool-cases (ltb b (suc e))) [
        | inl t ↦ ground arith
        | inr t ↦
            absurd (
              omega
                (arith, from.from, to.to, sum-take_le (suc e) b (lengths blocks) (ground arith)))
      ] in
      let begins : start blocks b ≤ offset = omega (arith, from.from) in
      let last : (i : ℕ) → suc i ≡ suc e → start blocks i ≤ offset + cnt - 1 =
        λ i e'. omega (arith, to.from, sum-take_le i e (lengths blocks) (omega arith)) in
      record {
        busy = busy;
        forward = ahead;
        in_range = omega (arith, to.in_range);
        begins = begins;
        inside = omega (arith, from.to);
        early = omega arith;
        at_first =
            rw ((==_iff b b).1 refl) (inblock-lem offset b (omega arith) begins (omega arith));
        later = λ i behind. ground arith;
        full = λ i before. raw_size-lem i (omega (arith, to.in_range));
        at_last = λ i e'. inblock-lem (offset + cnt - 1) i (omega arith) (last i e') (omega arith);
        ends_in = λ i e'. omega (arith, last i e');
        ends_by = omega (arith, to.to);
        grows =
            λ i before. start-grows crc dec z codes blocks i st.coded (omega (arith, to.in_range));
        low = h.low;
      }

  new_reader-FastCdc :
      (m_buf : List ℕ) (offset cnt b e : ℕ)
      → 0 < length blocks
      → (loc : Locates z blocks offset cnt offset b b (suc e))
      → find_begin (lengths blocks) 0 0 offset ≡ b
      → find_end (lengths blocks) 0 0 (offset + cnt - 1) ≡ suc e
      → new_reader z file m_buf offset cnt
        ≡ the_reader z blocks offset cnt offset b b (suc e) loc file 0 b b m_buf
  unfolding new_reader
  new_reader-FastCdc m_buf offset cnt b e some_block loc first last =
      rw (variable_lem some_block, h.raw_sizes, first, last) refl

  -- Where there are bytes to read.
  pread-some :
      (trim : F → ℕ → ℕ → F × Bool) (m_buf raw held : List ℕ) (fuel count offset cnt : ℕ)
      → clip z.original_file_size count offset ≡ some cnt
      → 0 < cnt
      → offset + cnt ≤ sum (lengths blocks)
      → length blocks < fuel
      → pread crc dec file_pread trim fuel z file m_buf raw false held count offset
        ≡ some (returned file cnt (take cnt (drop offset (concat blocks))))
  pread-some trim m_buf raw held fuel count offset cnt clipped busy within enough =
      let from = find-Found (lengths blocks) 0 0 offset (omega arith) (omega arith) in
      let to = find-Found (lengths blocks) 0 0 (offset + cnt - 1) (omega arith) (omega arith) in
      let loc = Locates-FastCdc offset cnt from.0 to.0 busy within from.1 to.1 in
      let some_block : 0 < length blocks = omega (arith, from.1.in_range, length-lengths blocks) in
      pread-whole crc dec file_pread z file codes blocks st offset cnt offset from.0 from.0
        (suc (to.0)) loc trim held h.valid fuel count m_buf raw
        (new_reader-FastCdc m_buf offset cnt from.0 to.0 some_block loc (from.2 ∙ omega arith)
          (to.3 ∙ omega arith))
        clipped h.block_size enough

  -- `pread` of a FastCDC zfile below 2^63 bytes, from a file below that reads what it holds, where
  -- the jump table and the raw sizes are those of the blocks, each block decompresses from its code
  -- with its checksum, fits the block size and has a code of at most 64 KiB, into a buffer: for an
  -- offset and a count that end below 2^63, with fuel for one round more than there are blocks, it returns the number of
  -- bytes that the original file has there, and has written just these bytes.
  pub pread-original :
      (trim : F → ℕ → ℕ → F × Bool) (m_buf raw held : List ℕ) (fuel count offset : ℕ)
      → length blocks < fuel
      → offset + count < 2 ^ 63
      → pread crc dec file_pread trim fuel z file m_buf raw false held count offset
        ≡ some (
            returned file
              (min count (z.original_file_size - offset))
              (take count (drop offset (concat blocks))))
  unfolding pread
  pread-original trim m_buf raw held fuel count offset enough below =
      let cnt : ℕ = min count (z.original_file_size - offset) in
      let clipped =
        clip-min z.original_file_size count offset (omega (arith, h.size, h.low)) below in
      let all = length-concat blocks in
      let same : take cnt (drop offset (concat blocks)) ≡ take count (drop offset (concat blocks)) =
        take-min count (z.original_file_size - offset) (drop offset (concat blocks))
          (omega (arith, h.size, all, length-drop offset (concat blocks))) in
      elim (Bool-cases (cnt == 0)) [
        | inl t ↦
            let none_left = (==_iff cnt 0).0 t in
            let block_ok : ltb max_read_size z.block_size ≡ false = ground (arith, h.block_size) in
            rw (block_ok, clipped, t)
              (ap (λ (n : ℕ). some (returned file n (take n (drop offset (concat blocks)))))
                  (sym none_left)
                ∙ ap (λ l. some (returned file cnt l)) same)
        | inr t ↦
            pread-some trim m_buf raw held fuel count offset cnt clipped (ground arith)
              (ground (arith, h.size)) enough
            ∙ ap (λ l. some (returned file cnt l)) same
      ]
