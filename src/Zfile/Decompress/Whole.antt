-- ===== src/Zfile/Decompress/Whole.antt =====
-- `zfile_decompress` of src/overlaybd/zfile/zfile.cpp writes the original file.
use native.Mathlib.Nat.{mul-div_cancel}
use mathlib.Core.List.{append_assoc, append-nil}
use dadi_fast_cdc.Prelude.{
  ℕ, zero, suc, ◌+◌, ◌-◌, ◌*◌, ◌≤◌, ◌<◌, min, ◌≡◌, refl, sym, ap, ◌∙◌, ◌⊎◌, inl, inr, Option, some,
  Bool, true, false,
}
use dadi_fast_cdc.Prelude.{
  List, ◌++◌, ltb, ◌==◌, if◌then◌else◌, Bool-cases, ==_iff, arith, length, length-take, length-drop,
  take, drop, take-all, take-plus, take-append_left, concat, length-concat,
}
use dadi_fast_cdc.Zfile.BlockReader.{CompressionFile, overwrite}
use dadi_fast_cdc.Zfile.Pread.{returned, pread}
use dadi_fast_cdc.Zfile.Pread.Stored.{Stored}
use dadi_fast_cdc.Zfile.Pread.FastCdc.{IsFastCdc, pread-original}
use dadi_fast_cdc.Zfile.Pread.Fixed.{IsFixed, fixed_start, pread-fixed_start}
use dadi_fast_cdc.Zfile.Decompress.{
  Outcome, success, after_write, decompress_from, zfile_decompress,
}

min-twice : (a b : ℕ) → min (min a b) b ≡ min a b
min-twice a b = omega arith

-- Where a block begins, the reader reads from there.
fixed_start-multiple : (k n : ℕ) → 0 < n → fixed_start n (k * n) ≡ k * n
fixed_start-multiple k n busy = rw (mul-div_cancel k busy) (if_same (k == 0) (k * n))
  where
    if_same : (b : Bool) (x : ℕ) → (if b then x else x) ≡ x
    if_same true x = refl
    if_same false x = refl

-- A destination that takes every write behind what it has.
pub record Takes {D : Type 0} (write : D → List ℕ → D × Option ℕ) (contents : D → List ℕ)
    : Type 0 where
  pub all : (d : D) (xs : List ℕ) → (write d xs).1 ≡ some (length xs)
  pub behind : (d : D) (xs : List ℕ) → contents ((write d xs).0) ≡ contents d ++ xs

module _ {F D : Type 0} (crc : List ℕ → ℕ) (dec : List ℕ → ℕ → Option (List ℕ))
    (file_pread : F → ℕ → ℕ → Option (List ℕ)) (trim : F → ℕ → ℕ → F × Bool)
    (m_buf raw raw_buf : List ℕ) (read_fuel : ℕ) (write : D → List ℕ → D × Option ℕ)
    (contents : D → List ℕ) (takes : Takes write contents) where
  after_write-rest :
      (n : ℕ) (p : D × Option ℕ) (rest : D → Option (Outcome D))
      → p.1 ≡ some n
      → after_write crc dec file_pread trim m_buf raw raw_buf read_fuel write n p rest ≡ rest (p.0)
  after_write-rest n (dst, o) rest e = rw (e, (==_iff n n).1 refl) refl

  -- `pread` of whole blocks, one after the other, is right.
  abbrev Reads : CompressionFile → F → List ℕ → Type 0
  Reads z file whole =
      (k : ℕ)
      → k * z.block_size < z.original_file_size
      → pread crc dec file_pread trim read_fuel z file m_buf raw false raw_buf
          (min z.block_size (z.original_file_size - k * z.block_size)) (k * z.block_size)
        ≡ some (
            returned file (min z.block_size (z.original_file_size - k * z.block_size)) (
              take (min z.block_size (z.original_file_size - k * z.block_size))
                (drop (k * z.block_size) whole)))

  module _ (z : CompressionFile) (file : F) (whole : List ℕ)
      (size : z.original_file_size ≡ length whole) (busy : 0 < z.block_size)
      (reads : Reads z file whole) where
    -- The offset is that of a block, so that the read is one of these.
    read_at :
        (k offset : ℕ)
        → (offset ≡ k * z.block_size) ⊎ (offset ≡ length whole)
        → offset < length whole
        → pread crc dec file_pread trim read_fuel z file m_buf raw false raw_buf
            (min z.block_size (z.original_file_size - offset))
            offset
          ≡ some (
              returned file
                (min z.block_size (z.original_file_size - offset))
                (take (min z.block_size (z.original_file_size - offset)) (drop offset whole)))
    read_at k offset (inr e) less = absurd (omega arith)
    read_at k offset (inl e) less = rw e (reads k (omega (arith, size, less, e)))

    next_at :
        (k offset : ℕ)
        → (offset ≡ k * z.block_size) ⊎ (offset ≡ length whole)
        → offset < length whole
        → (offset + min z.block_size (z.original_file_size - offset) ≡ suc k * z.block_size)
          ⊎ (offset + min z.block_size (z.original_file_size - offset) ≡ length whole)
    next_at k offset (inr e) less = absurd (omega arith)
    next_at k offset (inl e) less =
        elim (Bool-cases (ltb z.block_size (z.original_file_size - offset))) [
          | inl t ↦ inl (grind (arith, t, e))
          | inr t ↦ inr (ground (arith, t, size, less))
        ]

    taken : (n : ℕ) (xs : List ℕ) → length xs ≡ n → take n (overwrite raw_buf xs) ≡ xs
    taken n xs e =
        take-append_left n xs (drop (length xs) raw_buf) (omega arith) ∙ take-all n xs (omega arith)

    decompress_from-whole :
        (fuel k offset : ℕ) (dst : D) (before : List ℕ)
        → (offset ≡ k * z.block_size) ⊎ (offset ≡ length whole)
        → length whole - offset < fuel
        → contents dst ≡ before ++ take offset whole
        → (dst1 : D) × (decompress_from crc dec file_pread trim m_buf raw raw_buf read_fuel write
              fuel z file dst offset
            ≡ some (success dst1))
          × (contents dst1 ≡ before ++ whole)
    unfolding decompress_from
    decompress_from-whole zero k offset dst before at enough held = absurd (omega arith)
    decompress_from-whole (suc fuel) k offset dst before at enough held =
        elim (Bool-cases (ltb offset z.original_file_size)) [
          | inr t ↦
              let end : length whole ≤ offset = ground (arith, size) in
              rw t (dst, refl, held ∙ ap (λ l. before ++ l) (take-all offset whole end))
          | inl t ↦
              let len : ℕ = min z.block_size (z.original_file_size - offset) in
              let xs = take len (drop offset whole) in
              let left : offset < length whole = ground (arith, size) in
              let read = read_at k offset at left in
              let short : len ≤ length (drop offset whole) =
                omega (arith, size, length-drop offset whole) in
              let wrote = length-take len (drop offset whole) short in
              let some_bytes : (len == 0) ≡ false = ground (arith, busy, size, left) in
              let no_more : ltb len len ≡ false = ground arith in
              let dst1 = (write dst xs).0 in
              let onward =
                decompress_from-whole fuel (suc k) (offset + len) dst1 before
                  (next_at k offset at left) (omega (arith, left, size, busy))
                  (takes.behind dst xs
                    ∙ ap (λ l. l ++ xs) held
                    ∙ append_assoc before (take offset whole) xs
                    ∙ ap (λ l. before ++ l) (sym (take-plus offset len whole))) in
              rw
                (
                  t,
                  read,
                  some_bytes,
                  no_more,
                  taken len xs wrote,
                  after_write-rest len (write dst xs)
                      (λ d.
                        decompress_from crc dec file_pread trim m_buf raw raw_buf read_fuel write
                          fuel z file d (offset + len))
                      (takes.all dst xs ∙ ap some wrote),
                )
                onward
        ]

    -- With fuel for one round more than there are bytes.
    zfile_decompress-whole :
        (fuel : ℕ) (dst : D)
        → length whole < fuel
        → (dst1 : D) × (zfile_decompress crc dec file_pread trim m_buf raw raw_buf read_fuel write
              fuel z file dst
            ≡ some (success dst1))
          × (contents dst1 ≡ contents dst ++ whole)
    unfolding zfile_decompress
    zfile_decompress-whole fuel dst enough =
        decompress_from-whole fuel 0 0 dst (contents dst) (inl (omega arith)) (omega arith)
          (sym (append-nil (contents dst)))

  module _ (z : CompressionFile) (file : F) (codes blocks : List (List ℕ))
      (st : Stored crc dec file_pread z file codes blocks) where
    -- `zfile_decompress` of a FastCDC zfile below 2^63 bytes, where the file below reads what it
    -- holds, the jump table and the raw sizes are those of the blocks, and each block decompresses
    -- from its code with its checksum, fits the block size and has a code of at most 64 KiB, to a
    -- destination that takes every write: with fuel for one round more than there are bytes, and in
    -- each read than there are blocks, it succeeds, and the destination then has the original file
    -- behind what it had.
    pub zfile_decompress-FastCdc :
        (h : IsFastCdc z blocks) (fuel : ℕ) (dst : D)
        → 0 < z.block_size
        → length blocks < read_fuel
        → length (concat blocks) < fuel
        → (dst1 : D) × (zfile_decompress crc dec file_pread trim m_buf raw raw_buf read_fuel write
              fuel z file dst
            ≡ some (success dst1))
          × (contents dst1 ≡ contents dst ++ concat blocks)
    zfile_decompress-FastCdc h fuel dst busy reading enough =
        zfile_decompress-whole z file (concat blocks) (h.size ∙ sym (length-concat blocks)) busy
          (λ k inside.
            let left : ℕ = z.original_file_size - k * z.block_size in
            let n : ℕ = min z.block_size left in
            pread-original crc dec file_pread z file codes blocks st h trim m_buf raw raw_buf
              read_fuel n (k * z.block_size) reading (omega (arith, h.size, h.low, inside))
            ∙ ap
                (λ (m : ℕ).
                  some (returned file m (take n (drop (k * z.block_size) (concat blocks)))))
                (min-twice z.block_size left))
          fuel dst enough

    -- The same of a zfile with blocks of one size: reads of whole blocks begin where these do.
    pub zfile_decompress-Fixed :
        (h : IsFixed z blocks) (fuel : ℕ) (dst : D)
        → length blocks < read_fuel
        → length (concat blocks) < fuel
        → (dst1 : D) × (zfile_decompress crc dec file_pread trim m_buf raw raw_buf read_fuel write
              fuel z file dst
            ≡ some (success dst1))
          × (contents dst1 ≡ contents dst ++ concat blocks)
    zfile_decompress-Fixed h fuel dst reading enough =
        zfile_decompress-whole z file (concat blocks) (h.size ∙ sym (length-concat blocks))
          h.some_block
          (λ k inside.
            let left : ℕ = z.original_file_size - k * z.block_size in
            let n : ℕ = min z.block_size left in
            pread-fixed_start crc dec file_pread z file codes blocks st h trim m_buf raw raw_buf
              read_fuel n (k * z.block_size) reading (omega (arith, h.size, h.low, inside))
            ∙ ap
                (λ (m : ℕ). some (
                  returned file m
                    (take m (drop (fixed_start z.block_size (k * z.block_size)) (concat blocks)))))
                (min-twice z.block_size left)
            ∙ ap (λ (p : ℕ). some (returned file n (take n (drop p (concat blocks)))))
                (fixed_start-multiple k z.block_size h.some_block))
          fuel dst enough
