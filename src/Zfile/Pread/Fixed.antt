-- ===== src/Zfile/Pread/Fixed.antt =====
-- `pread` of src/overlaybd/zfile/zfile.cpp of a zfile with blocks of one size, the last one shorter.
use native.Mathlib.Nat.{div-mul-le_self, lt-div-mul-add, mod-eq-sub-div-mul, div-lt_iff_lt-mul}
use dadi_fast_cdc.Prelude.{
  ℕ, zero, suc, ◌+◌, ◌-◌, ◌*◌, ◌/◌, ◌^◌, ◌≤◌, ◌<◌, min, ◌≡◌, refl, sym, ap, ◌∙◌, inl, inr, Option,
  some, Bool, false,
}
use dadi_fast_cdc.Prelude.{
  List, [], ◌∷◌, ltb, ◌==◌, if◌then◌else◌, Bool-cases, ==_iff, arith, length, take, drop, take-all,
  sum, concat, lengths, length-lengths, sum-take_le,
}
use dadi_fast_cdc.Zfile.BlockReader.{
  CompressionFile, get_inblock_offset, raw_size, new_reader, max_read_size,
}
use dadi_fast_cdc.Zfile.Pread.{returned, pread}
use dadi_fast_cdc.Zfile.Pread.Clip.{clip-min}
use dadi_fast_cdc.Zfile.Pread.Stored.{Stored}
use dadi_fast_cdc.Zfile.Pread.Parts.{Locates, start, the_reader}
use dadi_fast_cdc.Zfile.Pread.Loop.{pread-whole}
use dadi_fast_cdc.Zfile.Pread.FastCdc.{start-grows}

-- Sizes of full blocks, but for the last one.
abbrev pub AreFull : ℕ → List ℕ → Type 0
AreFull block_size [] = Unit
AreFull block_size (x ∷ []) = x ≤ block_size
AreFull block_size (x ∷ (y ∷ sizes)) = (x ≡ block_size) × AreFull block_size (y ∷ sizes)

-- The header does not say FastCDC.
pub record IsFixed (z : CompressionFile) (blocks : List (List ℕ)) : Type 0 where
  pub fixed : z.fastcdc ≡ false
  pub full : AreFull z.block_size (lengths blocks)
  pub size : z.original_file_size ≡ sum (lengths blocks)
  pub low : sum (lengths blocks) < 2 ^ 63
  pub some_block : 0 < z.block_size
  pub block_size : z.block_size ≤ max_read_size
  pub valid : z.valid ≡ 1

sum-take_full :
    (n : ℕ) (sizes : List ℕ) (i : ℕ)
    → AreFull n sizes
    → i < length sizes
    → sum (take i sizes) ≡ i * n
sum-take_full n [] i full h = absurd (omega arith)
sum-take_full n (x ∷ []) zero full h = omega arith
sum-take_full n (x ∷ []) (suc i) full h = absurd (omega arith)
sum-take_full n (x ∷ (y ∷ sizes)) zero full h = omega arith
sum-take_full n (x ∷ (y ∷ sizes)) (suc i) full h =
    grind (arith, sum-take_full n (y ∷ sizes) i full.1 (omega arith), full.0)

sum_full : (n : ℕ) (sizes : List ℕ) → AreFull n sizes → sum sizes ≤ length sizes * n
sum_full n [] full = omega arith
sum_full n (x ∷ []) full = omega arith
sum_full n (x ∷ (y ∷ sizes)) full = grind (arith, sum_full n (y ∷ sizes) full.1, full.0)

-- The place that the reader reads from: the start of the block, except in the first one.
abbrev pub fixed_start : ℕ → ℕ → ℕ
fixed_start block_size offset =
    if offset / block_size == 0 then offset else offset / block_size * block_size

module _ {F : Type 0} (crc : List ℕ → ℕ) (dec : List ℕ → ℕ → Option (List ℕ))
    (file_pread : F → ℕ → ℕ → Option (List ℕ)) (z : CompressionFile) (file : F)
    (codes blocks : List (List ℕ)) (st : Stored crc dec file_pread z file codes blocks)
    (h : IsFixed z blocks) where
  start_full : (i : ℕ) → i < length blocks → start blocks i ≡ i * z.block_size
  start_full i below =
      sum-take_full z.block_size (lengths blocks) i h.full (omega (arith, length-lengths blocks))

  block_of : (x : ℕ) → x < sum (lengths blocks) → x / z.block_size < length blocks
  block_of x below =
      let all = sum_full z.block_size (lengths blocks) h.full in
      (div-lt_iff_lt-mul h.some_block).1
        (omega (arith, all, ap (λ (n : ℕ). n * z.block_size) (length-lengths blocks)))

  start_before : (x : ℕ) → x < sum (lengths blocks) → start blocks (x / z.block_size) ≤ x
  start_before x below =
      omega
        (arith, start_full (x / z.block_size) (block_of x below), div-mul-le_self x z.block_size)

  start_behind : (x : ℕ) → x < sum (lengths blocks) → x < start blocks (suc (x / z.block_size))
  start_behind x below =
      let q : ℕ = x / z.block_size in
      elim (Bool-cases (ltb (suc q) (length blocks))) [
        | inl t ↦
            grind (arith, start_full (suc q) (ground arith), lt-div-mul-add {a = x} h.some_block)
        | inr t ↦ omega (
          arith,
          ap sum (take-all (suc q) (lengths blocks) (ground (arith, length-lengths blocks))),
        )
      ]

  inblock_fixed :
      (x i : ℕ)
      → x < sum (lengths blocks)
      → i ≡ x / z.block_size
      → get_inblock_offset z x i ≡ x - start blocks i
  unfolding get_inblock_offset
  inblock_fixed x i below e = rw h.fixed (
      mod-eq-sub-div-mul x z.block_size
      ∙ omega (arith, start_full (x / z.block_size) (block_of x below), ap (start blocks) e))

  fixed_start-lem :
      (offset : ℕ)
      → offset < sum (lengths blocks)
      → (start blocks (offset / z.block_size) ≤ fixed_start z.block_size offset)
        × (fixed_start z.block_size offset ≤ offset)
        × ((if offset / z.block_size == 0
              then get_inblock_offset z offset (offset / z.block_size)
              else 0)
            ≡ fixed_start z.block_size offset - start blocks (offset / z.block_size))
  fixed_start-lem offset below =
      let q : ℕ = offset / z.block_size in
      let from = start_before offset below in
      let place = start_full q (block_of offset below) in
      elim (Bool-cases (q == 0)) [
        | inl t ↦ rw t (from, omega arith, inblock_fixed offset q below refl)
        | inr t ↦
            rw t (omega (arith, place), div-mul-le_self offset z.block_size, omega (arith, place))
      ]

  Locates-Fixed :
      (offset cnt : ℕ)
      → 0 < cnt
      → offset + cnt ≤ sum (lengths blocks)
      → Locates z blocks offset cnt
          (fixed_start z.block_size offset)
          0
          (offset / z.block_size)
          (suc ((offset + cnt - 1) / z.block_size))
  unfolding raw_size
  Locates-Fixed offset cnt busy within =
      let x : ℕ = offset + cnt - 1 in
      let b : ℕ = offset / z.block_size in
      let e : ℕ = x / z.block_size in
      let below : x < sum (lengths blocks) = omega arith in
      let first = fixed_start-lem offset (omega arith) in
      let up = block_of x below in
      let last : (i : ℕ) → suc i ≡ suc e → i ≡ e = λ i e'. omega arith in
      let ahead : b < suc e = elim (Bool-cases (ltb b (suc e))) [
        | inl t ↦ ground arith
        | inr t ↦ absurd (
            omega (
              arith,
              start_before offset (omega arith),
              start_behind x below,
              sum-take_le (suc e) b (lengths blocks) (ground arith),
            ))
      ] in
      record {
        busy = busy;
        forward = ahead;
        in_range = up;
        begins = first.0;
        inside = omega (arith, first.1, start_behind offset (omega arith));
        early = first.1;
        at_first = first.2;
        later = λ i behind. ground arith;
        full = λ i before.
            rw h.fixed
              (grind (arith, start_full i (omega arith), start_full (suc i) (omega arith)));
        at_last = λ i e'. inblock_fixed x i below (last i e');
        ends_in = λ i e'. omega (arith, start_before x below, ap (start blocks) (last i e'));
        ends_by = omega (arith, start_behind x below);
        grows = λ i before. start-grows crc dec z codes blocks i st.coded (omega arith);
        low = h.low;
      }

  new_reader-Fixed :
      (m_buf : List ℕ) (offset cnt : ℕ)
      → (loc : Locates z blocks offset cnt
          (fixed_start z.block_size offset)
          0
          (offset / z.block_size)
          (suc ((offset + cnt - 1) / z.block_size)))
      → new_reader z file m_buf offset cnt
        ≡ the_reader z blocks offset cnt
            (fixed_start z.block_size offset)
            0
            (offset / z.block_size)
            (suc ((offset + cnt - 1) / z.block_size))
            loc
            file
            0
            (offset / z.block_size)
            (offset / z.block_size)
            m_buf
  unfolding new_reader
  new_reader-Fixed m_buf offset cnt loc =
      let e : ℕ = (offset + cnt - 1) / z.block_size in
      let next : e + 1 ≡ suc e = omega arith in rw (h.fixed, next) refl

  -- `pread` of a zfile below 2^63 bytes with blocks of one size, from a file below that reads what it
  -- holds, where the jump table is that of the blocks, and each block decompresses from its code
  -- with its checksum and has a code of at most 64 KiB, into a buffer: for an
  -- offset and a count that end below 2^63, with fuel for one round more
  -- than there are blocks, it returns the number of bytes that the original file has between the
  -- offset and the offset and count, and has written as many bytes of the original file, from the
  -- offset on when that is in block 0, and else from where the block of the offset begins.
  pub pread-fixed_start :
      (trim : F → ℕ → ℕ → F × Bool) (m_buf raw held : List ℕ) (fuel count offset : ℕ)
      → length blocks < fuel
      → offset + count < 2 ^ 63
      → pread crc dec file_pread trim fuel z file m_buf raw false held count offset
        ≡ some (
            returned file (min count (z.original_file_size - offset)) (
              take
                (min count (z.original_file_size - offset))
                (drop (fixed_start z.block_size offset) (concat blocks))))
  unfolding pread
  pread-fixed_start trim m_buf raw held fuel count offset enough below =
      let cnt : ℕ = min count (z.original_file_size - offset) in
      let clipped =
        clip-min z.original_file_size count offset (omega (arith, h.size, h.low)) below in
      elim (Bool-cases (cnt == 0)) [
        | inl t ↦
            let none_left = (==_iff cnt 0).0 t in
            let block_ok : ltb max_read_size z.block_size ≡ false = ground (arith, h.block_size) in
            rw (block_ok, clipped, t)
              (ap
                (λ (n : ℕ). some (
                  returned file n
                    (take n (drop (fixed_start z.block_size offset) (concat blocks)))))
                (sym none_left))
        | inr t ↦
            let busy : 0 < cnt = ground arith in
            let loc = Locates-Fixed offset cnt busy (ground (arith, h.size)) in
            pread-whole crc dec file_pread z file codes blocks st offset cnt
              (fixed_start z.block_size offset) 0 (offset / z.block_size)
              (suc ((offset + cnt - 1) / z.block_size)) loc trim held h.valid fuel count m_buf raw
              (new_reader-Fixed m_buf offset cnt loc) clipped h.block_size enough
      ]
