-- ===== src/Zfile/Pread/Blocks.antt =====
-- From block to block, for `BlockReader` of src/overlaybd/zfile/zfile.cpp on a zfile that is stored.
use dadi_fast_cdc.Prelude.{
  ℕ, suc, ◌+◌, ◌-◌, ◌≤◌, ◌<◌, min, ◌≡◌, refl, ap, ◌∙◌, inl, inr, Option, none, some, true, false,
}
use dadi_fast_cdc.Prelude.{
  List, ◌++◌, ltb, leb, ◌==◌, Bool-cases, ==_iff, arith, length, length-append, length-take,
  length-drop, take, drop, take-append_left, take-drop-take, drop-append_left, drop-drop,
}
use dadi_fast_cdc.Zfile.BlockReader.{
  CompressionFile, BlockReader, Block, max_read_size, checksum_size, overwrite, get_current_block,
  size_sub, read_blocks, begin_block, next_block,
}
use dadi_fast_cdc.Zfile.Pread.Stored.{
  Stored, Slot, slot, size_sub-lem, pos, pos_le, pos_bound, pos-suc, at_index-pos,
  get_blocks_length-pos,
}
use dadi_fast_cdc.Zfile.Pread.Parts.{Locates, the_block, the_reader, block_part-lem}

module _ {F : Type 0} (crc : List ℕ → ℕ) (dec : List ℕ → ℕ → Option (List ℕ))
    (file_pread : F → ℕ → ℕ → Option (List ℕ)) (z : CompressionFile) (file : F)
    (codes blocks : List (List ℕ)) (st : Stored crc dec file_pread z file codes blocks)
    (offset cnt first original first_idx end_idx : ℕ)
    (loc : Locates z blocks offset cnt first original first_idx end_idx) where
  abbrev pub place : ℕ → ℕ
  place i = pos crc dec file_pread z file codes blocks st i

  abbrev pub reader : ℕ → ℕ → ℕ → List ℕ → BlockReader F
  reader o b i buf =
      the_reader z blocks offset cnt first original first_idx end_idx loc file o b i buf

  abbrev pub window : ℕ → ℕ
  window b = min max_read_size (place end_idx - place b)

  -- The buffer holds the bytes from block `b` on.
  pub record Filled (b : ℕ) (buf : List ℕ) : Type 0 where
    pub junk : List ℕ
    pub content : buf ≡ take (window b) (drop (place b) st.bytes) ++ junk

  pub slot_at : (i : ℕ) → i < end_idx → Slot crc dec z codes blocks i
  slot_at i to = slot crc dec z i codes blocks st.coded (omega (arith, loc.in_range))

  abbrev pub block_at : (i : ℕ) → i < end_idx → Block
  block_at i to =
      the_block z blocks offset cnt first original first_idx end_idx loc i
        (length (slot_at i to).is_code.payload)

  read_blocks-lem :
      (o b i : ℕ) (buf : List ℕ)
      → i < end_idx
      → read_blocks file_pread z (reader o b i buf) i end_idx
        ≡ some (reader o b i (overwrite buf (take (window i) (drop (place i) st.bytes))), true)
  unfolding read_blocks
  read_blocks-lem o b i buf to =
      let above = pos_le crc dec file_pread z file codes blocks st i end_idx (omega arith) in
      let bound = pos_bound crc dec file_pread z file codes blocks st end_idx in
      let size =
        length-take (window i) (drop (place i) st.bytes)
          (omega (arith, length-drop (place i) st.bytes)) in
      rw
        (
          at_index-pos crc dec file_pread z file codes blocks st i (omega (arith, loc.in_range)),
          get_blocks_length-pos crc dec file_pread z file codes blocks st i end_idx (omega arith)
              loc.in_range,
          st.reads (window i) (place i) (omega arith),
          size,
          (==_iff (window i) (window i)).1 refl,
        )
        refl

  get_current_block-lem :
      (o b i : ℕ) (buf : List ℕ) (to : i < end_idx)
      → first_idx ≤ i
      → b ≤ i
      → place (suc i) - place b ≤ max_read_size
      → get_current_block z (reader o b i buf)
        ≡ some (reader (place i - place b) b i buf, some (block_at i to))
  unfolding get_current_block
  get_current_block-lem o b i buf to from held fits =
      let s = slot_at i to in
      let above = pos_le crc dec file_pread z file codes blocks st b i held in
      let next = pos-suc crc dec file_pread z file codes blocks st i s in
      let size : length s.code ≡ length s.is_code.payload + checksum_size z =
        ap length s.is_code.parts
        ∙ length-append s.is_code.payload s.is_code.check
        ∙ omega (arith, s.is_code.check_of) in
      let code_size : place (suc i) - place i ≡ length s.code = omega arith in
      let payload_size : size_sub (length s.code) (checksum_size z) ≡ length s.is_code.payload =
        size_sub-lem (length s.code) (checksum_size z) (omega arith)
          (omega (arith, s.is_code.fits_buf))
        ∙ omega arith in
      let offset_fits : leb max_read_size (place i - place b) ≡ false =
        ground (arith, s.is_code.some_payload) in
      let block_fits : ltb max_read_size (place i - place b + length s.is_code.payload) ≡ false =
        ground arith in
      rw
        (
          get_blocks_length-pos crc dec file_pread z file codes blocks st b i held
              (omega (arith, loc.in_range)),
          get_blocks_length-pos crc dec file_pread z file codes blocks st i (suc i) (omega arith)
              (omega (arith, loc.in_range)),
          code_size,
          payload_size,
          offset_fits,
          block_fits,
          block_part-lem z blocks offset cnt first original first_idx end_idx loc file
              (place i - place b) b i buf (length s.is_code.payload) from to,
        )
        refl

  overwrite-Filled :
      (i : ℕ) (buf : List ℕ) → Filled i (overwrite buf (take (window i) (drop (place i) st.bytes)))
  overwrite-Filled i buf = record { junk = _; content = refl }

  -- The code of one block, at most, fills the buffer.
  one_fits : (i : ℕ) → i < end_idx → place (suc i) - place i ≤ max_read_size
  one_fits i to =
      let s = slot_at i to in
      omega (arith, pos-suc crc dec file_pread z file codes blocks st i s, s.is_code.fits_buf)

  -- A reader that has block `i`, and with it the bytes of its code.
  pub record Ready (i : ℕ) (to : i < end_idx) (s : Option (BlockReader F × Option Block))
      : Type 0 where
    pub from : ℕ
    pub buf : List ℕ
    pub held : from ≤ i
    pub fits : place (suc i) - place from ≤ max_read_size
    pub filled : Filled from buf
    pub state : s ≡ some (reader (place i - place from) from i buf, some (block_at i to))

  -- `begin()`
  pub begin_block-Ready :
      (o b : ℕ) (buf : List ℕ)
      → Ready first_idx loc.forward (begin_block file_pread z (reader o first_idx first_idx buf))
  unfolding begin_block
  begin_block-Ready o b buf =
      let i = first_idx in
      let to = loc.forward in
      let new = overwrite buf (take (window i) (drop (place i) st.bytes)) in
      record {
        from = i;
        buf = new;
        held = omega arith;
        fits = one_fits i to;
        filled = overwrite-Filled i buf;
        state =
            rw (read_blocks-lem o i i buf to)
              (get_current_block-lem o i i new to (omega arith) (omega arith) (one_fits i to));
      }

  -- `operator++` before the last block.
  pub next_block-Ready :
      (i : ℕ) (to : i < end_idx) (o from : ℕ) (buf : List ℕ) (on : suc i < end_idx)
      → first_idx ≤ i
      → from ≤ i
      → Filled from buf
      → Ready (suc i) on (next_block file_pread z (reader o from i buf))
  unfolding next_block
  next_block-Ready i to o from buf on first held filled =
      let more : (suc i == end_idx) ≡ false = ground arith in
      let length_to =
        get_blocks_length-pos crc dec file_pread z file codes blocks st from (suc (suc i))
          (omega arith) (omega (arith, loc.in_range)) in
      elim (Bool-cases (ltb max_read_size (place (suc (suc i)) - place from))) [
        | inl t ↦
            let new = overwrite buf (take (window (suc i)) (drop (place (suc i)) st.bytes)) in
            record {
              from = suc i;
              buf = new;
              held = omega arith;
              fits = one_fits (suc i) on;
              filled = overwrite-Filled (suc i) buf;
              state =
                  rw (more, length_to, t, read_blocks-lem o from (suc i) buf on)
                    (get_current_block-lem o (suc i) (suc i) new on (omega arith) (omega arith)
                      (one_fits (suc i) on));
            }
        | inr t ↦ record {
          from = from;
          buf = buf;
          held = omega arith;
          fits = ground arith;
          filled = filled;
          state =
              rw (more, length_to, t)
                (get_current_block-lem o from (suc i) buf on (omega arith) (omega arith)
                  (ground arith));
        }
      ]

  -- Behind the last one there is none.
  pub next_block-end :
      (i o from : ℕ) (buf : List ℕ)
      → suc i ≡ end_idx
      → next_block file_pread z (reader o from i buf) ≡ some (reader o from (suc i) buf, none)
  unfolding next_block
  next_block-end i o from buf e = rw ((==_iff (suc i) end_idx).1 e) refl

  -- A slice of the buffer is one of the file below.
  pub slice-Filled :
      (n o from i : ℕ) (buf : List ℕ)
      → Filled from buf
      → from ≤ i
      → place i - place from + o + n ≤ window from
      → take n (drop (place i - place from + o) buf) ≡ take n (drop (place i + o) st.bytes)
  slice-Filled n o from i buf filled le within =
      let bytes = drop (place from) st.bytes in
      let at = place i - place from + o in
      let above = pos_le crc dec file_pread z file codes blocks st from i le in
      let all = pos_bound crc dec file_pread z file codes blocks st end_idx in
      let size =
        length-take (window from) bytes (omega (arith, length-drop (place from) st.bytes)) in
      rw filled.content (
        ap (take n) (drop-append_left at (take (window from) bytes) filled.junk (omega arith))
        ∙ take-append_left n (drop at (take (window from) bytes)) filled.junk
            (omega (arith, length-drop at (take (window from) bytes)))
        ∙ take-drop-take n at (window from) bytes within
        ∙ ap (take n)
            (drop-drop at (place from) st.bytes ∙ ap (λ k. drop k st.bytes) (omega arith)))
