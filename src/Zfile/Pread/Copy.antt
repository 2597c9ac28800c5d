-- ===== src/Zfile/Pread/Copy.antt =====
-- One block of `pread` of src/overlaybd/zfile/zfile.cpp, on a zfile that is stored.
use mathlib.Core.List.{append_assoc, append-nil}
use dadi_fast_cdc.Prelude.{
  ℕ, zero, suc, ◌+◌, ◌-◌, ◌≤◌, ◌<◌, ◌≡◌, refl, sym, ap, ◌∙◌, inl, inr, Option, Bool, true, false,
  not, ◌&&◌,
}
use dadi_fast_cdc.Prelude.{
  List, [], ◌++◌, ◌==◌, if◌then◌else◌, Bool-cases, arith, length, length-append, length-drop, take,
  drop, take-append_left, take-all, drop-append_left, drop-append_right, drop-drop, concat, lengths,
  drop-concat, drop-lengths, sum-take-suc,
}
use dadi_fast_cdc.Zfile.BlockReader.{CompressionFile, BlockReader, Block, max_read_size, overwrite}
use dadi_fast_cdc.Zfile.Pread.{
  little_endian, buffer, crc32_code, copied, attempt, used_copy, use_block,
}
use dadi_fast_cdc.Zfile.Pread.Stored.{Stored, Slot, pos_le, pos-suc, drop-pos}
use dadi_fast_cdc.Zfile.Pread.Parts.{Locates, start, cp_begin-before, cp_end-within}
use dadi_fast_cdc.Zfile.Pread.Blocks.{place, reader, Filled, slot_at, block_at, slice-Filled}

checksum_good :
    (verify : Bool) (x y : ℕ) → (verify ≡ true → y ≡ x) → (verify && not (x == y)) ≡ false
checksum_good false x y h = refl
checksum_good true x y h = ground (arith, h refl)

take-prefix : (xs ys : List ℕ) → take (length xs) (xs ++ ys) ≡ xs
take-prefix xs ys =
    take-append_left (length xs) xs ys (omega arith) ∙ take-all (length xs) xs (omega arith)

drop-prefix : (xs ys : List ℕ) → drop (length xs) (xs ++ ys) ≡ ys
drop-prefix xs ys =
    drop-append_right (length xs) xs ys (omega arith) ∙ ap (λ k. drop k ys) (none_left (length xs))
  where
    none_left : (n : ℕ) → n - n ≡ 0
    none_left n = omega arith

module _ {F : Type 0} (crc : List ℕ → ℕ) (dec : List ℕ → ℕ → Option (List ℕ))
    (file_pread : F → ℕ → ℕ → Option (List ℕ)) (z : CompressionFile) (file : F)
    (codes blocks : List (List ℕ)) (st : Stored crc dec file_pread z file codes blocks)
    (offset cnt first original first_idx end_idx : ℕ)
    (loc : Locates z blocks offset cnt first original first_idx end_idx) where
  abbrev pub at_place : ℕ → ℕ
  at_place i =
      place crc dec file_pread z file codes blocks st offset cnt first original first_idx end_idx
        loc i

  abbrev pub a_slot : (i : ℕ) → i < end_idx → Slot crc dec z codes blocks i
  a_slot i to =
      slot_at crc dec file_pread z file codes blocks st offset cnt first original first_idx end_idx
        loc i to

  abbrev pub a_reader : ℕ → ℕ → List ℕ → BlockReader F
  a_reader from i buf =
      reader crc dec file_pread z file codes blocks st offset cnt first original first_idx end_idx
        loc (at_place i - at_place from) from i buf

  abbrev pub AFilled : ℕ → List ℕ → Type 0
  AFilled from buf =
      Filled crc dec file_pread z file codes blocks st offset cnt first original first_idx end_idx
        loc from buf

  abbrev pub a_block : (i : ℕ) → i < end_idx → Block
  a_block i to =
      block_at crc dec file_pread z file codes blocks st offset cnt first original first_idx end_idx
        loc i to

  module _ (i from : ℕ) (buf : List ℕ) (to : i < end_idx) (held : from ≤ i)
      (fits : at_place (suc i) - at_place from ≤ max_read_size) (filled : AFilled from buf) where
    -- The bytes of the code, in the file below and in the buffer.
    code_bytes :
        drop (at_place i) st.bytes
        ≡ (a_slot i to).is_code.payload
          ++ ((a_slot i to).is_code.check ++ (concat (a_slot i to).codes_after ++ st.rest))
    code_bytes =
        let s = a_slot i to in
        let more = concat s.codes_after ++ st.rest in
        drop-pos crc dec file_pread z file codes blocks st i s
        ∙ ap (λ l. l ++ more) s.is_code.parts
        ∙ append_assoc s.is_code.payload s.is_code.check more

    in_window :
        (n o : ℕ)
        → o + n ≤ length (a_slot i to).code
        → take n (drop (at_place i - at_place from + o) buf)
          ≡ take n (drop (at_place i + o) st.bytes)
    in_window n o within =
        let next = pos-suc crc dec file_pread z file codes blocks st i (a_slot i to) in
        slice-Filled crc dec file_pread z file codes blocks st offset cnt first original first_idx
          end_idx loc n o from i buf filled held
          (omega (
            arith,
            next,
            pos_le crc dec file_pread z file codes blocks st from i held,
            pos_le crc dec file_pread z file codes blocks st (suc i) end_idx (omega arith),
          ))

    buffer-payload :
        buffer crc dec (a_reader from i buf) (a_block i to) ≡ (a_slot i to).is_code.payload
    buffer-payload =
        let c = (a_slot i to).is_code in
        let n = length c.payload in
        ap (λ k. take n (drop k buf)) (omega arith)
        ∙ in_window n 0 (omega (arith, ap length c.parts, length-append c.payload c.check))
        ∙ ap (λ k. take n (drop k st.bytes)) (omega arith)
        ∙ ap (take n) code_bytes
        ∙ take-prefix c.payload _

    crc32_code-check :
        z.verify ≡ true
        → crc32_code crc dec (a_reader from i buf) (a_block i to)
          ≡ crc (a_slot i to).is_code.payload
    crc32_code-check v =
        let c = (a_slot i to).is_code in
        let four : length c.check ≡ 4 = c.check_of ∙ ap (λ b. if b then 4 else 0) v in
        ap little_endian (
          in_window 4 (length c.payload)
            (omega (arith, ap length c.parts, length-append c.payload c.check))
          ∙ ap (take 4) (
              sym (drop-drop (length c.payload) (at_place i) st.bytes)
              ∙ ap (drop (length c.payload)) code_bytes
              ∙ drop-prefix c.payload _)
          ∙ ap (λ k. take k (c.check ++ (concat (a_slot i to).codes_after ++ st.rest))) (sym four)
          ∙ take-prefix c.check (concat (a_slot i to).codes_after ++ st.rest))
        ∙ c.checks v

    size_of : start blocks (suc i) ≡ start blocks i + length (a_slot i to).raw
    size_of =
        let s = a_slot i to in
        sum-take-suc i (lengths blocks) (lengths s.blocks_after) (length s.raw)
          (drop-lengths i blocks ∙ ap lengths s.from_raw)

    -- The block is good: `n` bytes of its part are copied.
    pub attempt-copied :
        (raw dst : List ℕ) (n : ℕ)
        → z.valid ≡ 1
        → first_idx ≤ i
        → n ≤ (a_block i to).cp_len
        → (raw1 : List ℕ) × (attempt crc dec z (a_reader from i buf) (a_block i to) raw dst n
            ≡ copied (take n (drop (first - start blocks i) (a_slot i to).raw)) raw1)
    unfolding attempt
    attempt-copied raw dst n valid onward short =
        let s = a_slot i to in
        let c = s.is_code in
        let part : ℕ = first - start blocks i in
        let within = cp_end-within z blocks offset cnt first original first_idx end_idx loc i to in
        let busy =
          cp_begin-before z blocks offset cnt first original first_idx end_idx loc i onward to in
        let reach : part + n ≤ length s.raw = omega (arith, size_of, within, busy) in
        let full : (z.valid == 2) ≡ false = ground arith in
        let good : (z.verify
              && not (
                  crc (buffer crc dec (a_reader from i buf) (a_block i to))
                  == crc32_code crc dec (a_reader from i buf) (a_block i to)))
            ≡ false =
          checksum_good z.verify _ _ (λ v. crc32_code-check v ∙ sym (ap crc buffer-payload)) in
        let no_part : ((a_block i to).cp_len == z.block_size && n == (a_block i to).cp_len) ≡ true
            → part + n ≤ length s.raw
            → part ≡ 0 =
          λ t r. ground (arith, t, r, c.fits_block) in
        elim (Bool-cases ((a_block i to).cp_len == z.block_size && n == (a_block i to).cp_len)) [
          | inl t ↦ (
            raw,
            rw (good, full, t, buffer-payload, c.plain)
                (ap (λ xs. copied xs raw)
                  (take-append_left n s.raw (drop (length s.raw) dst) (omega arith)
                    ∙ ap (λ k. take n (drop k s.raw)) (sym (no_part t reach)))),
          )
          | inr t ↦ (
            overwrite raw s.raw,
            rw (good, full, t, buffer-payload, c.plain)
                (ap (λ xs. copied xs (overwrite raw s.raw))
                  (ap (take n) (drop-append_left part s.raw (drop (length s.raw) raw) (omega arith))
                    ∙ take-append_left n (drop part s.raw) (drop (length s.raw) raw)
                        (omega (arith, length-drop part s.raw)))),
          )
        ]

    -- With any retries left, the block is used at once.
    pub use_block-copy :
        (trim : F → ℕ → ℕ → F × Bool) (retry : ℕ) (raw dst : List ℕ) (n : ℕ)
        → z.valid ≡ 1
        → first_idx ≤ i
        → n ≤ (a_block i to).cp_len
        → (raw1 : List ℕ) × (use_block crc dec file_pread trim retry z
              (a_reader from i buf)
              (a_block i to)
              raw
              dst
              n
            ≡ used_copy
                (a_reader from i buf)
                (take n (drop (first - start blocks i) (a_slot i to).raw))
                raw1)
    unfolding use_block
    use_block-copy trim zero raw dst n valid onward short =
        let r = attempt-copied raw dst n valid onward short in (r.0, rw (r.1) refl)
    use_block-copy trim (suc retry) raw dst n valid onward short =
        let r = attempt-copied raw dst n valid onward short in (r.0, rw (r.1) refl)

    -- The part of the block in the original file.
    pub part-whole :
        (n : ℕ)
        → first_idx ≤ i
        → n ≤ (a_block i to).cp_len
        → take n (drop (first - start blocks i) (a_slot i to).raw)
          ≡ take n (drop (start blocks i + (first - start blocks i)) (concat blocks))
    part-whole n onward short =
        let s = a_slot i to in
        let part : ℕ = first - start blocks i in
        let within = cp_end-within z blocks offset cnt first original first_idx end_idx loc i to in
        let busy =
          cp_begin-before z blocks offset cnt first original first_idx end_idx loc i onward to in
        let reach : part + n ≤ length s.raw = omega (arith, size_of, within, busy) in
        let rest = concat s.blocks_after in
        sym (
          ap (take n) (
            sym (drop-drop part (start blocks i) (concat blocks))
            ∙ ap (λ l. drop part (drop (start blocks i) l)) (sym (append-nil (concat blocks)))
            ∙ ap (drop part) (
                drop-concat i blocks []
                ∙ append-nil (concat (drop i blocks))
                ∙ ap concat s.from_raw)
            ∙ drop-append_left part s.raw rest (omega arith))
          ∙ take-append_left n (drop part s.raw) rest (omega (arith, length-drop part s.raw)))
