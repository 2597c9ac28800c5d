-- ===== src/Zfile/Pread/Loop.antt =====
-- The whole loop of `pread` of src/overlaybd/zfile/zfile.cpp, on a zfile that is stored.
use dadi_fast_cdc.Prelude.{
  ℕ, zero, suc, ◌+◌, ◌-◌, ◌≤◌, ◌<◌, ◌≡◌, ◌≢◌, refl, sym, ap, ◌∙◌, inl, inr, Option, none, some,
  Bool, false,
}
use dadi_fast_cdc.Prelude.{
  List, [], ◌++◌, ltb, leb, ◌==◌, Bool-cases, ==_iff, ==_false, arith, length, take, drop,
  drop-drop, concat, take-plus,
}
use dadi_fast_cdc.Zfile.BlockReader.{CompressionFile, BlockReader, Block, max_read_size, new_reader}
use dadi_fast_cdc.Zfile.Pread.{clip, returned, finish, bytes_to_copy, read_loop, pread}
use dadi_fast_cdc.Zfile.Pread.Stored.{Stored, Slot}
use dadi_fast_cdc.Zfile.Pread.Parts.{Locates, start, cp_begin-before, cp_end-within, the_reader}
use dadi_fast_cdc.Zfile.Pread.Blocks.{begin_block-Ready, next_block-Ready, next_block-end}
use dadi_fast_cdc.Zfile.Pread.Copy.{
  at_place, a_slot, a_reader, AFilled, a_block, use_block-copy, part-whole,
}

module _ {F : Type 0} (crc : List ℕ → ℕ) (dec : List ℕ → ℕ → Option (List ℕ))
    (file_pread : F → ℕ → ℕ → Option (List ℕ)) (z : CompressionFile) (file : F)
    (codes blocks : List (List ℕ)) (st : Stored crc dec file_pread z file codes blocks)
    (offset cnt first original first_idx end_idx : ℕ)
    (loc : Locates z blocks offset cnt first original first_idx end_idx)
    (trim : F → ℕ → ℕ → F × Bool) (held : List ℕ) (valid : z.valid ≡ 1) where
  abbrev spot : ℕ → ℕ
  spot i =
      at_place crc dec file_pread z file codes blocks st offset cnt first original first_idx end_idx
        loc i

  abbrev rd : ℕ → ℕ → List ℕ → BlockReader F
  rd from i buf =
      a_reader crc dec file_pread z file codes blocks st offset cnt first original first_idx end_idx
        loc from i buf

  abbrev rd_at : ℕ → ℕ → ℕ → List ℕ → BlockReader F
  rd_at o from i buf =
      the_reader z blocks offset cnt first original first_idx end_idx loc file o from i buf

  abbrev slt : (i : ℕ) → i < end_idx → Slot crc dec z codes blocks i
  slt i to =
      a_slot crc dec file_pread z file codes blocks st offset cnt first original first_idx end_idx
        loc i to

  abbrev blk : (i : ℕ) → i < end_idx → Block
  blk i to =
      a_block crc dec file_pread z file codes blocks st offset cnt first original first_idx end_idx
        loc i to

  abbrev Fill : ℕ → List ℕ → Type 0
  Fill from buf =
      AFilled crc dec file_pread z file codes blocks st offset cnt first original first_idx end_idx
        loc from buf

  -- What has been read, when the loop comes to block `i`.
  record Progress (i readn : ℕ) (out : List ℕ) : Type 0 where
    most : readn ≤ cnt
    along : readn < cnt → readn + first ≡ start blocks i + (first - start blocks i)
    out_of : out ≡ take readn (drop first (concat blocks))

  whole : List ℕ
  whole = take cnt (drop first (concat blocks))

  -- One block more.
  progress-copy :
      (i readn n : ℕ) (out xs : List ℕ) (to : i < end_idx)
      → Progress i readn out
      → readn < cnt
      → first_idx ≤ i
      → n ≡ bytes_to_copy crc dec file_pread trim cnt readn (blk i to)
      → xs ≡ take n (drop (start blocks i + (first - start blocks i)) (concat blocks))
      → (suc i ≡ end_idx → readn + n ≡ cnt) × Progress (suc i) (readn + n) (out ++ xs)
  progress-copy i readn n out xs to p more onward en exs =
      let part : ℕ = first - start blocks i in
      let busy =
        cp_begin-before z blocks offset cnt first original first_idx end_idx loc i onward to in
      let within = cp_end-within z blocks offset cnt first original first_idx end_idx loc i to in
      let at_end : suc i ≡ end_idx
          → (blk i to).cp_len ≡ offset + cnt - 1 - start blocks i + 1 - part =
        λ e. rw ((==_iff (suc i) end_idx).1 e) refl in
      let before_end : suc i ≢ end_idx
          → (blk i to).cp_len ≡ start blocks (suc i) - start blocks i - part =
        λ e. ground (arith, e) in
      let done : suc i ≡ end_idx → readn + n ≡ cnt =
        λ e. ground (arith, at_end e, p.along more, loc.early, en, loc.ends_in i e) in
      (
        done,
        record {
          most = ground (arith, en);
          along = λ less. elim (Bool-cases (suc i == end_idx)) [
            | inl y ↦ absurd (omega (arith, done ((==_iff (suc i) end_idx).0 y)))
            | inr y ↦ ground (
              arith,
              en,
              less,
              p.along more,
              before_end (==_false (suc i) end_idx y),
              busy,
              within,
            )
          ];
          out_of =
              ap (λ l. l ++ xs) p.out_of
              ∙ ap (λ l. take readn (drop first (concat blocks)) ++ l)
                  (exs
                    ∙ ap (λ k. take n (drop k (concat blocks))) (omega (arith, p.along more))
                    ∙ ap (take n) (sym (drop-drop readn first (concat blocks))))
              ∙ sym (take-plus readn n (drop first (concat blocks)));
        },
      )

  finish-whole :
      (i from readn : ℕ) (buf out : List ℕ)
      → readn ≡ cnt
      → out ≡ take readn (drop first (concat blocks))
      → some (finish crc dec file_pread trim (rd from i buf) cnt readn out)
        ≡ some (returned file cnt whole)
  unfolding whole
  finish-whole i from readn buf out all out_of =
      let stop : ltb cnt readn ≡ false = ground arith in rw (stop, out_of, all) refl

  read_loop-none :
      (fuel i from o readn : ℕ) (buf out raw : List ℕ)
      → 0 < fuel
      → readn ≡ cnt
      → out ≡ take readn (drop first (concat blocks))
      → read_loop crc dec file_pread trim fuel z false held cnt
          (rd_at o from i buf, none)
          readn
          out
          raw
        ≡ some (returned file cnt whole)
  unfolding read_loop
  read_loop-none zero i from o readn buf out raw some_fuel all out_of = absurd (omega arith)
  read_loop-none (suc fuel) i from o readn buf out raw some_fuel all out_of =
      finish-whole i from readn buf out all out_of

  read_loop-whole :
      (fuel i from readn : ℕ) (buf out raw : List ℕ) (to : i < end_idx)
      → first_idx ≤ i
      → from ≤ i
      → spot (suc i) - spot from ≤ max_read_size
      → Fill from buf
      → Progress i readn out
      → end_idx - i < fuel
      → read_loop crc dec file_pread trim fuel z false held cnt
          (rd from i buf, some (blk i to))
          readn
          out
          raw
        ≡ some (returned file cnt whole)
  unfolding read_loop
  read_loop-whole zero i from readn buf out raw to onward le fits filled p enough =
      absurd (omega arith)
  read_loop-whole (suc fuel) i from readn buf out raw to onward le fits filled p enough =
      elim (Bool-cases (leb cnt readn)) [
        | inl t ↦ rw t (finish-whole i from readn buf out (ground (arith, p.most)) p.out_of)
        | inr t ↦
            let n = bytes_to_copy crc dec file_pread trim cnt readn (blk i to) in
            let short : n ≤ (blk i to).cp_len = ground arith in
            let used =
              use_block-copy crc dec file_pread z file codes blocks st offset cnt first original
                first_idx end_idx loc i from buf to le fits filled trim 3 raw
                (drop (length out) held) n valid onward short in
            let xs = take n (drop (first - start blocks i) (slt i to).raw) in
            let same =
              part-whole crc dec file_pread z file codes blocks st offset cnt first original
                first_idx end_idx loc i from buf to le fits filled n onward short in
            let step = progress-copy i readn n out xs to p (ground arith) onward refl same in
            rw (t, used.1)
              (elim (Bool-cases (suc i == end_idx)) [
                | inl y ↦
                    let e = (==_iff (suc i) end_idx).0 y in
                    rw
                      (next_block-end crc dec file_pread z file codes blocks st offset cnt first
                        original first_idx end_idx loc i (spot i - spot from) from buf e)
                      (read_loop-none fuel (suc i) from (spot i - spot from) (readn + n) buf
                        (out ++ xs) used.0 (omega arith) (step.0 e) step.1.out_of)
                | inr y ↦
                    let on : suc i < end_idx = ground (arith, ==_false (suc i) end_idx y) in
                    let r =
                      next_block-Ready crc dec file_pread z file codes blocks st offset cnt first
                        original first_idx end_idx loc i to (spot i - spot from) from buf on onward
                        le filled in
                    rw r.state (
                      read_loop-whole fuel (suc i) r.from (readn + n) r.buf (out ++ xs) used.0 on
                        (omega arith) r.held r.fits r.filled step.1 (omega arith))
              ])
      ]

  -- `pread`, where its reader is the one that finds the blocks.
  pub pread-whole :
      (fuel count : ℕ) (m_buf raw : List ℕ)
      → new_reader z file m_buf offset cnt
        ≡ the_reader z blocks offset cnt first original first_idx end_idx loc file 0 first_idx
            first_idx m_buf
      → clip z.original_file_size count offset ≡ some cnt
      → z.block_size ≤ max_read_size
      → length blocks < fuel
      → pread crc dec file_pread trim fuel z file m_buf raw false held count offset
        ≡ some (returned file cnt (take cnt (drop first (concat blocks))))
  unfolding pread whole
  pread-whole fuel count m_buf raw found clipped small enough =
      let r =
        begin_block-Ready crc dec file_pread z file codes blocks st offset cnt first original
          first_idx end_idx loc 0 0 m_buf in
      let start_of : Progress first_idx 0 [] = record {
        most = omega arith;
        along = λ less. omega (arith, loc.begins);
        out_of = refl;
      } in
      let size_ok : ltb max_read_size z.block_size ≡ false = ground arith in
      let some_bytes : (cnt == 0) ≡ false = ground (arith, loc.busy) in
      rw (size_ok, clipped, some_bytes, found, r.state)
        (read_loop-whole fuel first_idx r.from 0 r.buf [] raw loc.forward (omega arith) r.held
          r.fits r.filled start_of (omega (arith, loc.in_range)))
