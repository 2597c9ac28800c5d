-- ===== src/Zfile/Pread/Errors.antt =====
-- A block whose code is longer than the buffer of the reader, in src/overlaybd/zfile/zfile.cpp.
use dadi_fast_cdc.Prelude.{
  ℕ, zero, suc, ◌+◌, ◌-◌, ◌^◌, ◌≤◌, ◌<◌, min, ◌≡◌, refl, ap, Option, none, some, Bool, true, false,
}
use dadi_fast_cdc.Prelude.{List, ltb, ◌==◌, arith, length, ==_iff}
use dadi_fast_cdc.Zfile.JumpTable.{at_index}
use dadi_fast_cdc.Zfile.BlockReader.{
  CompressionFile, BlockReader, erange, max_read_size, checksum_size, overwrite, new_reader,
  get_blocks_length, read_blocks, get_current_block, begin_block,
}
use dadi_fast_cdc.Zfile.Pread.{failed, read_loop, pread}
use dadi_fast_cdc.Zfile.Pread.Stored.{size_sub-lem}
use dadi_fast_cdc.Zfile.Pread.Clip.{clip-min}

module _ {F : Type 0} (crc : List ℕ → ℕ) (dec : List ℕ → ℕ → Option (List ℕ))
    (file_pread : F → ℕ → ℕ → Option (List ℕ)) (trim : F → ℕ → ℕ → F × Bool)
    (z : CompressionFile) where
  between :
      (i j p q : ℕ)
      → at_index z.jump_table i ≡ some p
      → at_index z.jump_table j ≡ some q
      → p ≤ q
      → q < 2 ^ 64
      → get_blocks_length z i j ≡ some (q - p)
  unfolding get_blocks_length
  between i j p q at_i at_j le low = rw (at_i, at_j) (ap some (size_sub-lem q p le low))

  get_current_block-erange :
      (r : BlockReader F) (p q : ℕ)
      → at_index z.jump_table r.begin_idx ≡ some p
      → at_index z.jump_table r.idx ≡ some p
      → at_index z.jump_table (suc r.idx) ≡ some q
      → p + max_read_size + checksum_size z < q
      → q < 2 ^ 64
      → get_current_block z r ≡ some (record r { buf_offset = 0; eno = some erange }, none)
  unfolding get_current_block
  get_current_block-erange r p q at_b at_p at_q long low =
      let nothing : p - p ≡ 0 = omega arith in
      let code = size_sub-lem (q - p) (checksum_size z) (omega arith) (omega arith) in
      let over : ltb max_read_size (0 + (q - p - checksum_size z)) ≡ true = ground arith in
      rw
        (
          between r.begin_idx r.idx p p at_b at_p (omega arith) (omega arith),
          between r.idx (suc r.idx) p q at_p at_q (omega arith) low,
          nothing,
          code,
          over,
        )
        refl

  read_blocks-full :
      (r : BlockReader F) (begin end p e : ℕ) (xs : List ℕ)
      → at_index z.jump_table begin ≡ some p
      → at_index z.jump_table end ≡ some e
      → p + max_read_size ≤ e
      → e < 2 ^ 64
      → file_pread r.file max_read_size p ≡ some xs
      → length xs ≡ max_read_size
      → read_blocks file_pread z r begin end ≡ some (record r { buf = overwrite r.buf xs }, true)
  unfolding read_blocks
  read_blocks-full r begin end p e xs at_p at_e full low got size =
      let window : min max_read_size (e - p) ≡ max_read_size = omega arith in
      let ok : (length xs == max_read_size) ≡ true = (==_iff (length xs) max_read_size).1 size in
      rw (at_p, between begin end p e at_p at_e (omega arith) low, window, got, ok) refl

  -- `pread` of a file whose block size is not 0 and fits the buffer, of one byte or more before the end
  -- of the original file, which is below 2^63 as is the end of the range, where the code of the first block that it needs is longer than 64 KiB without its
  -- checksum, and the file below reads all that it is asked for: it fails with ERANGE.
  pub pread-erange :
      (file : F) (fuel count offset p q e : ℕ) (m_buf raw held xs : List ℕ) (r : BlockReader F)
      → 0 < fuel
      → 0 < z.block_size
      → z.block_size ≤ max_read_size
      → z.original_file_size < 2 ^ 63
      → offset + count < 2 ^ 63
      → offset < z.original_file_size
      → 0 < count
      → new_reader z file m_buf offset (min count (z.original_file_size - offset)) ≡ r
      → at_index z.jump_table r.begin_idx ≡ some p
      → at_index z.jump_table r.idx ≡ some p
      → at_index z.jump_table (suc r.idx) ≡ some q
      → at_index z.jump_table r.end_idx ≡ some e
      → p + max_read_size + checksum_size z < q
      → q ≤ e
      → e < 2 ^ 64
      → file_pread r.file max_read_size p ≡ some xs
      → length xs ≡ max_read_size
      → pread crc dec file_pread trim fuel z file m_buf raw false held count offset
        ≡ some (failed r.file erange)
  unfolding pread begin_block read_loop
  pread-erange file zero count offset p q e m_buf raw held xs r some_fuel sized small low_size below
        inside busy found at_b at_p at_q at_e long up low got size =
      absurd (omega arith)
  pread-erange file (suc fuel) count offset p q e m_buf raw held xs r some_fuel sized small low_size
        below inside busy found at_b at_p at_q at_e long up low got size =
      let size_ok : ltb max_read_size z.block_size ≡ false = ground arith in
      let clipped = clip-min z.original_file_size count offset low_size below in
      let some_bytes : (min count (z.original_file_size - offset) == 0) ≡ false = ground arith in
      let filled = record r { buf = overwrite r.buf xs } in
      rw
        (
          size_ok,
          clipped,
          some_bytes,
          found,
          read_blocks-full r r.idx r.end_idx p e xs at_p at_e (omega arith) low got size,
          get_current_block-erange filled p q at_b at_p at_q long (omega arith),
        )
        refl
