-- ===== src/Zfile/Decompress.antt =====
-- `zfile_decompress` and `zfile_validation_check` of src/overlaybd/zfile/zfile.cpp, from the opened
-- file on. The destination is a parameter: `write dst xs`, with the number written, `none` for an
-- error. The buffers that are not initialised are the same in each call.
pub mod Whole
mod Tests
use dadi_fast_cdc.Prelude.{ℕ, zero, suc, ◌+◌, ◌-◌, min, Option, none, some, Bool, true, false}
use dadi_fast_cdc.Prelude.{List, ltb, ◌==◌, if◌then◌else◌, length, take, drop}
use dadi_fast_cdc.Zfile.BlockReader.{CompressionFile, overwrite}
use dadi_fast_cdc.Zfile.Pread.{Result, returned, failed, pread}

-- 0, or -1, with the destination as it is then.
pub data Outcome (D : Type 0) : Type 0 where
  success failure : D → Outcome D

module _ {F : Type 0} (crc32c_salt : List ℕ → ℕ) (decompress : List ℕ → ℕ → Option (List ℕ))
    (file_pread : F → ℕ → ℕ → Option (List ℕ)) (trim : F → ℕ → ℕ → F × Bool)
    (m_buf raw raw_buf : List ℕ) (read_fuel : ℕ) where
  module _ {D : Type 0} (write : D → List ℕ → D × Option ℕ) where
    -- After the write of `readn` bytes; `rest` is the loop from the next offset on.
    abbrev pub after_write : ℕ → D × Option ℕ → (D → Option (Outcome D)) → Option (Outcome D)
    after_write readn (dst, none) rest = some (failure dst)
    after_write readn (dst, some writen) rest =
        if writen == readn then rest dst else some (failure dst)

    -- After a `pread` of `len` bytes.
    abbrev pub after_pread :
        ℕ → D → Option (Result F) → (F → ℕ → D → Option (Outcome D)) → Option (Outcome D)
    after_pread len dst none rest = none
    after_pread len dst (some (failed file e)) rest = some (failure dst)
    after_pread len dst (some (returned file n out)) rest =
        let readn = if ltb len n then len else n in
        if n == 0
        then some (failure dst)
        else after_write readn (write dst (take readn (overwrite raw_buf out))) (rest file readn)

    -- `while (offset < raw_data_size)`, on fuel.
    unfoldable pub decompress_from : ℕ → CompressionFile → F → D → ℕ → Option (Outcome D)
    decompress_from zero z file dst offset = none
    decompress_from (suc fuel) z file dst offset =
        let len = min z.block_size (z.original_file_size - offset) in
        if ltb offset z.original_file_size
        then after_pread len dst
            (pread crc32c_salt decompress file_pread trim read_fuel z file m_buf raw false raw_buf
              len offset)
            (λ file1 readn dst1. decompress_from fuel z file1 dst1 (offset + readn))
        else some (success dst)

    unfoldable pub zfile_decompress : ℕ → CompressionFile → F → D → Option (Outcome D)
    zfile_decompress fuel z file dst = decompress_from fuel z file dst 0

  -- One step of the check: whether all of the range was read.
  abbrev pub after_check : ℕ → Option (Result F) → (F → Option Bool) → Option Bool
  after_check len none rest = none
  after_check len (some (failed file e)) rest = some false
  after_check len (some (returned file n out)) rest = if n == len then rest file else some false

  unfoldable pub check_from : ℕ → CompressionFile → F → ℕ → Option Bool
  check_from zero z file offset = none
  check_from (suc fuel) z file offset =
      let len = min z.block_size (z.original_file_size - offset) in
      if ltb offset z.original_file_size
      then after_check len
          (pread crc32c_salt decompress file_pread trim read_fuel z file m_buf raw false raw_buf len
            offset)
          (λ file1. check_from fuel z file1 (offset + z.block_size))
      else some true

  -- With `FLAG_VALID_CRC_CHECK`, and a file that has checksums.
  unfoldable pub zfile_validation_check : ℕ → CompressionFile → F → Option Bool
  zfile_validation_check fuel z file =
      if z.verify then check_from fuel (record z { valid = 2 }) file 0 else some false
