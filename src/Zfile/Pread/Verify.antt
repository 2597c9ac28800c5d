-- ===== src/Zfile/Pread/Verify.antt =====
-- The checksums and the retries of `pread` of src/overlaybd/zfile/zfile.cpp, whatever the file below
-- and the compressor do.
use dadi_fast_cdc.Prelude.{ℕ, ◌≡◌, Option, some, Bool, ◌&&◌}
use dadi_fast_cdc.Prelude.{List, if◌then◌else◌, ◌==◌, take, drop}
use dadi_fast_cdc.Zfile.BlockReader.{CompressionFile, BlockReader, Block, overwrite}
use dadi_fast_cdc.Zfile.Pread.{
  Attempt, checked, bad_checksum, bad_block, copied, Used, used_check, used_copy, broken, outside,
  buffer, crc32_code,
}

module _ (crc : List ℕ → ℕ) (dec : List ℕ → ℕ → Option (List ℕ)) {F : Type 0}
    (file_pread : F → ℕ → ℕ → Option (List ℕ)) (trim : F → ℕ → ℕ → F × Bool) (z : CompressionFile)
    (b : Block) where
  -- The checksum in the buffer of the reader is that of the code in it.
  abbrev pub IsChecked : BlockReader F → Type 0
  IsChecked r = crc (buffer crc dec r b) ≡ crc32_code crc dec r b

  -- The whole block goes to the buffer of the caller.
  abbrev pub direct : ℕ → Bool
  direct n = b.cp_len == z.block_size && n == b.cp_len

  -- The bytes copied, and the buffer on the stack after that, of what the code decompresses to.
  abbrev pub IsPart : BlockReader F → List ℕ → List ℕ → ℕ → List ℕ → List ℕ → Type 0
  IsPart r raw dst n xs raw1 =
      (ys : List ℕ) × (dec (buffer crc dec r b) z.block_size ≡ some ys)
      × (xs ≡ (
          if direct n
          then take n (overwrite dst ys)
          else take n (drop b.cp_begin (overwrite raw ys))))
      × (raw1 ≡ (if direct n then raw else overwrite raw ys))

  abbrev Sound : BlockReader F → List ℕ → List ℕ → ℕ → Attempt → Type 0
  Sound r raw dst n checked = IsChecked r
  Sound r raw dst n (copied xs raw1) = IsChecked r × IsPart r raw dst n xs raw1
  Sound r raw dst n bad_checksum = Unit
  Sound r raw dst n bad_block = Unit

  -- A block that was used was checked as it then is in the buffer.
  abbrev pub Verified : List ℕ → List ℕ → ℕ → Used F → Type 0
  Verified raw dst n (used_check r) = IsChecked r
  Verified raw dst n (used_copy r xs raw1) = IsChecked r × IsPart r raw dst n xs raw1
  Verified raw dst n (broken file e) = Unit
  Verified raw dst n outside = Unit
