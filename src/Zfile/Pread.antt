-- ===== src/Zfile/Pread.antt =====
-- `CompressionFile::pread` of src/overlaybd/zfile/zfile.cpp. The compressor and the checksum are
-- parameters: `decompress src dst_len`, the bytes put into the destination, `none` for -1, and
-- `crc32c_salt`. The buffer of the caller is `held`, of which `out` are the bytes written so far;
-- `raw` is the buffer on the stack. The offset, an `off_t`, is one that is not negative. The
-- definitions come to `none` only for a read outside the jump table, for a signed sum of the offset
-- and the count that overflows, or without fuel.
pub mod Stored
mod Clip
pub mod Parts
pub mod Blocks
pub mod Copy
pub mod Loop
pub mod FastCdc
pub mod Fixed
pub mod Errors
pub mod Verify
pub mod Tests
mod FixedTests
use dadi_fast_cdc.Prelude.{
  ℕ, zero, suc, ◌+◌, ◌-◌, ◌*◌, ◌%◌, ◌^◌, Option, none, some, Bool, true, false, ◌&&◌, not,
}
use dadi_fast_cdc.Prelude.{List, [], ◌∷◌, ◌++◌, ltb, leb, ◌==◌, if◌then◌else◌, length, take, drop}
use dadi_fast_cdc.Zfile.BlockReader.{
  CompressionFile, Errno, erange, echecksum, enomem, decompress_error, BlockReader, Block,
  max_read_size, overwrite, new_reader, size_sub, begin_block, next_block, reload,
}

-- A number as its bytes stand in memory, the lowest first.
abbrev pub little_endian : List ℕ → ℕ
little_endian [] = 0
little_endian (b ∷ bs) = b + 256 * little_endian bs

-- The order of `ssize_t` on the 64 bits of a number: the number that they stand for, plus 2^63.
abbrev pub biased : ℕ → ℕ
biased n = (n + 2 ^ 63) % 2 ^ 64

-- `cnt` of a count, behind the test of the range: 0 where it is not positive.
unfoldable pub clip : ℕ → ℕ → ℕ → Option ℕ
clip original_file_size count offset =
    let end = offset + biased count in
    let cnt =
      if ltb (biased original_file_size) end then size_sub original_file_size offset else count in
    if leb (2 ^ 64) end then none else some (if ltb cnt (2 ^ 63) then cnt else 0)

-- One pass from `again:` on: the block was only checked, or its bytes were copied, or it is bad.
pub data Attempt : Type 0 where
  checked bad_checksum bad_block : Attempt
  copied : List ℕ → List ℕ → Attempt

-- The block after its retries; `outside` is a read outside the jump table.
pub data Used (F : Type 0) : Type 0 where
  used_check : BlockReader F → Used F
  used_copy : BlockReader F → List ℕ → List ℕ → Used F
  broken : F → Errno → Used F
  outside : Used F

-- The result of `pread`: the file below and the number returned with the bytes written, or an error.
pub data Result (F : Type 0) : Type 0 where
  returned : F → ℕ → List ℕ → Result F
  failed : F → Errno → Result F

module _ (crc32c_salt : List ℕ → ℕ) (decompress : List ℕ → ℕ → Option (List ℕ)) where
  -- `block.buffer()`, over `compressed_size`, and `crc32_code()`.
  abbrev pub buffer : {F : Type 0} → BlockReader F → Block → List ℕ
  buffer r b = take b.compressed_size (drop r.buf_offset r.buf)

  abbrev pub crc32_code : {F : Type 0} → BlockReader F → Block → ℕ
  crc32_code r b = little_endian (take 4 (drop (r.buf_offset + b.compressed_size) r.buf))

  -- A full block goes directly to the buffer of the caller, of which `dst` is left.
  abbrev pub into_buf : Option (List ℕ) → List ℕ → List ℕ → ℕ → Attempt
  into_buf none raw dst n = bad_block
  into_buf (some xs) raw dst n = copied (take n (overwrite dst xs)) raw

  abbrev pub into_raw : Option (List ℕ) → List ℕ → ℕ → ℕ → Attempt
  into_raw none raw cp_begin n = bad_block
  into_raw (some xs) raw cp_begin n =
      copied (take n (drop cp_begin (overwrite raw xs))) (overwrite raw xs)

  unfoldable pub attempt :
      {F : Type 0} → CompressionFile → BlockReader F → Block → List ℕ → List ℕ → ℕ → Attempt
  attempt z r b raw dst n =
      if z.verify && not (crc32c_salt (buffer r b) == crc32_code r b)
      then bad_checksum
      else if z.valid == 2
      then checked
      else if b.cp_len == z.block_size && n == b.cp_len
      then into_buf (decompress (buffer r b) z.block_size) raw dst n
      else into_raw (decompress (buffer r b) z.block_size) raw b.cp_begin n

  module _ {F : Type 0} (file_pread : F → ℕ → ℕ → Option (List ℕ))
      (trim : F → ℕ → ℕ → F × Bool) where
    -- What an attempt comes to when no retry is left.
    abbrev pub last_attempt : BlockReader F → Attempt → Used F
    last_attempt r checked = used_check r
    last_attempt r (copied xs raw) = used_copy r xs raw
    last_attempt r bad_checksum = broken r.file echecksum
    last_attempt r bad_block = broken r.file decompress_error

    -- After a reload, with the attempt that follows it.
    abbrev pub after_reload :
        Errno → Option (BlockReader F × Bool) → (BlockReader F → Used F) → Used F
    after_reload e none again = outside
    after_reload e (some (r, false)) again = broken r.file e
    after_reload e (some (r, true)) again = again r

    -- An attempt with a retry left, which a bad checksum takes only with `FLAG_VALID_TRUE`.
    abbrev pub retry_attempt :
        CompressionFile → BlockReader F → Attempt → (BlockReader F → Used F) → Used F
    retry_attempt z r checked again = used_check r
    retry_attempt z r (copied xs raw) again = used_copy r xs raw
    retry_attempt z r bad_checksum again =
        if z.valid == 1
        then after_reload echecksum (reload file_pread trim z r) again
        else broken r.file echecksum
    retry_attempt z r bad_block again =
        after_reload decompress_error (reload file_pread trim z r) again

    unfoldable pub use_block :
        ℕ → CompressionFile → BlockReader F → Block → List ℕ → List ℕ → ℕ → Used F
    use_block zero z r b raw dst n = last_attempt r (attempt z r b raw dst n)
    use_block (suc retry) z r b raw dst n =
        retry_attempt z r (attempt z r b raw dst n) (λ r1. use_block retry z r1 b raw dst n)

    -- Behind the loop.
    abbrev pub finish : BlockReader F → ℕ → ℕ → List ℕ → Result F
    finish r cnt readn out = elim r.eno [
      | some e ↦ failed r.file e
      | none ↦ returned r.file (if ltb cnt readn then cnt else readn) out
    ]

    -- `bytes_to_copy`
    abbrev pub bytes_to_copy : ℕ → ℕ → Block → ℕ
    bytes_to_copy cnt readn b = if ltb cnt (readn + b.cp_len) then cnt - readn else b.cp_len

    -- `for (auto &block : br)`, from a block on, and its parts: the next round, the end of one, and
    -- one block. `prefetch` stands for `buf == nullptr`.
    abbrev pub go_on :
        Option (BlockReader F × Option Block)
        → (BlockReader F × Option Block → Option (Result F))
        → Option (Result F)
    go_on none rest = none
    go_on (some next) rest = rest next

    abbrev pub after_block :
        CompressionFile
        → Used F
        → Block
        → ℕ
        → ℕ
        → List ℕ
        → List ℕ
        → (BlockReader F × Option Block → ℕ → List ℕ → List ℕ → Option (Result F))
        → Option (Result F)
    after_block z outside b cnt readn out raw rest = none
    after_block z (broken file e) b cnt readn out raw rest = some (failed file e)
    after_block z (used_check r) b cnt readn out raw rest =
        go_on (next_block file_pread z r) (λ s. rest s (readn + b.cp_len) out raw)
    after_block z (used_copy r xs raw1) b cnt readn out raw rest =
        go_on (next_block file_pread z r)
          (λ s. rest s (readn + bytes_to_copy cnt readn b) (out ++ xs) raw1)

    abbrev pub one_block :
        CompressionFile
        → Bool
        → List ℕ
        → ℕ
        → BlockReader F × Option Block
        → ℕ
        → List ℕ
        → List ℕ
        → (BlockReader F × Option Block → ℕ → List ℕ → List ℕ → Option (Result F))
        → Option (Result F)
    one_block z prefetch held cnt (r, none) readn out raw rest = some (finish r cnt readn out)
    one_block z prefetch held cnt (r, some b) readn out raw rest =
        if prefetch
        then go_on (next_block file_pread z r) (λ s. rest s (readn + b.cp_len) out raw)
        else if leb cnt readn
        then some (finish r cnt readn out)
        else after_block z
            (use_block 3 z r b raw (drop (length out) held) (bytes_to_copy cnt readn b)) b cnt readn
            out raw rest

    unfoldable pub read_loop :
        ℕ
        → CompressionFile
        → Bool
        → List ℕ
        → ℕ
        → BlockReader F × Option Block
        → ℕ
        → List ℕ
        → List ℕ
        → Option (Result F)
    read_loop zero z prefetch held cnt s readn out raw = none
    read_loop (suc fuel) z prefetch held cnt s readn out raw =
        one_block z prefetch held cnt s readn out raw (read_loop fuel z prefetch held cnt)

    -- `m_buf` and `raw` are not initialised: their contents are parameters. A round takes a block, so
    -- that one round more than there are blocks is enough.
    unfoldable pub pread :
        ℕ → CompressionFile → F → List ℕ → List ℕ → Bool → List ℕ → ℕ → ℕ → Option (Result F)
    pread fuel z file m_buf raw prefetch held count offset =
        if ltb max_read_size z.block_size
        then some (failed file enomem)
        else elim (clip z.original_file_size count offset) [
          | none ↦ none
          | some cnt ↦
              if cnt == 0
              then some (returned file 0 [])
              else go_on (begin_block file_pread z (new_reader z file m_buf offset cnt))
                  (λ s. read_loop fuel z prefetch held cnt s 0 [] raw)
        ]
