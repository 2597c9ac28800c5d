-- ===== src/Zfile/Compress/RoundTrip.antt =====
-- What `zfile_compress` of src/overlaybd/zfile/zfile.cpp writes with FastCDC, `zfile_open_ro` opens
-- and `zfile_decompress` gives back.
use dadi_fast_cdc.Prelude.{
  ℕ, suc, ◌-◌, ◌*◌, ◌/◌, ◌^◌, ◌≤◌, ◌<◌, ◌≡◌, ap, ◌∙◌, Option, some, Bool, true,
}
use dadi_fast_cdc.Prelude.{List, [], ◌++◌, arith, length, lengths, length-concat}
use dadi_fast_cdc.FastCdc.Fingerprint.{IsBytes}
use dadi_fast_cdc.Zfile.Chunker.{Shared}
use dadi_fast_cdc.Zfile.JumpTable.Total.{build-IsTable}
use dadi_fast_cdc.Zfile.BlockReader.{CompressionFile}
use dadi_fast_cdc.Zfile.Decompress.{success, zfile_decompress}
use dadi_fast_cdc.Zfile.Decompress.Whole.{Takes, zfile_decompress-FastCdc}
use dadi_fast_cdc.Zfile.Compress.{Compression, zfile_compress}
use dadi_fast_cdc.Zfile.Compress.Blocks.{Services}
use dadi_fast_cdc.Zfile.Compress.Loop.{Source}
use dadi_fast_cdc.Zfile.Compressor.{run_batch, run_one}
use dadi_fast_cdc.Zfile.Compress.Written.{
  fastcdc_args, opened_zfile, zfile_compress-Written, Written-sizes, Written-Stored,
  Written-IsFastCdc, Written-opened,
}
use dadi_fast_cdc.Zfile.Open.{zfile_open_ro}

module _ {D S E : Type 0} (md5 : List ℕ → List ℕ) (block_size min_size avg_size max_size : ℕ)
    (verify again : Bool) (nbatch : ℕ) (w : Services D max_size nbatch)
    (read_from : S → ℕ → S × Option (List ℕ)) (left : S → List ℕ) (source : Source read_from left)
    (trim : D → ℕ → ℕ → D × Bool) (write_out : E → List ℕ → E × Option ℕ)
    (contents_out : E → List ℕ) (takes_out : Takes write_out contents_out) where
  -- Round trip of `zfile_compress` with FastCDC and LZ4, `zfile_open_ro` and `zfile_decompress`: for
  -- sizes with 0 < `fastcdc_min_size` ≤ `fastcdc_max_size` ≤ 65536, where 65536 divided by the
  -- larger one is a power of two, no dictionary, an LZ4 that takes every block into at most
  -- `longest` bytes with the checksum, in the room that it has and in the buffer of the reader, and
  -- gives it back, a checksum of 32 bits, batches of less than 2^32 bytes, all but one code of a
  -- group within the deltas of the jump table, headers of 512 bytes that are unpacked as they were
  -- packed, with magic and digest, an original file of less than 2^40 bytes, which reads give piece
  -- by piece, and a zfile that is empty at first, takes every write and reads what it holds:
  -- `zfile_compress`, with fuel for one round more than there are bytes, succeeds, with the header
  -- written again or not; `zfile_open_ro`, with verification or not, opens the zfile; and
  -- `zfile_decompress` of what it opened, with as much fuel, succeeds and writes the original file
  -- behind what the destination had.
  pub decompress-zfile_compress :
      (k : ℕ) (shared : Shared) (src : S) (dest : D) (dst : E) (m_buf raw raw_buf : List ℕ)
      (verify_reads : Bool)
      → 0 < min_size
      → min_size ≤ max_size
      → max_size ≤ 65536
      → 65536 / max_size ≡ 2 ^ k
      → (2 ^ k - 1) * w.longest < 65535
      → IsBytes (left src)
      → length (left src) < 2 ^ 40
      → w.contents dest ≡ []
      → (s : Compression D) × (z : CompressionFile) × (dst1 : E) × (zfile_compress md5 w.crc32c_salt
            w.disk.crc32c
            (run_batch w.lz4_compress nbatch w.max_dst_size)
            w.write_to
            w.pwrite_to
            w.pack
            read_from
            nbatch
            (suc (length (left src)))
            (fastcdc_args block_size min_size avg_size max_size verify again)
            shared
            src
            dest
          ≡ some (s, true))
        × (zfile_open_ro w.disk verify_reads s.dest ≡ some (s.dest, z))
        × (zfile_decompress w.crc32c_salt
              (run_one w.lz4_decompress max_size)
              w.disk.file_pread
              trim
              m_buf
              raw
              raw_buf
              (suc (length (left src)))
              write_out
              (suc (length (left src)))
              z
              s.dest
              dst
            ≡ some (success dst1))
        × (contents_out dst1 ≡ contents_out dst ++ left src)
  decompress-zfile_compress k shared src dest dst m_buf raw raw_buf verify_reads low ordered small
        power few bytes below empty =
      let whole = left src in
      let r =
        zfile_compress-Written md5 block_size min_size avg_size max_size verify again nbatch w
          read_from left source shared src dest (suc (length whole)) low ordered bytes (omega arith)
          empty in
      let s = r.0 in
      let f = r.1 in
      let kept = f.kept in
      let sizes =
        Written-sizes md5 block_size min_size avg_size max_size verify again nbatch w read_from left
          source s whole f below in
      let table =
        build-IsTable k (lengths kept.codes) 512 max_size verify w.longest (omega arith) power few
          kept.short in
      let t = table.0 in
      let back_out =
        zfile_decompress-FastCdc w.crc32c_salt (run_one w.lz4_decompress max_size) w.disk.file_pread
          trim m_buf raw raw_buf (suc (length whole)) write_out contents_out takes_out
          (opened_zfile md5 block_size min_size avg_size max_size verify again nbatch w read_from
            left source s t)
          f.dest kept.codes kept.blocks
          (Written-Stored md5 block_size min_size avg_size max_size verify again nbatch w read_from
            left source s whole f t below table.2)
          (Written-IsFastCdc md5 block_size min_size avg_size max_size verify again nbatch w
            read_from left source s whole f t below small)
          (suc (length whole)) dst (omega arith) (omega (arith, sizes.0))
          (omega (arith, length-concat kept.blocks, sizes.1)) in
      (
        record s { dest = f.dest },
        opened_zfile md5 block_size min_size avg_size max_size verify again nbatch w read_from left
            source s t,
        back_out.0,
        r.2,
        Written-opened md5 block_size min_size avg_size max_size verify again nbatch w read_from
            left source s whole f t verify_reads below small table.1,
        back_out.1,
        back_out.2 ∙ ap (λ l. contents_out dst ++ l) kept.all,
      )
