-- ===== src/Zfile/Builder/RoundTrip.antt =====
-- What `ZFileBuilder` of src/overlaybd/zfile/zfile.cpp writes, `zfile_decompress` gives back.
use mathlib.Core.List.{append-nil}
use dadi_fast_cdc.Prelude.{
  ℕ, suc, ◌+◌, ◌-◌, ◌*◌, ◌/◌, ◌^◌, ◌≤◌, ◌<◌, ◌≡◌, refl, sym, ap, ◌∙◌, Option, some, Bool, true,
  false,
}
use dadi_fast_cdc.Prelude.{
  List, [], ◌++◌, arith, length, take, drop, concat, lengths, length-concat,
}
use dadi_fast_cdc.Zfile.JumpTable.{JumpTable, built, build}
use dadi_fast_cdc.Zfile.JumpTable.Built.{IsTable}
use dadi_fast_cdc.Zfile.JumpTable.Total.{build-IsTable}
use dadi_fast_cdc.Zfile.BlockReader.{CompressionFile, max_read_size}
use dadi_fast_cdc.Zfile.Pread.Stored.{Stored}
use dadi_fast_cdc.Zfile.Pread.Fixed.{IsFixed}
use dadi_fast_cdc.Zfile.Decompress.{success, zfile_decompress}
use dadi_fast_cdc.Zfile.Decompress.Whole.{Takes, zfile_decompress-Fixed}
use dadi_fast_cdc.Zfile.Builder.{
  HeaderTrailer, ZFileBuilder, empty_header, set_flags, init, write_all, fini,
}
use dadi_fast_cdc.Zfile.Builder.Opened.{opened, no_table, AreCodes-opened, AreCodes-size}
use dadi_fast_cdc.Zfile.Builder.Written.{Compresses}
use dadi_fast_cdc.Zfile.Builder.Session.{Written}
use dadi_fast_cdc.Zfile.Builder.Writes.{write_all-Written}
use dadi_fast_cdc.Zfile.Builder.Fini.{Rewrites, Finished, fini-Finished}

module _ {D E : Type 0} (crc32c_salt crc32c : List ℕ → ℕ)
    (compress decompress : List ℕ → ℕ → Option (List ℕ)) (write_to : D → List ℕ → D × Option ℕ)
    (pwrite_to : D → List ℕ → ℕ → D × Option ℕ) (file_pread : D → ℕ → ℕ → Option (List ℕ))
    (trim : D → ℕ → ℕ → D × Bool) (pack : HeaderTrailer → List ℕ) (block_size : ℕ) (verify : Bool)
    (longest : ℕ) (contents : D → List ℕ) (takes : Takes write_to contents)
    (rewrites : Rewrites pwrite_to contents pack)
    (reads : (d : D) (n p : ℕ)
      → p + n ≤ length (contents d)
      → file_pread d n p ≡ some (take n (drop p (contents d))))
    (laws : Compresses crc32c_salt decompress compress block_size longest)
    (write_out : E → List ℕ → E × Option ℕ) (contents_out : E → List ℕ)
    (takes_out : Takes write_out contents_out) (busy : 0 < block_size) where
  abbrev template : CompressionFile
  template = opened block_size verify no_table 0

  abbrev header_bytes : List ℕ
  header_bytes = pack (set_flags empty_header true false true false)

  abbrev Held : ZFileBuilder D → List ℕ → ℕ → Type 0
  Held b whole raw =
      Written crc32c_salt crc32c compress decompress write_to pwrite_to pack template longest
        contents takes laws busy header_bytes b whole raw

  abbrev Ended : ZFileBuilder D → List ℕ → Type 0
  Ended b whole =
      Finished crc32c_salt crc32c compress decompress write_to pwrite_to pack template longest
        contents takes laws busy header_bytes rewrites (rewrites.packed _) b whole

  init-Written :
      (dest : D)
      → contents dest ≡ []
      → (b : ZFileBuilder D) × (init crc32c_salt crc32c compress write_to pwrite_to pack block_size
            verify dest
          ≡ (b, true))
        × Held b [] 0
  unfolding init
  init-Written dest empty = rw (takes.all dest header_bytes) (
    _,
    refl,
    record {
      codes = [];
      blocks = [];
      stores = record {
        stored =
            takes.behind dest header_bytes
            ∙ ap (λ l. l ++ header_bytes) empty
            ∙ sym (append-nil header_bytes);
        coded = tt;
        lens = refl;
        offset = omega arith;
        short = tt;
      };
      full = tt;
      all = refl;
      short = busy;
      raw_of = refl;
    },
  )

  Ended-Stored :
      (b : ZFileBuilder D) (whole : List ℕ) (t : JumpTable) (f : Ended b whole)
      → IsTable t 512 (lengths f.codes)
      → length whole < 2 ^ 40
      → Stored crc32c_salt decompress file_pread
          (opened block_size verify t b.raw_data_size)
          b.dest
          f.codes
          f.blocks
  Ended-Stored b whole t f table low =
      let size = AreCodes-size crc32c_salt decompress template f.codes f.blocks f.coded in
      let bytes = length-concat f.blocks in
      record {
        bytes = contents b.dest;
        begin = 512;
        rest = f.rest;
        reads = λ n p h. reads b.dest n p h;
        held = f.held;
        before = omega (arith, f.size);
        low = omega (
          arith,
          f.size,
          f.rest_of,
          size.0,
          size.1,
          size.2,
          bytes,
          ap length f.all,
          length-concat f.codes,
        );
        table = table;
        coded =
            AreCodes-opened crc32c_salt decompress block_size verify false [] no_table t 0
              b.raw_data_size f.codes f.blocks f.coded;
      }

  Ended-IsFixed :
      (b : ZFileBuilder D) (whole : List ℕ) (t : JumpTable) (f : Ended b whole)
      → block_size ≤ max_read_size
      → length whole < 2 ^ 40
      → IsFixed (opened block_size verify t b.raw_data_size) f.blocks
  Ended-IsFixed b whole t f small low =
      let bytes = length-concat f.blocks in
      record {
        fixed = refl;
        full = f.full;
        size = omega (arith, f.raw_of, bytes, ap length f.all);
        low = omega (arith, bytes, ap length f.all);
        some_block = busy;
        block_size = small;
        valid = refl;
      }

  -- Round trip of `ZFileBuilder` and `zfile_decompress`: for block sizes of 1 to 65536 by which 65536
  -- divided is a power of two, a compressor that takes every block, into at most `longest` bytes with
  -- the checksum, which fit the buffer of the reader, and all but one code of a group the deltas of
  -- the jump table, a checksum of 32 bits, headers of 512 bytes, files that take every write and read
  -- what they hold, the one of the builder empty at first, and less than 2^40 bytes: the builder takes
  -- them in writes of any sizes, `fini` succeeds, with the header written again or not, the jump table
  -- of the block lengths can be built, and the file so opened is decompressed to the bytes that were
  -- written.
  pub decompress-write_all :
      (k : ℕ) (m_buf raw raw_buf : List ℕ) (bufs : List (List ℕ)) (again : Bool) (dest : D)
      (dst : E)
      → contents dest ≡ []
      → block_size ≤ 65536
      → 65536 / block_size ≡ 2 ^ k
      → (2 ^ k - 1) * longest < 65535
      → length (concat bufs) < 2 ^ 40
      → (b0 : ZFileBuilder D) × (b1 : ZFileBuilder D) × (b2 : ZFileBuilder D) × (t : JumpTable)
        × (dst1 : E) × (init crc32c_salt crc32c compress write_to pwrite_to pack block_size verify
              dest
            ≡ (b0, true))
        × (write_all crc32c_salt crc32c compress write_to pwrite_to pack block_size verify b0 bufs
            ≡ some (b1, true))
        × (fini crc32c_salt crc32c compress write_to pwrite_to pack block_size verify again b1
            ≡ (b2, true))
        × (build b2.block_len 512 block_size verify ≡ built t)
        × (zfile_decompress crc32c_salt decompress file_pread trim m_buf raw raw_buf
              (suc (length (concat bufs)))
              write_out
              (suc (length (concat bufs)))
              (opened block_size verify t b2.raw_data_size)
              b2.dest
              dst
            ≡ some (success dst1))
        × (contents_out dst1 ≡ contents_out dst ++ concat bufs)
  decompress-write_all k m_buf raw raw_buf bufs again dest dst empty small power few low =
      let whole = concat bufs in
      let first = init-Written dest empty in
      let written =
        write_all-Written crc32c_salt crc32c compress decompress write_to pwrite_to pack template
          longest contents takes laws busy header_bytes (first.0) bufs [] first.2 in
      let ended =
        fini-Finished crc32c_salt crc32c compress decompress write_to pwrite_to pack template
          longest contents takes laws busy header_bytes rewrites (rewrites.packed _) again
          (written.0) whole written.2 in
      let b2 = ended.0 in
      let f : Ended b2 whole = ended.2 in
      let table =
        build-IsTable k (lengths f.codes) 512 block_size verify longest busy power few f.short in
      let t = table.0 in
      let st = Ended-Stored b2 whole t f table.2 low in
      let back =
        zfile_decompress-Fixed crc32c_salt decompress file_pread trim m_buf raw raw_buf
          (suc (length whole)) write_out contents_out takes_out
          (opened block_size verify t b2.raw_data_size) b2.dest f.codes f.blocks st
          (Ended-IsFixed b2 whole t f small low) (suc (length whole)) dst
          (omega (
            arith,
            (AreCodes-size crc32c_salt decompress template f.codes f.blocks f.coded).0,
            length-concat f.blocks,
            ap length f.all,
          ))
          (omega (arith, ap length f.all)) in
      (
        first.0,
        written.0,
        b2,
        t,
        back.0,
        first.1,
        written.1,
        ended.1,
        ap (λ l. build l 512 block_size verify) f.lens ∙ table.1,
        back.1,
        back.2 ∙ ap (λ l. contents_out dst ++ l) f.all,
      )
