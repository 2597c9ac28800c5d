-- ===== src/Zfile/Builder.antt =====
-- `compress_data` and `ZFileBuilder` of src/overlaybd/zfile/zfile.cpp, the writer that takes the
-- original file in pieces of any size. The file below is a parameter, `write` with the number
-- written and `none` for an error, and `pwrite`; so are the compressor, `none` for -1, the two
-- checksums, and `pack`, the bytes of a header or trailer with its digest.
pub mod Written
pub mod Session
pub mod Writes
pub mod Fini
pub mod Opened
pub mod RoundTrip
pub mod Tests
use dadi_fast_cdc.Prelude.{
  ℕ, zero, suc, ◌+◌, ◌-◌, ◌*◌, ◌/◌, ◌%◌, Option, none, some, Bool, true, false,
}
use dadi_fast_cdc.Prelude.{List, [], ◌∷◌, ◌++◌, ltb, ◌==◌, if◌then◌else◌, length, take, drop}

-- `BUF_SIZE`, and `HeaderTrailer::SPACE`.
abbrev pub buf_size : ℕ
buf_size = 512

abbrev pub space : ℕ
space = 512

-- The flags of a `HeaderTrailer` that the builder sets, and the fields that `fini` fills in.
pub record HeaderTrailer : Type 0 where
  pub header : Bool
  pub data_file : Bool
  pub sealed : Bool
  pub header_overwrite : Bool
  pub digest_enabled : Bool
  pub index_offset : ℕ
  pub index_size : ℕ
  pub original_file_size : ℕ
  pub index_crc : ℕ

-- What `write_header_trailer` sets; `at_offset` is `offset != -1`.
abbrev pub set_flags : HeaderTrailer → Bool → Bool → Bool → Bool → HeaderTrailer
set_flags ht is_header is_sealed is_data_file at_offset = record ht {
  header = is_header;
  sealed = is_sealed;
  data_file = is_data_file;
  header_overwrite = if at_offset then true else ht.header_overwrite;
  digest_enabled = true;
}

-- A `uint32_t` in memory.
abbrev pub bytes_of : ℕ → List ℕ
bytes_of n = n % 256 ∷ (n / 256 % 256 ∷ (n / 65536 % 256 ∷ (n / 16777216 % 256 ∷ [])))

abbrev pub index_bytes : List ℕ → List ℕ
index_bytes [] = []
index_bytes (n ∷ ns) = bytes_of n ++ index_bytes ns

-- `m_ht` is kept packed in the file; `reserved` is `reserved_buf[0 .. reserved_size - 1]`.
pub record ZFileBuilder (D : Type 0) : Type 0 where
  pub dest : D
  pub moffset : ℕ
  pub raw_data_size : ℕ
  pub block_len : List ℕ
  pub reserved : List ℕ
  pub ht : HeaderTrailer

abbrev pub empty_header : HeaderTrailer
empty_header = record {
  header = false;
  data_file = false;
  sealed = false;
  header_overwrite = false;
  digest_enabled = false;
  index_offset = 0;
  index_size = 0;
  original_file_size = 0;
  index_crc = 0;
}

-- `compress_data`: the bytes put into `dest_buf`, of `dest_len` bytes, or an error.
module _ (crc32c_salt : List ℕ → ℕ) (compress : List ℕ → ℕ → Option (List ℕ)) where
  abbrev pub with_crc : Bool → Option (List ℕ) → Option (List ℕ)
  with_crc gen_crc none = none
  with_crc gen_crc (some []) = none
  with_crc gen_crc (some (y ∷ ys)) =
      some (if gen_crc then (y ∷ ys) ++ bytes_of (crc32c_salt (y ∷ ys)) else y ∷ ys)

  unfoldable pub compress_data : List ℕ → ℕ → Bool → Option (List ℕ)
  compress_data buf dest_len gen_crc = with_crc gen_crc (compress buf dest_len)

module _ {D : Type 0} (crc32c_salt crc32c : List ℕ → ℕ) (compress : List ℕ → ℕ → Option (List ℕ))
    (write_to : D → List ℕ → D × Option ℕ) (pwrite_to : D → List ℕ → ℕ → D × Option ℕ)
    (pack : HeaderTrailer → List ℕ) (block_size : ℕ) (verify : Bool) where
  abbrev pub ok : Option ℕ → Bool
  ok none = false
  ok (some n) = true

  abbrev pub wrote : Option ℕ → ℕ → Bool
  wrote none len = false
  wrote (some n) len = n == len

  -- `write_header_trailer` to the end of the file; only a negative result is an error.
  abbrev pub write_header_trailer : ZFileBuilder D → Bool → Bool → Bool → ZFileBuilder D × Bool
  write_header_trailer b is_header is_sealed is_data_file =
      let ht = set_flags b.ht is_header is_sealed is_data_file false in
      let p = write_to b.dest (pack ht) in (record b { ht = ht; dest = p.0 }, ok (p.1))

  unfoldable pub init : D → ZFileBuilder D × Bool
  init dest =
      write_header_trailer
        (record {
          dest = dest;
          moffset = space;
          raw_data_size = 0;
          block_len = [];
          reserved = [];
          ht = empty_header;
        })
        true false true

  abbrev pub write_code : ZFileBuilder D → Option (List ℕ) → ZFileBuilder D × Bool
  write_code b none = (b, false)
  write_code b (some code) =
      let p = write_to b.dest code in
      if wrote (p.1) (length code)
      then (
        record b {
          dest = p.0;
          block_len = b.block_len ++ (length code ∷ []);
          moffset = b.moffset + length code;
        },
        true,
      )
      else (record b { dest = p.0 }, false)

  unfoldable pub write_buffer : ZFileBuilder D → List ℕ → ZFileBuilder D × Bool
  write_buffer b buf =
      write_code b (compress_data crc32c_salt compress buf (block_size + buf_size) verify)

  -- After a block of the loop of `write`.
  abbrev pub and_then :
      ZFileBuilder D × Bool
      → (ZFileBuilder D → Option (ZFileBuilder D × Bool))
      → Option (ZFileBuilder D × Bool)
  and_then (b, false) rest = some (b, false)
  and_then (b, true) rest = rest b

  abbrev pub then_write :
      Option (ZFileBuilder D × Bool)
      → (ZFileBuilder D → Option (ZFileBuilder D × Bool))
      → Option (ZFileBuilder D × Bool)
  then_write none rest = none
  then_write (some p) rest = and_then p rest

  -- The loop of `write`, on fuel.
  unfoldable pub write_blocks : ℕ → ZFileBuilder D → List ℕ → Option (ZFileBuilder D × Bool)
  write_blocks zero b buf = none
  write_blocks (suc fuel) b buf =
      if length buf == 0
      then some (b, true)
      else if ltb (length buf) block_size
      then some (record b { reserved = buf }, true)
      else and_then (write_buffer b (take block_size buf))
          (λ b1. write_blocks fuel b1 (drop block_size buf))

  -- `write`. A round of the loop takes a byte at least, so that one more than there are is enough.
  unfoldable pub write : ZFileBuilder D → List ℕ → Option (ZFileBuilder D × Bool)
  write b buf =
      let b1 = record b { raw_data_size = b.raw_data_size + length buf } in
      let delta = block_size - length b.reserved in
      if length b.reserved == 0
      then write_blocks (suc (length buf)) b1 buf
      else if ltb (length b.reserved + length buf) block_size
      then some (record b1 { reserved = b.reserved ++ buf }, true)
      else and_then (write_buffer b1 (b.reserved ++ take delta buf))
          (λ b2. write_blocks (suc (length buf)) (record b2 { reserved = [] }) (drop delta buf))

  -- What a caller does: one `write` after another, up to one that fails.
  unfoldable pub write_all : ZFileBuilder D → List (List ℕ) → Option (ZFileBuilder D × Bool)
  write_all b [] = some (b, true)
  write_all b (buf ∷ bufs) = then_write (write b buf) (λ b1. write_all b1 bufs)

  -- The end of `fini`, `overwrite_header` included.
  abbrev pub overwrite_header : Bool → ZFileBuilder D × Bool → ZFileBuilder D × Bool
  overwrite_header again (b, false) = (b, false)
  overwrite_header false (b, true) = (b, true)
  overwrite_header true (b, true) =
      let ht = set_flags b.ht true false true true in
      let p = pwrite_to b.dest (pack ht) 0 in (record b { ht = ht; dest = p.0 }, ok (p.1))

  abbrev pub write_index : Bool → ZFileBuilder D → ZFileBuilder D × Bool
  write_index again b =
      let index = index_bytes b.block_len in
      let p = write_to b.dest index in
      let ht = record b.ht {
        index_crc = crc32c index;
        index_offset = b.moffset;
        index_size = length b.block_len;
        original_file_size = b.raw_data_size;
      } in
      if wrote (p.1) (length index)
      then overwrite_header again
          (write_header_trailer (record b { dest = p.0; ht = ht }) false true true)
      else (record b { dest = p.0 }, false)

  abbrev pub after_reserved : Bool → ZFileBuilder D × Bool → ZFileBuilder D × Bool
  after_reserved again (b, false) = (b, false)
  after_reserved again (b, true) = write_index again b

  unfoldable pub fini : Bool → ZFileBuilder D → ZFileBuilder D × Bool
  fini again b =
      if length b.reserved == 0
      then write_index again b
      else after_reserved again (write_buffer b b.reserved)
