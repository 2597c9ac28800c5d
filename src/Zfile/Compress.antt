-- ===== src/Zfile/Compress.antt =====
-- `zfile_compress` of src/overlaybd/zfile/zfile.cpp, with FastCDC or with blocks of one size, from
-- the compressor on. `read_from` reads the original file on, `none` for an error; `write_to` and
-- `pwrite_to` write the zfile, as for the builder; `pack` gives the bytes of a header or trailer.
-- `compress_batch` gives the codes of a batch; `nbatch`, the checksums and MD5 are parameters too.
-- A buffer is just the bytes that were read: where the chunker reads behind them, there is no
-- result. It is cut before its first batch is compressed, for a chunk does not depend on that.
pub mod Blocks
pub mod Batches
pub mod Loop
pub mod Layout
pub mod Written
pub mod RoundTrip
pub mod Tests
use dadi_fast_cdc.Prelude.{ℕ, zero, suc, ◌+◌, ◌*◌, ◌%◌, ◌^◌, Option, none, some, Bool, true, false}
use dadi_fast_cdc.Prelude.{List, [], ◌∷◌, ◌++◌, ltb, leb, ◌==◌, if◌then◌else◌, length, drop}
use dadi_fast_cdc.FastCdc.Globals.{Globals}
use dadi_fast_cdc.Zfile.Chunker.{Chunker, Shared, construct}
use dadi_fast_cdc.Zfile.ChunkLoop.{Batch, chunk_buffer, fixed_chunks}
use dadi_fast_cdc.Zfile.Builder.{
  HeaderTrailer, empty_header, set_flags, bytes_of, index_bytes, buf_size, space,
}

-- The options in `CompressArgs`.
pub record CompressArgs : Type 0 where
  pub block_size : ℕ
  pub dict_size : ℕ
  pub verify : Bool
  pub overwrite_header : Bool
  pub use_fastcdc : Bool
  pub fastcdc_min_size : ℕ
  pub fastcdc_avg_size : ℕ
  pub fastcdc_max_size : ℕ

-- The options and the FastCDC flag of a header.
pub record Options : Type 0 where
  pub block_size : ℕ
  pub dict_size : ℕ
  pub verify : Bool
  pub is_fastcdc : Bool

-- `opt`, adjusted for FastCDC, and `set_fastcdc`.
abbrev pub header_options : CompressArgs → Options
header_options args = record {
  block_size = if args.use_fastcdc then args.fastcdc_max_size else args.block_size;
  dict_size = args.dict_size;
  verify = args.verify;
  is_fastcdc = args.use_fastcdc;
}

-- The variables of `zfile_compress`, and the file that it writes.
pub record Compression (D : Type 0) : Type 0 where
  pub dest : D
  pub moffset : ℕ
  pub block_len : List ℕ
  pub raw_block_len : List ℕ
  pub infile_size : ℕ
  pub shared : Shared

-- A write of less than all the bytes, or of a negative result, is an error.
abbrev pub took : Option ℕ → ℕ → Bool
took none len = false
took (some n) len = leb len n

-- The index must be written to the byte.
abbrev pub took_just : Option ℕ → ℕ → Bool
took_just none len = false
took_just (some n) len = n == len

abbrev pub not_negative : Option ℕ → Bool
not_negative none = false
not_negative (some n) = true

-- After a step that may fail.
abbrev pub proceed :
    {D R : Type 0} → Compression D × Bool → (Compression D → R) → (Compression D → R) → R
proceed (s, false) fail rest = fail s
proceed (s, true) fail rest = rest s

abbrev pub stop : {D : Type 0} → Compression D → Compression D × Bool
stop s = (s, false)

-- A block of `code_len` bytes, with its checksum, is written.
abbrev pub push_lens : {D : Type 0} → Compression D → D → ℕ → ℕ → Compression D × Bool
push_lens s dest code_len raw_len = (
  record s {
    dest = dest;
    block_len = s.block_len ++ (code_len ∷ []);
    raw_block_len = s.raw_block_len ++ (raw_len ∷ []);
    moffset = s.moffset + code_len;
  },
  true,
)

module _ {D : Type 0} (crc32c_salt : List ℕ → ℕ)
    (compress_batch : List ℕ → List ℕ → ℕ → Option (List (List ℕ)))
    (write_to : D → List ℕ → D × Option ℕ) (o : Options) where
  -- The writes of a block.
  unfoldable pub append_code : Compression D → List ℕ → ℕ → Compression D × Bool
  append_code s code raw_len =
      let p = write_to s.dest code in
      let q = write_to (p.0) (bytes_of (crc32c_salt code)) in
      if took (p.1) (length code)
      then (if o.verify
          then (if took (q.1) 4
              then push_lens s (q.0) (length code + 4) raw_len
              else (record s { dest = q.0 }, false))
          else push_lens s (p.0) (length code) raw_len)
      else (record s { dest = p.0 }, false)

  -- The loop over a batch; there are as many codes as chunks.
  unfoldable pub append_codes : Compression D → List ℕ → List (List ℕ) → Compression D × Bool
  append_codes s [] codes = (s, true)
  append_codes s (len ∷ lens) [] = (s, true)
  append_codes s (len ∷ lens) (code ∷ codes) =
      proceed (append_code s code len) stop (λ s1. append_codes s1 lens codes)

  abbrev pub with_codes : Compression D → List ℕ → Option (List (List ℕ)) → Compression D × Bool
  with_codes s lens none = (s, false)
  with_codes s lens (some codes) = append_codes s lens codes

  -- `n * buf_size`, where `BUF_SIZE` is a `size_t`.
  abbrev pub dst_capacity : ℕ → ℕ
  dst_capacity n = n * (o.block_size + buf_size) % 2 ^ 64

  -- A batch of chunks of the buffer `raw_data` is compressed and written.
  unfoldable pub append_batch : List ℕ → Compression D → Batch → Compression D × Bool
  append_batch raw_data s b =
      with_codes s b.lens
        (compress_batch (drop b.from raw_data) b.lens (dst_capacity (length b.lens)))

  unfoldable pub append_batches : List ℕ → Compression D → List Batch → Compression D × Bool
  append_batches raw_data s [] = (s, true)
  append_batches raw_data s (b ∷ bs) =
      proceed (append_batch raw_data s b) stop (λ s1. append_batches raw_data s1 bs)

-- Without FastCDC all chunks of a buffer are one batch, if there is one.
abbrev pub fixed_batches : List ℕ → List Batch
fixed_batches [] = []
fixed_batches (len ∷ lens) = record { from = 0; lens = len ∷ lens } ∷ []

unfoldable pub cut_buffer : ℕ → Options → Chunker → Globals → List ℕ → Option (List Batch × Globals)
cut_buffer nbatch o c g raw_data =
    let readn = length raw_data in
    if o.is_fastcdc
    then chunk_buffer c nbatch g raw_data readn
    else some (fixed_batches (fixed_chunks (suc readn) o.block_size readn), g)

module _ {D S : Type 0} (crc32c_salt : List ℕ → ℕ)
    (compress_batch : List ℕ → List ℕ → ℕ → Option (List (List ℕ)))
    (write_to : D → List ℕ → D × Option ℕ) (read_from : S → ℕ → S × Option (List ℕ)) (nbatch : ℕ)
    (o : Options) (c : Chunker) where
  abbrev pub failed_loop : Compression D → Option (Compression D × Bool)
  failed_loop s = some (s, false)

  -- `infile_size += readn`, then the batches of the buffer.
  abbrev pub batches_of :
      List ℕ
      → Compression D
      → Option (List Batch × Globals)
      → (Compression D → Option (Compression D × Bool))
      → Option (Compression D × Bool)
  batches_of raw_data s none rest = none
  batches_of raw_data s (some (bs, g)) rest =
      let s1 = record s {
        infile_size = s.infile_size + length raw_data;
        shared = record s.shared { globals = g };
      } in
      proceed (append_batches crc32c_salt compress_batch write_to o raw_data s1 bs) failed_loop rest

  -- The result of the read: 0 ends the loop.
  abbrev pub buffer_read :
      Compression D
      → Option (List ℕ)
      → (List ℕ → Option (Compression D × Bool))
      → Option (Compression D × Bool)
  buffer_read s none rest = some (s, false)
  buffer_read s (some []) rest = some (s, true)
  buffer_read s (some (x ∷ xs)) rest = rest (x ∷ xs)

  -- `while (true)`, on fuel: each round but the last reads a byte at least.
  unfoldable pub compress_loop : ℕ → S → Compression D → Option (Compression D × Bool)
  compress_loop zero src s = none
  compress_loop (suc fuel) src s =
      let p = read_from src (o.block_size * nbatch % 2 ^ 32) in
      buffer_read s (p.1) (λ raw_data.
        batches_of raw_data s (cut_buffer nbatch o c s.shared.globals raw_data)
          (λ s1. compress_loop fuel (p.0) s1))

-- The header as it is written first.
abbrev pub first_header : HeaderTrailer
first_header = set_flags empty_header true false true false

module _ {D : Type 0} (crc32c : List ℕ → ℕ) (write_to : D → List ℕ → D × Option ℕ)
    (pwrite_to : D → List ℕ → ℕ → D × Option ℕ) (pack : Options → HeaderTrailer → List ℕ)
    (o : Options) where
  abbrev pub trailer : Compression D → HeaderTrailer
  trailer s =
      set_flags
        (record first_header {
          index_crc = crc32c (index_bytes s.block_len);
          index_offset = s.moffset;
          index_size = length s.block_len;
          original_file_size = s.infile_size;
        })
        false true true false

  -- The trailer, and the header again where that is wanted.
  unfoldable pub write_trailer : Bool → Compression D → Compression D × Bool
  write_trailer overwrite_header s =
      let p = write_to s.dest (pack o (trailer s)) in
      let q = pwrite_to (p.0) (pack o (set_flags (trailer s) true false true true)) 0 in
      if not_negative (p.1)
      then (if overwrite_header
          then (record s { dest = q.0 }, not_negative (q.1))
          else (record s { dest = p.0 }, true))
      else (record s { dest = p.0 }, false)

  -- From the index on.
  unfoldable pub write_indexes : Bool → Compression D → Compression D × Bool
  write_indexes overwrite_header s =
      let index = index_bytes s.block_len in
      let raw_index = index_bytes s.raw_block_len in
      let p = write_to s.dest index in
      let q = write_to (p.0) raw_index in
      if took_just (p.1) (length index)
      then (if o.is_fastcdc
          then (if took_just (q.1) (length raw_index)
              then write_trailer overwrite_header (record s { dest = q.0 })
              else (record s { dest = q.0 }, false))
          else write_trailer overwrite_header (record s { dest = p.0 }))
      else (record s { dest = p.0 }, false)

-- The chunker, and FastCDC's variables, when FastCDC is used.
abbrev pub new_chunker : (List ℕ → List ℕ) → CompressArgs → Shared → Chunker × Shared
new_chunker md5 args shared =
    if args.use_fastcdc
    then construct md5 shared args.fastcdc_min_size args.fastcdc_avg_size args.fastcdc_max_size
    else (record { m_min_size = 0; m_avg_size = 0; m_max_size = 0 }, shared)

module _ {D S : Type 0} (md5 : List ℕ → List ℕ) (crc32c_salt crc32c : List ℕ → ℕ)
    (compress_batch : List ℕ → List ℕ → ℕ → Option (List (List ℕ)))
    (write_to : D → List ℕ → D × Option ℕ) (pwrite_to : D → List ℕ → ℕ → D × Option ℕ)
    (pack : Options → HeaderTrailer → List ℕ) (read_from : S → ℕ → S × Option (List ℕ))
    (nbatch : ℕ) where
  -- After the loop.
  abbrev pub loop_ended :
      CompressArgs → Option (Compression D × Bool) → Option (Compression D × Bool)
  loop_ended args none = none
  loop_ended args (some p) = some (
      proceed p stop
        (write_indexes crc32c write_to pwrite_to pack (header_options args) args.overwrite_header))

  unfoldable pub zfile_compress : ℕ → CompressArgs → Shared → S → D → Option (Compression D × Bool)
  zfile_compress fuel args shared src dest =
      let o = header_options args in
      let p = write_to dest (pack o first_header) in
      let chunker = new_chunker md5 args shared in
      let s : Compression D = record {
        dest = p.0;
        moffset = space + args.dict_size;
        block_len = [];
        raw_block_len = [];
        infile_size = 0;
        shared = if not_negative (p.1) then chunker.1 else shared;
      } in
      if not_negative (p.1)
      then loop_ended args (
          compress_loop crc32c_salt compress_batch write_to read_from nbatch o (chunker.0) fuel src
            s)
      else some (s, false)
