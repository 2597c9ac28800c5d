-- ===== src/Zfile/Compress/Tests.antt =====
-- 7000 bytes, compressed with FastCDC to chunks of at most 4096 bytes, opened and decompressed.
use dadi_fast_cdc.Prelude.{
  ℕ, zero, suc, ◌<◌, ◌≡◌, refl, sym, ap, Option, some, Bool, true, false, arith,
}
use dadi_fast_cdc.Prelude.{List, [], ◌∷◌, ◌++◌, ◌==◌, if◌then◌else◌, length, take, drop, replicate}
use dadi_fast_cdc.FastCdc.Tests.{large, zeros, length-zeros, zeros-IsBytes}
use dadi_fast_cdc.Zfile.Chunker.{Shared}
use dadi_fast_cdc.Zfile.BlockReader.{CompressionFile}
use dadi_fast_cdc.Zfile.Decompress.{success, zfile_decompress}
use dadi_fast_cdc.Zfile.Pread.Tests.{read_bytes, no_trim}
use dadi_fast_cdc.Zfile.Builder.{HeaderTrailer}
use dadi_fast_cdc.Zfile.Builder.Session.{take-drop}
use dadi_fast_cdc.Zfile.Builder.Tests.{
  marked, unmarked, sum32, append_to, write_at, contents_of, plus_zero, marked-Compresses,
  append_to-Takes,
}
use dadi_fast_cdc.Zfile.Compressor.{run_batch, run_one}
use dadi_fast_cdc.Zfile.Compress.{Options, Compression, zfile_compress}
use dadi_fast_cdc.Zfile.Compress.Blocks.{Services}
use dadi_fast_cdc.Zfile.Compress.Loop.{Source}
use dadi_fast_cdc.Zfile.Compress.Written.{fastcdc_args}
use dadi_fast_cdc.Zfile.Compress.RoundTrip.{decompress-zfile_compress}
use dadi_fast_cdc.Zfile.Open.{Disk, zfile_open_ro}
use dadi_fast_cdc.Zfile.Open.Parts.{ReadsBack}
use dadi_fast_cdc.Zfile.Open.Laid.{Unpacks}

abbrev pub flag : Bool → ℕ
flag b = if b then 1 else 0

abbrev pub is_set : ℕ → Bool
is_set n = n == 1

is_set-flag : (b : Bool) → is_set (flag b) ≡ b
is_set-flag true = refl
is_set-flag false = refl

-- A header of 512 numbers.
abbrev pub pack_list : Options → HeaderTrailer → List ℕ
pack_list o h =
    o.block_size
    ∷ (o.dict_size
        ∷ (flag o.verify
            ∷ (flag o.is_fastcdc
                ∷ (flag h.header
                    ∷ (flag h.data_file
                        ∷ (flag h.sealed
                            ∷ (flag h.header_overwrite
                                ∷ (flag h.digest_enabled
                                    ∷ (h.index_offset
                                        ∷ (h.index_size
                                            ∷ (h.original_file_size
                                                ∷ (h.index_crc ∷ replicate 499 0))))))))))))

abbrev pub fields_from : List ℕ → List ℕ → Options × HeaderTrailer
fields_from (a ∷ (b ∷ (c ∷ (d ∷ rest))))
      (e ∷ (f ∷ (g ∷ (h ∷ (i ∷ (j ∷ (k ∷ (l ∷ (m ∷ rest1))))))))) =
    (
      record { block_size = a; dict_size = b; verify = is_set c; is_fastcdc = is_set d },
      record {
        header = is_set e;
        data_file = is_set f;
        sealed = is_set g;
        header_overwrite = is_set h;
        digest_enabled = is_set i;
        index_offset = j;
        index_size = k;
        original_file_size = l;
        index_crc = m;
      },
    )
fields_from _ _ = (
  record { block_size = 0; dict_size = 0; verify = false; is_fastcdc = false },
  record {
    header = false;
    data_file = false;
    sealed = false;
    header_overwrite = false;
    digest_enabled = false;
    index_offset = 0;
    index_size = 0;
    original_file_size = 0;
    index_crc = 0;
  },
)

abbrev pub unpack_list : List ℕ → Options × HeaderTrailer
unpack_list xs = fields_from xs (drop 4 xs)

abbrev pub any_bytes : List ℕ → Bool
any_bytes xs = true

abbrev pub size_of : List ℕ → Option ℕ
size_of d = some (length d)

abbrev pub no_evict : List ℕ → List ℕ × Bool
no_evict d = (d, false)

abbrev pub list_disk : Disk (List ℕ)
list_disk = record {
  crc32c = sum32;
  file_pread = read_bytes;
  file_size = size_of;
  verify_magic = any_bytes;
  is_valid = any_bytes;
  unpack = unpack_list;
  evict = no_evict;
}

list-Unpacks : Unpacks pack_list any_bytes any_bytes unpack_list
list-Unpacks = record {
  size = λ o h. refl;
  fields = λ o h.
      rw
        (
          is_set-flag o.verify,
          is_set-flag o.is_fastcdc,
          is_set-flag h.header,
          is_set-flag h.data_file,
          is_set-flag h.sealed,
          is_set-flag h.header_overwrite,
          is_set-flag h.digest_enabled,
        )
        refl;
  magic = λ o h. refl;
  digest = λ o h. refl;
}

list-ReadsBack : (d : List ℕ) → ReadsBack read_bytes size_of d d
list-ReadsBack d = record { reads = λ n p h. refl; size = refl }

abbrev services : Services (List ℕ) 4096 2
services = record {
  crc32c_salt = sum32;
  disk = list_disk;
  lz4_compress = marked;
  lz4_decompress = unmarked;
  max_dst_size = 4128;
  longest = 4101;
  compresses = marked-Compresses;
  room = omega arith;
  some_batch = omega arith;
  low = omega arith;
  write_to = append_to;
  pwrite_to = write_at;
  pack = pack_list;
  contents = contents_of;
  takes = append_to-Takes;
  rewrites = λ o. record {
    all = λ d xs. refl;
    over = λ d xs. ap (λ k. xs ++ drop k d) (plus_zero (length xs));
    packed = λ ht. refl;
  };
  back = list-ReadsBack;
  unpacks = list-Unpacks;
}

abbrev next_bytes : List ℕ → ℕ → List ℕ × Option (List ℕ)
next_bytes src n = (drop n src, some (take n src))

length-take_pos : (n : ℕ) (xs : List ℕ) → 0 < n → 0 < length xs → 0 < length (take n xs)
length-take_pos zero xs h busy = absurd (omega arith)
length-take_pos (suc n) [] h busy = absurd (omega arith)
length-take_pos (suc n) (x ∷ xs) h busy = omega arith

list-Source : Source next_bytes contents_of
list-Source = record {
  piece = λ src n. take n src;
  reads = λ src n. refl;
  some_bytes = λ src n h busy. length-take_pos n src h busy;
  onward = λ src n. sym (take-drop n src);
}

abbrev no_digest : List ℕ → List ℕ
no_digest xs = xs

abbrev shared_state : Shared
shared_state = record { globals = large; s_initialized = true }

decompress-zfile_compress_example :
    (s : Compression (List ℕ)) × (z : CompressionFile) × (dst : List ℕ) × (zfile_compress no_digest
        sum32 sum32
        (run_batch marked 2 4128)
        append_to
        write_at
        pack_list
        next_bytes
        2
        (suc (length zeros))
        (fastcdc_args 4096 2048 3000 4096 true true)
        shared_state
        zeros
        []
      ≡ some (s, true))
    × (zfile_open_ro list_disk true s.dest ≡ some (s.dest, z))
    × (zfile_decompress sum32
          (run_one unmarked 4096)
          read_bytes
          no_trim
          []
          []
          []
          (suc (length zeros))
          append_to
          (suc (length zeros))
          z
          s.dest
          (9 ∷ [])
        ≡ some (success dst))
    × (dst ≡ 9 ∷ zeros)
decompress-zfile_compress_example =
    decompress-zfile_compress no_digest 4096 2048 3000 4096 true true 2 services next_bytes
      contents_of list-Source no_trim append_to contents_of append_to-Takes 4 shared_state zeros []
      (9 ∷ []) [] [] [] true (omega arith) (omega arith) (omega arith) refl (omega arith)
      zeros-IsBytes (omega (arith, length-zeros)) refl
