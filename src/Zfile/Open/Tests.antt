-- ===== src/Zfile/Open/Tests.antt =====
-- A zfile of one block, opened.
use dadi_fast_cdc.Prelude.{ℕ, true, false}
use dadi_fast_cdc.Prelude.{List, [], ◌∷◌, ◌++◌}
use dadi_fast_cdc.Zfile.BlockReader.{CompressionFile}
use dadi_fast_cdc.Zfile.Builder.{HeaderTrailer}
use dadi_fast_cdc.Zfile.Compress.{Options}
use dadi_fast_cdc.Zfile.Compress.Tests.{pack_list}

abbrev one_options : Options
one_options = record { block_size = 4096; dict_size = 0; verify = true; is_fastcdc = true }

abbrev one_header : HeaderTrailer
one_header = record {
  header = true;
  data_file = true;
  sealed = false;
  header_overwrite = true;
  digest_enabled = true;
  index_offset = 518;
  index_size = 1;
  original_file_size = 1;
  index_crc = 6;
}

-- The header, a code of two bytes with its checksum 8, the index and the sizes.
abbrev one_file : List ℕ
one_file =
    pack_list one_options one_header
    ++ (7 ∷ (1 ∷ (8 ∷ (0 ∷ (0 ∷ (0 ∷ (6 ∷ (0 ∷ (0 ∷ (0 ∷ (1 ∷ (0 ∷ (0 ∷ (0 ∷ []))))))))))))))

abbrev one_zfile : CompressionFile
one_zfile = record {
  jump_table = record { group_size = 16; partial_offset = 512 ∷ []; deltas = 0 ∷ (6 ∷ []) };
  raw_block_sizes = 1 ∷ [];
  fastcdc = true;
  block_size = 4096;
  verify = true;
  original_file_size = 1;
  valid = 1;
}
