-- ===== src/Zfile/Builder/Opened.antt =====
-- A zfile that `ZFileBuilder` of src/overlaybd/zfile/zfile.cpp has written, as `zfile_open_ro` opens it.
use dadi_fast_cdc.Prelude.{ℕ, ◌*◌, ◌≤◌, ◌≡◌, Option, Bool, false}
use dadi_fast_cdc.Prelude.{List, [], ◌∷◌, arith, length, lengths, sum}
use dadi_fast_cdc.Zfile.JumpTable.{JumpTable}
use dadi_fast_cdc.Zfile.BlockReader.{CompressionFile}
use dadi_fast_cdc.Zfile.Pread.Stored.{AreCodes}
use dadi_fast_cdc.Zfile.Builder.{index_bytes}

-- The file as `zfile_open_ro` opens it, with the FastCDC flag and the sizes, over its jump table and
-- its original size.
abbrev pub opened_with : ℕ → Bool → Bool → List ℕ → JumpTable → ℕ → CompressionFile
opened_with block_size verify is_fastcdc sizes t size = record {
  jump_table = t;
  raw_block_sizes = sizes;
  fastcdc = is_fastcdc;
  block_size = block_size;
  verify = verify;
  original_file_size = size;
  valid = 1;
}

-- Without FastCDC.
abbrev pub opened : ℕ → Bool → JumpTable → ℕ → CompressionFile
opened block_size verify t size = opened_with block_size verify false [] t size

abbrev pub no_table : JumpTable
no_table = record { group_size = 0; partial_offset = []; deltas = [] }

-- The codes do not depend on the table.
module _ (crc : List ℕ → ℕ) (dec : List ℕ → ℕ → Option (List ℕ)) (block_size : ℕ) (verify : Bool)
    (is_fastcdc : Bool) (sizes : List ℕ) (t t1 : JumpTable) (n n1 : ℕ) where
  pub AreCodes-opened :
      (cs bs : List (List ℕ))
      → AreCodes crc dec (opened block_size verify t n) cs bs
      → AreCodes crc dec (opened_with block_size verify is_fastcdc sizes t1 n1) cs bs
  AreCodes-opened [] [] h = h
  AreCodes-opened [] (b ∷ bs) h = absurd h
  AreCodes-opened (c ∷ cs) [] h = absurd h
  AreCodes-opened (c ∷ cs) (b ∷ bs) h =
      let i = h.0 in
      (
        record {
          payload = i.payload;
          check = i.check;
          parts = i.parts;
          check_of = i.check_of;
          checks = i.checks;
          plain = i.plain;
          some_payload = i.some_payload;
          some_bytes = i.some_bytes;
          fits_block = i.fits_block;
          fits_buf = i.fits_buf;
        },
        AreCodes-opened cs bs h.1,
      )

-- There are no more blocks than bytes, and the codes are bounded.
pub AreCodes-size :
    (crc : List ℕ → ℕ) (dec : List ℕ → ℕ → Option (List ℕ)) (z : CompressionFile)
    (cs bs : List (List ℕ))
    → AreCodes crc dec z cs bs
    → (length bs ≤ sum (lengths bs))
      × (sum (lengths cs) ≤ length bs * 65536)
      × (length (index_bytes (lengths cs)) ≡ 4 * length bs)
AreCodes-size crc dec z [] [] h = (omega arith, omega arith, omega arith)
AreCodes-size crc dec z [] (b ∷ bs) h = absurd h
AreCodes-size crc dec z (c ∷ cs) [] h = absurd h
AreCodes-size crc dec z (c ∷ cs) (b ∷ bs) h =
    let r = AreCodes-size crc dec z cs bs h.1 in
    (omega (arith, r.0, h.0.some_bytes), omega (arith, r.1, h.0.fits_buf), omega (arith, r.2))
