-- ===== src/Zfile/Pread/Tests.antt =====
-- Reads of small zfiles, for src/overlaybd/zfile/zfile.cpp.
use dadi_fast_cdc.Prelude.{
  ℕ, zero, suc, ◌+◌, ◌≤◌, ◌≡◌, refl, Option, some, Bool, true, false, arith,
}
use dadi_fast_cdc.Prelude.{List, [], ◌∷◌, ◌++◌, take, drop, sum}
use dadi_fast_cdc.Zfile.JumpTable.{JumpTable, at_index}
use dadi_fast_cdc.Zfile.JumpTable.Built.{IsTable}
use dadi_fast_cdc.Zfile.BlockReader.{CompressionFile}
use dadi_fast_cdc.Zfile.Pread.{returned, pread}
use dadi_fast_cdc.Zfile.Pread.Stored.{Stored, IsCode, AreCodes}
use dadi_fast_cdc.Zfile.BlockReader.{BlockReader, Block}
use dadi_fast_cdc.Zfile.Pread.{clip}
use dadi_fast_cdc.Prelude.{none, ◌^◌, ◌-◌}
use dadi_fast_cdc.Zfile.Pread.FastCdc.{IsFastCdc, pread-original}

-- A compressor that leaves the bytes as they are, and the sum as the checksum.
abbrev pub plain : List ℕ → ℕ → Option (List ℕ)
plain src dst_len = some src

abbrev pub read_bytes : List ℕ → ℕ → ℕ → Option (List ℕ)
read_bytes file n p = some (take n (drop p file))

abbrev pub no_trim : List ℕ → ℕ → ℕ → List ℕ × Bool
no_trim file offset len = (file, true)

abbrev pub three_blocks : List (List ℕ)
three_blocks = (1 ∷ (2 ∷ (3 ∷ []))) ∷ ((4 ∷ []) ∷ ((5 ∷ (6 ∷ [])) ∷ []))

abbrev checksum : ℕ → List ℕ
checksum n = n ∷ (0 ∷ (0 ∷ (0 ∷ [])))

abbrev pub three_codes : List (List ℕ)
three_codes = (1 ∷ (2 ∷ (3 ∷ checksum 6))) ∷ ((4 ∷ checksum 4) ∷ ((5 ∷ (6 ∷ checksum 11)) ∷ []))

abbrev pub three_file : List ℕ
three_file =
    0
    ∷ (0 ∷ (1 ∷ (2 ∷ (3 ∷ checksum 6)))
        ++ ((4 ∷ checksum 4) ++ ((5 ∷ (6 ∷ checksum 11)) ++ (9 ∷ []))))

abbrev pub three_table : JumpTable
three_table = record {
  group_size = 16384;
  partial_offset = 2 ∷ [];
  deltas = 0 ∷ (7 ∷ (12 ∷ (18 ∷ [])));
}

abbrev pub three_zfile : CompressionFile
three_zfile = record {
  jump_table = three_table;
  raw_block_sizes = 3 ∷ (1 ∷ (2 ∷ []));
  fastcdc = true;
  block_size = 4;
  verify = true;
  original_file_size = 6;
  valid = 1;
}

three_places :
    (i : ℕ) → i ≤ 3 → at_index three_table i ≡ some (2 + sum (take i (7 ∷ (5 ∷ (6 ∷ [])))))
unfolding at_index
three_places zero h = refl
three_places (suc zero) h = refl
three_places (suc (suc zero)) h = refl
three_places (suc (suc (suc zero))) h = refl
three_places (suc (suc (suc (suc i)))) h = absurd (omega arith)

three_table-IsTable : IsTable three_table 2 (7 ∷ (5 ∷ (6 ∷ [])))
three_table-IsTable = record { places = three_places }

first-IsCode : IsCode sum plain three_zfile (1 ∷ (2 ∷ (3 ∷ checksum 6))) (1 ∷ (2 ∷ (3 ∷ [])))
first-IsCode = record {
  payload = 1 ∷ (2 ∷ (3 ∷ []));
  check = checksum 6;
  parts = refl;
  check_of = refl;
  checks = λ v. refl;
  plain = refl;
  some_payload = omega arith;
  some_bytes = omega arith;
  fits_block = omega arith;
  fits_buf = omega arith;
}

second-IsCode : IsCode sum plain three_zfile (4 ∷ checksum 4) (4 ∷ [])
second-IsCode = record {
  payload = 4 ∷ [];
  check = checksum 4;
  parts = refl;
  check_of = refl;
  checks = λ v. refl;
  plain = refl;
  some_payload = omega arith;
  some_bytes = omega arith;
  fits_block = omega arith;
  fits_buf = omega arith;
}

third-IsCode : IsCode sum plain three_zfile (5 ∷ (6 ∷ checksum 11)) (5 ∷ (6 ∷ []))
third-IsCode = record {
  payload = 5 ∷ (6 ∷ []);
  check = checksum 11;
  parts = refl;
  check_of = refl;
  checks = λ v. refl;
  plain = refl;
  some_payload = omega arith;
  some_bytes = omega arith;
  fits_block = omega arith;
  fits_buf = omega arith;
}

three_codes-AreCodes : AreCodes sum plain three_zfile three_codes three_blocks
three_codes-AreCodes = (first-IsCode, (second-IsCode, (third-IsCode, tt)))

pub three-Stored : Stored sum plain read_bytes three_zfile three_file three_codes three_blocks
three-Stored = record {
  bytes = three_file;
  begin = 2;
  rest = 9 ∷ [];
  reads = λ n p h. refl;
  held = refl;
  before = omega arith;
  low = omega arith;
  table = three_table-IsTable;
  coded = three_codes-AreCodes;
}

pub three-IsFastCdc : IsFastCdc three_zfile three_blocks
three-IsFastCdc = record {
  fastcdc = refl;
  raw_sizes = refl;
  size = refl;
  low = omega arith;
  block_size = omega arith;
  valid = refl;
}

pread-original_example :
    pread sum plain read_bytes no_trim 4 three_zfile three_file [] [] false (0 ∷ (0 ∷ [])) 3 2
    ≡ some (returned three_file 3 (3 ∷ (4 ∷ (5 ∷ []))))
pread-original_example =
    pread-original sum plain read_bytes three_zfile three_file three_codes three_blocks three-Stored
      three-IsFastCdc no_trim [] [] (0 ∷ (0 ∷ [])) 4 3 2 (omega arith) (omega arith)

abbrev first_reader : BlockReader (List ℕ)
first_reader = record {
  file = three_file;
  buf = 1 ∷ (2 ∷ (3 ∷ checksum 6));
  buf_offset = 0;
  begin_idx = 0;
  original_begin_idx = 0;
  idx = 0;
  end_idx = 1;
  original_offset = 0;
  last = 1;
  eno = none;
}

abbrev block_zero : Block
block_zero = record { compressed_size = 3; cp_begin = 0; cp_len = 2 }

-- A count that is negative as an `ssize_t`, and a sum that overflows.
negative_count : clip 9 (2 ^ 64 - 1) 4 ≡ some 0
unfolding clip
negative_count = refl

overflow : clip 9 10 (2 ^ 63 - 4) ≡ none
unfolding clip
overflow = refl
