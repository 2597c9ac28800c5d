-- ===== src/Zfile/Pread/FixedTests.antt =====
-- Reads of zfiles with blocks of one size, and with a block that is too long, for
-- src/overlaybd/zfile/zfile.cpp.
use dadi_fast_cdc.Prelude.{length-replicate}
use dadi_fast_cdc.Prelude.{
  ℕ, zero, suc, ◌+◌, ◌≤◌, ◌<◌, ◌≡◌, refl, sym, Option, none, some, Bool, true, false, arith,
}
use dadi_fast_cdc.Prelude.{List, [], ◌∷◌, take, sum, length, concat, replicate}
use mathlib.Core.List.{append-nil}
use dadi_fast_cdc.Zfile.JumpTable.{at_index}
use dadi_fast_cdc.Zfile.BlockReader.{CompressionFile, BlockReader, new_reader, erange}
use dadi_fast_cdc.Zfile.Pread.{returned, failed, pread}
use dadi_fast_cdc.Zfile.Pread.Stored.{Stored, IsCode}
use dadi_fast_cdc.Zfile.Pread.Errors.{pread-erange}
use dadi_fast_cdc.Zfile.Pread.Fixed.{IsFixed, pread-fixed_start}
use dadi_fast_cdc.Zfile.Pread.Tests.{plain, read_bytes, no_trim}

-- Three blocks of four bytes, the last one shorter, with no checksum.
abbrev fixed_blocks : List (List ℕ)
fixed_blocks = (1 ∷ (2 ∷ (3 ∷ (4 ∷ [])))) ∷ ((5 ∷ (6 ∷ (7 ∷ (8 ∷ [])))) ∷ ((9 ∷ []) ∷ []))

abbrev fixed_file : List ℕ
fixed_file = 0 ∷ concat fixed_blocks

abbrev fixed_zfile : CompressionFile
fixed_zfile = record {
  jump_table = record {
    group_size = 16384;
    partial_offset = 1 ∷ [];
    deltas = 0 ∷ (4 ∷ (8 ∷ (9 ∷ [])));
  };
  raw_block_sizes = [];
  fastcdc = false;
  block_size = 4;
  verify = false;
  original_file_size = 9;
  valid = 1;
}

fixed_places :
    (i : ℕ)
    → i ≤ 3
    → at_index fixed_zfile.jump_table i ≡ some (1 + sum (take i (4 ∷ (4 ∷ (1 ∷ [])))))
unfolding at_index
fixed_places zero h = refl
fixed_places (suc zero) h = refl
fixed_places (suc (suc zero)) h = refl
fixed_places (suc (suc (suc zero))) h = refl
fixed_places (suc (suc (suc (suc i)))) h = absurd (omega arith)

plain-IsCode : (xs : List ℕ) → 0 < length xs → length xs ≤ 4 → IsCode sum plain fixed_zfile xs xs
plain-IsCode xs some_bytes few = record {
  payload = xs;
  check = [];
  parts = sym (append-nil xs);
  check_of = refl;
  checks = λ v. absurd (false_true v);
  plain = refl;
  some_payload = some_bytes;
  some_bytes = some_bytes;
  fits_block = few;
  fits_buf = omega arith;
}
  where
    false_true : false ≡ true → ⊥
    false_true e = cc

nine_bytes-Stored : Stored sum plain read_bytes fixed_zfile fixed_file fixed_blocks fixed_blocks
nine_bytes-Stored = record {
  bytes = fixed_file;
  begin = 1;
  rest = [];
  reads = λ n p h. refl;
  held = refl;
  before = omega arith;
  low = omega arith;
  table = record { places = fixed_places };
  coded = (
    plain-IsCode (1 ∷ (2 ∷ (3 ∷ (4 ∷ [])))) (omega arith) (omega arith),
    (
      plain-IsCode (5 ∷ (6 ∷ (7 ∷ (8 ∷ [])))) (omega arith) (omega arith),
      (plain-IsCode (9 ∷ []) (omega arith) (omega arith), tt),
    ),
  );
}

nine_bytes-IsFixed : IsFixed fixed_zfile fixed_blocks
nine_bytes-IsFixed = record {
  fixed = refl;
  full = (refl, (refl, omega arith));
  size = refl;
  low = omega arith;
  some_block = omega arith;
  block_size = omega arith;
  valid = refl;
}

-- The bytes 5 and 6 of the file are 6 and 7, and a read of them gives 5 and 6.
pread-fixed_start_example :
    pread sum plain read_bytes no_trim 4 fixed_zfile fixed_file [] [] false [] 2 5
    ≡ some (returned fixed_file 2 (5 ∷ (6 ∷ [])))
pread-fixed_start_example =
    pread-fixed_start sum plain read_bytes fixed_zfile fixed_file fixed_blocks fixed_blocks
      nine_bytes-Stored nine_bytes-IsFixed no_trim [] [] [] 4 2 5 (omega arith) (omega arith)

-- One block of 64 KiB whose code is longer.
abbrev long_zfile : CompressionFile
long_zfile = record {
  jump_table = record {
    group_size = 1;
    partial_offset = 512 ∷ (66500 ∷ []);
    deltas = 0 ∷ (0 ∷ []);
  };
  raw_block_sizes = 65536 ∷ [];
  fastcdc = true;
  block_size = 65536;
  verify = true;
  original_file_size = 65536;
  valid = 1;
}

abbrev read_zeros : ℕ → ℕ → ℕ → Option (List ℕ)
read_zeros file n p = some (replicate n 0)

abbrev no_trim_of : ℕ → ℕ → ℕ → ℕ × Bool
no_trim_of file offset len = (file, true)

abbrev long_reader : BlockReader ℕ
long_reader = record {
  file = 0;
  buf = [];
  buf_offset = 0;
  begin_idx = 0;
  original_begin_idx = 0;
  idx = 0;
  end_idx = 1;
  original_offset = 3;
  last = 12;
  eno = none;
}

long_places :
    (at_index long_zfile.jump_table 0 ≡ some 512) × (at_index long_zfile.jump_table 1 ≡ some 66500)
unfolding at_index
long_places = (refl, refl)

long-new_reader : new_reader long_zfile 0 [] 3 10 ≡ long_reader
unfolding new_reader
long-new_reader = refl

pread-erange_example :
    pread sum plain read_zeros no_trim_of 2 long_zfile 0 [] [] false [] 10 3
    ≡ some (failed 0 erange)
pread-erange_example =
    pread-erange sum plain read_zeros no_trim_of long_zfile 0 2 10 3 512 66500 66500 [] [] []
      (replicate 65536 0) long_reader (omega arith) (omega arith) (omega arith) (omega arith)
      (omega arith) (omega arith) (omega arith) long-new_reader long_places.0 long_places.0
      long_places.1 long_places.1 (omega arith) (omega arith) (omega arith) refl
      (length-replicate {A = ℕ} 65536 0)
