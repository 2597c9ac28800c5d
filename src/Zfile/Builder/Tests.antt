-- ===== src/Zfile/Builder/Tests.antt =====
-- Two writes to a builder with blocks of 4096 bytes.
use dadi_fast_cdc.Prelude.{ℕ, ◌+◌, ◌%◌, ◌^◌, ◌≡◌, refl, ap, Option, none, some, true, arith}
use dadi_fast_cdc.Prelude.{List, [], ◌∷◌, ◌++◌, sum, length, take, drop, replicate}
use dadi_fast_cdc.Zfile.JumpTable.{JumpTable, built, build}
use dadi_fast_cdc.Zfile.Decompress.{success, zfile_decompress}
use dadi_fast_cdc.Zfile.Decompress.Whole.{Takes}
use dadi_fast_cdc.Zfile.Pread.Tests.{read_bytes, no_trim}
use dadi_fast_cdc.Zfile.Builder.{HeaderTrailer, ZFileBuilder, init, write_all, fini}
use dadi_fast_cdc.Zfile.Builder.Written.{Compresses}
use dadi_fast_cdc.Zfile.Builder.Fini.{Rewrites}
use dadi_fast_cdc.Zfile.Builder.RoundTrip.{decompress-write_all}
use dadi_fast_cdc.Zfile.Builder.Opened.{opened}

abbrev pub marked : List ℕ → ℕ → Option (List ℕ)
marked src dst_len = some (7 ∷ src)

abbrev pub unmarked : List ℕ → ℕ → Option (List ℕ)
unmarked [] dst_len = none
unmarked (m ∷ src) dst_len = some src

abbrev pub sum32 : List ℕ → ℕ
sum32 xs = sum xs % 2 ^ 32

abbrev pub append_to : List ℕ → List ℕ → List ℕ × Option ℕ
append_to d xs = (d ++ xs, some (length xs))

abbrev pub write_at : List ℕ → List ℕ → ℕ → List ℕ × Option ℕ
write_at d xs offset = (take offset d ++ (xs ++ drop (offset + length xs) d), some (length xs))

abbrev pub contents_of : List ℕ → List ℕ
contents_of d = d

abbrev blank_pack : HeaderTrailer → List ℕ
blank_pack ht = replicate 512 0

pub marked-Compresses : Compresses sum32 unmarked marked 4096 4101
marked-Compresses = record {
  out = λ xs. 7 ∷ xs;
  code_of = λ xs some_bytes few. refl;
  some_bytes = λ xs. omega arith;
  bounded = λ xs few. omega arith;
  back = λ xs some_bytes few. refl;
  checksum = λ xs. omega arith;
  fits = omega arith;
}

pub append_to-Takes : Takes append_to contents_of
append_to-Takes = record { all = λ d xs. refl; behind = λ d xs. refl }

pub plus_zero : (n : ℕ) → 0 + n ≡ n
plus_zero n = omega arith

write_at-Rewrites : Rewrites write_at contents_of blank_pack
write_at-Rewrites = record {
  all = λ d xs. refl;
  over = λ d xs. ap (λ k. xs ++ drop k d) (plus_zero (length xs));
  packed = λ ht. refl;
}

abbrev two_writes : List (List ℕ)
two_writes = (1 ∷ (2 ∷ (3 ∷ []))) ∷ ((4 ∷ (5 ∷ [])) ∷ [])

decompress-write_all_example :
    (b0 : ZFileBuilder (List ℕ)) × (b1 : ZFileBuilder (List ℕ)) × (b2 : ZFileBuilder (List ℕ))
    × (t : JumpTable) × (dst : List ℕ) × (init sum32 sum32 marked append_to write_at blank_pack 4096
          true []
        ≡ (b0, true))
    × (write_all sum32 sum32 marked append_to write_at blank_pack 4096 true b0 two_writes
        ≡ some (b1, true))
    × (fini sum32 sum32 marked append_to write_at blank_pack 4096 true true b1 ≡ (b2, true))
    × (build b2.block_len 512 4096 true ≡ built t)
    × (zfile_decompress sum32 unmarked read_bytes no_trim [] [] [] 6 append_to 6
          (opened 4096 true t b2.raw_data_size)
          b2.dest
          (9 ∷ [])
        ≡ some (success dst))
    × (dst ≡ 9 ∷ (1 ∷ (2 ∷ (3 ∷ (4 ∷ (5 ∷ []))))))
decompress-write_all_example =
    decompress-write_all sum32 sum32 marked unmarked append_to write_at read_bytes no_trim
      blank_pack 4096 true 4101 contents_of append_to-Takes write_at-Rewrites (λ d n p h. refl)
      marked-Compresses append_to contents_of append_to-Takes (omega arith) 4 [] [] [] two_writes
      true [] (9 ∷ []) refl (omega arith) refl (omega arith) (omega arith)
