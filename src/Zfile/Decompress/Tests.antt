-- ===== src/Zfile/Decompress/Tests.antt =====
-- Small zfiles, decompressed.
use mathlib.Core.Path.{refl}
use dadi_fast_cdc.Prelude.{ℕ, ◌≡◌, Option, some, arith}
use dadi_fast_cdc.Prelude.{List, [], ◌∷◌, ◌++◌, sum, length, concat}
use dadi_fast_cdc.Zfile.Pread.Tests.{
  plain, read_bytes, no_trim, three_zfile, three_file, three_codes, three_blocks, three-Stored,
  three-IsFastCdc,
}
use dadi_fast_cdc.Zfile.Decompress.{success, zfile_decompress}
use dadi_fast_cdc.Zfile.Decompress.Whole.{Takes, zfile_decompress-FastCdc}

abbrev write_list : List ℕ → List ℕ → List ℕ × Option ℕ
write_list dst xs = (dst ++ xs, some (length xs))

abbrev contents_list : List ℕ → List ℕ
contents_list dst = dst

list-Takes : Takes write_list contents_list
list-Takes = record { all = λ d xs. refl; behind = λ d xs. refl }

zfile_decompress-FastCdc_example :
    (dst : List ℕ) × (zfile_decompress sum plain read_bytes no_trim [] [] [] 4 write_list 7
        three_zfile three_file
        (8 ∷ [])
      ≡ some (success dst))
    × (dst ≡ (8 ∷ []) ++ concat three_blocks)
zfile_decompress-FastCdc_example =
    zfile_decompress-FastCdc sum plain read_bytes no_trim [] [] [] 4 write_list contents_list
      list-Takes three_zfile three_file three_codes three_blocks three-Stored three-IsFastCdc 7
      (8 ∷ []) (omega arith) (omega arith) (omega arith)
