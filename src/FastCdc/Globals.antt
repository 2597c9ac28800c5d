-- ===== src/FastCdc/Globals.antt =====
-- The file-scope variables of FastCDC-c/fastcdc.c, its mask constants, and `fastCDC_init`.
-- MD5 is OpenSSL's: `md5` is a parameter, from the bytes hashed to the bytes of the digest.
use dadi_fast_cdc.Prelude.{ℕ, zero, suc, ◌+◌, ◌*◌, ◌/◌, ◌%◌, ◌^◌}
use dadi_fast_cdc.Prelude.{List, [], ◌∷◌, map, get_or, replicate}
use dadi_fast_cdc.FastCdc.Gear.{gear_v2}

abbrev pub symbol_count : ℕ
symbol_count = 256

abbrev pub seed_length : ℕ
seed_length = 64

-- `CacheSize`
abbrev pub cache_size : ℕ
cache_size = 1024 * 1024 * 1024

-- Shifts of a `uint32_t` and of a `uint64_t` by one.
abbrev pub shl32 : ℕ → ℕ
shl32 x = x * 2 % 2 ^ 32

abbrev pub shl64 : ℕ → ℕ
shl64 x = x * 2 % 2 ^ 64

abbrev pub fing_gear_08kb_ls : ℕ
fing_gear_08kb_ls = shl32 0xd9300353

abbrev pub fing_gear_02kb_ls : ℕ
fing_gear_02kb_ls = shl32 0xd9000353

abbrev pub fing_gear_32kb_ls : ℕ
fing_gear_32kb_ls = shl32 0xd9f00353

abbrev pub fing_gear_08kb_64 : ℕ
fing_gear_08kb_64 = 0x0000d93003530000

abbrev pub fing_gear_02kb_64 : ℕ
fing_gear_02kb_64 = 0x0000d90003530000

abbrev pub fing_gear_32kb_64 : ℕ
fing_gear_32kb_64 = 0x0000d9f003530000

abbrev pub fing_gear_08kb_ls_64 : ℕ
fing_gear_08kb_ls_64 = shl64 0x0000d93003530000

abbrev pub fing_gear_02kb_ls_64 : ℕ
fing_gear_02kb_ls_64 = shl64 0x0000d90003530000

abbrev pub fing_gear_32kb_ls_64 : ℕ
fing_gear_32kb_ls_64 = shl64 0x0000d9f003530000

-- The variables that the chunking functions read, and those that only `fastCDC_init` sets.
pub record Globals : Type 0 where
  pub lear_v2 : List ℕ
  pub g_global_matrix : List ℕ
  pub g_global_matrix_left : List ℕ
  pub expect_cs : ℕ
  pub mask_15 : ℕ
  pub mask_11 : ℕ
  pub mask_11_64 : ℕ
  pub mask_15_64 : ℕ
  pub min_size : ℕ
  pub min_size_divide_by_2 : ℕ
  pub max_size : ℕ

-- Before `fastCDC_init`: C starts such variables at zero.
unfoldable pub uninitialised : Globals
uninitialised = record {
  lear_v2 = replicate symbol_count 0;
  g_global_matrix = replicate symbol_count 0;
  g_global_matrix_left = replicate symbol_count 0;
  expect_cs = 0;
  mask_15 = 0;
  mask_11 = 0;
  mask_11_64 = 0;
  mask_15_64 = 0;
  min_size = 0;
  min_size_divide_by_2 = 0;
  max_size = 0;
}

-- `memcpy(&word, digest, 4)` on a little-endian machine.
abbrev pub le32 : List ℕ → ℕ
le32 d = get_or d 0 0 + get_or d 1 0 * 2 ^ 8 + get_or d 2 0 * 2 ^ 16 + get_or d 3 0 * 2 ^ 24

-- `count` table entries for the symbols from `i` on.
unfoldable pub matrix_from : (List ℕ → List ℕ) → ℕ → ℕ → List ℕ
matrix_from md5 zero i = []
matrix_from md5 (suc count) i = le32 (md5 (replicate seed_length i)) ∷ matrix_from md5 count (i + 1)

unfoldable pub fast_cdc_init : (List ℕ → List ℕ) → Globals → Globals
unfolding matrix_from
fast_cdc_init md5 g =
    let matrix = matrix_from md5 symbol_count 0 in
    let min : ℕ = 8192 / 4 in
    record g {
      lear_v2 = map shl64 gear_v2;
      g_global_matrix = matrix;
      g_global_matrix_left = map shl32 matrix;
      min_size = min;
      max_size = 8192 * 4;
      mask_15 = 0xf9070353;
      mask_11 = 0xd9000353;
      mask_11_64 = 0x0000d90003530000;
      mask_15_64 = 0x0000f90703530000;
      min_size_divide_by_2 = min / 2;
    }
