-- ===== src/FastCdc/Init.antt =====
-- What `fastCDC_init` of FastCDC-c/fastcdc.c leaves in the global variables.
use dadi_fast_cdc.Prelude.{ℕ, zero, suc, ◌+◌, ◌*◌, ◌%◌, ◌^◌, ◌<◌, min, ◌≡◌, refl, ap, ◌∙◌}
use dadi_fast_cdc.Prelude.{some, List, arith, get_elem?, get_or, replicate}
use dadi_fast_cdc.Prelude.{get_elem?-map, get_elem?-eq-get_or}
use mathlib.Core.Option
use dadi_fast_cdc.FastCdc.Gear.{gear_v2, length-gear_v2}
use dadi_fast_cdc.FastCdc.Globals.{Globals, shl32, shl64, le32, matrix_from, fast_cdc_init}
use dadi_fast_cdc.FastCdc.Chunking.{cdc_origin_64, rolling_data_2byes_64}
use dadi_fast_cdc.FastCdc.TwoBytes.{IsEven, rolling_data_2byes_64-cdc_origin_64}

matrix_from-entry :
    (md5 : List ℕ → List ℕ) (count i k : ℕ)
    → k < count
    → get_elem? (matrix_from md5 count i) k ≡ some (le32 (md5 (replicate 64 (i + k))))
unfolding matrix_from
matrix_from-entry md5 zero i k h = absurd (omega arith)
matrix_from-entry md5 (suc count) i zero h =
    ap (λ t. some (le32 (md5 (replicate 64 t)))) (omega arith)
matrix_from-entry md5 (suc count) i (suc k) h =
    matrix_from-entry md5 count (i + 1) k (omega arith)
    ∙ ap (λ t. some (le32 (md5 (replicate 64 t)))) (omega arith)

-- For every symbol `s < 256`, `fastCDC_init` stores the first word of MD5 of 64 copies of `s`, that
-- word shifted by one in 32 bits, and the gear word shifted by one in 64 bits; and it sets the sizes
-- to 2048, 1024 (its half) and 32768.
pub fast_cdc_init-tables :
    (md5 : List ℕ → List ℕ) (g : Globals) (s : ℕ)
    → s < 256
    → let g' = fast_cdc_init md5 g in
      let word = le32 (md5 (replicate 64 s)) in
      (get_elem? g'.g_global_matrix s ≡ some word)
      × (get_elem? g'.g_global_matrix_left s ≡ some (word * 2 % 2 ^ 32))
      × (get_elem? g'.lear_v2 s ≡ some (get_or gear_v2 s 0 * 2 % 2 ^ 64))
      × (g'.min_size ≡ 2048)
      × (g'.min_size_divide_by_2 ≡ 1024)
      × (g'.max_size ≡ 32768)
unfolding fast_cdc_init
fast_cdc_init-tables md5 g s h = (
  entry,
  get_elem?-map shl32 (matrix_from md5 256 0) s ∙ ap (Option.map shl32) entry,
  get_elem?-map shl64 gear_v2 s
      ∙ ap (Option.map shl64) (get_elem?-eq-get_or gear_v2 s 0 (rw length-gear_v2 h)),
  refl,
  refl,
  refl,
)
  where
    entry : get_elem? (matrix_from md5 256 0) s ≡ some (le32 (md5 (replicate 64 s)))
    entry =
        matrix_from-entry md5 256 0 s h ∙ ap (λ t. some (le32 (md5 (replicate 64 t)))) (omega arith)

-- After `fastCDC_init` the loops of two bytes a round and of one byte a round return the same
-- chunk, for every even length and every longer one than 32768.
pub fast_cdc_init-rolling :
    (md5 : List ℕ → List ℕ) (g : Globals) (p : List ℕ) (n : ℕ)
    → IsEven (min n 32768)
    → rolling_data_2byes_64 (fast_cdc_init md5 g) p n ≡ cdc_origin_64 (fast_cdc_init md5 g) p n
unfolding fast_cdc_init
fast_cdc_init-rolling md5 g p n even =
    rolling_data_2byes_64-cdc_origin_64 (fast_cdc_init md5 g) p n refl refl even
