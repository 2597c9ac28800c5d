-- ===== src/FastCdc/Tests.antt =====
-- Runs of the chunking functions of FastCDC-c on small data.
use dadi_fast_cdc.Prelude.{length-replicate}
use dadi_fast_cdc.Prelude.{
  ℕ, zero, suc, ◌+◌, ◌*◌, ◌^◌, ◌%◌, ◌≤◌, ◌<◌, ◌≡◌, refl, ap, inl, Bool, true,
}
use dadi_fast_cdc.Prelude.{
  some, List, [], ◌∷◌, ◌&&◌, arith, length, get_or, get_elem?, replicate, map, ltb,
}
use dadi_fast_cdc.FastCdc.Gear.{gear_v2}
use dadi_fast_cdc.FastCdc.Globals.{Globals, shl64, le32, fast_cdc_init, uninitialised}
use dadi_fast_cdc.FastCdc.Chunking.{
  table_at, scan, finish, cdc_origin_64, rolling_data_2byes_64, normalized_chunking_64,
  normalized_chunking_2byes_64,
}
use dadi_fast_cdc.FastCdc.Fingerprint.{IsBytes}
use dadi_fast_cdc.FastCdc.FirstCut.{
  OriginChunk, cdc_origin_64-OriginChunk, NormalizedChunk, normalized_chunking_64-NormalizedChunk,
}
use dadi_fast_cdc.FastCdc.TwoBytes.{
  rolling_data_2byes_64-cdc_origin_64, normalized_chunking_2byes_64-normalized_chunking_64,
}
use dadi_fast_cdc.FastCdc.Window.{SameBytes, cdc_origin_64_resync}
use dadi_fast_cdc.FastCdc.Init.{fast_cdc_init-tables, fast_cdc_init-rolling}

abbrev pub all_bytes : List ℕ → Bool
all_bytes [] = true
all_bytes (b ∷ bs) = ltb b 256 && all_bytes bs

pub all_bytes-IsBytes : (p : List ℕ) → all_bytes p ≡ true → IsBytes p
all_bytes-IsBytes [] t j h = absurd (omega arith)
all_bytes-IsBytes (b ∷ bs) t zero h = ground arith
all_bytes-IsBytes (b ∷ bs) t (suc j) h = all_bytes-IsBytes bs (ground arith) j (omega arith)

replicate-IsBytes : (n x : ℕ) → x < 256 → IsBytes (replicate n x)
replicate-IsBytes zero x small j h = absurd (omega arith)
replicate-IsBytes (suc n) x small zero h = small
replicate-IsBytes (suc n) x small (suc j) h = replicate-IsBytes n x small j (omega arith)

-- Sizes small enough to run the loops.
abbrev pub small : Globals
small = record {
  lear_v2 = map shl64 gear_v2;
  g_global_matrix = [];
  g_global_matrix_left = [];
  expect_cs = 0;
  mask_15 = 0;
  mask_11 = 0;
  mask_11_64 = 0;
  mask_15_64 = 0;
  min_size = 2;
  min_size_divide_by_2 = 1;
  max_size = 100;
}

abbrev pub large : Globals
large = record small { min_size = 2048; min_size_divide_by_2 = 1024; max_size = 32768 }

-- Data that is cut by its content at index 69.
abbrev pub content : List ℕ
content =
    146 ∷ 197 ∷ 190 ∷ 0 ∷ 240 ∷ 234 ∷ 223 ∷ 195 ∷ 67 ∷ 152 ∷ 47 ∷ 216 ∷ 29 ∷ 110 ∷ 238 ∷ 194 ∷ 179
    ∷ 117 ∷ 192 ∷ 79 ∷ 116 ∷ 201 ∷ 138 ∷ 53 ∷ 106 ∷ 252 ∷ 253 ∷ 155 ∷ 167 ∷ 61 ∷ 136 ∷ 252 ∷ 163
    ∷ 68 ∷ 99 ∷ 175 ∷ 249 ∷ 100 ∷ 117 ∷ 57 ∷ 137 ∷ 182 ∷ 19 ∷ 89 ∷ 87 ∷ 108 ∷ 118 ∷ 96 ∷ 114 ∷ 25
    ∷ 35 ∷ 24 ∷ 81 ∷ 52 ∷ 57 ∷ 17 ∷ 29 ∷ 234 ∷ 244 ∷ 234 ∷ 204 ∷ 9 ∷ 6 ∷ 232 ∷ 185 ∷ 143 ∷ 100 ∷ 198
    ∷ 221 ∷ 193 ∷ 25 ∷ 211 ∷ []

-- The same data behind three other bytes.
abbrev shifted : List ℕ
shifted = 1 ∷ 2 ∷ 3 ∷ content

pub content-IsBytes : IsBytes content
content-IsBytes = all_bytes-IsBytes content refl

shifted-IsBytes : IsBytes shifted
shifted-IsBytes = all_bytes-IsBytes shifted refl

content-cut : cdc_origin_64 small content 72 ≡ some 69
unfolding cdc_origin_64 scan finish table_at gear_v2
content-cut = refl

cdc_origin_64-OriginChunk_example :
    (r : ℕ) × (cdc_origin_64 small content 72 ≡ some r) × OriginChunk small content 72 r
cdc_origin_64-OriginChunk_example =
    cdc_origin_64-OriginChunk small content 72 content-IsBytes (omega arith)

content-shifted : SameBytes content 6 shifted 9 64
content-shifted j h = ap (λ k. get_or shifted k 0) (three_more j)
  where
    three_more : (j : ℕ) → suc (suc (suc (6 + j))) ≡ 9 + j
    three_more j = omega arith

cdc_origin_64_resync_example : (r : ℕ) × (cdc_origin_64 small shifted 75 ≡ some r) × (r ≤ 72)
cdc_origin_64_resync_example =
    cdc_origin_64_resync small content shifted 72 75 69 72 content-IsBytes (omega arith)
      shifted-IsBytes (omega arith) (omega arith) content-cut (omega arith) (omega arith)
      (omega arith) (omega arith) content-shifted

rolling_data_2byes_64-cdc_origin_64_example :
    rolling_data_2byes_64 small content 72 ≡ cdc_origin_64 small content 72
rolling_data_2byes_64-cdc_origin_64_example =
    rolling_data_2byes_64-cdc_origin_64 small content 72 refl refl (omega arith)

-- Zeros, more of them than `normalized_chunking_64` passes on at once.
abbrev pub zeros : List ℕ
zeros = replicate 7000 0

pub length-zeros : length zeros ≡ 7000
length-zeros = length-replicate {A = ℕ} 7000 0

pub zeros-IsBytes : IsBytes zeros
zeros-IsBytes = replicate-IsBytes 7000 0 (omega arith)

normalized_chunking_64-NormalizedChunk_example :
    (r : ℕ) × (normalized_chunking_64 large zeros 7000 ≡ (some r, record large { min_size = 6144 }))
    × NormalizedChunk large zeros 7000 r
normalized_chunking_64-NormalizedChunk_example =
    normalized_chunking_64-NormalizedChunk large zeros 7000 zeros-IsBytes
      (omega (arith, length-zeros)) (inl (omega arith))

normalized_chunking_2byes_64-normalized_chunking_64_example :
    normalized_chunking_2byes_64 large zeros 7000 ≡ normalized_chunking_64 large zeros 7000
normalized_chunking_2byes_64-normalized_chunking_64_example =
    normalized_chunking_2byes_64-normalized_chunking_64 large zeros 7000 refl (omega arith)

-- A stand-in for MD5 of the documented size.
abbrev digest : List ℕ → List ℕ
digest p = replicate 16 (length p)

fast_cdc_init-tables_example :
    let g = fast_cdc_init digest uninitialised in
    let word = le32 (digest (replicate 64 7)) in
    (get_elem? g.g_global_matrix 7 ≡ some word)
    × (get_elem? g.g_global_matrix_left 7 ≡ some (word * 2 % 2 ^ 32))
    × (get_elem? g.lear_v2 7 ≡ some (get_or gear_v2 7 0 * 2 % 2 ^ 64))
    × (g.min_size ≡ 2048)
    × (g.min_size_divide_by_2 ≡ 1024)
    × (g.max_size ≡ 32768)
fast_cdc_init-tables_example = fast_cdc_init-tables digest uninitialised 7 (omega arith)

fast_cdc_init-rolling_example :
    rolling_data_2byes_64 (fast_cdc_init digest uninitialised) zeros 7000
    ≡ cdc_origin_64 (fast_cdc_init digest uninitialised) zeros 7000
fast_cdc_init-rolling_example = fast_cdc_init-rolling digest uninitialised zeros 7000 (omega arith)
