-- ===== src/FastCdc/Chunking.antt =====
-- The four chunking functions of FastCDC-c/fastcdc.c. The buffer `p` is the list of the bytes
-- that may be read, and `none` is a read outside it. `n` and the sizes are the non-negative
-- values of an `int`, at which the unsigned and the signed comparisons of the source agree.
use dadi_fast_cdc.Prelude.{ℕ, zero, suc, ◌+◌, ◌-◌, ◌*◌, ◌/◌, ◌%◌, ◌^◌, bit_and}
use dadi_fast_cdc.Prelude.{Option, none, some, true, false, List}
use dadi_fast_cdc.Prelude.{ltb, leb, ◌==◌, if◌then◌else◌, get_elem?}
use dadi_fast_cdc.FastCdc.Gear.{gear_v2}
use dadi_fast_cdc.FastCdc.Globals.{
  Globals, fing_gear_08kb_64, fing_gear_02kb_64, fing_gear_32kb_64, fing_gear_08kb_ls_64,
  fing_gear_02kb_ls_64, fing_gear_32kb_ls_64,
}

-- `table[p[i]]`
unfoldable pub table_at : List ℕ → List ℕ → ℕ → Option ℕ
table_at table p i = elim (get_elem? p i) [ none ↦ none | some b ↦ get_elem? table b ]

-- `(fingerprint << 1) + e`, `(fingerprint << 2) + e` and `fingerprint + e` on a `uint64_t`.
abbrev pub roll : ℕ → ℕ → ℕ
roll fp e = (fp * 2 + e) % 2 ^ 64

abbrev pub roll_two : ℕ → ℕ → ℕ
roll_two fp e = (fp * 4 + e) % 2 ^ 64

abbrev pub add64 : ℕ → ℕ → ℕ
add64 fp e = (fp + e) % 2 ^ 64

-- How a loop ends: at a cut, by its test with the index and the fingerprint, or outside `p`.
pub data Scan : Type 0 where
  cut : ℕ → Scan
  through : ℕ → ℕ → Scan
  fault : Scan

-- `while (i < end)`, one byte a round, with `end - i` rounds left.
unfoldable pub scan : ℕ → List ℕ → ℕ → ℕ → ℕ → Scan
unfolding table_at
scan mask p zero i fp = through i fp
scan mask p (suc rounds) i fp = elim (table_at gear_v2 p i) [
  | none ↦ fault
  | some e ↦ elim (bit_and (roll fp e) mask == 0) [
    | true ↦ cut i
    | false ↦ scan mask p rounds (i + 1) (roll fp e)
  ]
]

-- The same, two bytes a round: `i` counts pairs.
unfoldable pub scan_pairs : List ℕ → ℕ → ℕ → List ℕ → ℕ → ℕ → ℕ → Scan
unfolding table_at
scan_pairs lear mask_ls mask p zero i fp = through i fp
scan_pairs lear mask_ls mask p (suc rounds) i fp = elim (table_at lear p (i * 2)) [
  | none ↦ fault
  | some e ↦ elim (bit_and (roll_two fp e) mask_ls == 0) [
    | true ↦ cut (i * 2)
    | false ↦ elim (table_at gear_v2 p (i * 2 + 1)) [
      | none ↦ fault
      | some e' ↦ elim (bit_and (add64 (roll_two fp e) e') mask == 0) [
        | true ↦ cut (i * 2 + 1)
        | false ↦ scan_pairs lear mask_ls mask p rounds (i + 1) (add64 (roll_two fp e) e')
      ]
    ]
  ]
]

-- `return i` inside the last loop, or `return n` after it.
unfoldable pub finish : ℕ → Scan → Option ℕ
finish n (cut i) = some i
finish n (through i fp) = some n
finish n fault = none

-- A loop that follows another: the first one's cut is returned, else it starts where that ended.
abbrev pub after : Scan → (ℕ → ℕ → Scan) → Scan
after (cut i) k = cut i
after (through i fp) k = k i fp
after fault k = fault

unfoldable pub cdc_origin_64 : Globals → List ℕ → ℕ → Option ℕ
unfolding scan finish
cdc_origin_64 g p n =
    let i = g.min_size in
    let n' = if ltb g.max_size n then g.max_size else n in
    if leb n g.min_size then some n else finish n' (scan fing_gear_08kb_64 p (n' - i) i 0)

unfoldable pub rolling_data_2byes_64 : Globals → List ℕ → ℕ → Option ℕ
unfolding scan_pairs finish
rolling_data_2byes_64 g p n =
    let i = g.min_size_divide_by_2 in
    let n' = if ltb g.max_size n then g.max_size else n in
    if leb n g.min_size
    then some n
    else finish n' (scan_pairs g.lear_v2 fing_gear_08kb_ls_64 fing_gear_08kb_64 p (n' / 2 - i) i 0)

-- `MinSize = 6 * 1024`, a global variable, is set on every call.
abbrev pub normalized_min : ℕ
normalized_min = 6 * 1024

-- `Mid` after the clipping of `n`.
abbrev pub mid_size : Globals → ℕ → ℕ
mid_size g n = if ltb g.max_size n then 8 * 1024 else if ltb n (8 * 1024) then n else 8 * 1024

unfoldable pub normalized_chunking_64 : Globals → List ℕ → ℕ → Option ℕ × Globals
unfolding scan finish
normalized_chunking_64 g p n =
    let g' = record g { min_size = normalized_min } in
    let n' = if ltb g.max_size n then g.max_size else n in
    let mid = mid_size g n in
    if leb n normalized_min then (some n, g') else (
      finish n' (
          after (scan fing_gear_32kb_64 p (mid - normalized_min) normalized_min 0)
            (λ i fp. scan fing_gear_02kb_64 p (n' - i) i fp)),
      g',
    )

unfoldable pub normalized_chunking_2byes_64 : Globals → List ℕ → ℕ → Option ℕ × Globals
unfolding scan_pairs finish
normalized_chunking_2byes_64 g p n =
    let g' = record g { min_size = normalized_min } in
    let n' = if ltb g.max_size n then g.max_size else n in
    let mid = mid_size g n in
    let i = normalized_min / 2 in
    if leb n normalized_min then (some n, g') else (
      finish n' (
          after (scan_pairs g.lear_v2 fing_gear_32kb_ls_64 fing_gear_32kb_64 p (mid / 2 - i) i 0)
            (λ i fp.
              scan_pairs g.lear_v2 fing_gear_02kb_ls_64 fing_gear_02kb_64 p (n' / 2 - i) i fp)),
      g',
    )
