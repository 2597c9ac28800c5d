-- ===== src/FastCdc/TwoBytes.antt =====
-- The loops of FastCDC-c/fastcdc.c that take two bytes a round do the work of those that take
-- one, if `LEARv2` holds the doubled table of `fastCDC_init`.
use dadi_fast_cdc.Prelude.{ℕ, zero, suc, ◌+◌, ◌-◌, ◌*◌, ◌/◌, ◌%◌, ◌^◌, ◌<◌, min, bit_and}
use dadi_fast_cdc.Prelude.{◌≡◌, refl, ap, ◌∙◌, sym, inl, inr, List, map}
use dadi_fast_cdc.Prelude.{leb, ◌==◌, Bool-cases, Option-cases, arith}
use dadi_fast_cdc.Prelude.{get_elem?, get_elem?-map}
use dadi_fast_cdc.Prelude.Bits.{bit_and-mod, bit_and-double}
use mathlib.Core.Option
use dadi_fast_cdc.FastCdc.Gear.{gear_v2}
use dadi_fast_cdc.FastCdc.Globals.{
  Globals, shl64, fing_gear_08kb_64, fing_gear_02kb_64, fing_gear_32kb_64,
}
use dadi_fast_cdc.FastCdc.FirstCut.{clip, clip-min}
use dadi_fast_cdc.FastCdc.Chunking.{
  table_at, roll, roll_two, add64, Scan, cut, through, fault, scan, scan_pairs, finish, after,
  rolling_data_2byes_64, cdc_origin_64, normalized_chunking_64, normalized_chunking_2byes_64,
  mid_size,
}

table_at-map :
    (table p : List ℕ) (i : ℕ)
    → table_at (map shl64 table) p i ≡ Option.map shl64 (table_at table p i)
unfolding table_at
table_at-map table p i = elim (Option-cases (get_elem? p i)) [
  | inl e ↦ rw (e, table_at)
  | inr (b, e) ↦ rw (e, table_at) (get_elem?-map shl64 table b)
]

-- A fingerprint on its way: one doubled byte added, the mask doubled.
bit_and-roll_two :
    (m fp e : ℕ) → m < 2 ^ 63 → bit_and (roll_two fp (shl64 e)) (m * 2) ≡ bit_and (roll fp e) m * 2
bit_and-roll_two m fp e h =
    ap (λ t. bit_and t (m * 2)) halves
    ∙ bit_and-double ((fp * 2 + e) % 2 ^ 63) m
    ∙ ap (λ (t : ℕ). t * 2)
        (bit_and-mod 63 (fp * 2 + e) m h ∙ sym (bit_and-mod 64 (fp * 2 + e) m (omega arith)))
  where
    halves : roll_two fp (shl64 e) ≡ (fp * 2 + e) % 2 ^ 63 * 2
    halves = omega arith

add64-roll_two : (fp e e' : ℕ) → add64 (roll_two fp (shl64 e)) e' ≡ roll (roll fp e) e'
add64-roll_two fp e e' = omega arith

-- The index of the pairs' loop, in bytes.
pub spread : Scan → Scan
spread (cut i) = cut i
spread (through i fp) = through (i * 2) fp
spread fault = fault

same_test :
    (m fp e : ℕ)
    → m < 2 ^ 63
    → (bit_and (roll_two fp (shl64 e)) (m * 2) == 0) ≡ (bit_and (roll fp e) m == 0)
same_test m fp e h = rw (bit_and-roll_two m fp e h) (double (bit_and (roll fp e) m))
  where
    double : (x : ℕ) → (x * 2 == 0) ≡ (x == 0)
    double x = ground arith

module _ (m : ℕ) (p : List ℕ) (small : m < 2 ^ 63) where
  pub spread-scan_pairs :
      (rounds i fp : ℕ)
      → spread (scan_pairs (map shl64 gear_v2) (m * 2) m p rounds i fp)
        ≡ scan m p (rounds * 2) (i * 2) fp
  unfolding spread scan scan_pairs
  spread-scan_pairs zero i fp = refl
  spread-scan_pairs (suc rounds) i fp =
      rw (double rounds) (elim (Option-cases (table_at gear_v2 p (i * 2))) [
        | inl none0 ↦ ground (arith, table_at-map gear_v2 p (i * 2))
        | inr (e, read) ↦ elim (Bool-cases (bit_and (roll fp e) m == 0)) [
          | inl t ↦ ground (arith, table_at-map gear_v2 p (i * 2), same_test m fp e small)
          | inr t ↦ elim (Option-cases (table_at gear_v2 p (i * 2 + 1))) [
            | inl none1 ↦ ground (arith, table_at-map gear_v2 p (i * 2), same_test m fp e small)
            | inr (e', read') ↦ ground (
              arith,
              table_at-map gear_v2 p (i * 2),
              same_test m fp e small,
              add64-roll_two fp e e',
              spread-scan_pairs rounds (i + 1) (add64 (roll_two fp (shl64 e)) e'),
            )
          ]
        ]
      ])
    where
      double : (r : ℕ) → suc r * 2 ≡ suc (suc (r * 2))
      double r = omega arith

finish-spread : (n : ℕ) (s : Scan) → finish n (spread s) ≡ finish n s
unfolding spread finish
finish-spread n (cut i) = refl
finish-spread n (through i fp) = refl
finish-spread n fault = refl

-- `LEARv2` as `fastCDC_init` fills it.
abbrev pub HasLear : Globals → Type 0
HasLear g = g.lear_v2 ≡ map shl64 gear_v2

abbrev pub IsEven : ℕ → Type 0
IsEven n = n % 2 ≡ 0

module _ (m : ℕ) (p : List ℕ) (small : m < 2 ^ 63) where
  spread_loop :
      (end i fp : ℕ)
      → IsEven end
      → spread (scan_pairs (map shl64 gear_v2) (m * 2) m p (end / 2 - i) i fp)
        ≡ scan m p (end - i * 2) (i * 2) fp
  spread_loop end i fp even =
      spread-scan_pairs m p small (end / 2 - i) i fp ∙ ap (λ r. scan m p r (i * 2) fp) (omega arith)

  finish_pairs :
      (end i fp : ℕ)
      → IsEven end
      → finish end (scan_pairs (map shl64 gear_v2) (m * 2) m p (end / 2 - i) i fp)
        ≡ finish end (scan m p (end - i * 2) (i * 2) fp)
  finish_pairs end i fp even =
      sym (finish-spread end _) ∙ ap (finish end) (spread_loop end i fp even)

-- If the loop's bound `min n MaxSize` is even, `MinSize` is twice `MinSize_divide_by_2` and
-- `LEARv2` is initialised, `rolling_data_2byes_64` returns what `cdc_origin_64` returns, on every
-- buffer, reads outside it included.
pub rolling_data_2byes_64-cdc_origin_64 :
    (g : Globals) (p : List ℕ) (n : ℕ)
    → HasLear g
    → g.min_size ≡ g.min_size_divide_by_2 * 2
    → IsEven (min n g.max_size)
    → rolling_data_2byes_64 g p n ≡ cdc_origin_64 g p n
unfolding rolling_data_2byes_64 cdc_origin_64
rolling_data_2byes_64-cdc_origin_64 g p n lear halves even = elim (Bool-cases (leb n g.min_size)) [
  | inl t ↦ rw t
  | inr t ↦ rw t (
      ap (λ l. finish hi (scan_pairs l (m * 2) m p (hi / 2 - half) half 0)) lear
      ∙ finish_pairs m p (omega arith) hi half 0 (rw clip-min even)
      ∙ ap (λ k. finish hi (scan m p (hi - k) k 0)) (sym halves))
]
  where
    m : ℕ
    m = fing_gear_08kb_64

    hi : ℕ
    hi = clip n g.max_size

    half : ℕ
    half = g.min_size_divide_by_2

module _ (m m' : ℕ) (p : List ℕ) (small : m < 2 ^ 63) (small' : m' < 2 ^ 63) where
  -- The second loop starts where the first one ends.
  finish-after :
      (hi : ℕ) (s : Scan)
      → IsEven hi
      → finish hi (after s (λ i fp. scan_pairs (map shl64 gear_v2) (m' * 2) m' p (hi / 2 - i) i fp))
        ≡ finish hi (after (spread s) (λ i fp. scan m' p (hi - i) i fp))
  unfolding spread
  finish-after hi (cut i) even = refl
  finish-after hi (through i fp) even = finish_pairs m' p small' hi i fp even
  finish-after hi fault even = refl

  both_loops :
      (mid hi i : ℕ)
      → IsEven mid
      → IsEven hi
      → finish hi (
          after
            (scan_pairs (map shl64 gear_v2) (m * 2) m p (mid / 2 - i) i 0)
            (λ i fp. scan_pairs (map shl64 gear_v2) (m' * 2) m' p (hi / 2 - i) i fp))
        ≡ finish hi (after (scan m p (mid - i * 2) (i * 2) 0) (λ i fp. scan m' p (hi - i) i fp))
  both_loops mid hi i even_mid even_hi =
      finish-after hi _ even_hi
      ∙ ap (λ s. finish hi (after s (λ i fp. scan m' p (hi - i) i fp)))
          (spread_loop m p small mid i 0 even_mid)

-- If `min n MaxSize` is even and `LEARv2` is initialised, `normalized_chunking_2byes_64` returns
-- what `normalized_chunking_64` returns, and leaves the same global variables.
pub normalized_chunking_2byes_64-normalized_chunking_64 :
    (g : Globals) (p : List ℕ) (n : ℕ)
    → HasLear g
    → IsEven (min n g.max_size)
    → normalized_chunking_2byes_64 g p n ≡ normalized_chunking_64 g p n
unfolding normalized_chunking_2byes_64 normalized_chunking_64
normalized_chunking_2byes_64-normalized_chunking_64 g p n lear even =
    elim (Bool-cases (leb n 6144)) [
      | inl t ↦ rw t
      | inr t ↦ rw t (
          ap (λ o. (o, record g { min_size = 6144 }))
            (ap
                (λ l. finish hi (
                  after (scan_pairs l (m * 2) m p (mid / 2 - 3072) 3072 0)
                    (λ i fp. scan_pairs l (m' * 2) m' p (hi / 2 - i) i fp)))
                lear
              ∙ both_loops m m' p (omega arith) (omega arith) mid hi 3072 even_mid
                  (rw clip-min even)))
    ]
  where
    m : ℕ
    m = fing_gear_32kb_64

    m' : ℕ
    m' = fing_gear_02kb_64

    hi : ℕ
    hi = clip n g.max_size

    mid : ℕ
    mid = mid_size g n

    even_mid : IsEven mid
    even_mid = ground arith
