-- ===== src/FastCdc/Fingerprint.antt =====
-- The rolling fingerprint of FastCDC-c/fastcdc.c in closed form: a sum of table entries with
-- weights, reduced once, and what the loops of one byte a round make of it.
use dadi_fast_cdc.Prelude.{ℕ, zero, suc, ◌+◌, ◌-◌, ◌*◌, ◌%◌, ◌^◌, ◌≤◌, ◌<◌, bit_and}
use dadi_fast_cdc.Prelude.{◌≡◌, ap, ◌∙◌, inl, inr, some, true, false, List, arith}
use dadi_fast_cdc.Prelude.{length, get_or, get_elem?-eq-get_or, Bool-cases, ◌==◌, ==_iff, ==_false}
use dadi_fast_cdc.FastCdc.Gear.{gear_v2, length-gear_v2}
use dadi_fast_cdc.FastCdc.Chunking.{table_at, roll, Scan, cut, through, scan}

abbrev pub IsBytes : List ℕ → Type 0
IsBytes p = (j : ℕ) → j < length p → get_or p j 0 < 256

-- The table's word for the byte at `j`.
unfoldable pub entry : List ℕ → ℕ → ℕ
entry p j = get_or gear_v2 (get_or p j 0) 0

-- The sum of `entry p (lo + j) * 2 ^ (k - 1 - j)` for `j < k`.
unfoldable pub weighted_sum : List ℕ → ℕ → ℕ → ℕ
weighted_sum p lo zero = 0
weighted_sum p lo (suc k) = weighted_sum p lo k * 2 + entry p (lo + k)

-- The fingerprint of the `k` bytes from `lo` on.
abbrev pub fingerprint : List ℕ → ℕ → ℕ → ℕ
fingerprint p lo k = weighted_sum p lo k % 2 ^ 64

-- A loop that began at `lo` cuts at `i`: the masked fingerprint of the bytes `lo .. i` is zero.
abbrev pub IsCut : ℕ → List ℕ → ℕ → ℕ → Type 0
IsCut mask p lo i = bit_and (fingerprint p lo (suc i - lo)) mask ≡ 0

-- No cut in `from .. to - 1`.
abbrev pub NoCut : ℕ → List ℕ → ℕ → ℕ → ℕ → Type 0
NoCut mask p lo from to = (j : ℕ) → from ≤ j → j < to → ¬ (IsCut mask p lo j)

pub table_at-entry :
    (p : List ℕ) (j : ℕ) → IsBytes p → j < length p → table_at gear_v2 p j ≡ some (entry p j)
unfolding table_at entry
table_at-entry p j bytes h =
    rw (get_elem?-eq-get_or p j 0 h, table_at)
      (get_elem?-eq-get_or gear_v2 (get_or p j 0) 0 (rw length-gear_v2 (bytes j h)))

pub fingerprint-suc :
    (p : List ℕ) (lo i : ℕ)
    → lo ≤ i
    → roll (fingerprint p lo (i - lo)) (entry p i) ≡ fingerprint p lo (suc i - lo)
unfolding weighted_sum
fingerprint-suc p lo i h =
    rw (next lo i h) (rw (same lo i h) (modular (weighted_sum p lo (i - lo)) (entry p i)))
  where
    next : (a b : ℕ) → a ≤ b → suc b - a ≡ suc (b - a)
    next a b q = omega arith

    same : (a b : ℕ) → a ≤ b → a + (b - a) ≡ b
    same a b q = omega arith

    modular : (s e : ℕ) → (s % 2 ^ 64 * 2 + e) % 2 ^ 64 ≡ (s * 2 + e) % 2 ^ 64
    modular s e = omega arith

pub fingerprint-zero : (p : List ℕ) (lo : ℕ) → 0 ≡ fingerprint p lo (lo - lo)
unfolding weighted_sum
fingerprint-zero p lo = let none_yet : lo - lo ≡ 0 = omega arith in rw none_yet

-- What a loop from `i` to `hi`, begun at `lo`, can end as.
pub data Scanned (mask : ℕ) (p : List ℕ) (lo i hi : ℕ) : Scan → Type 0 where
  at_cut :
      (r : ℕ)
      → i ≤ r
      → r < hi
      → IsCut mask p lo r
      → NoCut mask p lo i r
      → Scanned mask p lo i hi (cut r)
  at_end :
      (j fp : ℕ)
      → j ≡ hi
      → fp ≡ fingerprint p lo (hi - lo)
      → NoCut mask p lo i hi
      → Scanned mask p lo i hi (through j fp)

module _ (mask : ℕ) (p : List ℕ) (lo : ℕ) where
  NoCut-cons :
      (i hi : ℕ) → ¬ (IsCut mask p lo i) → NoCut mask p lo (i + 1) hi → NoCut mask p lo i hi
  NoCut-cons i hi first rest j from to = elim (Bool-cases (i == j)) [
    | inl e ↦ let e' : i ≡ j = (==_iff i j).0 e in rw (← e') first
    | inr e ↦ rest j (ground (arith, ==_false i j e)) to
  ]

  Scanned-step :
      (i hi : ℕ) (s : Scan)
      → i < hi
      → ¬ (IsCut mask p lo i)
      → Scanned mask p lo (i + 1) hi s
      → Scanned mask p lo i hi s
  Scanned-step i hi s h first (at_cut r from to is rest) =
      at_cut r (omega arith) to is (NoCut-cons i r first rest)
  Scanned-step i hi s h first (at_end j fp e f rest) = at_end j fp e f (NoCut-cons i hi first rest)

  module _ (rounds i fp : ℕ) {e : ℕ} (read : table_at gear_v2 p i ≡ some e) where
    pub scan-cut : (bit_and (roll fp e) mask == 0) ≡ true → scan mask p (suc rounds) i fp ≡ cut i
    unfolding scan
    scan-cut t = ground arith

    pub scan-next :
        (bit_and (roll fp e) mask == 0) ≡ false
        → scan mask p (suc rounds) i fp ≡ scan mask p rounds (i + 1) (roll fp e)
    unfolding scan
    scan-next t = ground arith

  -- The loop reads nothing outside the buffer and stops at the first cut, or at the end.
  pub scan-Scanned :
      (rounds i hi fp : ℕ)
      → IsBytes p
      → lo ≤ i
      → i + rounds ≡ hi
      → hi ≤ length p
      → fp ≡ fingerprint p lo (i - lo)
      → Scanned mask p lo i hi (scan mask p rounds i fp)
  unfolding scan
  scan-Scanned zero i hi fp bytes from e fits f =
      at_end i fp (omega arith) (f ∙ ap (λ t. fingerprint p lo (t - lo)) (omega arith))
        (λ j a b. absurd (omega arith))
  scan-Scanned (suc rounds) i hi fp bytes from e fits f =
      elim (Bool-cases (bit_and next mask == 0)) [
        | inl t ↦
            rw (scan-cut rounds i fp read t)
              (at_cut i (omega arith) (omega arith) (is_cut t) (λ j a b. absurd (omega arith)))
        | inr t ↦ rw (scan-next rounds i fp read t) (
            Scanned-step i hi _ (omega arith) (not_cut t) (
              scan-Scanned rounds (i + 1) hi next bytes (omega arith) (omega arith) fits
                (rolled ∙ ap (λ t. fingerprint p lo (t - lo)) (omega arith))))
      ]
    where
      read : table_at gear_v2 p i ≡ some (entry p i)
      read = table_at-entry p i bytes (omega arith)

      next : ℕ
      next = roll fp (entry p i)

      rolled : next ≡ fingerprint p lo (suc i - lo)
      rolled = ap (λ t. roll t (entry p i)) f ∙ fingerprint-suc p lo i from

      is_cut : (bit_and next mask == 0) ≡ true → IsCut mask p lo i
      is_cut t = rw (← rolled) ((==_iff _ 0).0 t)

      not_cut : (bit_and next mask == 0) ≡ false → ¬ (IsCut mask p lo i)
      not_cut t c = ==_false _ 0 t (rw rolled c)
