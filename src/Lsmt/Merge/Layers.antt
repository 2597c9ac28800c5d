-- ===== src/Lsmt/Merge/Layers.antt =====
-- One call of `merge_indexes` of src/overlaybd/lsmt/index.cpp: an index over what is below it.
use dadi_fast_cdc.Prelude.{ℕ, ◌+◌, ◌%◌, ◌^◌, ◌≤◌, ◌<◌, ◌≡◌, refl, Option, none, some}
use dadi_fast_cdc.Prelude.{List, [], ◌∷◌, ◌++◌, arith}
use dadi_fast_cdc.Lsmt.Segment.{SegmentMapping, end, lower_bound}
use dadi_fast_cdc.Lsmt.Segment.Place.{
  Place, place, at, Fits, Chain, EndsBy, StartsBefore, Chain-le, at_before,
}
use dadi_fast_cdc.Lsmt.Segment.Trim.{EndsAfter}
use dadi_fast_cdc.Lsmt.Merge.{tagged}

abbrev pub retag : Option ℕ → Place → Place
retag none p = p
retag (some level) p = record p { tag = level % 2 ^ 8 }

-- An upper index over what is below.
abbrev pub over : Option ℕ → Option Place → Option Place → Option Place
over level none below = below
over level (some p) below = some (retag level p)

-- Mappings in order within `begin .. end_offset - 1` that say what `f` says there.
pub record Fills (begin end_offset : ℕ) (f : ℕ → Option Place) (out : List SegmentMapping)
    : Type 0 where
  pub in_order : Chain begin out
  pub within : EndsBy end_offset out
  pub same : (x : ℕ) → begin ≤ x → x < end_offset → at out x ≡ f x

-- The same before the edges are cut.
pub record Spills (lo begin end_offset : ℕ) (f : ℕ → Option Place) (out : List SegmentMapping)
    : Type 0 where
  pub in_order : Chain lo out
  pub after : EndsAfter begin out
  pub starts : StartsBefore end_offset out
  pub same : (x : ℕ) → begin ≤ x → x < end_offset → at out x ≡ f x

pub Fills-starts :
    (begin end_offset to : ℕ) (out : List SegmentMapping)
    → Chain begin out
    → EndsBy end_offset out
    → end_offset ≤ to
    → StartsBefore to out
Fills-starts begin end_offset to [] c e h = tt
Fills-starts begin end_offset to (m ∷ ms) c e h =
    (omega (arith, c, e), Fills-starts (end m) end_offset to ms c.2 e.1 h)

-- Mappings with their bit fields end by `2 ^ 50 + 2 ^ 14`.
pub Chain-EndsBy : (lo : ℕ) (ms : List SegmentMapping) → Chain lo ms → EndsBy (2 ^ 50 + 2 ^ 14) ms
Chain-EndsBy lo [] c = tt
Chain-EndsBy lo (m ∷ ms) c = (omega (arith, c.1), Chain-EndsBy (end m) ms c.2)

pub lower_bound-EndsBy :
    (hi b : ℕ) (ms : List SegmentMapping) → EndsBy hi ms → EndsBy hi (lower_bound b ms)
unfolding lower_bound
lower_bound-EndsBy hi b [] h = tt
lower_bound-EndsBy hi b (m ∷ ms) h = ground (arith, h, lower_bound-EndsBy hi b ms h.1)

pub Chain-after : (begin : ℕ) (ms : List SegmentMapping) → Chain begin ms → EndsAfter begin ms
Chain-after begin [] c = tt
Chain-after begin (m ∷ ms) c = omega (arith, c)

-- Mappings, and behind them others.
module _ (ys : List SegmentMapping) (mid : ℕ) where
  pub append-Chain :
      (lo : ℕ) (xs : List SegmentMapping)
      → lo ≤ mid
      → Chain lo xs
      → EndsBy mid xs
      → Chain mid ys
      → Chain lo (xs ++ ys)
  append-Chain lo [] h c e d = Chain-le mid lo ys h d
  append-Chain lo (m ∷ xs) h c e d = (c.0, c.1, append-Chain (end m) xs e.0 c.2 e.1 d)

  pub append-at_before :
      (xs : List SegmentMapping) (x : ℕ) → Chain mid ys → x < mid → at (xs ++ ys) x ≡ at xs x
  unfolding at
  append-at_before [] x d h = at_before mid ys x d h
  append-at_before (m ∷ xs) x d h = ground (arith, append-at_before xs x d h)

  pub append-at_behind :
      (xs : List SegmentMapping) (x : ℕ) → EndsBy mid xs → mid ≤ x → at (xs ++ ys) x ≡ at ys x
  unfolding at
  append-at_behind [] x e h = refl
  append-at_behind (m ∷ xs) x e h = ground (arith, append-at_behind xs x e.1 h)

pub append-StartsBefore :
    (to : ℕ) (xs ys : List SegmentMapping)
    → StartsBefore to xs
    → StartsBefore to ys
    → StartsBefore to (xs ++ ys)
append-StartsBefore to [] ys h k = k
append-StartsBefore to (m ∷ xs) ys h k = (h.0, append-StartsBefore to xs ys h.1 k)

pub append-EndsAfter :
    (begin : ℕ) (xs ys : List SegmentMapping)
    → EndsAfter begin xs
    → EndsAfter begin ys
    → EndsAfter begin (xs ++ ys)
append-EndsAfter begin [] ys h k = k
append-EndsAfter begin (m ∷ xs) ys h k = h

pub place-tagged :
    (level : Option ℕ) (m : SegmentMapping) (x : ℕ)
    → place (tagged level m) x ≡ retag level (place m x)
place-tagged none m x = refl
place-tagged (some level) m x = refl

pub tagged-Fits :
    (level : Option ℕ) (m : SegmentMapping)
    → Fits m
    → Fits (tagged level m)
      × ((tagged level m).offset ≡ m.offset)
      × ((tagged level m).length ≡ m.length)
tagged-Fits none m f = (f, refl, refl)
tagged-Fits (some level) m f = (f, refl, refl)
