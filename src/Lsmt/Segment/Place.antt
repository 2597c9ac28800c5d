-- ===== src/Lsmt/Segment/Place.antt =====
-- What a list of mappings says of a sector, and lists of mappings in order.
use dadi_fast_cdc.Prelude.{ℕ, ◌+◌, ◌-◌, ◌^◌, ◌≤◌, ◌<◌, ◌≡◌, refl, Bool, Option, none, some}
use dadi_fast_cdc.Prelude.{List, [], ◌∷◌, ltb, leb, ◌&&◌, if◌then◌else◌, arith}
use dadi_fast_cdc.Lsmt.Segment.{
  SegmentMapping, end, mend, forward_offset_to, backward_end_to, lower_bound,
}

-- Where the data of one sector is: a zeroed sector has no data.
pub record Place : Type 0 where
  pub moffset : ℕ
  pub zeroed : Bool
  pub tag : ℕ

abbrev pub covers : SegmentMapping → ℕ → Bool
covers m x = leb m.offset x && ltb x (end m)

abbrev pub place : SegmentMapping → ℕ → Place
place m x = record {
  moffset = if m.zeroed then m.moffset else m.moffset + (x - m.offset);
  zeroed = m.zeroed;
  tag = m.tag;
}

-- The place of the sector `x`, `none` where no mapping has it.
unfoldable pub at : List SegmentMapping → ℕ → Option Place
at [] x = none
at (m ∷ ms) x = if covers m x then some (place m x) else at ms x

-- A mapping that fits its bit fields, and one that is not empty too.
abbrev pub FitsFields : SegmentMapping → Type 0
FitsFields m = (m.length < 2 ^ 14) × (m.offset + m.length ≤ 2 ^ 50) × (mend m ≤ 2 ^ 55)

abbrev pub Fits : SegmentMapping → Type 0
Fits m = (0 < m.length) × FitsFields m

-- In order and disjoint, from `lo` on.
abbrev pub Chain : ℕ → List SegmentMapping → Type 0
Chain lo [] = Unit
Chain lo (m ∷ ms) = (lo ≤ m.offset) × Fits m × Chain (end m) ms

-- The last of them ends at `hi` or before.
abbrev pub EndsBy : ℕ → List SegmentMapping → Type 0
EndsBy hi [] = Unit
EndsBy hi (m ∷ ms) = (end m ≤ hi) × EndsBy hi ms

-- All of them begin before `hi`.
abbrev pub StartsBefore : ℕ → List SegmentMapping → Type 0
StartsBefore hi [] = Unit
StartsBefore hi (m ∷ ms) = (m.offset < hi) × StartsBefore hi ms

pub Chain-le : (lo lo' : ℕ) (ms : List SegmentMapping) → lo' ≤ lo → Chain lo ms → Chain lo' ms
Chain-le lo lo' [] h c = tt
Chain-le lo lo' (m ∷ ms) h c = (omega (arith, c), c.1, c.2)

-- Nothing is mapped before the first.
pub at_before : (lo : ℕ) (ms : List SegmentMapping) (x : ℕ) → Chain lo ms → x < lo → at ms x ≡ none
unfolding at
at_before lo [] x c h = refl
at_before lo (m ∷ ms) x c h = ground (arith, c, at_before (end m) ms x)

pub at-lower_bound :
    (from : ℕ) (ms : List SegmentMapping) (x : ℕ) → from ≤ x → at (lower_bound from ms) x ≡ at ms x
unfolding at lower_bound
at-lower_bound from [] x h = refl
at-lower_bound from (m ∷ ms) x h = ground (arith, at-lower_bound from ms x)

pub lower_bound-Chain :
    (from lo : ℕ) (ms : List SegmentMapping) → Chain lo ms → Chain lo (lower_bound from ms)
unfolding lower_bound
lower_bound-Chain from lo [] c = tt
lower_bound-Chain from lo (m ∷ ms) c =
    ground
      (arith, c, Chain-le (end m) lo (lower_bound from ms), lower_bound-Chain from (end m) ms c.2)

module _ (m : SegmentMapping) (x : ℕ) (fits : Fits m) where
  -- Within the mapping, the reductions to the bit fields change nothing.
  pub forward_offset_to-Fits :
      m.offset ≤ x
      → x < end m
      → Fits (forward_offset_to m x)
        × ((forward_offset_to m x).offset ≡ x)
        × (end (forward_offset_to m x) ≡ end m)
  unfolding forward_offset_to
  forward_offset_to-Fits a b = ground arith

  pub place-forward_offset_to :
      (y : ℕ) → m.offset ≤ x → x ≤ y → y < end m → place (forward_offset_to m x) y ≡ place m y
  unfolding forward_offset_to
  place-forward_offset_to y a b c = ground arith

  pub backward_end_to-Fits :
      m.offset < x → x ≤ end m → Fits (backward_end_to m x) × (end (backward_end_to m x) ≡ x)
  unfolding backward_end_to
  backward_end_to-Fits a b = ground arith

  pub backward_end_to-offset : (backward_end_to m x).offset ≡ m.offset
  unfolding backward_end_to
  backward_end_to-offset = refl

  pub place-backward_end_to : (y : ℕ) → place (backward_end_to m x) y ≡ place m y
  unfolding backward_end_to
  place-backward_end_to y = refl

-- `q` is the part `from .. to - 1` of `p`.
pub record Part (p q : SegmentMapping) (from to : ℕ) : Type 0 where
  pub starts : q.offset ≡ from
  pub ends : end q ≡ to
  pub fits : Fits q
  pub same_kind : q.zeroed ≡ p.zeroed
  pub same_place : (y : ℕ) → from ≤ y → y < to → place q y ≡ place p y

pub backward_end_to-Part :
    (p : SegmentMapping) (x : ℕ)
    → Fits p
    → p.offset < x
    → x ≤ end p
    → Part p (backward_end_to p x) p.offset x
unfolding backward_end_to
backward_end_to-Part p x f a b =
    let cut = backward_end_to-Fits p x f a b in
    record {
      starts = refl;
      ends = cut.1;
      fits = cut.0;
      same_kind = refl;
      same_place = λ y c d. refl;
    }

pub forward_offset_to-Part :
    (p : SegmentMapping) (x : ℕ)
    → Fits p
    → p.offset ≤ x
    → x < end p
    → Part p (forward_offset_to p x) x (end p)
unfolding forward_offset_to
forward_offset_to-Part p x f a b =
    let cut = forward_offset_to-Fits p x f a b in
    record {
      starts = cut.1;
      ends = cut.2;
      fits = cut.0;
      same_kind = refl;
      same_place = λ y c d. place-forward_offset_to p x f y a c d;
    }
