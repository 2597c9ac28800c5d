-- ===== src/Lsmt/Segment.antt =====
-- `Segment` and `SegmentMapping` of src/overlaybd/lsmt/index.h, and what a list of mappings says of a
-- sector. The bit fields keep their widths: an assignment to one is reduced.
pub mod Place
pub mod Trim
use dadi_fast_cdc.Prelude.{ℕ, ◌+◌, ◌-◌, ◌%◌, ◌^◌, Bool, true, false, List, [], ◌∷◌}
use dadi_fast_cdc.Prelude.{ltb, leb, if◌then◌else◌}

pub record Segment : Type 0 where
  pub offset : ℕ
  pub length : ℕ

pub record SegmentMapping : Type 0 where
  pub offset : ℕ
  pub length : ℕ
  pub moffset : ℕ
  pub zeroed : Bool
  pub tag : ℕ

-- `MAX_OFFSET`, `Segment::MAX_LENGTH`, `MAX_MOFFSET`
abbrev pub max_offset : ℕ
max_offset = 2 ^ 50 - 1

abbrev pub max_length : ℕ
max_length = 2 ^ 14 - 1

abbrev pub max_moffset : ℕ
max_moffset = 2 ^ 55 - 1

abbrev pub segment_end : Segment → ℕ
segment_end s = s.offset + s.length

-- `end()` and `mend()` of a mapping
abbrev pub end : SegmentMapping → ℕ
end m = m.offset + m.length

abbrev pub mend : SegmentMapping → ℕ
mend m = if m.zeroed then m.moffset else m.moffset + m.length

-- `assert(x >= offset)` holds wherever the index calls it.
unfoldable pub forward_offset_to : SegmentMapping → ℕ → SegmentMapping
forward_offset_to m x =
    let delta = x - m.offset in
    record m {
      offset = x % 2 ^ 50;
      length = (m.length + 2 ^ 64 - delta) % 2 ^ 14;
      moffset = if m.zeroed then m.moffset else (m.moffset + delta) % 2 ^ 55;
    }

unfoldable pub backward_end_to : SegmentMapping → ℕ → SegmentMapping
backward_end_to m x = record m { length = (x - m.offset) % 2 ^ 14 }

unfoldable pub discard : SegmentMapping → SegmentMapping
discard m = record m { zeroed = true }

unfoldable pub invalid_mapping : SegmentMapping
invalid_mapping = record { offset = max_offset; length = 0; moffset = 0; zeroed = false; tag = 0 }

-- `a < b` of two segments: the first ends before the second begins.
abbrev pub before : SegmentMapping → SegmentMapping → Bool
before a b = leb (end a) b.offset

-- `std::lower_bound` on mappings in order: those from the first on that ends behind `offset`.
unfoldable pub lower_bound : ℕ → List SegmentMapping → List SegmentMapping
lower_bound offset [] = []
lower_bound offset (m ∷ ms) = if leb (end m) offset then lower_bound offset ms else m ∷ ms

abbrev trim_front : ℕ → SegmentMapping → SegmentMapping
trim_front from m = if ltb m.offset from then forward_offset_to m from else m

abbrev pub trim_back : ℕ → SegmentMapping → SegmentMapping
trim_back to m = if ltb to (end m) then backward_end_to m to else m

unfoldable pub trim_first : ℕ → List SegmentMapping → List SegmentMapping
unfolding forward_offset_to
trim_first from [] = []
trim_first from (m ∷ ms) = trim_front from m ∷ ms

unfoldable pub trim_last : ℕ → List SegmentMapping → List SegmentMapping
unfolding backward_end_to
trim_last to [] = []
trim_last to (m ∷ []) = trim_back to m ∷ []
trim_last to (m ∷ m' ∷ ms) = m ∷ trim_last to (m' ∷ ms)

-- `trim_edge_mappings`: the first mapping, and then the last, which may be the same one.
unfoldable pub trim_edge_mappings : ℕ → ℕ → List SegmentMapping → List SegmentMapping
unfolding trim_first trim_last
trim_edge_mappings from to ms = trim_last to (trim_first from ms)
