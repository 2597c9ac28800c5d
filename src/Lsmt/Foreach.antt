-- ===== src/Lsmt/Foreach.antt =====
-- `foreach_segments` of src/overlaybd/lsmt/index.h. The lookup of the index is a parameter, and so are
-- the callbacks, which act on a state `S`: what they return is `ok` where the C++ code returns a number
-- that is not negative.
pub mod Events
pub mod Fold
pub mod Tiles
mod Tests
use dadi_fast_cdc.Prelude.{ℕ, zero, suc, ◌+◌, ◌-◌, ◌%◌, ◌^◌, Bool, true, false, List, [], ◌∷◌}
use dadi_fast_cdc.Prelude.{ltb, if◌then◌else◌, Option, none, some, length}
use dadi_fast_cdc.Lsmt.Segment.{Segment, SegmentMapping, end}

-- `Segment::forward_offset_to`
unfoldable pub segment_forward_to : Segment → ℕ → Segment
segment_forward_to s x = record {
  offset = x % 2 ^ 50;
  length = (s.length + 2 ^ 64 - (x - s.offset)) % 2 ^ 14;
}

abbrev pub n_mapping : ℕ
n_mapping = 16

module _ {ℓ} {S : Type ℓ} (lookup : Segment → ℕ → List SegmentMapping)
    (cb_zero : Segment → S → S × Option ℕ) (cb_data : SegmentMapping → S → S × Option ℕ) where
  -- The hole before a mapping.
  unfoldable pub visit_hole : Segment → SegmentMapping → S → S × Option ℕ
  visit_hole s m st =
      if ltb s.offset m.offset
      then cb_zero (record { offset = s.offset; length = (m.offset - s.offset) % 2 ^ 14 }) st
      else (st, none)

  unfoldable pub visit_mapping : SegmentMapping → S → S × Option ℕ
  visit_mapping m st =
      if m.zeroed
      then cb_zero (record { offset = m.offset; length = m.length }) st
      else cb_data m st

  -- `if (ret < 0) return ret`
  abbrev pub unless_error : S × Option ℕ → Segment → Segment × S × Option ℕ → Segment × S × Option ℕ
  unless_error (st, some e) s rest = (s, st, some e)
  unless_error (st, none) s rest = rest

  -- The `for` loop.
  unfoldable pub visit_all : List SegmentMapping → Segment → S → Segment × S × Option ℕ
  unfolding visit_hole visit_mapping segment_forward_to
  visit_all [] s st = (s, st, none)
  visit_all (m ∷ ms) s st =
      let hole = visit_hole s m st in
      let done = visit_mapping m hole.0 in
      let rest = visit_all ms (segment_forward_to s (end m)) done.0 in
      unless_error hole s (unless_error done s rest)

  -- What a round of the `while` loop comes to, with `again` for the next round.
  abbrev pub after_round :
      List SegmentMapping → Segment × S × Option ℕ → Option (S × Option ℕ) → Option (S × Option ℕ)
  after_round mappings (s, st, some e) again = some (st, some e)
  after_round mappings (s, st, none) again =
      if ltb (length mappings) n_mapping
      then some ((if ltb 0 s.length then (cb_zero s st).0 else st), none)
      else again

  -- The `while` loop on fuel, and what is behind it; `none` only without fuel.
  unfoldable pub foreach_segments : ℕ → Segment → S → Option (S × Option ℕ)
  unfolding visit_all
  foreach_segments zero s st = none
  foreach_segments (suc fuel) s st =
      let mappings = lookup s n_mapping in
      let visited = visit_all mappings s st in
      after_round mappings visited (foreach_segments fuel visited.0 visited.1)
