-- ===== src/Lsmt/Combo.antt =====
-- `ComboIndex` of src/overlaybd/lsmt/index.cpp: an `Index0` of its own over a read-only index.
pub mod Gaps
pub mod Lookup
pub mod ReadOnly
mod Tests
use dadi_fast_cdc.Prelude.{
  ℕ, zero, suc, ◌+◌, ◌-◌, ◌%◌, ◌^◌, Bool, true, false, List, [], ◌∷◌, ◌++◌, map,
}
use dadi_fast_cdc.Prelude.{ltb, leb, ◌==◌, ◌&&◌, not, if◌then◌else◌, Option, none, some, length}
use dadi_fast_cdc.Lsmt.Segment.{
  Segment, SegmentMapping, segment_end, end, lower_bound, trim_edge_mappings,
}
use dadi_fast_cdc.Lsmt.Index.{Index, lookup, increase_tag, from_vector}
use dadi_fast_cdc.Lsmt.Index0.{Index0, insert}
use dadi_fast_cdc.Lsmt.Merge.{merge_untagged}

-- `front` is the set and the count that the class has from `Index0`.
pub record ComboIndex : Type 0 where
  pub front : Index0
  pub index0 : Index0
  pub backing : Option Index

-- `create_combo_index` with the constructor: the set is a copy of that of `index0`, the tags of which
-- go up by the number of the read-only layers; the count starts at 0.
unfoldable pub create_combo_index : Option Index0 → Option Index → ℕ → Option ComboIndex
unfolding increase_tag
create_combo_index none index ro_index_count = none
create_combo_index (some i0) none ro_index_count = none
create_combo_index (some i0) (some i1) ro_index_count = some (record {
  front = record { mapping = increase_tag ro_index_count i0.mapping; m_alloc = 0 };
  index0 = i0;
  backing = some i1;
})

-- `insert`, which is that of `Index0`.
unfoldable pub combo_insert : ComboIndex → SegmentMapping → ComboIndex
unfolding insert
combo_insert c m = record c { front = insert c.front m }

-- The lookup in the read-only index from `soffset` to `to`.
unfoldable pub lookup_gap : Index → ℕ → ℕ → ℕ → List SegmentMapping
unfolding lookup
lookup_gap i soffset to n =
    if ltb soffset to
    then lookup i.mapping (record { offset = soffset % 2 ^ 50; length = (to - soffset) % 2 ^ 14 }) n
    else []

-- The loop of `ComboIndex::lookup` and what is behind it, with room for `n` mappings.
unfoldable pub lookup_loop : Index → ℕ → ℕ → ℕ → List SegmentMapping → List SegmentMapping
lookup_loop i send soffset n [] = if n == 0 then [] else lookup_gap i soffset send n
lookup_loop i send soffset n (it ∷ its) =
    let gap = lookup_gap i soffset it.offset n in
    let left = n - length gap in
    let behind = lookup_loop i send (end it) (left - 1) its in
    if ltb it.offset send && not (n == 0)
    then gap ++ (if left == 0 then [] else it ∷ behind)
    else if n == 0
    then []
    else lookup_gap i soffset send n

unfoldable pub combo_lookup : ComboIndex → Segment → ℕ → List SegmentMapping
unfolding lookup lookup_loop lower_bound trim_edge_mappings
combo_lookup c s n = if s.length == 0 then [] else elim c.backing [
  | none ↦ lookup c.front.mapping s n
  | some i ↦
      trim_edge_mappings s.offset (segment_end s)
        (lookup_loop i (segment_end s) s.offset n (lower_bound s.offset c.front.mapping))
]

-- `backing_index` with a new index; `none` where it is refused with `EINVAL`. An index without
-- mappings has no buffer.
unfoldable pub set_backing_index : ComboIndex → Option Index → Option ComboIndex
set_backing_index c none = none
set_backing_index c (some i) = elim i.mapping [
  | [] ↦ none
  | m ∷ ms ↦ some (record c { backing = some i })
]

-- The mappings with a tag in `min_level .. max_level - 1`.
unfoldable pub tag_range : ℕ → ℕ → List SegmentMapping → List SegmentMapping
tag_range min_level max_level [] = []
tag_range min_level max_level (m ∷ ms) =
    let rest = tag_range min_level max_level ms in
    if leb min_level m.tag && ltb m.tag max_level then m ∷ rest else rest

-- `load_range_index` of a combo whose read-only index is `backing`.
unfoldable pub load_range_index : Index → ℕ → ℕ → Option Index
unfolding tag_range from_vector
load_range_index backing min_level max_level =
    let range_index = tag_range min_level max_level backing.mapping in
    if leb max_level min_level
    then none
    else if length range_index == 0
    then none
    else some (from_vector range_index 0)

unfoldable pub rebuild_backing_index : Index → Index → ℕ → Index
unfolding merge_untagged from_vector
rebuild_backing_index backing highlevel_idx max_level =
    from_vector
      (merge_untagged max_level (highlevel_idx.mapping ∷ backing.mapping ∷ []) 2 0 (2 ^ 64 - 1)) 0

unfoldable pub combo_read_only_index : ComboIndex → Index
unfolding merge_untagged from_vector
combo_read_only_index c = elim c.backing [
  | none ↦ from_vector c.front.mapping 0
  | some i ↦ from_vector (merge_untagged 2 (c.front.mapping ∷ i.mapping ∷ []) 2 0 (2 ^ 64 - 1)) 0
]
