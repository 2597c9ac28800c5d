-- ===== src/Lsmt/Merge.antt =====
-- `merge_indexes` and `merge_memory_indexes` of src/overlaybd/lsmt/index.cpp. A call appends to the
-- vector; what it appends is its result, and the edges of that are cut before the caller goes on.
-- `UINT64_MAX`, the end of the merged range, lies beyond any sector.
pub mod Layers
pub mod Loop
pub mod Refines
mod Tests
use dadi_fast_cdc.Prelude.{ℕ, zero, suc, ◌+◌, ◌-◌, ◌%◌, ◌^◌, Bool, true, false, List, [], ◌∷◌, ◌++◌}
use dadi_fast_cdc.Prelude.{
  ltb, leb, ◌==◌, if◌then◌else◌, Option, none, some, length, drop, get_or, map,
}
use dadi_fast_cdc.Lsmt.Segment.{SegmentMapping, end, lower_bound, trim_edge_mappings}
use dadi_fast_cdc.Lsmt.Index.{Index, from_vector}

-- `mapping.back().tag = level`
abbrev pub tagged : Option ℕ → SegmentMapping → SegmentMapping
tagged none m = m
tagged (some level) m = record m { tag = level % 2 ^ 8 }

-- The loop and the part behind it, with `hole` for the call on the other indexes.
unfoldable pub merge_loop :
    (ℕ → ℕ → List SegmentMapping) → Option ℕ → ℕ → ℕ → List SegmentMapping → List SegmentMapping
merge_loop hole level begin end_offset [] =
    if ltb begin end_offset then hole begin end_offset else []
merge_loop hole level begin end_offset (it ∷ its) =
    let behind = merge_loop hole level (end it) end_offset its in
    if ltb it.offset end_offset
    then (if ltb begin it.offset then hole begin it.offset else []) ++ tagged level it ∷ behind
    else if ltb begin end_offset
    then hole begin end_offset
    else []

-- One call on the index `pi0`. `pi0->lower_bound(begin)` puts `begin` into the 50 bits of a segment.
unfoldable pub merge_index :
    (ℕ → ℕ → List SegmentMapping) → Option ℕ → List SegmentMapping → ℕ → ℕ → List SegmentMapping
unfolding merge_loop lower_bound trim_edge_mappings
merge_index hole level pi0 begin end_offset =
    if leb end_offset begin
    then []
    else trim_edge_mappings begin end_offset
        (merge_loop hole level begin end_offset (lower_bound (begin % 2 ^ 50) pi0))

-- With `change_tag`: the indexes from the front one on.
unfoldable pub merge_indexes : ℕ → List (List SegmentMapping) → ℕ → ℕ → List SegmentMapping
unfolding merge_index
merge_indexes level [] begin end_offset = []
merge_indexes level (pi0 ∷ pindexes) begin end_offset =
    merge_index (merge_indexes (level + 1) pindexes) (some level) pi0 begin end_offset

-- Without `change_tag`: the call at the index `pindexes[0]`, with `max_level` calls left. The calls
-- below it get the count 0, and so stay on one index.
unfoldable pub merge_untagged : ℕ → List (List SegmentMapping) → ℕ → ℕ → ℕ → List SegmentMapping
unfolding merge_index
merge_untagged zero pindexes n begin end_offset = []
merge_untagged (suc max_level) pindexes n begin end_offset =
    let k = if leb n 1 then 0 else 1 in
    merge_index (merge_untagged max_level (drop k pindexes) 0) none (get_or pindexes 0 []) begin
      end_offset

unfoldable pub merge_memory_indexes : List Index → Option Index
unfolding merge_indexes from_vector
merge_memory_indexes [] = none
merge_memory_indexes (i ∷ is) =
    if ltb 255 (length (i ∷ is))
    then none
    else some (
        from_vector (merge_indexes 0 (map (λ j. j.mapping) (i ∷ is)) 0 (2 ^ 64 - 1)) i.virtual_size)
