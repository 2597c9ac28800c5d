-- ===== src/Lsmt/Index.antt =====
-- The read-only index `Index` of src/overlaybd/lsmt/index.cpp, and the checks and the compression of
-- arrays of mappings. The array `pbegin .. pend` is a list; the ownership of its memory is left out.
pub mod Lookup
pub mod Compress
pub mod Count
mod Tests
use dadi_fast_cdc.Prelude.{
  ℕ, zero, suc, ◌+◌, ◌-◌, ◌*◌, ◌%◌, ◌^◌, Bool, true, false, List, [], ◌∷◌, map, length,
}
use dadi_fast_cdc.Prelude.{ltb, leb, ◌==◌, ◌&&◌, not, if◌then◌else◌, Option, none, some}
use dadi_fast_cdc.Lsmt.Segment.{
  Segment, SegmentMapping, segment_end, end, mend, before, lower_bound, invalid_mapping,
  trim_edge_mappings,
}

pub record Index : Type 0 where
  pub mapping : List SegmentMapping
  pub alloc_blk : ℕ
  pub virtual_size : ℕ

-- The sectors of a mapping that hold data, and those of a list.
abbrev pub used_by : SegmentMapping → ℕ
used_by m = if m.zeroed then 0 else m.length

abbrev pub used : List SegmentMapping → ℕ
used [] = 0
used (m ∷ ms) = used_by m + used ms

-- `get_alloc_blks`, from the count so far.
unfoldable pub get_alloc_blks : ℕ → List SegmentMapping → ℕ
get_alloc_blks alloc [] = alloc
get_alloc_blks alloc (m ∷ ms) = get_alloc_blks ((alloc + used_by m) % 2 ^ 64) ms

-- The constructor from an array does not count the blocks; the one from a vector does.
unfoldable pub from_array : List SegmentMapping → ℕ → Index
from_array ms vsize = record { mapping = ms; alloc_blk = 0; virtual_size = vsize }

unfoldable pub from_vector : List SegmentMapping → ℕ → Index
unfolding get_alloc_blks
from_vector ms vsize = record {
  mapping = ms;
  alloc_blk = get_alloc_blks 0 ms;
  virtual_size = vsize;
}

abbrev pub front : List SegmentMapping → SegmentMapping
front [] = invalid_mapping
front (m ∷ ms) = m

abbrev pub back : List SegmentMapping → SegmentMapping
back [] = invalid_mapping
back (m ∷ []) = m
back (m ∷ m' ∷ ms) = back (m' ∷ ms)

abbrev pub add_tag : ℕ → SegmentMapping → SegmentMapping
add_tag delta m = record m { tag = (m.tag + delta) % 2 ^ 8 }

unfoldable pub increase_tag : ℕ → List SegmentMapping → List SegmentMapping
increase_tag delta ms = map (add_tag delta) ms

-- The loop of `copy_n`, with `m` mappings stored; it stores one before it looks at `n`.
unfoldable pub copy_n : ℕ → ℕ → ℕ → List SegmentMapping → List SegmentMapping
copy_n end_offset n m [] = []
copy_n end_offset n m (it ∷ its) =
    if leb end_offset it.offset
    then []
    else it ∷ (if m + 1 == n then [] else copy_n end_offset n (m + 1) its)

-- `Index::lookup`; the mappings that it stores, of which there are as many as it returns.
unfoldable pub lookup : List SegmentMapping → Segment → ℕ → List SegmentMapping
unfolding lower_bound copy_n trim_edge_mappings
lookup ms s n =
    if s.length == 0
    then []
    else trim_edge_mappings s.offset (segment_end s)
        (copy_n (segment_end s) n 0 (lower_bound s.offset ms))

unfoldable pub verify_mapping_order : List SegmentMapping → Bool
verify_mapping_order [] = true
verify_mapping_order (m ∷ []) = true
verify_mapping_order (m ∷ m' ∷ ms) = if before m m' then verify_mapping_order (m' ∷ ms) else false

abbrev pub within : ℕ → ℕ → ℕ → ℕ → Bool → Bool
within x y from to zeroed =
    if zeroed then leb from x && leb x to else leb from x && (ltb x to && (ltb from y && leb y to))

unfoldable pub verify_mapping_moffset : List SegmentMapping → ℕ → ℕ → Bool
verify_mapping_moffset [] from to = true
verify_mapping_moffset (m ∷ ms) from to =
    if within m.moffset (mend m) from to m.zeroed then verify_mapping_moffset ms from to else false

unfoldable pub create_memory_index : List SegmentMapping → ℕ → ℕ → ℕ → Option Index
unfolding verify_mapping_order verify_mapping_moffset from_array
create_memory_index ms from to vsize =
    if verify_mapping_order ms && verify_mapping_moffset ms from to
    then some (from_array ms vsize)
    else none

-- Whether `compress_raw_index` joins `b` to `a`.
abbrev pub joins : SegmentMapping → SegmentMapping → Bool
joins a b =
    (end a == b.offset)
    && ((mend a == b.moffset)
        && ((if a.zeroed then b.zeroed else not b.zeroed)
            && ((a.tag == b.tag) && ltb (a.length + b.length) (2 ^ 14 - 1))))

abbrev pub join : SegmentMapping → SegmentMapping → SegmentMapping
join a b = record a { length = (a.length + b.length) % 2 ^ 14 }

-- `compress_raw_index`, with `mapping[i]` and what is behind `j`; the compressed array.
unfoldable pub compress_from : SegmentMapping → List SegmentMapping → List SegmentMapping
compress_from a [] = a ∷ []
compress_from a (b ∷ ms) =
    let joined = compress_from (join a b) ms in
    let kept = a ∷ compress_from b ms in if joins a b then joined else kept

unfoldable pub compress_raw_index : List SegmentMapping → List SegmentMapping
unfolding compress_from
compress_raw_index [] = []
compress_raw_index (m ∷ ms) = compress_from m ms

-- `compress_raw_index_predict` counts without a test of `moffset`.
abbrev pub predicts : SegmentMapping → SegmentMapping → Bool
predicts a b =
    (end a == b.offset)
    && ((a.tag == b.tag)
        && ((if a.zeroed then b.zeroed else not b.zeroed)
            && ltb (a.length + b.length) (2 ^ 14 - 1)))

unfoldable pub predict_from : SegmentMapping → List SegmentMapping → ℕ
predict_from a [] = 1
predict_from a (b ∷ ms) =
    let joined = predict_from (join a b) ms in
    let kept = predict_from b ms + 1 in if predicts a b then joined else kept

unfoldable pub compress_raw_index_predict : List SegmentMapping → ℕ
unfolding predict_from
compress_raw_index_predict [] = 0
compress_raw_index_predict (m ∷ ms) = predict_from m ms
