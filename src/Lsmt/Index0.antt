-- ===== src/Lsmt/Index0.antt =====
-- The writable index `Index0` of src/overlaybd/lsmt/index.cpp: a `std::set` of mappings under the order
-- of index.h, as the list of its elements, and the count `m_alloc` of the sectors with data. An
-- iterator is the list of what is from it on.
pub mod Parts
pub mod Clear
pub mod Insert
pub mod RoundTrip
mod Tests
use dadi_fast_cdc.Prelude.{
  ℕ, ◌+◌, ◌-◌, ◌%◌, ◌^◌, Bool, true, false, Option, none, some, List, [], ◌∷◌, ◌++◌,
}
use dadi_fast_cdc.Prelude.{ltb, leb, ◌==◌, if◌then◌else◌}
use dadi_fast_cdc.Lsmt.Segment.{
  Segment, SegmentMapping, end, before, lower_bound, forward_offset_to, backward_end_to,
}
use dadi_fast_cdc.Lsmt.Index.{Index, used_by, lookup, verify_mapping_moffset, from_vector}

pub record Index0 : Type 0 where
  pub mapping : List SegmentMapping
  pub m_alloc : ℕ

-- `alloc_blk += m` and `alloc_blk -= m`
abbrev pub usage_add : ℕ → SegmentMapping → ℕ
usage_add alloc m = (alloc + used_by m) % 2 ^ 64

abbrev pub usage_sub : ℕ → SegmentMapping → ℕ
usage_sub alloc m = (alloc + 2 ^ 64 - used_by m) % 2 ^ 64

-- `std::set::insert`: no change where an element is neither before nor behind the new one.
unfoldable pub set_insert : SegmentMapping → List SegmentMapping → List SegmentMapping
set_insert m [] = m ∷ []
set_insert m (e ∷ es) =
    if before e m then e ∷ set_insert m es else if before m e then m ∷ e ∷ es else e ∷ es

-- The elements that `lower_bound` passes.
unfoldable pub passed : ℕ → List SegmentMapping → List SegmentMapping
passed offset [] = []
passed offset (e ∷ es) = if leb (end e) offset then e ∷ passed offset es else []

-- What `remove_partial_overlap` makes of the element `p`, and the count after it. The second part of
-- a mapping that is split stands behind the first in the order of the set.
unfoldable pub remove_partial_overlap : ℕ → ℕ → ℕ → SegmentMapping → List SegmentMapping × ℕ
remove_partial_overlap offset length alloc p =
    let end_offset = offset + length in
    let less = usage_sub alloc p in
    let shrunk = backward_end_to p offset in
    let rest = forward_offset_to p end_offset in
    if ltb p.offset offset
    then (if leb (end p) end_offset
        then (shrunk ∷ [], usage_add less shrunk)
        else (shrunk ∷ rest ∷ [], usage_add (usage_add less shrunk) rest))
    else if ltb p.offset end_offset
    then (if leb (end p) end_offset then ([], less) else (rest ∷ [], usage_add less rest))
    else (p ∷ [], alloc)

-- `while (it != mapping.end() && it->offset < m.end())`
unfoldable pub erase_covered : SegmentMapping → ℕ → List SegmentMapping → List SegmentMapping × ℕ
erase_covered m alloc [] = ([], alloc)
erase_covered m alloc (it ∷ its) =
    let rest = erase_covered m (usage_sub alloc it) its in
    let (parts, alloc') = remove_partial_overlap m.offset m.length alloc it in
    if ltb it.offset (end m)
    then (if leb (end it) (end m) then rest else (parts ++ its, alloc'))
    else (it ∷ its, alloc)

-- What is left of the elements from `lower_bound` on.
unfoldable pub clear_from : SegmentMapping → ℕ → List SegmentMapping → List SegmentMapping × ℕ
unfolding erase_covered
clear_from m alloc [] = ([], alloc)
clear_from m alloc (it ∷ its) =
    let (parts, alloc') = remove_partial_overlap m.offset m.length alloc it in
    let (rest, alloc'') = erase_covered m alloc' its in (parts ++ rest, alloc'')

unfoldable pub insert : Index0 → SegmentMapping → Index0
unfolding set_insert passed clear_from lower_bound
insert i m =
    let (rest, alloc) = clear_from m (usage_add i.m_alloc m) (lower_bound m.offset i.mapping) in
    if m.length == 0
    then i
    else record { mapping = set_insert m (passed m.offset i.mapping ++ rest); m_alloc = alloc }

abbrev pub insert_all : Index0 → List SegmentMapping → Index0
insert_all i [] = i
insert_all i (m ∷ ms) = insert_all (insert i m) ms

-- The constructor.
unfoldable pub create : List SegmentMapping → Index0
unfolding insert
create ms = insert_all (record { mapping = []; m_alloc = 0 }) ms

unfoldable pub block_count : Index0 → ℕ
block_count i = i.m_alloc

unfoldable pub create_memory_index0 : List SegmentMapping → ℕ → ℕ → Option Index0
unfolding verify_mapping_moffset create
create_memory_index0 ms from to =
    if verify_mapping_moffset ms from to then some (create ms) else none

-- `Index0::make_read_only_index`: the index that `assign` fills.
unfoldable pub make_read_only_index : Index0 → Index
unfolding from_vector
make_read_only_index i = from_vector i.mapping 0
