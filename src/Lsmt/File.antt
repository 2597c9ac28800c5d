-- ===== src/Lsmt/File.antt =====
-- `LSMTFile` of src/overlaybd/lsmt/file.cpp, not stacked on lower layers (`m_rw_tag` is 0 and `m_index`
-- an `Index0`), in units of sectors, as `CHECK_ALIGNMENT` has it. The data file and the index file are
-- photon's: what appending to them does is a parameter. The Boolean result of an append is whether all
-- was written; there is an index file. Locks are left out: a call runs alone. `none` is a write behind
-- the buffer of mappings.
pub mod Content
pub mod Write
pub mod Pread
pub mod Read
pub mod RoundTrip
pub mod Reload
pub mod Reopen
pub mod Session
mod Tests
use dadi_fast_cdc.Prelude.{ℕ, zero, suc, ◌+◌, ◌-◌, ◌%◌, ◌^◌, Bool, true, false, List, [], ◌∷◌, ◌++◌}
use dadi_fast_cdc.Prelude.{
  ltb, leb, ◌==◌, ◌||◌, not, if◌then◌else◌, Option, none, some, length, take, drop, replicate,
}
use dadi_fast_cdc.Lsmt.Segment.{SegmentMapping, max_offset, max_length, invalid_mapping, discard}
use dadi_fast_cdc.Lsmt.Index0.{Index0, insert, create_memory_index0}

-- `stacked` are the first `nmapping` of the `capacity` elements of `m_stacked_mappings`.
pub record LsmtFile (F G : Type 0) : Type 0 where
  pub fdata : F
  pub findex : G
  pub index : Index0
  pub stacked : List SegmentMapping
  pub capacity : ℕ
  pub vsize : ℕ

-- What `do_load_index` keeps of an index file, which is not of a `LSMTWarpFile`.
unfoldable pub do_load_index : List SegmentMapping → List SegmentMapping
do_load_index [] = []
do_load_index (m ∷ ms) =
    let rest = do_load_index ms in
    if m.offset == max_offset then rest else record m { tag = 0 } ∷ rest

-- The index that `open_file_rw` makes of an index file, for a data file of `n` sectors.
unfoldable pub open_index : List SegmentMapping → ℕ → Option Index0
unfolding do_load_index create_memory_index0
open_index ms n = create_memory_index0 (do_load_index ms) 8 n

abbrev pub max : ℕ → ℕ → ℕ
max a b = if ltb a b then b else a

module _ {A F G : Type 0} (size : F → ℕ) (append_data : F → List A → F × Bool)
    (append_log : G → List SegmentMapping → G × Bool) where
  -- `do_group_commit_mappings`, and whether it returned 0.
  unfoldable pub do_group_commit_mappings : LsmtFile F G → LsmtFile F G × Bool
  unfolding invalid_mapping
  do_group_commit_mappings f =
      let padded = f.stacked ++ replicate (f.capacity - length f.stacked) invalid_mapping in
      let (findex', ok) = append_log f.findex padded in
      if length f.stacked == 0
      then (f, true)
      else if ok
      then (record f { findex = findex'; stacked = [] }, true)
      else (record f { findex = findex'; stacked = padded }, false)

  unfoldable pub append_index : LsmtFile F G → SegmentMapping → Option (LsmtFile F G)
  append_index f m =
      let more = record f { stacked = f.stacked ++ m ∷ [] } in
      if f.capacity == 0
      then some (record f { findex = (append_log f.findex (m ∷ [])).0 })
      else if leb f.capacity (length f.stacked)
      then none
      else if length more.stacked == f.capacity
      then some (do_group_commit_mappings more).0
      else some more

  -- The mapping that a write of `count` sectors at `offset` makes, its data at `pos`.
  unfoldable pub mapping_of : ℕ → ℕ → ℕ → SegmentMapping
  mapping_of offset count pos = record {
    offset = offset % 2 ^ 50;
    length = count % 2 ^ 14;
    moffset = pos % 2 ^ 55;
    zeroed = false;
    tag = 0;
  }

  -- A call that succeeded, unless it wrote behind the buffer.
  abbrev pub returned : Option (LsmtFile F G) → Option (LsmtFile F G × Bool)
  returned none = none
  returned (some f) = some (f, true)

  -- The rest of a call, after a part of it that succeeded.
  abbrev pub and_then :
      Option (LsmtFile F G × Bool)
      → (LsmtFile F G → Option (LsmtFile F G × Bool))
      → Option (LsmtFile F G × Bool)
  and_then none go = none
  and_then (some (f, false)) go = some (f, false)
  and_then (some (f, true)) go = go f

  -- The part of `pwrite` under the lock, and whether it succeeded. A file that was empty counts as an
  -- error, since `append` returns the position.
  unfoldable pub write_piece : LsmtFile F G → List A → ℕ → Option (LsmtFile F G × Bool)
  write_piece f piece offset =
      let pos = size f.fdata in
      let (fdata', ok) = append_data f.fdata piece in
      let m = mapping_of offset (length piece) pos in
      let written =
        append_index
          (record f {
            fdata = fdata';
            vsize = max f.vsize (length piece + offset);
            index = insert f.index m;
          })
          m in
      if not ok || (pos == 0) then some (record f { fdata = fdata' }, false) else returned written

  -- `pwrite` in pieces of `max_io` sectors, on fuel; without fuel it fails.
  unfoldable pub pwrite : ℕ → ℕ → LsmtFile F G → List A → ℕ → Option (LsmtFile F G × Bool)
  pwrite max_io zero f sectors offset = some (f, false)
  pwrite max_io (suc fuel) f sectors offset =
      if ltb max_io (length sectors)
      then and_then (write_piece f (take max_io sectors) offset)
          (λ f'. pwrite max_io fuel f' (drop max_io sectors) (offset + max_io))
      else write_piece f sectors offset

  -- `discard`
  unfoldable pub discard_mapping : LsmtFile F G → SegmentMapping → Option (LsmtFile F G)
  discard_mapping f m =
      let m' = record m { moffset = size f.fdata % 2 ^ 55; tag = 0 } in
      append_index (record f { index = insert f.index m' }) m'

  -- `fallocate` with both flags, in pieces of `Segment::MAX_LENGTH`, on fuel; and whether it returned 0.
  unfoldable pub fallocate : ℕ → LsmtFile F G → ℕ → ℕ → Option (LsmtFile F G × Bool)
  fallocate zero f offset len = some (f, false)
  fallocate (suc fuel) f offset len =
      let piece = if ltb max_length len then max_length else len in
      and_then (returned (discard_mapping f (discard (mapping_of offset piece 0)))) (λ f'.
        if ltb max_length len
        then fallocate fuel f' (offset + max_length) (len - max_length)
        else some (f', true))
