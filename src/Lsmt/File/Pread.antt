-- ===== src/Lsmt/File/Pread.antt =====
-- `pread` of src/overlaybd/lsmt/file.cpp for a file that is not stacked, in units of sectors. The
-- buffer is the list of the sectors that were put into it, and reading the data file is a parameter:
-- `none` is an error, and the list is short where less was read.
use dadi_fast_cdc.Prelude.{ℕ, zero, suc, ◌+◌, ◌-◌, ◌%◌, ◌^◌, Option, none, some}
use dadi_fast_cdc.Prelude.{List, [], ◌∷◌, ◌++◌, ltb, if◌then◌else◌, length, replicate}
use dadi_fast_cdc.Lsmt.Segment.{Segment, SegmentMapping}
use dadi_fast_cdc.Lsmt.Index.{lookup}
use dadi_fast_cdc.Lsmt.Foreach.{foreach_segments}
use dadi_fast_cdc.Lsmt.File.{LsmtFile}

module _ {A F : Type 0} (pread_data : F → ℕ → ℕ → Option (List A)) (zeros : A) where
  abbrev pub cb_zero : Segment → List A → List A × Option ℕ
  cb_zero s buf = (buf ++ replicate s.length zeros, none)

  -- After a short read, with the result of a second one. Where that is not 0, the callback returns the
  -- number that the first gave, which stops nothing, and leaves the buffer where it was.
  abbrev pub read_again : Option (List A) → List A → SegmentMapping → List A → List A × Option ℕ
  read_again (some []) xs m buf = (buf ++ (xs ++ replicate (m.length - length xs) zeros), none)
  read_again (some (y ∷ ys)) xs m buf = (buf, none)
  read_again none xs m buf = (buf, none)

  abbrev pub after_read : F → Option (List A) → SegmentMapping → List A → List A × Option ℕ
  after_read d none m buf = (buf, some 1)
  after_read d (some xs) m buf =
      if ltb (length xs) m.length
      then read_again (pread_data d (m.moffset + length xs) (m.length - length xs)) xs m buf
      else (buf ++ xs, none)

  abbrev pub cb_data : F → SegmentMapping → List A → List A × Option ℕ
  cb_data d m buf = after_read d (pread_data d m.moffset m.length) m buf

-- What a piece and the rest of the read come to.
abbrev pub and_read :
    {A : Type 0}
    → Option (List A × Option ℕ)
    → Option (List A × Option ℕ)
    → Option (List A × Option ℕ)
and_read none rest = none
and_read (some (xs, some e)) rest = some (xs, some e)
and_read (some (xs, none)) none = none
and_read (some (xs, none)) (some (ys, e)) = some (xs ++ ys, e)

module _ {A F G : Type 0} (pread_data : F → ℕ → ℕ → Option (List A)) (zeros : A) where
  -- One call of `foreach_segments`, and what is read with whether it succeeded.
  unfoldable pub pread_piece : LsmtFile F G → ℕ → ℕ → Option (List A × Option ℕ)
  pread_piece f count offset =
      foreach_segments (lookup f.index.mapping) (cb_zero pread_data zeros)
        (cb_data pread_data zeros f.fdata) (count + 1)
        (record { offset = offset % 2 ^ 50; length = count % 2 ^ 14 }) []

  -- `pread` in pieces of `max_io` sectors, on fuel; `none` only without fuel.
  unfoldable pub pread : ℕ → ℕ → LsmtFile F G → ℕ → ℕ → Option (List A × Option ℕ)
  pread max_io zero f count offset = none
  pread max_io (suc fuel) f count offset =
      let rest = pread max_io fuel f (count - max_io) (offset + max_io) in
      if ltb max_io count
      then and_read (pread_piece f max_io offset) rest
      else pread_piece f count offset
