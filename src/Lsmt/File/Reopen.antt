-- ===== src/Lsmt/File/Reopen.antt =====
-- `LSMTFile` of src/overlaybd/lsmt/file.cpp keeps in its index file what `open_file_rw` needs.
use mathlib.Core.List.{append-nil}
use dadi_fast_cdc.Prelude.{
  ℕ, ◌+◌, ◌%◌, ◌^◌, ◌≤◌, ◌<◌, ◌≡◌, refl, sym, ap, ◌∙◌, Bool, true, false, some,
}
use dadi_fast_cdc.Prelude.{List, ◌++◌, ◌==◌, arith, length}
use dadi_fast_cdc.Lsmt.Segment.{SegmentMapping, discard}
use dadi_fast_cdc.Lsmt.Index0.{insert, create_memory_index0}
use dadi_fast_cdc.Lsmt.File.{
  LsmtFile, max, do_group_commit_mappings, mapping_of, write_piece, discard_mapping, do_load_index,
  open_index,
}
use dadi_fast_cdc.Lsmt.File.Content.{mapping_of-fields}
use dadi_fast_cdc.Lsmt.File.Reload.{
  verify-Accepted, Logged, append_index-recorded, recorded-Logged, do_group_commit-recorded,
}

module _ {A F G : Type 0} (size : F → ℕ) (append_data : F → List A → F × Bool)
    (append_log : G → List SegmentMapping → G × Bool) (log : G → List SegmentMapping)
    (log_ok : (g : G) (ms : List SegmentMapping) → (append_log g ms).1 ≡ true)
    (log_grows : (g : G) (ms : List SegmentMapping) → log (append_log g ms).0 ≡ log g ++ ms) where
  -- A piece of one sector or more that the data file takes, below the last sector of all.
  pub write_piece-Logged :
      (f : LsmtFile F G) (piece : List A) (offset : ℕ)
      → Logged size append_data append_log log log_ok log_grows f
      → (append_data f.fdata piece).1 ≡ true
      → size (append_data f.fdata piece).0 ≡ size f.fdata + length piece
      → 8 ≤ size f.fdata
      → 0 < length piece
      → length piece < 2 ^ 14
      → offset + length piece < 2 ^ 50
      → size f.fdata + length piece ≤ 2 ^ 55
      → (f' : LsmtFile F G) × (write_piece size append_data append_log f piece offset
          ≡ some (f', true))
        × Logged size append_data append_log log log_ok log_grows f'
  unfolding write_piece
  write_piece-Logged f piece offset l fresh grown header busy short low fit =
      let m : SegmentMapping = record {
        offset = offset;
        length = length piece;
        moffset = size f.fdata;
        zeroed = false;
        tag = 0;
      } in
      let made =
        mapping_of-fields size append_data append_log log_ok offset (length piece) (size f.fdata)
          busy short (omega arith) (omega arith) in
      let logged =
        append_index-recorded size append_data append_log log log_ok log_grows
          (record f {
            fdata = (append_data f.fdata piece).0;
            vsize = max f.vsize (length piece + offset);
            index = insert f.index m;
          })
          m l.unstacked l.buffered in
      let not_empty : (size f.fdata == 0) ≡ false = ground arith in
      let larger : size logged.0.fdata ≡ size f.fdata + length piece = ap size logged.4 ∙ grown in
      rw (made, fresh, not_empty, logged.1)
        (
          logged.0,
          refl,
          recorded-Logged size append_data append_log log log_ok log_grows f logged.0 m l logged.2
              logged.3 (omega (arith, larger)) (header, omega (arith, larger), λ z. busy)
              (omega arith) refl logged.5 logged.6,
        )

  -- A range of one sector or more, below the last sector of all.
  pub discard_mapping-Logged :
      (f : LsmtFile F G) (offset count : ℕ)
      → Logged size append_data append_log log log_ok log_grows f
      → 8 ≤ size f.fdata
      → size f.fdata < 2 ^ 55
      → 0 < count
      → count < 2 ^ 14
      → offset + count < 2 ^ 50
      → (f' : LsmtFile F G) × (discard_mapping size append_data append_log f
            (discard (mapping_of size append_data append_log offset count 0))
          ≡ some f')
        × Logged size append_data append_log log log_ok log_grows f'
  unfolding discard_mapping discard
  discard_mapping-Logged f offset count l header fit busy short low =
      let made =
        mapping_of-fields size append_data append_log log_ok offset count 0 busy short (omega arith)
          (omega arith) in
      let m : SegmentMapping = record {
        offset = offset;
        length = count;
        moffset = size f.fdata % 2 ^ 55;
        zeroed = true;
        tag = 0;
      } in
      let logged =
        append_index-recorded size append_data append_log log log_ok log_grows
          (record f { index = insert f.index m }) m l.unstacked l.buffered in
      let same : size logged.0.fdata ≡ size f.fdata = ap size logged.4 in
      rw (made, logged.1)
        (
          logged.0,
          refl,
          recorded-Logged size append_data append_log log log_ok log_grows f logged.0 m l logged.2
              logged.3 (omega (arith, same)) (omega arith, omega (arith, same), λ z. busy)
              (omega arith) refl logged.5 logged.6,
        )

  -- After `do_group_commit_mappings`, which `fsync` calls, `open_file_rw` makes the index again.
  pub open_index-Logged :
      (f : LsmtFile F G)
      → Logged size append_data append_log log log_ok log_grows f
      → let f' = (do_group_commit_mappings size append_data append_log f).0 in
        open_index (log f'.findex) (size f'.fdata) ≡ some f'.index
  unfolding open_index create_memory_index0
  open_index-Logged f l =
      let done = do_group_commit-recorded size append_data append_log log log_ok log_grows f in
      let after = (do_group_commit_mappings size append_data append_log f).0 in
      let kept : do_load_index (log after.findex) ≡ do_load_index (log f.findex ++ f.stacked) =
        ap do_load_index (sym (append-nil (log after.findex)))
        ∙ ap (λ s. do_load_index (log after.findex ++ s)) (sym done.1)
        ∙ done.0 in
      rw (kept, done.4, verify-Accepted (size f.fdata) _ l.accepted, done.3) (ap some l.same)
