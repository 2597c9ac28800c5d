-- ===== src/Lsmt/File/Session.antt =====
-- Sequences of calls of `LSMTFile` of src/overlaybd/lsmt/file.cpp, from an empty index on.
use mathlib.Core.Path.{subst}
use dadi_fast_cdc.Prelude.{
  ℕ, ◌+◌, ◌^◌, ◌≤◌, ◌<◌, ◌≡◌, refl, sym, ap, ◌∙◌, inl, inr, Bool, true, some,
}
use dadi_fast_cdc.Prelude.{List, [], ◌++◌, ◌==◌, arith, Bool-cases, length}
use dadi_fast_cdc.Lsmt.Segment.{SegmentMapping, discard}
use dadi_fast_cdc.Lsmt.Index0.{create}
use dadi_fast_cdc.Lsmt.File.{
  LsmtFile, do_group_commit_mappings, mapping_of, write_piece, discard_mapping, do_load_index,
  open_index,
}
use dadi_fast_cdc.Lsmt.File.Content.{Buffered}
use dadi_fast_cdc.Lsmt.File.Reload.{Logged, do_group_commit-recorded}
use dadi_fast_cdc.Lsmt.File.Reopen.{write_piece-Logged, discard_mapping-Logged, open_index-Logged}

module _ {A F G : Type 0} (size : F → ℕ) (append_data : F → List A → F × Bool)
    (append_log : G → List SegmentMapping → G × Bool) (log : G → List SegmentMapping) where
  -- The files that calls that succeed lead to.
  pub data Session : LsmtFile F G → Type 0 where
    opened :
        (f : LsmtFile F G) → log f.findex ≡ [] → f.stacked ≡ [] → f.index ≡ create [] → Session f
    wrote :
        (f f' : LsmtFile F G) (piece : List A) (offset : ℕ)
        → Session f
        → 8 ≤ size f.fdata
        → 0 < length piece
        → length piece < 2 ^ 14
        → offset + length piece < 2 ^ 50
        → size f.fdata + length piece ≤ 2 ^ 55
        → write_piece size append_data append_log f piece offset ≡ some (f', true)
        → Session f'
    discarded :
        (f f' : LsmtFile F G) (offset count : ℕ)
        → Session f
        → 8 ≤ size f.fdata
        → size f.fdata < 2 ^ 55
        → 0 < count
        → count < 2 ^ 14
        → offset + count < 2 ^ 50
        → discard_mapping size append_data append_log f
            (discard (mapping_of size append_data append_log offset count 0))
          ≡ some f'
        → Session f'
    synced :
        (f : LsmtFile F G)
        → Session f
        → Session (do_group_commit_mappings size append_data append_log f).0

empty-Buffered : {F G : Type 0} (f : LsmtFile F G) → f.stacked ≡ [] → Buffered f
empty-Buffered f e = elim (Bool-cases (f.capacity == 0)) [
  | inl t ↦ inl (ground arith)
  | inr t ↦ inr (rw e (ground arith))
]

module _ {A F G : Type 0} (size : F → ℕ) (append_data : F → List A → F × Bool)
    (append_log : G → List SegmentMapping → G × Bool) (log : G → List SegmentMapping)
    (log_ok : (g : G) (ms : List SegmentMapping) → (append_log g ms).1 ≡ true)
    (log_grows : (g : G) (ms : List SegmentMapping) → log (append_log g ms).0 ≡ log g ++ ms)
    (grows : (f : F) (xs : List A)
      → (append_data f xs).1 ≡ true
      → size (append_data f xs).0 ≡ size f + length xs) where
  write_piece-took :
      (f f' : LsmtFile F G) (piece : List A) (offset : ℕ)
      → write_piece size append_data append_log f piece offset ≡ some (f', true)
      → (append_data f.fdata piece).1 ≡ true
  unfolding write_piece
  write_piece-took f f' piece offset e = elim (Bool-cases (append_data f.fdata piece).1) [
    | inl t ↦ t
    | inr t ↦ absurd (ground (arith, e, t))
  ]

  Session-Logged :
      (f : LsmtFile F G)
      → Session size append_data append_log log f
      → Logged size append_data append_log log log_ok log_grows f
  unfolding do_load_index
  Session-Logged g (opened f empty unstacked fresh) = record {
    same = rw (empty, unstacked, fresh) refl;
    unstacked = λ z. unstacked;
    accepted = rw (empty, unstacked) tt;
    buffered = empty-Buffered f unstacked;
  }
  Session-Logged g (wrote f f' piece offset s header busy short low fit e) =
      let ok = write_piece-took f f' piece offset e in
      let next =
        write_piece-Logged size append_data append_log log log_ok log_grows f piece offset
          (Session-Logged f s) ok (grows f.fdata piece ok) header busy short low fit in
      let same : next.0 ≡ f' = ground (arith, next.1, e) in
      subst (Logged size append_data append_log log log_ok log_grows) same next.2
  Session-Logged g (discarded f f' offset count s header fit busy short low e) =
      let next =
        discard_mapping-Logged size append_data append_log log log_ok log_grows f offset count
          (Session-Logged f s) header fit busy short low in
      let same : next.0 ≡ f' = ground (arith, next.1, e) in
      subst (Logged size append_data append_log log log_ok log_grows) same next.2
  Session-Logged g (synced f s) =
      let l = Session-Logged f s in
      let done = do_group_commit-recorded size append_data append_log log log_ok log_grows f in
      record {
        same = rw done.0 (l.same ∙ sym done.3);
        unstacked = λ z. done.1;
        accepted = rw (done.4, done.0) l.accepted;
        buffered = empty-Buffered (do_group_commit_mappings size append_data append_log f).0 done.1;
      }

  -- After any writes, discards and commits of the buffer that succeed, on a file opened with an empty
  -- index, where the index file takes every append and the data file grows by what it takes: when the
  -- buffer is committed once more, which `fsync` does, `open_file_rw` makes the very index of the file
  -- again, its set and its count, from the index file.
  pub open_index-Session :
      (f : LsmtFile F G)
      → Session size append_data append_log log f
      → let f' = (do_group_commit_mappings size append_data append_log f).0 in
        open_index (log f'.findex) (size f'.fdata) ≡ some f.index
  open_index-Session f s =
      let l = Session-Logged f s in
      let done = do_group_commit-recorded size append_data append_log log log_ok log_grows f in
      open_index-Logged size append_data append_log log log_ok log_grows f l ∙ ap some done.3
