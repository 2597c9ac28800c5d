-- ===== src/Lsmt/File/Reload.antt =====
-- What `open_file_rw` of src/overlaybd/lsmt/file.cpp makes of the index file that `LSMTFile` wrote.
use mathlib.Core.List.{append-nil, append_assoc}
use dadi_fast_cdc.Prelude.{
  ℕ, zero, suc, ◌-◌, ◌≤◌, ◌<◌, ◌≡◌, refl, sym, ap, ◌∙◌, inl, inr, Bool, true, false, some,
}
use dadi_fast_cdc.Prelude.{List, [], ◌∷◌, ◌++◌, leb, ◌==◌, arith, Bool-cases, All, All-append}
use dadi_fast_cdc.Prelude.{length, length-append, replicate}
use dadi_fast_cdc.Lsmt.Segment.{SegmentMapping, mend, max_offset, invalid_mapping}
use dadi_fast_cdc.Lsmt.Index.{verify_mapping_moffset}
use dadi_fast_cdc.Lsmt.Index0.{Index0, insert, insert_all, create}
use dadi_fast_cdc.Lsmt.File.{LsmtFile, do_group_commit_mappings, append_index, do_load_index}
use dadi_fast_cdc.Lsmt.File.Content.{Buffered}

insert_all-append :
    (i : Index0) (xs ys : List SegmentMapping)
    → insert_all i (xs ++ ys) ≡ insert_all (insert_all i xs) ys
insert_all-append i [] ys = refl
insert_all-append i (m ∷ xs) ys = insert_all-append (insert i m) xs ys

do_load_index-append :
    (xs ys : List SegmentMapping) → do_load_index (xs ++ ys) ≡ do_load_index xs ++ do_load_index ys
unfolding do_load_index
do_load_index-append [] ys = refl
do_load_index-append (m ∷ xs) ys = ground (arith, do_load_index-append xs ys)

do_load_index-invalid : (n : ℕ) → do_load_index (replicate n invalid_mapping) ≡ []
unfolding do_load_index invalid_mapping
do_load_index-invalid zero = refl
do_load_index-invalid (suc n) = do_load_index-invalid n

empty : (ms : List SegmentMapping) → length ms ≡ 0 → ms ≡ []
empty [] h = refl
empty (m ∷ ms) h = absurd (omega arith)

padded :
    (xs ys : List SegmentMapping) (n : ℕ)
    → do_load_index (xs ++ (ys ++ replicate n invalid_mapping) ++ []) ≡ do_load_index (xs ++ ys)
padded xs ys n =
    rw
      (
        append-nil (xs ++ (ys ++ replicate n invalid_mapping)),
        sym (append_assoc xs ys (replicate n invalid_mapping)),
        do_load_index-append (xs ++ ys) (replicate n invalid_mapping),
        do_load_index-invalid n,
      )
      (append-nil (do_load_index (xs ++ ys)))

-- A mapping of the file itself is kept as it is.
do_load_index-one :
    (m : SegmentMapping) → m.offset < max_offset → m.tag ≡ 0 → do_load_index (m ∷ []) ≡ m ∷ []
unfolding do_load_index
do_load_index-one m h t =
    let valid : (m.offset == max_offset) ≡ false = ground arith in rw (valid, sym t) refl

-- A mapping that `open_file_rw` accepts, for a data file of `n` sectors.
abbrev pub Accepted : ℕ → SegmentMapping → Type 0
Accepted n m = (8 ≤ m.moffset) × (mend m ≤ n) × (m.zeroed ≡ false → 0 < m.length)

pub verify-Accepted :
    (n : ℕ) (ms : List SegmentMapping) → All (Accepted n) ms → verify_mapping_moffset ms 8 n ≡ true
unfolding verify_mapping_moffset
verify-Accepted n [] h = refl
verify-Accepted n (m ∷ ms) h = ground (arith, h.0, verify-Accepted n ms h.1)

Accepted-le :
    (n n' : ℕ) (ms : List SegmentMapping) → n ≤ n' → All (Accepted n) ms → All (Accepted n') ms
Accepted-le n n' [] h a = tt
Accepted-le n n' (m ∷ ms) h a = ((a.0.0, omega (arith, a.0), a.0.2), Accepted-le n n' ms h a.1)

module _ {A F G : Type 0} (size : F → ℕ) (append_data : F → List A → F × Bool)
    (append_log : G → List SegmentMapping → G × Bool) (log : G → List SegmentMapping)
    (log_ok : (g : G) (ms : List SegmentMapping) → (append_log g ms).1 ≡ true)
    (log_grows : (g : G) (ms : List SegmentMapping) → log (append_log g ms).0 ≡ log g ++ ms) where
  -- What the index file and the buffer hold.
  abbrev pub recorded : LsmtFile F G → List SegmentMapping
  recorded f = do_load_index (log f.findex ++ f.stacked)

  pub do_group_commit-recorded :
      (f : LsmtFile F G)
      → let done = do_group_commit_mappings size append_data append_log f in
        (recorded done.0 ≡ recorded f)
        × (done.0.stacked ≡ [])
        × (done.1 ≡ true)
        × (done.0.index ≡ f.index)
        × (done.0.fdata ≡ f.fdata)
        × (done.0.capacity ≡ f.capacity)
  unfolding do_group_commit_mappings
  do_group_commit-recorded f = elim (Bool-cases (length f.stacked == 0)) [
    | inl t ↦ rw t (refl, empty f.stacked (ground arith), refl, refl, refl, refl)
    | inr t ↦
        let padding = replicate (f.capacity - length f.stacked) invalid_mapping in
        rw (t, log_ok f.findex (f.stacked ++ padding))
          (
            rw (log_grows f.findex (f.stacked ++ padding))
                (padded (log f.findex) f.stacked (f.capacity - length f.stacked)),
            refl,
            refl,
            refl,
            refl,
            refl,
          )
  ]

  -- The index file and the buffer give the index, and nothing is in a buffer that is not there.
  pub record Logged (f : LsmtFile F G) : Type 0 where
    pub same : create (do_load_index (log f.findex ++ f.stacked)) ≡ f.index
    pub unstacked : f.capacity ≡ 0 → f.stacked ≡ []
    pub accepted : All (Accepted (size f.fdata)) (do_load_index (log f.findex ++ f.stacked))
    pub buffered : Buffered f

  pub append_index-recorded :
      (f : LsmtFile F G) (m : SegmentMapping)
      → (f.capacity ≡ 0 → f.stacked ≡ [])
      → Buffered f
      → (f' : LsmtFile F G) × (append_index size append_data append_log f m ≡ some f')
        × (recorded f' ≡ do_load_index ((log f.findex ++ f.stacked) ++ m ∷ []))
        × (f'.index ≡ f.index)
        × (f'.fdata ≡ f.fdata)
        × (f'.capacity ≡ 0 → f'.stacked ≡ [])
        × Buffered f'
  unfolding append_index
  append_index-recorded f m unstacked b = elim (Bool-cases (f.capacity == 0)) [
    | inl t ↦
        let nothing = unstacked (ground arith) in
        rw t (
          _,
          refl,
          rw
              (
                log_grows f.findex (m ∷ []),
                nothing,
                append-nil (log f.findex),
                append-nil (log f.findex ++ m ∷ []),
              )
              refl,
          refl,
          refl,
          λ z. nothing,
          inl (ground arith),
        )
    | inr t ↦
        let room : leb f.capacity (length f.stacked) ≡ false = ground (arith, b) in
        let count = length-append f.stacked (m ∷ []) in
        let more : LsmtFile F G = record f { stacked = f.stacked ++ m ∷ [] } in
        let assoc = append_assoc (log f.findex) f.stacked (m ∷ []) in
        elim (Bool-cases (length (f.stacked ++ m ∷ []) == f.capacity)) [
          | inl full ↦
              let done = do_group_commit-recorded more in
              rw (t, room, full)
                (
                  (do_group_commit_mappings size append_data append_log more).0,
                  refl,
                  done.0 ∙ ap do_load_index (sym assoc),
                  done.3,
                  done.4,
                  λ z. done.1,
                  inr (rw (done.1, done.5) (ground arith)),
                )
          | inr left ↦
              rw (t, room, left)
                (
                  more,
                  refl,
                  ap do_load_index (sym assoc),
                  refl,
                  refl,
                  λ z. absurd (ground arith),
                  inr (ground (arith, count, b)),
                )
        ]
  ]

  pub recorded-Logged :
      (f f' : LsmtFile F G) (m : SegmentMapping)
      → Logged f
      → recorded f' ≡ do_load_index ((log f.findex ++ f.stacked) ++ m ∷ [])
      → f'.index ≡ insert f.index m
      → size f.fdata ≤ size f'.fdata
      → Accepted (size f'.fdata) m
      → m.offset < max_offset
      → m.tag ≡ 0
      → (f'.capacity ≡ 0 → f'.stacked ≡ [])
      → Buffered f'
      → Logged f'
  unfolding create
  recorded-Logged f f' m l e same grown fresh valid own unstacked b =
      let all = e ∙ do_load_index-append (log f.findex ++ f.stacked) (m ∷ []) in
      let one = do_load_index-one m valid own in
      record {
        same =
            rw
              (
                all,
                one,
                insert_all-append (record { mapping = []; m_alloc = 0 }) (recorded f) (m ∷ []),
                l.same,
              )
              (sym same);
        unstacked = unstacked;
        accepted =
            rw (all, one)
              (All-append (Accepted (size f'.fdata)) (recorded f) (m ∷ [])
                (Accepted-le (size f.fdata) (size f'.fdata) (recorded f) grown l.accepted)
                (fresh, tt));
        buffered = b;
      }
