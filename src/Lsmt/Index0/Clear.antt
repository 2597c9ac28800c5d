-- ===== src/Lsmt/Index0/Clear.antt =====
-- How `Index0::insert` of src/overlaybd/lsmt/index.cpp makes room for a mapping.
use dadi_fast_cdc.Prelude.{ℕ, ◌≤◌, ◌<◌, refl, inl, inr}
use dadi_fast_cdc.Prelude.{List, [], ◌∷◌, ◌++◌, ltb, leb, arith, Bool-cases}
use dadi_fast_cdc.Lsmt.Segment.{SegmentMapping, end, forward_offset_to, backward_end_to}
use dadi_fast_cdc.Lsmt.Segment.Place.{
  Fits, Chain, Part, forward_offset_to-Part, backward_end_to-Part,
}
use dadi_fast_cdc.Lsmt.Segment.Trim.{EndsAfter}
use dadi_fast_cdc.Lsmt.Index.{used_by}
use dadi_fast_cdc.Lsmt.Index0.{usage_sub, remove_partial_overlap, erase_covered, clear_from}
use dadi_fast_cdc.Lsmt.Index0.Parts.{
  Cleared, Cleared-same, Cleared-nil, Cleared-beyond, recount, recount_twice, used_by-Fits,
  covered-Cleared, shrunk-Cleared, split-Cleared,
}

module _ (m p : SegmentMapping) (lo alloc alloc' : ℕ) (its rest : List SegmentMapping) (fm : Fits m)
    (fp : Fits p) (low : lo ≤ p.offset) (behind : m.offset < end p) where
  abbrev partial : List SegmentMapping × ℕ
  partial = remove_partial_overlap m.offset m.length alloc p

  partial-Cleared :
      Cleared m (end p) its partial.1 (rest, alloc')
      → Cleared m lo (p ∷ its) alloc (partial.0 ++ rest, alloc')
  unfolding remove_partial_overlap
  partial-Cleared = elim (Bool-cases (ltb p.offset m.offset)) [
    | inl t ↦
        let front = backward_end_to-Part p m.offset fp (ground arith) (ground arith) in
        elim (Bool-cases (leb (end p) (end m))) [
          | inl u ↦
              rw (t, u)
                (shrunk-Cleared m p lo alloc alloc' its rest fp low (backward_end_to p m.offset)
                  p.offset m.offset _ front (omega arith) (ground arith) (inl refl)
                  (inr (ground arith, refl)) (inl (omega arith))
                  (recount alloc (used_by p) (used_by (backward_end_to p m.offset))
                    (used_by-Fits p fp))
                  (λ z. omega arith))
          | inr u ↦
              let back = forward_offset_to-Part p (end m) fp (ground arith) (ground arith) in
              rw (t, u)
                (split-Cleared m p lo alloc alloc' its rest fp low (backward_end_to p m.offset)
                  (forward_offset_to p (end m)) _ front back
                  (recount_twice alloc (used_by p) (used_by (backward_end_to p m.offset))
                    (used_by (forward_offset_to p (end m))) (used_by-Fits p fp))
                  (λ z. omega arith))
        ]
    | inr t ↦ elim (Bool-cases (ltb p.offset (end m))) [
      | inl u ↦ elim (Bool-cases (leb (end p) (end m))) [
        | inl v ↦
            rw (t, u, v)
              (covered-Cleared m p lo alloc alloc' its rest fp low (ground arith) (ground arith))
        | inr v ↦
            let back = forward_offset_to-Part p (end m) fp (ground arith) (ground arith) in
            rw (t, u, v)
              (shrunk-Cleared m p lo alloc alloc' its rest fp low (forward_offset_to p (end m))
                (end m) (end p) _ back (ground arith) (omega arith) (inr (ground arith, refl))
                (inl refl) (inr (omega arith))
                (recount alloc (used_by p) (used_by (forward_offset_to p (end m)))
                  (used_by-Fits p fp))
                (λ z. omega arith))
      ]
      | inr u ↦
          let whole : Part p p p.offset (end p) = record {
            starts = refl;
            ends = refl;
            fits = fp;
            same_kind = refl;
            same_place = λ y c d. refl;
          } in
          rw (t, u)
            (shrunk-Cleared m p lo alloc alloc' its rest fp low p p.offset (end p) _ whole
              (omega arith) (omega arith) (inl refl) (inl refl) (inr (ground arith)) refl (λ z. z))
    ]
  ]

-- `erase_covered` behind the first element, where no element begins before `m`.
erase_covered-Cleared :
    (m : SegmentMapping) (lo alloc : ℕ) (its : List SegmentMapping)
    → Fits m
    → m.offset < lo
    → Chain lo its
    → Cleared m lo its alloc (erase_covered m alloc its)
unfolding erase_covered
erase_covered-Cleared m lo alloc [] f h c = Cleared-nil m lo alloc
erase_covered-Cleared m lo alloc (it ∷ its) f h c = elim (Bool-cases (ltb it.offset (end m))) [
  | inr t ↦ rw t (Cleared-beyond m lo alloc it its (ground arith) c)
  | inl t ↦ elim (Bool-cases (leb (end it) (end m))) [
    | inl u ↦
        rw (t, u)
          (covered-Cleared m it lo alloc _ its _ c.1 c.0 (omega (arith, c)) (ground arith)
            (erase_covered-Cleared m (end it) (usage_sub alloc it) its f (omega (arith, c)) c.2))
    | inr u ↦
        rw (t, u)
          (partial-Cleared m it lo alloc _ its its f c.1 c.0 (omega (arith, c))
            (Cleared-same m (end it) _ its (ground arith) c.2))
  ]
]

-- From the first element on that ends behind the begin of `m`.
pub clear_from-Cleared :
    (m : SegmentMapping) (lo alloc : ℕ) (its : List SegmentMapping)
    → Fits m
    → Chain lo its
    → EndsAfter m.offset its
    → Cleared m lo its alloc (clear_from m alloc its)
unfolding clear_from
clear_from-Cleared m lo alloc [] f c e = Cleared-nil m lo alloc
clear_from-Cleared m lo alloc (it ∷ its) f c e =
    partial-Cleared m it lo alloc _ its _ f c.1 c.0 e
      (erase_covered-Cleared m (end it) _ its f e c.2)
