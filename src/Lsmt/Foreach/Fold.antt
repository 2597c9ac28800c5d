-- ===== src/Lsmt/Foreach/Fold.antt =====
-- `foreach_segments` of src/overlaybd/lsmt/index.h with callbacks that append to a list and do not fail:
-- what it builds is made of the recorded calls.
use mathlib.Core.List.{append-nil, append_assoc}
use dadi_fast_cdc.Prelude.{
  ℕ, zero, suc, ◌-◌, ◌%◌, ◌^◌, ◌≡◌, refl, sym, ap, ◌∙◌, inl, inr, Bool, true, false, Option, none,
  some,
}
use dadi_fast_cdc.Prelude.{List, [], ◌∷◌, ◌++◌, ltb, if◌then◌else◌, length, arith, Bool-cases}
use dadi_fast_cdc.Lsmt.Segment.{Segment, SegmentMapping, end}
use dadi_fast_cdc.Lsmt.Foreach.{
  segment_forward_to, visit_hole, visit_mapping, visit_all, foreach_segments,
}
use dadi_fast_cdc.Lsmt.Foreach.Events.{
  Event, zeroes, reads, record_zero, record_data, hole_events, mapping_events, all_events, left_of,
  visit_all-lem,
}

module _ {B : Type 0} (zs : Segment → List B) (ds : SegmentMapping → List B) where
  abbrev pub flat : List Event → List B
  flat [] = []
  flat (zeroes s ∷ es) = zs s ++ flat es
  flat (reads m ∷ es) = ds m ++ flat es

  flat-append : (xs ys : List Event) → flat (xs ++ ys) ≡ flat xs ++ flat ys
  flat-append [] ys = refl
  flat-append (zeroes s ∷ xs) ys =
      ap (λ t. zs s ++ t) (flat-append xs ys) ∙ sym (append_assoc (zs s) (flat xs) (flat ys))
  flat-append (reads m ∷ xs) ys =
      ap (λ t. ds m ++ t) (flat-append xs ys) ∙ sym (append_assoc (ds m) (flat xs) (flat ys))

  module _ (find : Segment → ℕ → List SegmentMapping)
      (cb_zero : Segment → List B → List B × Option ℕ)
      (cb_data : SegmentMapping → List B → List B × Option ℕ)
      (zero_ok : (s : Segment) (st : List B) → cb_zero s st ≡ (st ++ zs s, none))
      (data_ok : (m : SegmentMapping) (st : List B) → cb_data m st ≡ (st ++ ds m, none)) where
    visit_hole-flat :
        (s : Segment) (m : SegmentMapping) (st : List B)
        → visit_hole find cb_zero cb_data s m st ≡ (st ++ flat (hole_events s m), none)
    unfolding visit_hole
    visit_hole-flat s m st = elim (Bool-cases (ltb s.offset m.offset)) [
      | inl t ↦
          rw
            (
              t,
              zero_ok (record { offset = s.offset; length = (m.offset - s.offset) % 2 ^ 14 }) st,
              append-nil
                  (zs (record { offset = s.offset; length = (m.offset - s.offset) % 2 ^ 14 })),
            )
            refl
      | inr t ↦ rw (t, append-nil st) refl
    ]

    mapping_flat :
        (m : SegmentMapping) (st : List B) (z : Bool)
        → (if z then cb_zero (record { offset = m.offset; length = m.length }) st else cb_data m st)
          ≡ (
            st
                ++ flat (
                    if z
                    then zeroes (record { offset = m.offset; length = m.length }) ∷ []
                    else reads m ∷ []),
            none,
          )
    mapping_flat m st true =
        rw
          (
            zero_ok (record { offset = m.offset; length = m.length }) st,
            append-nil (zs (record { offset = m.offset; length = m.length })),
          )
          refl
    mapping_flat m st false = rw (data_ok m st, append-nil (ds m)) refl

    visit_mapping-flat :
        (m : SegmentMapping) (st : List B)
        → visit_mapping find cb_zero cb_data m st ≡ (st ++ flat (mapping_events m), none)
    unfolding visit_mapping
    visit_mapping-flat m st = mapping_flat m st m.zeroed

    visit_all-flat :
        (ms : List SegmentMapping) (s : Segment) (st : List B)
        → visit_all find cb_zero cb_data ms s st
          ≡ (left_of ms s, st ++ flat (all_events ms s), none)
    unfolding visit_all
    visit_all-flat [] s st = rw (append-nil st) refl
    visit_all-flat (m ∷ ms) s st =
        let hole = flat (hole_events s m) in
        let here = flat (mapping_events m) in
        let rest = all_events ms (segment_forward_to s (end m)) in
        rw
          (
            visit_hole-flat s m st,
            visit_mapping-flat m (st ++ hole),
            visit_all-flat ms (segment_forward_to s (end m)) (st ++ hole ++ here),
            flat-append (hole_events s m) (mapping_events m ++ rest),
            flat-append (mapping_events m) rest,
            append_assoc (st ++ hole) here (flat rest),
            append_assoc st hole (here ++ flat rest),
          )
          refl

    last_flat :
        (s : Segment) (all : List Event)
        → ◌≡◌ {A = Option (List B × Option ℕ)}
            (some ((if ltb 0 s.length then (cb_zero s (flat all)).0 else flat all), none))
            (some (flat (if ltb 0 s.length then all ++ zeroes s ∷ [] else all), none))
    last_flat s all = elim (Bool-cases (ltb 0 s.length)) [
      | inl t ↦
          rw (t, zero_ok s (flat all), flat-append all (zeroes s ∷ []), append-nil (zs s)) refl
      | inr t ↦ rw t refl
    ]

    pub foreach_segments-flat :
        (fuel : ℕ) (s : Segment) (es es' : List Event)
        → foreach_segments find record_zero record_data fuel s es ≡ some (es', none)
        → foreach_segments find cb_zero cb_data fuel s (flat es) ≡ some (flat es', none)
    unfolding foreach_segments
    foreach_segments-flat zero s es es' e = absurd (cc)
    foreach_segments-flat (suc fuel) s es es' e =
        let ms = find s 16 in
        let s' = left_of ms s in
        let all = es ++ all_events ms s in
        let seen = rw (visit_all-lem find ms s es) at e in
        rw (visit_all-flat ms s (flat es), sym (flat-append es (all_events ms s)))
          (elim (Bool-cases (ltb (length ms) 16)) [
            | inl t ↦
                let last = rw t at seen in
                let es1 : List Event = if ltb 0 s'.length then all ++ zeroes s' ∷ [] else all in
                let same : es1 ≡ es' = ground (arith, last) in rw (t, sym same) (last_flat s' all)
            | inr t ↦ rw t (foreach_segments-flat fuel s' all es' (rw t at seen))
          ])
