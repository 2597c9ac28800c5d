-- ===== src/Lsmt/Foreach/Tiles.antt =====
-- What `foreach_segments` of src/overlaybd/lsmt/index.h visits.
use dadi_fast_cdc.Prelude.{
  ℕ, zero, suc, ◌+◌, ◌^◌, ◌≤◌, ◌<◌, ◌≡◌, refl, sym, ap, ◌∙◌, inl, inr, Bool, true, false, Option,
  none, some,
}
use dadi_fast_cdc.Prelude.{List, [], ◌∷◌, ◌++◌, ltb, ◌==◌, if◌then◌else◌, length, arith, Bool-cases}
use mathlib.Core.List.{append-nil, append_assoc}
use dadi_fast_cdc.Lsmt.Segment.{Segment, SegmentMapping, segment_end, end}
use dadi_fast_cdc.Lsmt.Segment.Place.{Place, place, at, Chain, EndsBy, at_before}
use dadi_fast_cdc.Lsmt.Index.{lookup}
use dadi_fast_cdc.Lsmt.Index.Lookup.{
  lookup-Answers, last_end, Answers, last_end-le, last_end-EndsBy,
}
use dadi_fast_cdc.Lsmt.Foreach.{segment_forward_to, foreach_segments}
use dadi_fast_cdc.Lsmt.Foreach.Events.{
  Event, zeroes, reads, record_zero, record_data, Blank, Tiles, Tiles-append, Tiles-move,
  at-last_end, hole_events, mapping_events, all_events, left_of, visit_all-lem,
}

Blank-none : (o : Option Place) → o ≡ none → Blank o
Blank-none none h = tt
Blank-none (some p) h = absurd (cc)

Blank-zeroed :
    (m : SegmentMapping) (x : ℕ) (o : Option Place)
    → m.zeroed ≡ true
    → o ≡ some (place m x)
    → Blank o
Blank-zeroed m x o u h = rw h u

module _ (f : ℕ → Option Place) where
  hole-Tiles :
      (s : Segment) (m : SegmentMapping)
      → s.offset ≤ m.offset
      → m.offset < s.offset + 2 ^ 14
      → ((x : ℕ) → s.offset ≤ x → x < m.offset → f x ≡ none)
      → Tiles f s.offset (hole_events s m) m.offset
  hole-Tiles s m h short unmapped = elim (Bool-cases (ltb s.offset m.offset)) [
    | inr t ↦ rw t (ground arith)
    | inl t ↦ rw t (refl, λ x a b. Blank-none (f x) (unmapped x a (ground arith)), ground arith)
  ]

  mapping-Tiles :
      (m : SegmentMapping) (z : Bool)
      → m.zeroed ≡ z
      → ((x : ℕ) → m.offset ≤ x → x < end m → f x ≡ some (place m x))
      → Tiles f m.offset
          (if z
            then zeroes (record { offset = m.offset; length = m.length }) ∷ []
            else reads m ∷ [])
          (end m)
  mapping-Tiles m true u has = (refl, λ x a b. Blank-zeroed m x (f x) u (has x a b), refl)
  mapping-Tiles m false u has = (refl, u, has, refl)

  all_events-Tiles :
      (ms : List SegmentMapping) (s : Segment) (b : ℕ)
      → s.offset ≡ b
      → Chain b ms
      → EndsBy (segment_end s) ms
      → s.length < 2 ^ 14
      → segment_end s < 2 ^ 50
      → ((x : ℕ) → b ≤ x → x < last_end b ms → f x ≡ at ms x)
      → Tiles f b (all_events ms s) (last_end b ms)
        × ((left_of ms s).offset ≡ last_end b ms)
        × (segment_end (left_of ms s) ≡ segment_end s)
  unfolding at segment_forward_to
  all_events-Tiles [] s b from c e short low same = (refl, from, refl)
  all_events-Tiles (m ∷ ms) s b from c e short low same =
      let s' = segment_forward_to s (end m) in
      let start : s'.offset ≡ end m = ground (arith, c, e) in
      let stop : segment_end s' ≡ segment_end s = ground (arith, c, e) in
      let len : s'.length < 2 ^ 14 = ground arith in
      let behind = last_end-le (end m) ms c.2 in
      let rest =
        all_events-Tiles ms s' (end m) start c.2 (rw stop e.1) len (omega (arith, stop))
          (λ x a d. same x (omega (arith, c)) d ∙ ground arith) in
      (
        Tiles-append f b m.offset (last_end (end m) ms) (hole_events s m) _
            (rw⁻¹ from (
              hole-Tiles s m (omega (arith, c)) (omega (arith, c, e)) (λ x a d.
                same x (omega (arith, from)) (omega (arith, behind))
                ∙ ground (arith, at_before (end m) ms x c.2))))
            (Tiles-append f m.offset (end m) (last_end (end m) ms) (mapping_events m) _
              (mapping-Tiles m m.zeroed refl
                (λ x a d. same x (omega (arith, c)) (omega (arith, behind)) ∙ ground arith))
              rest.0),
        rest.1,
        rest.2 ∙ stop,
      )

  -- The rest of the segment, behind the last mapping.
  rest-Tiles :
      (s : Segment)
      → ((x : ℕ) → s.offset ≤ x → x < segment_end s → f x ≡ none)
      → Tiles f s.offset (if ltb 0 s.length then zeroes s ∷ [] else []) (segment_end s)
  rest-Tiles s unmapped = elim (Bool-cases (ltb 0 s.length)) [
    | inl t ↦ rw t (refl, λ x a b. Blank-none (f x) (unmapped x a b), refl)
    | inr t ↦ rw t (ground arith)
  ]

last_end-lt :
    (lo : ℕ) (ms : List SegmentMapping) → Chain lo ms → 0 < length ms → lo < last_end lo ms
last_end-lt lo [] c h = absurd (omega arith)
last_end-lt lo (m ∷ ms) c h = omega (arith, c, last_end-le (end m) ms c.2)

last_end_reached :
    (s : Segment) (ms : List SegmentMapping)
    → Chain s.offset ms
    → EndsBy (segment_end s) ms
    → last_end s.offset ms ≤ segment_end s
last_end_reached s [] c e = omega arith
last_end_reached s (m ∷ ms) c e = last_end-EndsBy s.offset (segment_end s) (m ∷ ms) e (omega arith)

tail_events :
    (s : Segment) (st all : List Event)
    → (if ltb 0 s.length then (st ++ all) ++ zeroes s ∷ [] else st ++ all)
      ≡ st ++ (all ++ (if ltb 0 s.length then zeroes s ∷ [] else []))
tail_events s st all = elim (Bool-cases (ltb 0 s.length)) [
  | inl t ↦ rw t (append_assoc st all (zeroes s ∷ []))
  | inr t ↦ rw (t, append-nil all) refl
]

-- `foreach_segments` with callbacks that record their calls and do not fail, on a segment whose end is
-- below 2^50 sectors, in an index that answers every lookup with room for 16 mappings as `f` has the
-- sectors: with fuel for one round more than the segment has sectors it returns 0, and the calls visit
-- each sector of the segment once and in order, as a hole or a zeroed sector where `f` has no data for
-- it, and else within a mapping that has the place that `f` has.
pub foreach_segments-Tiles :
    (find : Segment → ℕ → List SegmentMapping) (f : ℕ → Option Place)
    → ((s : Segment) → s.length < 2 ^ 14 → Answers f s 16 (find s 16))
    → (fuel : ℕ) (s : Segment) (st : List Event) → s.length < 2 ^ 14
    → segment_end s < 2 ^ 50
    → s.length < fuel
    → (events : List Event) × (foreach_segments find record_zero record_data fuel s st
        ≡ some (st ++ events, none))
      × Tiles f s.offset events (segment_end s)
unfolding foreach_segments
foreach_segments-Tiles find f answers zero s st short low enough = absurd (omega arith)
foreach_segments-Tiles find f answers (suc fuel) s st short low enough =
    let ms = find s 16 in
    let answer = answers s short in
    let all = all_events ms s in
    let s' = left_of ms s in
    let reached = last_end_reached s ms answer.in_order answer.within in
    let tiles =
      all_events-Tiles f ms s s.offset refl answer.in_order answer.within short low
        (λ x a b. sym (answer.same x a (ground (arith, reached)))) in
    elim (Bool-cases (ltb (length ms) 16)) [
      | inl t ↦
          let behind = rest-Tiles f s' (λ x a b.
            sym (
              answer.same x (omega (arith, tiles, last_end-le s.offset ms answer.in_order))
                (ground (arith, tiles)))
            ∙ at-last_end s.offset x ms answer.in_order (omega (arith, tiles))) in
          rw (visit_all-lem find ms s st, t)
            (
              all ++ (if ltb 0 s'.length then zeroes s' ∷ [] else []),
              ap (λ es. some (es, none)) (tail_events s' st all),
              Tiles-append f s.offset (last_end s.offset ms) (segment_end s) all _ tiles.0
                  (Tiles-move f _ _ _ _ _ tiles.1 tiles.2 behind),
            )
      | inr t ↦
          let onward = last_end-lt s.offset ms answer.in_order (ground arith) in
          let rest =
            foreach_segments-Tiles find f answers fuel s' (st ++ all) (omega (arith, tiles, onward))
              (omega (arith, tiles)) (omega (arith, tiles, onward)) in
          rw (visit_all-lem find ms s st, t)
            (
              all ++ rest.0,
              rest.1 ∙ ap (λ es. some (es, none)) (append_assoc st all rest.0),
              Tiles-append f s.offset (last_end s.offset ms) (segment_end s) all rest.0 tiles.0
                  (Tiles-move f _ _ _ _ rest.0 tiles.1 tiles.2 rest.2),
            )
    ]

-- The lookup of an `Index` in order answers with room for 16 mappings.
lookup-Answers_16 :
    (ms : List SegmentMapping) (s : Segment) → Chain 0 ms → Answers (at ms) s 16 (lookup ms s 16)
unfolding lookup
lookup-Answers_16 ms s c = elim (Bool-cases (s.length == 0)) [
  | inr t ↦ lookup-Answers ms s 16 0 c (ground arith) (omega arith)
  | inl t ↦ rw t (record {
    in_order = tt;
    within = tt;
    room = omega arith;
    same = λ x a b. absurd (ground arith);
  })
]

-- `foreach_segments` with callbacks that record their calls and do not fail, in an index whose
-- mappings are in order, of a segment that ends below 2^50 sectors, with fuel for one round more than
-- the segment has sectors: it returns 0, and the calls visit each sector of the segment once and in
-- order, as a hole or a zeroed sector where the index has no data for it, and else within a mapping
-- that has the place that the index has.
pub foreach_segments-lookup :
    (ms : List SegmentMapping) (s : Segment)
    → Chain 0 ms
    → s.length < 2 ^ 14
    → segment_end s < 2 ^ 50
    → (events : List Event) × (foreach_segments
          (lookup ms)
          record_zero
          record_data
          (s.length + 1)
          s
          []
        ≡ some (events, none))
      × Tiles (at ms) s.offset events (segment_end s)
foreach_segments-lookup ms s c short low =
    foreach_segments-Tiles (lookup ms) (at ms) (λ t h. lookup-Answers_16 ms t c) (s.length + 1) s []
      short low (omega arith)
