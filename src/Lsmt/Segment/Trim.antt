-- ===== src/Lsmt/Segment/Trim.antt =====
-- `trim_edge_mappings` of src/overlaybd/lsmt/index.cpp cuts mappings to a range of sectors.
use dadi_fast_cdc.Prelude.{ℕ, ◌≤◌, ◌<◌, ◌≡◌, refl, ◌∙◌, inl, inr}
use dadi_fast_cdc.Prelude.{List, [], ◌∷◌, ltb, arith, Bool-cases}
use dadi_fast_cdc.Lsmt.Segment.{
  SegmentMapping, end, lower_bound, trim_first, trim_last, trim_edge_mappings,
}
use dadi_fast_cdc.Lsmt.Segment.Place.{
  at, Chain, EndsBy, StartsBefore, forward_offset_to-Fits, place-forward_offset_to,
  backward_end_to-Fits, backward_end_to-offset, place-backward_end_to,
}

-- The first of them ends behind `from`, as behind `lower_bound`.
abbrev pub EndsAfter : ℕ → List SegmentMapping → Type 0
EndsAfter from [] = Unit
EndsAfter from (m ∷ ms) = from < end m

pub lower_bound-EndsAfter :
    (from : ℕ) (ms : List SegmentMapping) → EndsAfter from (lower_bound from ms)
unfolding lower_bound
lower_bound-EndsAfter from [] = tt
lower_bound-EndsAfter from (m ∷ ms) = ground (arith, lower_bound-EndsAfter from ms)

pub trim_first-lem :
    (lo from to : ℕ) (ms : List SegmentMapping)
    → Chain lo ms
    → EndsAfter from ms
    → from < to
    → StartsBefore to ms
    → Chain from (trim_first from ms)
      × StartsBefore to (trim_first from ms)
      × ((x : ℕ) → from ≤ x → at (trim_first from ms) x ≡ at ms x)
unfolding trim_first at
trim_first-lem lo from to [] c e h s = (tt, tt, λ x a. refl)
trim_first-lem lo from to (m ∷ ms) c e h s = elim (Bool-cases (ltb m.offset from)) [
  | inr t ↦ rw t ((ground arith, c.1, c.2), s, λ x a. refl)
  | inl t ↦
      let cut = forward_offset_to-Fits m from c.1 (ground arith) e in
      rw t (
        (omega (arith, cut), cut.0, rw cut.2 c.2),
        (omega (arith, cut), s.1),
        λ x a. ground (arith, cut, place-forward_offset_to m from c.1 x),
      )
]

trim_last-lem :
    (lo to : ℕ) (ms : List SegmentMapping)
    → Chain lo ms
    → StartsBefore to ms
    → Chain lo (trim_last to ms)
      × EndsBy to (trim_last to ms)
      × ((x : ℕ) → x < to → at (trim_last to ms) x ≡ at ms x)
unfolding trim_last at
trim_last-lem lo to [] c s = (tt, tt, λ x a. refl)
trim_last-lem lo to (m ∷ []) c s = elim (Bool-cases (ltb to (end m))) [
  | inr t ↦ rw t (c, (ground arith, tt), λ x a. refl)
  | inl t ↦
      let cut = backward_end_to-Fits m to c.1 s.0 (ground arith) in
      let start = backward_end_to-offset m to c.1 in
      rw t (
        (omega (arith, c, start), cut.0, tt),
        (omega (arith, cut), tt),
        λ x a. ground (arith, cut, start, place-backward_end_to m to c.1 x),
      )
]
trim_last-lem lo to (m ∷ m' ∷ ms) c s =
    let rest = trim_last-lem (end m) to (m' ∷ ms) c.2 s.1 in
    ((c.0, c.1, rest.0), (omega (arith, c, s), rest.1), λ x a. ground (arith, rest.2 x a))

-- Mappings in order that begin before `to`, the first of which ends behind `from`, are cut to the
-- sectors `from .. to - 1`, of which they say what they said.
pub trim_edge_mappings-lem :
    (lo from to : ℕ) (ms : List SegmentMapping)
    → Chain lo ms
    → EndsAfter from ms
    → from < to
    → StartsBefore to ms
    → Chain from (trim_edge_mappings from to ms)
      × EndsBy to (trim_edge_mappings from to ms)
      × ((x : ℕ) → from ≤ x → x < to → at (trim_edge_mappings from to ms) x ≡ at ms x)
unfolding trim_edge_mappings
trim_edge_mappings-lem lo from to ms c e h s =
    let first = trim_first-lem lo from to ms c e h s in
    let last = trim_last-lem from to (trim_first from ms) first.0 first.1 in
    (last.0, last.1, λ x a b. last.2 x b ∙ first.2 x a)
