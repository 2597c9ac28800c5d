-- ===== src/Lsmt/Index/Lookup.antt =====
-- What `Index::lookup` of src/overlaybd/lsmt/index.cpp answers.
use dadi_fast_cdc.Prelude.{ℕ, ◌+◌, ◌≤◌, ◌<◌, ◌≡◌, refl, ap, ◌∙◌, inl, inr, false, Option}
use dadi_fast_cdc.Prelude.{List, [], ◌∷◌, length, ltb, leb, ◌==◌, if◌then◌else◌, arith, Bool-cases}
use dadi_fast_cdc.Lsmt.Segment.{
  Segment, SegmentMapping, segment_end, end, lower_bound, trim_first, trim_last, trim_edge_mappings,
}
use dadi_fast_cdc.Lsmt.Segment.Place.{
  Place, at, Chain, EndsBy, StartsBefore, at-lower_bound, lower_bound-Chain, at_before,
  forward_offset_to-Fits, backward_end_to-Fits,
}
use dadi_fast_cdc.Lsmt.Segment.Trim.{
  EndsAfter, lower_bound-EndsAfter, trim_first-lem, trim_edge_mappings-lem,
}
use dadi_fast_cdc.Lsmt.Index.{copy_n, lookup}

-- Where the last of them ends.
abbrev pub last_end : ℕ → List SegmentMapping → ℕ
last_end lo [] = lo
last_end lo (m ∷ ms) = last_end (end m) ms

pub last_end-le : (lo : ℕ) (ms : List SegmentMapping) → Chain lo ms → lo ≤ last_end lo ms
last_end-le lo [] c = omega arith
last_end-le lo (m ∷ ms) c = omega (arith, c, last_end-le (end m) ms c.2)

-- How far `count` mappings of room `n` answer for.
abbrev pub reach : ℕ → ℕ → ℕ → ℕ → ℕ
reach count n to last = if ltb count n then to else last

copy_n-lem :
    (to n m lo : ℕ) (ms : List SegmentMapping)
    → Chain lo ms
    → m < n
    → let out = copy_n to n m ms in
      Chain lo out
      × StartsBefore to out
      × (m + length out ≤ n)
      × ((x : ℕ) → x < reach (m + length out) n to (last_end lo out) → at out x ≡ at ms x)
unfolding copy_n at
copy_n-lem to n m lo [] c h = (tt, tt, omega arith, λ x a. refl)
copy_n-lem to n m lo (it ∷ its) c h = elim (Bool-cases (leb to it.offset)) [
  | inl t ↦ rw t (tt, tt, omega arith, λ x a. ground (arith, c, at_before (end it) its x))
  | inr t ↦ elim (Bool-cases (m + 1 == n)) [
    | inl full ↦
        rw (t, full)
          (
            (c.0, c.1, tt),
            (ground arith, tt),
            ground arith,
            λ x a. ground (arith, at_before (end it) its x),
          )
    | inr room ↦
        let rest = copy_n-lem to n (m + 1) (end it) its c.2 (ground arith) in
        rw (t, room)
          (
            (c.0, c.1, rest.0),
            (ground arith, rest.1),
            omega (arith, rest.2),
            λ x a. ground (arith, rest.3 x),
          )
  ]
]

trim_first-last_end :
    (lo lo' from : ℕ) (ms : List SegmentMapping)
    → Chain lo ms
    → EndsAfter from ms
    → lo' ≤ from
    → (length (trim_first from ms) ≡ length ms)
      × (last_end from (trim_first from ms) ≡ last_end from ms)
unfolding trim_first
trim_first-last_end lo lo' from [] c e h = (refl, refl)
trim_first-last_end lo lo' from (m ∷ ms) c e h = elim (Bool-cases (ltb m.offset from)) [
  | inr t ↦ rw t (refl, refl)
  | inl t ↦
      let cut = forward_offset_to-Fits m from c.1 (ground arith) e in
      rw t (refl, ap (λ d. last_end d ms) cut.2)
]

trim_last-last_end :
    (lo d to : ℕ) (ms : List SegmentMapping)
    → Chain lo ms
    → StartsBefore to ms
    → (length (trim_last to ms) ≡ length ms) × (last_end d (trim_last to ms) ≤ last_end d ms)
unfolding trim_last
trim_last-last_end lo d to [] c s = (refl, omega arith)
trim_last-last_end lo d to (m ∷ []) c s = elim (Bool-cases (ltb to (end m))) [
  | inr t ↦ rw t (refl, omega arith)
  | inl t ↦
      let cut = backward_end_to-Fits m to c.1 s.0 (ground arith) in rw t (refl, ground (arith, cut))
]
trim_last-last_end lo d to (m ∷ m' ∷ ms) c s =
    let rest = trim_last-last_end (end m) (end m) to (m' ∷ ms) c.2 s.1 in
    (omega (arith, rest.0), rest.1)

EndsAfter-copy_n :
    (from to n m : ℕ) (ms : List SegmentMapping)
    → EndsAfter from ms
    → EndsAfter from (copy_n to n m ms)
unfolding copy_n
EndsAfter-copy_n from to n m [] e = tt
EndsAfter-copy_n from to n m (it ∷ its) e = ground arith

-- The mappings that answer a lookup of `s`: in order within `s`, at most `n`, and they say of each
-- sector of `s` what `f` says, up to their end where there are `n` of them.
pub record Answers (f : ℕ → Option Place) (s : Segment) (n : ℕ) (out : List SegmentMapping)
    : Type 0 where
  pub in_order : Chain s.offset out
  pub within : EndsBy (segment_end s) out
  pub room : length out ≤ n
  pub same :
      (x : ℕ)
      → s.offset ≤ x
      → x < reach (length out) n (segment_end s) (last_end s.offset out)
      → at out x ≡ f x

pub last_end-any :
    (a b : ℕ) (ms : List SegmentMapping) → 0 < length ms → last_end a ms ≡ last_end b ms
last_end-any a b [] h = absurd (omega arith)
last_end-any a b (m ∷ ms) h = refl

pub last_end-EndsBy :
    (a to : ℕ) (ms : List SegmentMapping) → EndsBy to ms → 0 < length ms → last_end a ms ≤ to
last_end-EndsBy a to [] e h = absurd (omega arith)
last_end-EndsBy a to (m ∷ []) e h = e.0
last_end-EndsBy a to (m ∷ m' ∷ ms) e h = last_end-EndsBy (end m) to (m' ∷ ms) e.1 (omega arith)

-- Mappings that were copied, and cut at the edges.
pub Answers-trim :
    (f : ℕ → Option Place) (c : List SegmentMapping) (s : Segment) (lo n : ℕ)
    → Chain lo c
    → EndsAfter s.offset c
    → StartsBefore (segment_end s) c
    → 0 < s.length
    → length c ≤ n
    → 0 < n
    → ((x : ℕ)
        → s.offset ≤ x
        → x < reach (length c) n (segment_end s) (last_end lo c)
        → at c x ≡ f x)
    → Answers f s n (trim_edge_mappings s.offset (segment_end s) c)
unfolding trim_edge_mappings
Answers-trim f c s lo n chain after starts busy fits pos says =
    let to : ℕ = segment_end s in
    let wide : s.offset < to = omega arith in
    let cut = trim_edge_mappings-lem lo s.offset to c chain after wide starts in
    let first = trim_first-last_end lo s.offset s.offset c chain after (omega arith) in
    let front = trim_first-lem lo s.offset to c chain after wide starts in
    let last = trim_last-last_end s.offset s.offset to (trim_first s.offset c) front.0 front.1 in
    let count = last.0 ∙ first.0 in
    record {
      in_order = cut.0;
      within = cut.1;
      room = omega (arith, count);
      same = λ x a b.
          cut.2 x a (ground (arith, count, last_end-EndsBy s.offset to _ cut.1))
          ∙ says x a (ground (arith, count, last, first, last_end-any lo s.offset c));
    }

-- `Index::lookup` of a segment that is not empty, with room for one mapping or more, in an index
-- whose mappings are in order: it stores mappings in order, within the segment and no more than there
-- is room for, and they map each of its sectors as the index does, all of them if the room is not
-- used up, and else those before the end of the last one.
pub lookup-Answers :
    (ms : List SegmentMapping) (s : Segment) (n lo : ℕ)
    → Chain lo ms
    → 0 < s.length
    → 0 < n
    → Answers (at ms) s n (lookup ms s n)
unfolding lookup
lookup-Answers ms s n lo chain busy pos =
    let from = lower_bound s.offset ms in
    let to : ℕ = segment_end s in
    let rest = lower_bound-Chain s.offset lo ms chain in
    let copied = copy_n-lem to n 0 lo from rest pos in
    let some_length : (s.length == 0) ≡ false = ground arith in
    rw some_length (
      Answers-trim (at ms) (copy_n to n 0 from) s lo n copied.0
        (EndsAfter-copy_n s.offset to n 0 from (lower_bound-EndsAfter s.offset ms)) copied.1 busy
        (omega (arith, copied.2)) pos
        (λ x a b. copied.3 x (ground arith) ∙ at-lower_bound s.offset ms x a))
