-- ===== src/Lsmt/Foreach/Events.antt =====
-- The calls that `foreach_segments` of src/overlaybd/lsmt/index.h makes.
use dadi_fast_cdc.Prelude.{ℕ, ◌-◌, ◌%◌, ◌^◌, ◌≤◌, ◌<◌, ◌≡◌, refl, true, false, Option, none, some}
use dadi_fast_cdc.Prelude.{List, [], ◌∷◌, ◌++◌, ltb, if◌then◌else◌, arith}
use mathlib.Core.Path.{subst}
use mathlib.Core.List.{append-nil, append_assoc}
use dadi_fast_cdc.Lsmt.Segment.{Segment, SegmentMapping, segment_end, end}
use dadi_fast_cdc.Lsmt.Segment.Place.{Place, place, at, Chain}
use dadi_fast_cdc.Lsmt.Index.Lookup.{last_end, last_end-le}
use dadi_fast_cdc.Lsmt.Foreach.{segment_forward_to, visit_hole, visit_mapping, visit_all}

-- The calls of the callbacks, and callbacks that record them and do not fail.
pub data Event : Type 0 where
  zeroes : Segment → Event
  reads : SegmentMapping → Event

abbrev pub record_zero : Segment → List Event → List Event × Option ℕ
record_zero s es = (es ++ zeroes s ∷ [], none)

abbrev pub record_data : SegmentMapping → List Event → List Event × Option ℕ
record_data m es = (es ++ reads m ∷ [], none)

-- A sector without data.
abbrev pub Blank : Option Place → Type 0
Blank none = Unit
Blank (some p) = p.zeroed ≡ true

-- Events that visit the sectors from `b` up to `e`, each once and in order, as `f` has them.
abbrev pub Tiles : (ℕ → Option Place) → ℕ → List Event → ℕ → Type 0
Tiles f b [] e = b ≡ e
Tiles f b (zeroes s ∷ es) e =
    (s.offset ≡ b)
    × ((x : ℕ) → b ≤ x → x < segment_end s → Blank (f x))
    × Tiles f (segment_end s) es e
Tiles f b (reads m ∷ es) e =
    (m.offset ≡ b)
    × (m.zeroed ≡ false)
    × ((x : ℕ) → b ≤ x → x < end m → f x ≡ some (place m x))
    × Tiles f (end m) es e

pub Tiles-append :
    (f : ℕ → Option Place) (b mid e : ℕ) (xs ys : List Event)
    → Tiles f b xs mid
    → Tiles f mid ys e
    → Tiles f b (xs ++ ys) e
Tiles-append f b mid e [] ys t u = rw t u
Tiles-append f b mid e (zeroes s ∷ xs) ys t u =
    (t.0, t.1, Tiles-append f (segment_end s) mid e xs ys t.2 u)
Tiles-append f b mid e (reads m ∷ xs) ys t u =
    (t.0, t.1, t.2, Tiles-append f (end m) mid e xs ys t.3 u)

pub Tiles-move :
    (f : ℕ → Option Place) (a a' b b' : ℕ) (es : List Event)
    → a ≡ a'
    → b ≡ b'
    → Tiles f a es b
    → Tiles f a' es b'
Tiles-move f a a' b b' es p q t = subst (λ x. Tiles f x es b') p (subst (λ x. Tiles f a es x) q t)

pub at-last_end :
    (lo x : ℕ) (ms : List SegmentMapping) → Chain lo ms → last_end lo ms ≤ x → at ms x ≡ none
unfolding at
at-last_end lo x [] c h = refl
at-last_end lo x (m ∷ ms) c h =
    ground (arith, at-last_end (end m) x ms c.2 h, last_end-le (end m) ms c.2)

-- The events of one mapping and the hole before it.
abbrev pub hole_events : Segment → SegmentMapping → List Event
hole_events s m =
    if ltb s.offset m.offset
    then zeroes (record { offset = s.offset; length = (m.offset - s.offset) % 2 ^ 14 }) ∷ []
    else []

abbrev pub mapping_events : SegmentMapping → List Event
mapping_events m =
    if m.zeroed then zeroes (record { offset = m.offset; length = m.length }) ∷ [] else reads m ∷ []

abbrev pub all_events : List SegmentMapping → Segment → List Event
all_events [] s = []
all_events (m ∷ ms) s =
    hole_events s m ++ (mapping_events m ++ all_events ms (segment_forward_to s (end m)))

-- Where the loop over the mappings leaves the segment.
abbrev pub left_of : List SegmentMapping → Segment → Segment
left_of [] s = s
left_of (m ∷ ms) s = left_of ms (segment_forward_to s (end m))

module _ (find : Segment → ℕ → List SegmentMapping) where
  visit_hole-lem :
      (s : Segment) (m : SegmentMapping) (st : List Event)
      → visit_hole find record_zero record_data s m st ≡ (st ++ hole_events s m, none)
  unfolding visit_hole
  visit_hole-lem s m st = ground (arith, append-nil st)

  visit_mapping-lem :
      (m : SegmentMapping) (st : List Event)
      → visit_mapping find record_zero record_data m st ≡ (st ++ mapping_events m, none)
  unfolding visit_mapping
  visit_mapping-lem m st = ground arith

  pub visit_all-lem :
      (ms : List SegmentMapping) (s : Segment) (st : List Event)
      → visit_all find record_zero record_data ms s st ≡ (left_of ms s, st ++ all_events ms s, none)
  unfolding visit_all
  visit_all-lem [] s st = rw (append-nil st) refl
  visit_all-lem (m ∷ ms) s st =
      let events = hole_events s m in
      rw
        (
          visit_hole-lem s m st,
          visit_mapping-lem m (st ++ events),
          visit_all-lem ms (segment_forward_to s (end m)) (st ++ events ++ mapping_events m),
        )
        (rw
          (
            append_assoc (st ++ events) (mapping_events m)
                (all_events ms (segment_forward_to s (end m))),
            append_assoc st events
                (mapping_events m ++ all_events ms (segment_forward_to s (end m))),
          )
          refl)
