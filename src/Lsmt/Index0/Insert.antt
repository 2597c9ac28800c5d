-- ===== src/Lsmt/Index0/Insert.antt =====
-- `Index0::insert` of src/overlaybd/lsmt/index.cpp: the new mapping hides what was mapped before.
use dadi_fast_cdc.Prelude.{ℕ, ◌+◌, ◌≤◌, ◌≡◌, refl, ap, ◌∙◌, inl, inr, true, Option, none, some}
use dadi_fast_cdc.Prelude.{List, [], ◌∷◌, ◌++◌, leb, ◌==◌, if◌then◌else◌, arith, Bool-cases, All}
use dadi_fast_cdc.Lsmt.Segment.{SegmentMapping, end, before, lower_bound}
use dadi_fast_cdc.Lsmt.Segment.Place.{Place, covers, place, at, Fits, FitsFields, Chain}
use dadi_fast_cdc.Lsmt.Index.{used_by, used}
use dadi_fast_cdc.Lsmt.Index.Count.{used-le}
use dadi_fast_cdc.Lsmt.Index0.{
  Index0, usage_add, set_insert, passed, clear_from, insert, insert_all, create,
}
use dadi_fast_cdc.Lsmt.Index0.Parts.{Clear, Cleared}
use dadi_fast_cdc.Lsmt.Index0.Clear.{clear_from-Cleared}

-- The elements before the new mapping, and what is left of those behind.
abbrev pub room : SegmentMapping → ℕ → List SegmentMapping → List SegmentMapping × ℕ
room m alloc ms =
    let (rest, alloc') = clear_from m alloc (lower_bound m.offset ms) in
    (passed m.offset ms ++ rest, alloc')

pub room-Cleared :
    (m : SegmentMapping) (lo alloc : ℕ) (ms : List SegmentMapping)
    → Fits m
    → Chain lo ms
    → Cleared m lo ms alloc (room m alloc ms)
unfolding passed lower_bound at
room-Cleared m lo alloc [] f c = clear_from-Cleared m lo alloc [] f c tt
room-Cleared m lo alloc (e ∷ es) f c = elim (Bool-cases (leb (end e) m.offset)) [
  | inr t ↦ rw t (clear_from-Cleared m lo alloc (e ∷ es) f c (ground arith))
  | inl t ↦
      let rest = room-Cleared m (end e) alloc es f c.2 in
      rw t (record {
        in_order = (c.0, c.1, rest.in_order);
        free = (inl (ground arith), rest.free);
        kept = λ x a. ground (arith, rest.kept x a);
        counted = omega (arith, rest.counted);
        small = rest.small;
      })
]

-- In a list where its sectors are free, the new mapping finds its place.
pub set_insert-lem :
    (m : SegmentMapping) (lo : ℕ) (ms : List SegmentMapping)
    → Fits m
    → lo ≤ m.offset
    → Chain lo ms
    → Clear m ms
    → Chain lo (set_insert m ms)
      × (used (set_insert m ms) ≡ used_by m + used ms)
      × ((x : ℕ) → at (set_insert m ms) x ≡ (if covers m x then some (place m x) else at ms x))
unfolding set_insert at
set_insert-lem m lo [] f h c free = ((h, f, tt), refl, λ x. refl)
set_insert-lem m lo (e ∷ es) f h c free = elim (Bool-cases (before e m)) [
  | inl t ↦
      let rest = set_insert-lem m (end e) es f (ground arith) c.2 free.1 in
      rw t ((c.0, c.1, rest.0), omega (arith, rest.1), λ x. ground (arith, rest.2 x))
  | inr t ↦
      let first : before m e ≡ true = ground (arith, free.0) in
      rw (t, first) ((h, f, (ground (arith, free.0), c.1, c.2)), refl, λ x. refl)
]

-- An index in order, with the count of its sectors.
pub record IsCounted (i : Index0) : Type 0 where
  pub in_order : Chain 0 i.mapping
  pub counted : i.m_alloc ≡ used i.mapping

-- The lookup of one sector after a mapping, as an override.
abbrev pub override : SegmentMapping → (ℕ → Option Place) → ℕ → Option Place
override m f x = if covers m x then some (place m x) else f x

-- `Index0::insert` overrides the index by the mapping: of a sector of the mapping the new index says
-- what the mapping says, of any other what the old one said, where the mappings of the old index are
-- in order and the new one fits its bit fields; an empty one changes nothing.
pub insert-override :
    (i : Index0) (m : SegmentMapping) (x : ℕ)
    → Chain 0 i.mapping
    → FitsFields m
    → at (insert i m).mapping x ≡ override m (at i.mapping) x
unfolding insert
insert-override i m x c f = elim (Bool-cases (m.length == 0)) [
  | inl t ↦ rw t (ground arith)
  | inr t ↦
      let fits : Fits m = (ground arith, f) in
      let cleared = room-Cleared m 0 (usage_add i.m_alloc m) i.mapping fits c in
      let set = set_insert-lem m 0 _ fits (omega arith) cleared.in_order cleared.free in
      rw t (ground (arith, set.2 x, cleared.kept x))
]

-- `Index0::insert` of a mapping that fits its bit fields keeps the mappings in order, disjoint and
-- not empty, and the count equal to the sectors that hold data.
pub insert-IsCounted :
    (i : Index0) (m : SegmentMapping) → IsCounted i → FitsFields m → IsCounted (insert i m)
unfolding insert
insert-IsCounted i m v f = elim (Bool-cases (m.length == 0)) [
  | inl t ↦ rw t v
  | inr t ↦
      let fits : Fits m = (ground arith, f) in
      let cleared = room-Cleared m 0 (usage_add i.m_alloc m) i.mapping fits v.in_order in
      let set = set_insert-lem m 0 _ fits (omega arith) cleared.in_order cleared.free in
      let before_le = used-le 0 i.mapping (omega arith) v.in_order in
      let after_le = used-le 0 _ (omega arith) set.0 in
      rw t (record {
        in_order = set.0;
        counted = omega (
          arith,
          set.1,
          v.counted,
          cleared.counted,
          cleared.small (omega arith),
          before_le,
          after_le,
        );
      })
]

-- Inserting one after another, the later mapping hides the earlier.
abbrev pub override_all : List SegmentMapping → (ℕ → Option Place) → ℕ → Option Place
override_all [] f = f
override_all (m ∷ ms) f = override_all ms (override m f)

override_all-same :
    (ms : List SegmentMapping) (f g : ℕ → Option Place) (x : ℕ)
    → ((y : ℕ) → f y ≡ g y)
    → override_all ms f x ≡ override_all ms g x
override_all-same [] f g x h = h x
override_all-same (m ∷ ms) f g x h =
    override_all-same ms (override m f) (override m g) x
      (λ y. ap (λ z. if covers m y then some (place m y) else z) (h y))

insert_all-lem :
    (i : Index0) (ms : List SegmentMapping)
    → IsCounted i
    → All FitsFields ms
    → IsCounted (insert_all i ms)
      × ((x : ℕ) → at (insert_all i ms).mapping x ≡ override_all ms (at i.mapping) x)
insert_all-lem i [] v f = (v, λ x. refl)
insert_all-lem i (m ∷ ms) v f =
    let rest = insert_all-lem (insert i m) ms (insert-IsCounted i m v f.0) f.1 in
    (
      rest.0,
      λ x.
          rest.1 x
          ∙ override_all-same ms (at (insert i m).mapping) (override m (at i.mapping)) x
              (λ y. insert-override i m y v.in_order f.0),
    )

-- The constructor of `Index0` from mappings that fit their bit fields, in any order and overlapping
-- or not, makes a valid index, in which the last mapping of a sector is the one that counts.
pub create-override :
    (ms : List SegmentMapping)
    → All FitsFields ms
    → IsCounted (create ms) × ((x : ℕ) → at (create ms).mapping x ≡ override_all ms (λ y. none) x)
unfolding create at
create-override ms f =
    insert_all-lem (record { mapping = []; m_alloc = 0 }) ms
      (record { in_order = tt; counted = refl }) f
