-- ===== src/Lsmt/Index0/RoundTrip.antt =====
-- What `Index0::lookup` of src/overlaybd/lsmt/index.cpp finds of a mapping that was just inserted.
use dadi_fast_cdc.Prelude.{ℕ, ◌<◌, ◌≡◌, refl, inl, inr, true, false}
use dadi_fast_cdc.Prelude.{List, [], ◌∷◌, leb, ◌==◌, arith, Bool-cases}
use dadi_fast_cdc.Lsmt.Segment.{
  Segment, SegmentMapping, end, before, lower_bound, trim_edge_mappings, trim_first, trim_last,
}
use dadi_fast_cdc.Lsmt.Segment.Place.{Fits, Chain}
use dadi_fast_cdc.Lsmt.Index.{copy_n, lookup}
use dadi_fast_cdc.Lsmt.Index0.{Index0, usage_add, set_insert, insert}
use dadi_fast_cdc.Lsmt.Index0.Parts.{Clear}
use dadi_fast_cdc.Lsmt.Index0.Insert.{room-Cleared}

-- The segment of a mapping.
abbrev pub segment : SegmentMapping → Segment
segment m = record { offset = m.offset; length = m.length }

copy_n-beyond :
    (m : SegmentMapping) (n k : ℕ) (ms : List SegmentMapping)
    → Chain (end m) ms
    → copy_n (end m) n k ms ≡ []
unfolding copy_n
copy_n-beyond m n k [] c = refl
copy_n-beyond m n k (e ∷ es) c = ground (arith, c)

copy_n-set_insert :
    (m : SegmentMapping) (n lo : ℕ) (ms : List SegmentMapping)
    → Fits m
    → Chain lo ms
    → Clear m ms
    → copy_n (end m) n 0 (lower_bound m.offset (set_insert m ms)) ≡ m ∷ []
unfolding set_insert lower_bound copy_n
copy_n-set_insert m n lo [] f c free = ground (arith, f)
copy_n-set_insert m n lo (e ∷ es) f c free = elim (Bool-cases (before e m)) [
  | inl t ↦ rw (t, t) (copy_n-set_insert m n (end e) es f c.2 free.1)
  | inr t ↦
      let first : before m e ≡ true = ground (arith, free.0) in
      let busy : leb (end m) m.offset ≡ false = ground (arith, f) in
      rw (t, first, busy, busy)
        (ground (arith, copy_n-beyond m n 1 (e ∷ es) (ground (arith, free.0), c.1, c.2)))
]

trim-exact : (m : SegmentMapping) → trim_edge_mappings m.offset (end m) (m ∷ []) ≡ m ∷ []
unfolding trim_edge_mappings trim_first trim_last
trim-exact m = ground arith

-- Round trip: after `Index0::insert` of a mapping that is not empty and fits its bit fields, the
-- lookup of just its sectors, with room for one mapping or more, finds that mapping and no other.
pub lookup-insert :
    (i : Index0) (m : SegmentMapping) (n : ℕ)
    → Chain 0 i.mapping
    → Fits m
    → 0 < n
    → lookup (insert i m).mapping (segment m) n ≡ m ∷ []
unfolding insert lookup
lookup-insert i m n c f pos =
    let cleared = room-Cleared m 0 (usage_add i.m_alloc m) i.mapping f c in
    let some_length : (m.length == 0) ≡ false = ground (arith, f) in
    rw (some_length, copy_n-set_insert m n 0 _ f cleared.in_order cleared.free) (trim-exact m)
