-- ===== src/Lsmt/Index/Compress.antt =====
-- `compress_raw_index`, and the checks before an index is made, of src/overlaybd/lsmt/index.cpp.
use dadi_fast_cdc.Prelude.{ℕ, ◌≤◌, ◌≡◌, refl, ap, ◌∙◌, inl, inr, true, Option, some}
use dadi_fast_cdc.Prelude.{List, [], ◌∷◌, length, if◌then◌else◌, arith, Bool-cases, All}
use dadi_fast_cdc.Lsmt.Segment.{SegmentMapping, end, mend}
use dadi_fast_cdc.Lsmt.Segment.Place.{Place, covers, place, at, Fits, Chain}
use dadi_fast_cdc.Lsmt.Index.{
  Index, joins, join, compress_from, compress_raw_index, verify_mapping_order,
  verify_mapping_moffset, create_memory_index,
}

module _ (a b : SegmentMapping) (t : joins a b ≡ true) (fa : Fits a) (fb : Fits b) where
  join-Fits : Fits (join a b) × (end (join a b) ≡ end b)
  join-Fits = ground arith

  place-join :
      (x : ℕ) (other : Option Place)
      → (if covers (join a b) x then some (place (join a b) x) else other)
        ≡ (if covers a x then some (place a x) else if covers b x then some (place b x) else other)
  place-join x other = ground arith

compress_from-lem :
    (lo : ℕ) (a : SegmentMapping) (ms : List SegmentMapping)
    → Chain lo (a ∷ ms)
    → Chain lo (compress_from a ms)
      × (length (compress_from a ms) ≤ length (a ∷ ms))
      × ((x : ℕ) → at (compress_from a ms) x ≡ at (a ∷ ms) x)
unfolding compress_from at
compress_from-lem lo a [] c = (c, omega arith, λ x. refl)
compress_from-lem lo a (b ∷ ms) c = elim (Bool-cases (joins a b)) [
  | inr t ↦
      let rest = compress_from-lem (end a) b ms c.2 in
      rw t (
        (c.0, c.1, rest.0),
        omega (arith, rest.1),
        λ x. ap (λ o. if covers a x then some (place a x) else o) (rest.2 x),
      )
  | inl t ↦
      let joined = join-Fits a b t c.1 c.2.1 in
      let rest = compress_from-lem lo (join a b) ms (c.0, joined.0, rw joined.1 c.2.2) in
      rw t (rest.0, omega (arith, rest.1), λ x. rest.2 x ∙ place-join a b t c.1 c.2.1 x (at ms x))
]

-- `compress_raw_index` of mappings in order gives mappings in order, not more of them, that map every
-- sector to the same place.
pub compress_raw_index-at :
    (lo : ℕ) (ms : List SegmentMapping)
    → Chain lo ms
    → Chain lo (compress_raw_index ms)
      × (length (compress_raw_index ms) ≤ length ms)
      × ((x : ℕ) → at (compress_raw_index ms) x ≡ at ms x)
unfolding compress_raw_index
compress_raw_index-at lo [] c = (tt, omega arith, λ x. refl)
compress_raw_index-at lo (m ∷ ms) c = compress_from-lem lo m ms c

verify_mapping_order-Chain :
    (lo : ℕ) (m : SegmentMapping) (ms : List SegmentMapping)
    → lo ≤ m.offset
    → All Fits (m ∷ ms)
    → verify_mapping_order (m ∷ ms) ≡ true
    → Chain lo (m ∷ ms)
unfolding verify_mapping_order
verify_mapping_order-Chain lo m [] h f e = (h, f.0, tt)
verify_mapping_order-Chain lo m (m' ∷ ms) h f e =
    (h, f.0, verify_mapping_order-Chain (end m) m' ms (ground arith) f.1 (ground arith))

-- The mapped offsets lie in `from .. to`.
abbrev pub MapsWithin : ℕ → ℕ → SegmentMapping → Type 0
MapsWithin from to m = (from ≤ m.moffset) × (mend m ≤ to)

verify_mapping_moffset-MapsWithin :
    (ms : List SegmentMapping) (from to : ℕ)
    → verify_mapping_moffset ms from to ≡ true
    → All (MapsWithin from to) ms
unfolding verify_mapping_moffset
verify_mapping_moffset-MapsWithin [] from to e = tt
verify_mapping_moffset-MapsWithin (m ∷ ms) from to e =
    (ground arith, verify_mapping_moffset-MapsWithin ms from to (ground arith))

-- An index that `create_memory_index` makes of mappings that fit their bit fields has them in order,
-- and their mapped offsets lie in the range it was given.
pub create_memory_index-Chain :
    (ms : List SegmentMapping) (from to vsize : ℕ) (index : Index)
    → All Fits ms
    → create_memory_index ms from to vsize ≡ some index
    → (index.mapping ≡ ms) × Chain 0 index.mapping × All (MapsWithin from to) index.mapping
unfolding create_memory_index
create_memory_index-Chain ms from to vsize index f e =
    let same : index.mapping ≡ ms = ground arith in
    rw same
      (refl, chain ms f (ground arith), verify_mapping_moffset-MapsWithin ms from to (ground arith))
  where
    chain : (ms : List SegmentMapping) → All Fits ms → verify_mapping_order ms ≡ true → Chain 0 ms
    chain [] f e = tt
    chain (m ∷ ms) f e = verify_mapping_order-Chain 0 m ms (omega arith) f e
