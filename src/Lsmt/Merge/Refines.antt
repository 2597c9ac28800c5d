-- ===== src/Lsmt/Merge/Refines.antt =====
-- Merged indexes of src/overlaybd/lsmt/index.cpp are the layers one over the other.
use dadi_fast_cdc.Prelude.{
  ℕ, zero, suc, ◌+◌, ◌-◌, ◌^◌, ◌≤◌, ◌<◌, ◌≡◌, refl, ◌∙◌, ◌⊎◌, inl, inr, false, Option, none, some,
}
use dadi_fast_cdc.Prelude.{List, [], ◌∷◌, ltb, arith, All, length, map}
use dadi_fast_cdc.Lsmt.Segment.{SegmentMapping}
use dadi_fast_cdc.Lsmt.Segment.Place.{Place, at, Chain, EndsBy}
use dadi_fast_cdc.Lsmt.Index.{Index, used}
use dadi_fast_cdc.Lsmt.Index.Count.{from_vector-used}
use dadi_fast_cdc.Lsmt.Merge.{merge_indexes, merge_untagged, merge_memory_indexes}
use dadi_fast_cdc.Lsmt.Merge.Layers.{over, Fills, Chain-EndsBy}
use dadi_fast_cdc.Lsmt.Merge.Loop.{merge_index-Fills}

-- What the first index that has a sector says of it, tagged with the number of that index.
abbrev pub layered : ℕ → List (List SegmentMapping) → ℕ → Option Place
layered level [] x = none
layered level (pi0 ∷ pindexes) x = over (some level) (at pi0 x) (layered (level + 1) pindexes x)

Fills-nil : (b e : ℕ) → Fills b e (λ x. none) []
unfolding at
Fills-nil b e = record { in_order = tt; within = tt; same = λ x a c. refl }

-- The mappings of the indexes above the last one end before sector 2^50.
abbrev pub UpperEnd : List (List SegmentMapping) → Type 0
UpperEnd [] = Unit
UpperEnd (pi0 ∷ []) = Unit
UpperEnd (pi0 ∷ pi1 ∷ pindexes) = EndsBy (2 ^ 50 - 1) pi0 × UpperEnd (pi1 ∷ pindexes)

-- `merge_indexes` with `change_tag`, on indexes whose mappings are in order, those above the last one
-- ending before sector 2^50, and a range from there that is not empty: it appends mappings in order
-- within the range, and they say of each sector of the range what the first index that has it says,
-- tagged with the number of that index.
pub merge_indexes-Fills :
    (level : ℕ) (pindexes : List (List SegmentMapping)) (b e : ℕ)
    → All (Chain 0) pindexes
    → UpperEnd pindexes
    → b < 2 ^ 50
    → b < e
    → Fills b e (layered level pindexes) (merge_indexes level pindexes b e)
unfolding merge_indexes
merge_indexes-Fills level [] b e c ends low h = Fills-nil b e
merge_indexes-Fills level (pi0 ∷ []) b e c ends low h =
    merge_index-Fills (merge_indexes (level + 1) []) (layered (level + 1) []) (some level)
      (2 ^ 50 + 2 ^ 14) (λ b' e' k l. Fills-nil b' e') pi0 b e c.0 (Chain-EndsBy 0 pi0 c.0) low
      (omega arith) h
merge_indexes-Fills level (pi0 ∷ pi1 ∷ pindexes) b e c ends low h =
    merge_index-Fills (merge_indexes (level + 1) (pi1 ∷ pindexes))
      (layered (level + 1) (pi1 ∷ pindexes)) (some level) (2 ^ 50 - 1)
      (λ b' e' k l.
        merge_indexes-Fills (level + 1) (pi1 ∷ pindexes) b' e' c.1 ends.1 (omega arith) k)
      pi0 b e c.0 ends.0 low (omega arith) h

-- What each index maps.
abbrev pub mappings_of : List Index → List (List SegmentMapping)
mappings_of is = map (λ i. i.mapping) is

-- `merge_memory_indexes` of 1 to 255 indexes whose mappings are in order, those of the indexes above
-- the last one ending before sector 2^50: it makes an index of the size of the first, whose mappings are in order, that says of every sector what the first index that
-- has it says, tagged with its number, and that counts the sectors with data.
pub merge_memory_indexes-layered :
    (i : Index) (is : List Index)
    → length (i ∷ is) ≤ 255
    → All (Chain 0) (mappings_of (i ∷ is))
    → UpperEnd (mappings_of (i ∷ is))
    → (out : Index) × (merge_memory_indexes (i ∷ is) ≡ some out)
      × (out.virtual_size ≡ i.virtual_size)
      × Chain 0 out.mapping
      × (out.alloc_blk ≡ used out.mapping)
      × ((x : ℕ) → x < 2 ^ 64 - 1 → at out.mapping x ≡ layered 0 (mappings_of (i ∷ is)) x)
unfolding merge_memory_indexes
merge_memory_indexes-layered i is h c ends =
    let few : ltb 255 (length (i ∷ is)) ≡ false = ground arith in
    let merged =
      merge_indexes-Fills 0 (mappings_of (i ∷ is)) 0 (2 ^ 64 - 1) c ends (omega arith)
        (omega arith) in
    rw few (
      _,
      refl,
      refl,
      merged.in_order,
      from_vector-used _ i.virtual_size merged.in_order,
      λ x a. merged.same x (omega arith) a,
    )

merge_memory_indexes-many : (is : List Index) → 255 < length is → merge_memory_indexes is ≡ none
unfolding merge_memory_indexes
merge_memory_indexes-many [] h = refl
merge_memory_indexes-many (i ∷ is) h = ground arith

-- What one index says, under calls on itself: there is one call left or more.
abbrev stacked : ℕ → (ℕ → Option Place) → ℕ → Option Place
stacked zero f x = none
stacked (suc max_level) f x = over none (f x) (stacked max_level f x)

stacked-over : (k : ℕ) (f : ℕ → Option Place) (x : ℕ) → 0 < k → stacked k f x ≡ f x
stacked-over zero f x h = absurd (omega arith)
stacked-over (suc zero) f x h = Option-over (f x)
  where
    Option-over : (o : Option Place) → over none o none ≡ o
    Option-over none = refl
    Option-over (some p) = refl
stacked-over (suc (suc k)) f x h = rw (stacked-over (suc k) f x (omega arith)) (Option-twice (f x))
  where
    Option-twice : (o : Option Place) → over none o o ≡ o
    Option-twice none = refl
    Option-twice (some p) = refl

-- The calls on one index. Behind a mapping that ends at sector 2^50 only the last of them is right.
merge_untagged-one :
    (max_level : ℕ) (pi0 : List SegmentMapping) (pindexes : List (List SegmentMapping)) (b e : ℕ)
    → Chain 0 pi0
    → (max_level ≤ 1) ⊎ EndsBy (2 ^ 50 - 1) pi0
    → b < 2 ^ 50
    → b < e
    → Fills b e (stacked max_level (at pi0)) (merge_untagged max_level (pi0 ∷ pindexes) 0 b e)
unfolding merge_untagged
merge_untagged-one zero pi0 pindexes b e c ends low h = Fills-nil b e
merge_untagged-one (suc zero) pi0 pindexes b e c ends low h =
    merge_index-Fills (merge_untagged 0 (pi0 ∷ pindexes) 0) (stacked 0 (at pi0)) none
      (2 ^ 50 + 2 ^ 14) (λ b' e' k l. Fills-nil b' e') pi0 b e c (Chain-EndsBy 0 pi0 c) low
      (omega arith) h
merge_untagged-one (suc (suc max_level)) pi0 pindexes b e c (inl few) low h = absurd (omega arith)
merge_untagged-one (suc (suc max_level)) pi0 pindexes b e c (inr ends) low h =
    merge_index-Fills (merge_untagged (suc max_level) (pi0 ∷ pindexes) 0)
      (stacked (suc max_level) (at pi0)) none (2 ^ 50 - 1)
      (λ b' e' k l.
        merge_untagged-one (suc max_level) pi0 pindexes b' e' c (inr ends) (omega arith) k)
      pi0 b e c ends low (omega arith) h

-- `merge_indexes` without `change_tag`, of two indexes whose mappings are in order, those of the first
-- ending before sector 2^50, and with more than two levels those of the second too, with two levels or
-- more, on a range from there that is not empty: it appends mappings in order within the range that
-- say of each sector what the first index says, and where that has nothing what the second says.
pub merge_untagged-Fills :
    (max_level : ℕ) (high low : List SegmentMapping) (b e : ℕ)
    → Chain 0 high
    → Chain 0 low
    → EndsBy (2 ^ 50 - 1) high
    → (max_level ≤ 2) ⊎ EndsBy (2 ^ 50 - 1) low
    → 2 ≤ max_level
    → b < 2 ^ 50
    → b < e
    → Fills b e
        (λ x. over none (at high x) (at low x))
        (merge_untagged max_level (high ∷ low ∷ []) 2 b e)
unfolding merge_untagged
merge_untagged-Fills zero high low b e c d ends more two from h = absurd (omega arith)
merge_untagged-Fills (suc max_level) high low b e c d ends more two from h =
    merge_index-Fills (merge_untagged max_level (low ∷ []) 0) (at low) none (2 ^ 50 - 1)
      (λ b' e' k l.
        let one =
          merge_untagged-one max_level low [] b' e' d (fewer max_level more) (omega arith) k in
        record {
          in_order = one.in_order;
          within = one.within;
          same = λ x a g. one.same x a g ∙ stacked-over max_level (at low) x (omega arith);
        })
      high b e c ends from (omega arith) h
  where
    fewer : {A : Type 0} → (k : ℕ) → (suc k ≤ 2) ⊎ A → (k ≤ 1) ⊎ A
    fewer k (inl h) = inl (omega arith)
    fewer k (inr a) = inr a
