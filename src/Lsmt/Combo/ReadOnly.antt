-- ===== src/Lsmt/Combo/ReadOnly.antt =====
-- The read-only indexes made from `ComboIndex` of src/overlaybd/lsmt/index.cpp.
use dadi_fast_cdc.Prelude.{
  ℕ, ◌+◌, ◌-◌, ◌%◌, ◌^◌, ◌≤◌, ◌<◌, ◌≡◌, refl, sym, ◌∙◌, ◌⊎◌, inl, inr, Option, none, some,
}
use dadi_fast_cdc.Prelude.{
  List, [], ◌∷◌, length, ltb, leb, ◌==◌, ◌&&◌, if◌then◌else◌, arith, Bool-cases,
}
use mathlib.Core.Option
use dadi_fast_cdc.Lsmt.Segment.{SegmentMapping, end}
use dadi_fast_cdc.Lsmt.Segment.Place.{Place, at, Chain, EndsBy, Chain-le, at_before}
use dadi_fast_cdc.Lsmt.Index.{Index, used, from_vector, increase_tag}
use dadi_fast_cdc.Lsmt.Index.Count.{from_vector-used}
use dadi_fast_cdc.Lsmt.Index0.{Index0}
use dadi_fast_cdc.Lsmt.Merge.{merge_untagged}
use dadi_fast_cdc.Lsmt.Merge.Layers.{over}
use dadi_fast_cdc.Lsmt.Merge.Refines.{merge_untagged-Fills}
use dadi_fast_cdc.Lsmt.Combo.{
  ComboIndex, create_combo_index, tag_range, load_range_index, rebuild_backing_index,
  combo_read_only_index,
}

-- A read-only index in order, with its count, that says what `f` says.
pub record Says (f : ℕ → Option Place) (out : Index) : Type 0 where
  pub in_order : Chain 0 out.mapping
  pub counted : out.alloc_blk ≡ used out.mapping
  pub same : (x : ℕ) → x < 2 ^ 64 - 1 → at out.mapping x ≡ f x

merged-Says :
    (max_level : ℕ) (high low : List SegmentMapping)
    → Chain 0 high
    → Chain 0 low
    → EndsBy (2 ^ 50 - 1) high
    → (max_level ≤ 2) ⊎ EndsBy (2 ^ 50 - 1) low
    → 2 ≤ max_level
    → Says
        (λ x. over none (at high x) (at low x))
        (from_vector (merge_untagged max_level (high ∷ low ∷ []) 2 0 (2 ^ 64 - 1)) 0)
unfolding from_vector
merged-Says max_level high low c d ends more h =
    let merged =
      merge_untagged-Fills max_level high low 0 (2 ^ 64 - 1) c d ends more h (omega arith)
        (omega arith) in
    record {
      in_order = merged.in_order;
      counted = from_vector-used _ 0 merged.in_order;
      same = λ x a. merged.same x (omega arith) a;
    }

-- `make_read_only_index` of a combo over a read-only index, the mappings of both in order and those of
-- the set ending before sector 2^50: the index it makes is in order, counts its sectors with data, and says of every sector what the set of the
-- combo says, and where that has nothing what the read-only index says.
pub combo_read_only_index-Says :
    (v : ComboIndex) (i : Index)
    → v.backing ≡ some i
    → Chain 0 v.front.mapping
    → Chain 0 i.mapping
    → EndsBy (2 ^ 50 - 1) v.front.mapping
    → Says (λ x. over none (at v.front.mapping x) (at i.mapping x)) (combo_read_only_index v)
unfolding combo_read_only_index
combo_read_only_index-Says v i known c d ends =
    rw known (merged-Says 2 v.front.mapping i.mapping c d ends (inl (omega arith)) (omega arith))

rebuild_backing_index-Says :
    (backing high : Index) (max_level : ℕ)
    → Chain 0 high.mapping
    → Chain 0 backing.mapping
    → EndsBy (2 ^ 50 - 1) high.mapping
    → (max_level ≤ 2) ⊎ EndsBy (2 ^ 50 - 1) backing.mapping
    → 2 ≤ max_level
    → Says
        (λ x. over none (at high.mapping x) (at backing.mapping x))
        (rebuild_backing_index backing high max_level)
unfolding rebuild_backing_index
rebuild_backing_index-Says backing high max_level c d ends more h =
    merged-Says max_level high.mapping backing.mapping c d ends more h

-- Of a sector, what is tagged within the range.
abbrev pub in_range : ℕ → ℕ → Option Place → Option Place
in_range min_level max_level none = none
in_range min_level max_level (some p) =
    if leb min_level p.tag && ltb p.tag max_level then some p else none

tag_range-lem :
    (min_level max_level lo : ℕ) (ms : List SegmentMapping)
    → Chain lo ms
    → Chain lo (tag_range min_level max_level ms)
      × ((x : ℕ) → at (tag_range min_level max_level ms) x ≡ in_range min_level max_level (at ms x))
unfolding tag_range at
tag_range-lem min_level max_level lo [] c = (tt, λ x. refl)
tag_range-lem min_level max_level lo (m ∷ ms) c =
    let rest = tag_range-lem min_level max_level (end m) ms c.2 in
    elim (Bool-cases (leb min_level m.tag && ltb m.tag max_level)) [
      | inl t ↦ rw t ((c.0, c.1, rest.0), λ x. ground (arith, rest.1 x))
      | inr t ↦ rw t (
        Chain-le (end m) lo _ (omega (arith, c)) rest.0,
        λ x.
            ground (arith, rest.1 x, at_before (end m) (tag_range min_level max_level ms) x rest.0),
      )
    ]

range-Says :
    (min_level max_level : ℕ) (i : Index)
    → Chain 0 i.mapping
    → Says
        (λ x. in_range min_level max_level (at i.mapping x))
        (from_vector (tag_range min_level max_level i.mapping) 0)
unfolding from_vector
range-Says min_level max_level i c =
    let range = tag_range-lem min_level max_level 0 i.mapping c in
    record { in_order = range.0; counted = from_vector-used _ 0 range.0; same = λ x a. range.1 x }

empty_range : (a b : ℕ) → b ≤ a → (o : Option Place) → in_range a b o ≡ none
empty_range a b h none = refl
empty_range a b h (some p) = ground arith

at-nil : (ms : List SegmentMapping) (x : ℕ) → length ms ≡ 0 → at ms x ≡ none
unfolding at
at-nil [] x h = refl
at-nil (m ∷ ms) x h = absurd (omega arith)

abbrev pub raise : ℕ → Place → Place
raise delta p = record p { tag = (p.tag + delta) % 2 ^ 8 }

increase_tag-lem :
    (delta lo : ℕ) (ms : List SegmentMapping)
    → Chain lo ms
    → Chain lo (increase_tag delta ms)
      × ((x : ℕ) → at (increase_tag delta ms) x ≡ Option.map (raise delta) (at ms x))
unfolding increase_tag at
increase_tag-lem delta lo [] c = (tt, λ x. refl)
increase_tag-lem delta lo (m ∷ ms) c =
    let rest = increase_tag-lem delta (end m) ms c.2 in
    ((c.0, c.1, rest.0), λ x. ground (arith, rest.1 x))

-- What `load_range_index` gives: an index, or nothing where no sector has a tag in the range.
abbrev pub Loaded : (ℕ → Option Place) → Option Index → Type 0
Loaded f none = (x : ℕ) → f x ≡ none
Loaded f (some out) = Says f out

-- `load_range_index` for the levels from `min_level` to `max_level - 1`, of a read-only index whose
-- mappings are in order, gives an index in order, with its count, that says of every sector what the
-- read-only index says, where that is tagged with one of those levels, and else nothing; or it gives
-- none, and no sector is tagged with one of those levels.
pub load_range_index-Loaded :
    (backing : Index) (min_level max_level : ℕ)
    → Chain 0 backing.mapping
    → Loaded
        (λ x. in_range min_level max_level (at backing.mapping x))
        (load_range_index backing min_level max_level)
unfolding load_range_index
load_range_index-Loaded backing min_level max_level c =
    elim (Bool-cases (leb max_level min_level)) [
      | inl t ↦ rw t (λ x. empty_range min_level max_level (ground arith) (at backing.mapping x))
      | inr t ↦ elim (Bool-cases (length (tag_range min_level max_level backing.mapping) == 0)) [
        | inl u ↦
            rw (t, u)
              (λ x.
                sym ((tag_range-lem min_level max_level 0 backing.mapping c).1 x)
                ∙ at-nil (tag_range min_level max_level backing.mapping) x (ground arith))
        | inr u ↦ rw (t, u) (range-Says min_level max_level backing c)
      ]
    ]

-- `create_combo_index`: the set of the combo says what that of `index0` says, with the number of
-- read-only layers added to each tag, and is in order where that is.
pub create_combo_index-at :
    (i0 : Index0) (i1 : Index) (ro_index_count : ℕ)
    → Chain 0 i0.mapping
    → (v : ComboIndex) × (create_combo_index (some i0) (some i1) ro_index_count ≡ some v)
      × Chain 0 v.front.mapping
      × ((x : ℕ) → at v.front.mapping x ≡ Option.map (raise ro_index_count) (at i0.mapping x))
      × (v.backing ≡ some i1)
unfolding create_combo_index
create_combo_index-at i0 i1 ro_index_count c =
    let raised = increase_tag-lem ro_index_count 0 i0.mapping c in
    (_, refl, raised.0, raised.1, refl)
