-- ===== src/Lsmt/Merge/Tests.antt =====
-- Concrete inputs for merged indexes of src/overlaybd/lsmt/index.cpp.
use dadi_fast_cdc.Prelude.{ℕ, ◌≡◌, ◌<◌, ◌+◌, ◌-◌, ◌^◌, refl, some, false, [], ◌∷◌, arith}
use dadi_fast_cdc.Lsmt.Examples.{
  mapping_a, mapping_b, mapping_m, mappings, mapping_m-Fits, mappings-Chain,
}
use dadi_fast_cdc.Lsmt.Segment.{
  SegmentMapping, lower_bound, forward_offset_to, backward_end_to, trim_first, trim_last,
  trim_edge_mappings,
}
use dadi_fast_cdc.Lsmt.Segment.Place.{at, Chain}
use dadi_fast_cdc.Lsmt.Index.{Index, used}
use dadi_fast_cdc.Lsmt.Merge.{merge_indexes, merge_index, merge_loop, merge_memory_indexes}
use dadi_fast_cdc.Lsmt.Merge.Refines.{layered, mappings_of, merge_memory_indexes-layered}

abbrev upper : Index
upper = record { mapping = mapping_m ∷ []; alloc_blk = 0; virtual_size = 64 }

abbrev lower : Index
lower = record { mapping = mappings; alloc_blk = 0; virtual_size = 32 }

merge_memory_indexes-layered_example :
    (out : Index) × (merge_memory_indexes (upper ∷ lower ∷ []) ≡ some out)
    × (out.virtual_size ≡ 64)
    × Chain 0 out.mapping
    × (out.alloc_blk ≡ used out.mapping)
    × ((x : ℕ) → x < 2 ^ 64 - 1 → at out.mapping x ≡ layered 0 (mappings_of (upper ∷ lower ∷ [])) x)
merge_memory_indexes-layered_example =
    merge_memory_indexes-layered upper (lower ∷ []) (omega arith)
      ((omega arith, mapping_m-Fits, tt), (mappings-Chain, tt)) ((omega arith, tt), tt)

merge_run :
    merge_indexes 0 ((mapping_m ∷ []) ∷ mappings ∷ []) 0 100
    ≡ (record mapping_a { length = 5; tag = 1 })
      ∷ (record mapping_m { tag = 0 })
      ∷ (record mapping_b { offset = 23; length = 2; moffset = 203 })
      ∷ []
unfolding merge_indexes merge_index merge_loop lower_bound trim_edge_mappings trim_first trim_last
    forward_offset_to backward_end_to
merge_run = refl

-- An upper layer that ends at sector 2^50: the layer below is merged again behind it.
abbrev last_sector : SegmentMapping
last_sector = record { offset = 2 ^ 50 - 1; length = 1; moffset = 300; zeroed = false; tag = 0 }

merge_wraps :
    merge_indexes 0 ((last_sector ∷ []) ∷ (mapping_a ∷ []) ∷ []) 0 (2 ^ 64 - 1)
    ≡ (record mapping_a { tag = 1 })
      ∷ last_sector
      ∷ (record mapping_a { tag = 1; moffset = 100 + 2 ^ 50 })
      ∷ []
unfolding merge_indexes merge_index merge_loop lower_bound trim_edge_mappings trim_first trim_last
    forward_offset_to backward_end_to
merge_wraps = refl
