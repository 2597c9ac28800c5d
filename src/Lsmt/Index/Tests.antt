-- ===== src/Lsmt/Index/Tests.antt =====
-- Concrete inputs for the read-only index of src/overlaybd/lsmt/index.cpp.
use dadi_fast_cdc.Prelude.{ℕ, ◌≡◌, ◌≤◌, refl, some, List, [], ◌∷◌, arith, length}
use dadi_fast_cdc.Lsmt.Examples.{mapping_a, mapping_b, mappings, mapping_a-Fits, mappings-Chain}
use dadi_fast_cdc.Lsmt.Segment.{
  Segment, SegmentMapping, lower_bound, forward_offset_to, backward_end_to, trim_first, trim_last,
  trim_edge_mappings,
}
use dadi_fast_cdc.Lsmt.Segment.Place.{at, Chain}
use dadi_fast_cdc.Lsmt.Index.{
  lookup, copy_n, compress_raw_index, compress_from, create_memory_index, from_array,
  verify_mapping_order, verify_mapping_moffset,
}
use dadi_fast_cdc.Lsmt.Index.Lookup.{Answers, lookup-Answers}
use dadi_fast_cdc.Lsmt.Index.Compress.{compress_raw_index-at}

abbrev segment : Segment
segment = record { offset = 4; length = 18 }

lookup-Answers_example : Answers (at mappings) segment 16 (lookup mappings segment 16)
lookup-Answers_example =
    lookup-Answers mappings segment 16 0 mappings-Chain (omega arith) (omega arith)

-- Both edges are cut.
lookup_run :
    lookup mappings segment 16
    ≡ (record mapping_a { offset = 4; length = 6; moffset = 104 })
      ∷ (record mapping_b { length = 2 })
      ∷ []
unfolding lookup copy_n lower_bound trim_edge_mappings trim_first trim_last forward_offset_to
    backward_end_to
lookup_run = refl

-- The second continues the first.
abbrev halves : List SegmentMapping
halves = mapping_a ∷ (record mapping_a { offset = 10; moffset = 110 }) ∷ []

compress_raw_index-at_example :
    Chain 0 (compress_raw_index halves)
    × (length (compress_raw_index halves) ≤ length halves)
    × ((x : ℕ) → at (compress_raw_index halves) x ≡ at halves x)
compress_raw_index-at_example = compress_raw_index-at 0 halves (
  omega arith,
  mapping_a-Fits,
  (omega arith, (omega arith, (omega arith, omega arith, omega arith)), tt),
)

compress_run : compress_raw_index halves ≡ (record mapping_a { length = 20 }) ∷ []
unfolding compress_raw_index compress_from
compress_run = refl

created : create_memory_index mappings 100 205 64 ≡ some (from_array mappings 64)
unfolding create_memory_index verify_mapping_order verify_mapping_moffset
created = refl
