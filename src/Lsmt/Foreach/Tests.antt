-- ===== src/Lsmt/Foreach/Tests.antt =====
-- Concrete inputs for `foreach_segments` of src/overlaybd/lsmt/index.h.
use dadi_fast_cdc.Prelude.{◌≡◌, ◌+◌, refl, some, none, List, [], ◌∷◌, arith}
use dadi_fast_cdc.Lsmt.Examples.{mapping_a, mapping_b, mappings, mappings-Chain}
use dadi_fast_cdc.Lsmt.Segment.{
  Segment, lower_bound, forward_offset_to, backward_end_to, trim_first, trim_last,
  trim_edge_mappings,
}
use dadi_fast_cdc.Lsmt.Segment.Place.{at}
use dadi_fast_cdc.Lsmt.Index.{lookup, copy_n}
use dadi_fast_cdc.Lsmt.Foreach.{
  foreach_segments, visit_all, visit_hole, visit_mapping, segment_forward_to,
}
use dadi_fast_cdc.Lsmt.Foreach.Events.{Event, zeroes, reads, record_zero, record_data, Tiles}
use dadi_fast_cdc.Lsmt.Foreach.Tiles.{foreach_segments-lookup}

abbrev segment : Segment
segment = record { offset = 4; length = 30 }

foreach_segments-lookup_example :
    (events : List Event) × (foreach_segments
        (lookup mappings)
        record_zero
        record_data
        (segment.length + 1)
        segment
        []
      ≡ some (events, none))
    × Tiles (at mappings) 4 events 34
foreach_segments-lookup_example =
    foreach_segments-lookup mappings segment mappings-Chain (omega arith) (omega arith)

foreach_run :
    foreach_segments (lookup mappings) record_zero record_data 31 segment []
    ≡ some (
      reads (record mapping_a { offset = 4; length = 6; moffset = 104 })
          ∷ zeroes (record { offset = 10; length = 10 })
          ∷ reads mapping_b
          ∷ zeroes (record { offset = 25; length = 9 })
          ∷ [],
      none,
    )
unfolding foreach_segments visit_all visit_hole visit_mapping segment_forward_to lookup copy_n
    lower_bound trim_edge_mappings trim_first trim_last forward_offset_to backward_end_to
foreach_run = refl
