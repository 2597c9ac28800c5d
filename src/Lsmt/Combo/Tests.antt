-- ===== src/Lsmt/Combo/Tests.antt =====
-- Concrete inputs for the combo of src/overlaybd/lsmt/index.cpp.

use dadi_fast_cdc.Prelude.{◌≡◌, refl, some, none, [], ◌∷◌, arith}
use dadi_fast_cdc.Lsmt.Examples.{
  mapping_a, mapping_b, mapping_m, mappings, mapping_m-Fits, mappings-Chain,
}
use dadi_fast_cdc.Lsmt.Segment.{
  Segment, lower_bound, forward_offset_to, backward_end_to, trim_first, trim_last,
  trim_edge_mappings,
}
use dadi_fast_cdc.Lsmt.Segment.Place.{at, Chain}
use dadi_fast_cdc.Lsmt.Index.{Index, lookup, copy_n}
use dadi_fast_cdc.Lsmt.Index.Lookup.{Answers}
use dadi_fast_cdc.Lsmt.Index0.{Index0}
use dadi_fast_cdc.Lsmt.Merge.Layers.{over}
use dadi_fast_cdc.Lsmt.Combo.{
  ComboIndex, combo_lookup, lookup_loop, lookup_gap, combo_read_only_index,
}
use dadi_fast_cdc.Lsmt.Combo.Lookup.{combo_lookup-Answers}
use dadi_fast_cdc.Lsmt.Combo.ReadOnly.{Says, combo_read_only_index-Says}

abbrev writable : Index0
writable = record { mapping = mapping_m ∷ []; m_alloc = 18 }

abbrev backing : Index
backing = record { mapping = mappings; alloc_blk = 15; virtual_size = 64 }

abbrev combo : ComboIndex
combo = record { front = writable; index0 = writable; backing = some backing }

abbrev segment : Segment
segment = record { offset = 2; length = 30 }

writable-Chain : Chain 0 writable.mapping
writable-Chain = (omega arith, mapping_m-Fits, tt)

combo_lookup-Answers_example :
    Answers
      (λ x. over none (at (mapping_m ∷ []) x) (at mappings x))
      segment
      16
      (combo_lookup combo segment 16)
combo_lookup-Answers_example =
    combo_lookup-Answers combo backing segment 16 refl writable-Chain mappings-Chain (omega arith)
      (omega arith) (omega arith) (omega arith)

combo_run :
    combo_lookup combo segment 16
    ≡ (record mapping_a { offset = 2; length = 3; moffset = 102 })
      ∷ mapping_m
      ∷ (record mapping_b { offset = 23; length = 2; moffset = 203 })
      ∷ []
unfolding combo_lookup lookup_loop lookup_gap lookup copy_n lower_bound trim_edge_mappings
    trim_first trim_last forward_offset_to backward_end_to
combo_run = refl

combo_read_only_index-Says_example :
    Says (λ x. over none (at (mapping_m ∷ []) x) (at mappings x)) (combo_read_only_index combo)
combo_read_only_index-Says_example =
    combo_read_only_index-Says combo backing refl writable-Chain mappings-Chain (omega arith, tt)
