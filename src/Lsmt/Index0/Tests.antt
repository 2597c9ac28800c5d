-- ===== src/Lsmt/Index0/Tests.antt =====
-- Concrete inputs for the writable index of src/overlaybd/lsmt/index.cpp.
use dadi_fast_cdc.Prelude.{◌≡◌, refl, none, ℕ, [], ◌∷◌, arith}
use dadi_fast_cdc.Lsmt.Segment.{lower_bound, forward_offset_to, backward_end_to}
use dadi_fast_cdc.Lsmt.Examples.{
  mapping_a, mapping_b, mapping_m, mappings, mapping_a-Fits, mapping_b-Fits, mapping_m-Fits,
  mappings-Chain,
}
use dadi_fast_cdc.Lsmt.Segment.Place.{at}
use dadi_fast_cdc.Lsmt.Index.{lookup}
use dadi_fast_cdc.Lsmt.Index0.{
  Index0, set_insert, passed, clear_from, erase_covered, remove_partial_overlap, insert, create,
}
use dadi_fast_cdc.Lsmt.Index0.Insert.{
  IsCounted, override, override_all, insert-override, insert-IsCounted, create-override,
}
use dadi_fast_cdc.Lsmt.Index0.RoundTrip.{segment, lookup-insert}

abbrev index : Index0
index = record { mapping = mappings; m_alloc = 15 }

insert-override_example : at (insert index mapping_m).mapping 7 ≡ override mapping_m (at mappings) 7
insert-override_example = insert-override index mapping_m 7 mappings-Chain mapping_m-Fits.1

insert-IsCounted_example : IsCounted (insert index mapping_m)
insert-IsCounted_example =
    insert-IsCounted index mapping_m (record { in_order = mappings-Chain; counted = refl })
      mapping_m-Fits.1

lookup-insert_example :
    lookup (insert index mapping_m).mapping (segment mapping_m) 4 ≡ mapping_m ∷ []
lookup-insert_example = lookup-insert index mapping_m 4 mappings-Chain mapping_m-Fits (omega arith)

create-override_example :
    IsCounted (create (mapping_b ∷ mapping_a ∷ mapping_m ∷ []))
    × ((x : ℕ)
        → at (create (mapping_b ∷ mapping_a ∷ mapping_m ∷ [])).mapping x
          ≡ override_all (mapping_b ∷ mapping_a ∷ mapping_m ∷ []) (λ y. none) x)
create-override_example =
    create-override (mapping_b ∷ mapping_a ∷ mapping_m ∷ [])
      (mapping_b-Fits.1, (mapping_a-Fits.1, (mapping_m-Fits.1, tt)))

-- Both ends stay, and the second keeps its place in the log.
insert_run :
    (insert index mapping_m).mapping
    ≡ (record mapping_a { length = 5 })
      ∷ mapping_m
      ∷ (record mapping_b { offset = 23; length = 2; moffset = 203 })
      ∷ []
unfolding insert set_insert passed clear_from erase_covered remove_partial_overlap lower_bound
    forward_offset_to backward_end_to
insert_run = refl
