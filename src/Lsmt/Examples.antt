-- ===== src/Lsmt/Examples.antt =====
-- Mappings of src/overlaybd/lsmt/index.h that the tests share.
use dadi_fast_cdc.Prelude.{false, List, [], ◌∷◌, arith}
use dadi_fast_cdc.Lsmt.Segment.{SegmentMapping}
use dadi_fast_cdc.Lsmt.Segment.Place.{Fits, Chain}

abbrev pub mapping_a : SegmentMapping
mapping_a = record { offset = 0; length = 10; moffset = 100; zeroed = false; tag = 0 }

abbrev pub mapping_b : SegmentMapping
mapping_b = record { offset = 20; length = 5; moffset = 200; zeroed = false; tag = 1 }

-- It cuts both.
abbrev pub mapping_m : SegmentMapping
mapping_m = record { offset = 5; length = 18; moffset = 300; zeroed = false; tag = 2 }

abbrev pub mappings : List SegmentMapping
mappings = mapping_a ∷ mapping_b ∷ []

pub mapping_a-Fits : Fits mapping_a
mapping_a-Fits = (omega arith, (omega arith, omega arith, omega arith))

pub mapping_b-Fits : Fits mapping_b
mapping_b-Fits = (omega arith, (omega arith, omega arith, omega arith))

pub mapping_m-Fits : Fits mapping_m
mapping_m-Fits = (omega arith, (omega arith, omega arith, omega arith))

pub mappings-Chain : Chain 0 mappings
mappings-Chain = (omega arith, mapping_a-Fits, (omega arith, mapping_b-Fits, tt))
