-- ===== src/Zfile/JumpTable/Tests.antt =====
-- A jump table of blocks of 4096 bytes.
use dadi_fast_cdc.Prelude.{◌≡◌, refl, true, some, arith}
use dadi_fast_cdc.Prelude.{[], ◌∷◌}
use dadi_fast_cdc.Zfile.JumpTable.{JumpTable, built, build, build_from, at_index}
use dadi_fast_cdc.Zfile.JumpTable.Built.{IsTable}
use dadi_fast_cdc.Zfile.JumpTable.Deltas.{Fits, build-Fits}
use dadi_fast_cdc.Zfile.JumpTable.Total.{build-IsTable}

build-IsTable_example :
    (t : JumpTable) × (build (1000 ∷ (2000 ∷ (5 ∷ []))) 512 4096 true ≡ built t)
    × IsTable t 512 (1000 ∷ (2000 ∷ (5 ∷ [])))
build-IsTable_example =
    build-IsTable 4 (1000 ∷ (2000 ∷ (5 ∷ []))) 512 4096 true 4100 (omega arith) refl (omega arith)
      (omega arith)

-- With blocks of 20000 bytes a group has three, and the mask of the second place of a group is wrong.
abbrev wrong_table : JumpTable
wrong_table = record {
  group_size = 3;
  partial_offset = 512 ∷ [];
  deltas = 0 ∷ (1000 ∷ (3000 ∷ []));
}

build_wrong : build (1000 ∷ (2000 ∷ [])) 512 20000 true ≡ built wrong_table
unfolding build build_from
build_wrong = refl

at_index_wrong : at_index wrong_table 1 ≡ some 512
unfolding at_index
at_index_wrong = refl

build-Fits_example : Fits (build (1000 ∷ (2000 ∷ [])) 512 4096 true)
build-Fits_example = build-Fits (1000 ∷ (2000 ∷ [])) 512 4096 true
