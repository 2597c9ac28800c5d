-- ===== src/Zfile/Compressor/Tests.antt =====
-- A batch of two chunks.
use dadi_fast_cdc.Prelude.{ℕ, ◌≡◌, refl, Option, none, some}
use dadi_fast_cdc.Prelude.{List, [], ◌∷◌}
use dadi_fast_cdc.Zfile.Compressor.{do_pieces, run_batch}

-- A compressor that marks its code.
abbrev mark : List ℕ → ℕ → Option (List ℕ)
mark src dst_len = some (7 ∷ src)

two_chunks :
    run_batch mark 2 8 (1 ∷ (2 ∷ (3 ∷ []))) (2 ∷ (1 ∷ [])) 16
    ≡ some ((7 ∷ (1 ∷ (2 ∷ []))) ∷ ((7 ∷ (3 ∷ [])) ∷ []))
unfolding run_batch do_pieces
two_chunks = refl

no_room : run_batch mark 2 9 (1 ∷ (2 ∷ (3 ∷ []))) (2 ∷ (1 ∷ [])) 16 ≡ none
unfolding run_batch
no_room = refl

-- Vectors of one element.
too_many : run_batch mark 1 8 (1 ∷ (2 ∷ (3 ∷ []))) (2 ∷ (1 ∷ [])) 16 ≡ none
unfolding run_batch
too_many = refl
