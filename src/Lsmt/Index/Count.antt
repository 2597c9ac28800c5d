-- ===== src/Lsmt/Index/Count.antt =====
-- The count of the sectors with data of src/overlaybd/lsmt/index.cpp.
use dadi_fast_cdc.Prelude.{ℕ, ◌+◌, ◌%◌, ◌^◌, ◌≤◌, ◌<◌, ◌≡◌}
use dadi_fast_cdc.Prelude.{List, [], ◌∷◌, arith}
use dadi_fast_cdc.Lsmt.Segment.{SegmentMapping, end}
use dadi_fast_cdc.Lsmt.Segment.Place.{Chain}
use dadi_fast_cdc.Lsmt.Index.{used_by, used, get_alloc_blks, from_vector}

pub used-le :
    (lo : ℕ) (ms : List SegmentMapping) → lo ≤ 2 ^ 50 → Chain lo ms → used ms + lo ≤ 2 ^ 50
used-le lo [] h c = omega arith
used-le lo (m ∷ ms) h c = ground (arith, used-le (end m) ms c.1.1.1 c.2)

get_alloc_blks-lem :
    (alloc : ℕ) (ms : List SegmentMapping)
    → alloc + used ms < 2 ^ 64
    → get_alloc_blks alloc ms ≡ alloc + used ms
unfolding get_alloc_blks
get_alloc_blks-lem alloc [] h = omega arith
get_alloc_blks-lem alloc (m ∷ ms) h =
    omega (arith, get_alloc_blks-lem ((alloc + used_by m) % 2 ^ 64) ms (omega arith))

-- An index made of mappings in order counts their sectors.
pub from_vector-used :
    (ms : List SegmentMapping) (vsize : ℕ) → Chain 0 ms → (from_vector ms vsize).alloc_blk ≡ used ms
unfolding from_vector
from_vector-used ms vsize c = omega (arith, used-le 0 ms (omega arith) c, get_alloc_blks-lem 0 ms)
