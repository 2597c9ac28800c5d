-- ===== src/Zfile/Pread/Clip.antt =====
-- The test of the range at the start of `pread` of src/overlaybd/zfile/zfile.cpp, below 2^63 bytes.
use dadi_fast_cdc.Prelude.{ℕ, ◌+◌, ◌-◌, ◌^◌, ◌<◌, ◌≡◌, min, some, arith}
use dadi_fast_cdc.Zfile.BlockReader.{size_sub}
use dadi_fast_cdc.Zfile.Pread.{clip}

-- There is neither an overflow nor a negative number but the one of an offset behind the end.
pub clip-min :
    (original_file_size count offset : ℕ)
    → original_file_size < 2 ^ 63
    → offset + count < 2 ^ 63
    → clip original_file_size count offset ≡ some (min count (original_file_size - offset))
unfolding clip size_sub
clip-min original_file_size count offset low below = ground arith
