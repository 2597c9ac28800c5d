-- ===== src/FastCdc/Driver/Tests.antt =====
-- Runs of the test driver on a window of 72 bytes.
use dadi_fast_cdc.Prelude.{ℕ, ◌≡◌, refl, some, false, List, []}
use dadi_fast_cdc.FastCdc.Tests.{small, content}
use dadi_fast_cdc.FastCdc.Driver.{Window, shift_down, Round, pass-overrun}

-- A file at its end.
abbrev read_nothing : ℕ → ℕ → List ℕ × ℕ
read_nothing file count = ([], file)

abbrev window : Window read_nothing
window = record {
  file_cache = content;
  offset = 0;
  end_plus_one = 72;
  read_flag = false;
  chunk_num = 0;
  random_file = 0;
}

pass-overrun_example : Round read_nothing 72 small window
pass-overrun_example = pass-overrun read_nothing 72 small window refl refl

-- Nothing is copied where no byte is left.
nothing_left : shift_down read_nothing 72 content 72 ≡ some content
unfolding shift_down
nothing_left = refl
