-- ===== src/Zfile/Chunker.antt =====
-- `FastCDCChunker` of src/overlaybd/zfile/fastcdc_wrapper.cpp. A buffer is the list of the bytes
-- that may be read, a null pointer is `none`, and the result `none` is a read outside the buffer.
pub mod Bounds
use dadi_fast_cdc.Prelude.{ℕ, ◌-◌, ◌^◌, Bool, true, false, Option, none, some, List}
use dadi_fast_cdc.Prelude.{ltb, ◌==◌, if◌then◌else◌}
use dadi_fast_cdc.FastCdc.Globals.{Globals, fast_cdc_init}
use dadi_fast_cdc.FastCdc.Chunking.{normalized_chunking_64}

pub record Chunker : Type 0 where
  pub m_min_size : ℕ
  pub m_avg_size : ℕ
  pub m_max_size : ℕ

-- The state that the chunkers share: FastCDC's variables, and `s_initialized`.
pub record Shared : Type 0 where
  pub globals : Globals
  pub s_initialized : Bool

-- The constructor.
unfoldable pub construct : (List ℕ → List ℕ) → Shared → ℕ → ℕ → ℕ → Chunker × Shared
construct md5 s min_size avg_size max_size =
    let g = if s.s_initialized then s.globals else fast_cdc_init md5 s.globals in
    (
      record { m_min_size = min_size; m_avg_size = avg_size; m_max_size = max_size },
      record {
        globals = record g { min_size = min_size; max_size = max_size; expect_cs = avg_size };
        s_initialized = true;
      },
    )

abbrev pub int_max : ℕ
int_max = 2 ^ 31 - 1

-- The length that is passed on, cut to `m_max_size` and to `INT_MAX`.
abbrev pub actual_length : Chunker → ℕ → ℕ
actual_length c length =
    let n = if ltb c.m_max_size length then c.m_max_size else length in
    if ltb int_max n then int_max else n

-- From the chunk of `normalized_chunking_64` to the one returned.
abbrev pub adjust : Chunker → ℕ → ℕ → ℕ
adjust c length chunk =
    if chunk == 0
    then (if ltb c.m_min_size length then c.m_min_size else length)
    else if ltb chunk c.m_min_size
    then (if ltb length c.m_min_size then length else c.m_min_size)
    else if ltb c.m_max_size chunk
    then c.m_max_size
    else chunk

abbrev pub adjusted : Chunker → ℕ → Option ℕ × Globals → Option ℕ × Globals
adjusted c length (none, g) = (none, g)
adjusted c length (some chunk, g) = (some (adjust c length chunk), g)

unfoldable pub next_chunk : Globals → Chunker → Option (List ℕ) → ℕ → Option ℕ × Globals
next_chunk g c none length = (some 0, g)
next_chunk g c (some p) length =
    if length == 0
    then (some 0, g)
    else adjusted c length (normalized_chunking_64 g p (actual_length c length))
