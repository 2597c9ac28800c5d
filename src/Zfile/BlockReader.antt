-- ===== src/Zfile/BlockReader.antt =====
-- `CompressionFile` of src/overlaybd/zfile/zfile.cpp and its `BlockReader`: which compressed blocks a
-- range of the original file lies in, where they are in the buffer of 64 KiB that the reader fills
-- from the file below, and which part of each block is asked for. The file below is a parameter:
-- `file_pread file count offset`, `none` for an error, and `trim`, which may change what it reads.
-- The index and `m_offset` of a reader that has stopped are not used again, and are left out.
use dadi_fast_cdc.Prelude.{
  ℕ, zero, suc, ◌+◌, ◌-◌, ◌/◌, ◌%◌, ◌^◌, min, Option, none, some, Bool, true, false, ◌&&◌, ◌||◌,
  not,
}
use dadi_fast_cdc.Prelude.{
  List, [], ◌∷◌, ◌++◌, ltb, leb, ◌==◌, if◌then◌else◌, length, get_or, take, drop,
}
use dadi_fast_cdc.Zfile.JumpTable.{JumpTable, at_index}

-- `MAX_READ_SIZE` of zfile.h, the size of `m_buf` and of `raw`.
abbrev pub max_read_size : ℕ
max_read_size = 65536

-- `a - b` of `size_t`.
unfoldable pub size_sub : ℕ → ℕ → ℕ
size_sub a b = (a + 2 ^ 64 - b) % 2 ^ 64

-- Bytes written over those of a buffer.
abbrev pub overwrite : List ℕ → List ℕ → List ℕ
overwrite old xs = xs ++ drop (length xs) old

-- The fields of the file that the reader uses, those of the header by their names. `valid` is
-- 1, `FLAG_VALID_TRUE`, or 2, `FLAG_VALID_CRC_CHECK`.
pub record CompressionFile : Type 0 where
  pub jump_table : JumpTable
  pub raw_block_sizes : List ℕ
  pub fastcdc : Bool
  pub block_size : ℕ
  pub verify : Bool
  pub original_file_size : ℕ
  pub valid : ℕ

-- The error numbers; `read_error` is the `errno` of the file below, or EIO.
pub data Errno : Type 0 where
  read_error erange echecksum enomem decompress_error : Errno

pub record BlockReader (F : Type 0) : Type 0 where
  pub file : F
  pub buf : List ℕ
  pub buf_offset : ℕ
  pub begin_idx : ℕ
  pub original_begin_idx : ℕ
  pub idx : ℕ
  pub end_idx : ℕ
  pub original_offset : ℕ
  pub last : ℕ
  pub eno : Option Errno

-- `is_fastcdc() && !m_raw_block_sizes.empty()`
abbrev pub variable_blocks : CompressionFile → Bool
variable_blocks z = z.fastcdc && not (length z.raw_block_sizes == 0)

-- The block that holds `offset`, from block `i`, which begins at `cumulative`; 0 where there is none.
abbrev pub find_begin : List ℕ → ℕ → ℕ → ℕ → ℕ
find_begin [] i cumulative offset = 0
find_begin (size ∷ sizes) i cumulative offset =
    let rest = find_begin sizes (suc i) (cumulative + size) offset in
    if ltb offset (cumulative + size) then i else rest

-- The number behind the block that holds `last`; that of all blocks where there is none.
abbrev pub find_end : List ℕ → ℕ → ℕ → ℕ → ℕ
find_end [] i cumulative last = i
find_end (size ∷ sizes) i cumulative last =
    let rest = find_end sizes (suc i) (cumulative + size) last in
    if ltb last (cumulative + size) then suc i else rest

-- `BlockReader(zfile, offset, count)`. The second branch leaves `m_original_begin_idx` at 0.
unfoldable pub new_reader : {F : Type 0} → CompressionFile → F → List ℕ → ℕ → ℕ → BlockReader F
new_reader z file buf offset count =
    let last = offset + count - 1 in
    if variable_blocks z
    then record {
      file = file;
      buf = buf;
      buf_offset = 0;
      begin_idx = find_begin z.raw_block_sizes 0 0 offset;
      original_begin_idx = find_begin z.raw_block_sizes 0 0 offset;
      idx = find_begin z.raw_block_sizes 0 0 offset;
      end_idx = find_end z.raw_block_sizes 0 0 last;
      original_offset = offset;
      last = last;
      eno = none;
    }
    else record {
      file = file;
      buf = buf;
      buf_offset = 0;
      begin_idx = offset / z.block_size;
      original_begin_idx = 0;
      idx = offset / z.block_size;
      end_idx = last / z.block_size + 1;
      original_offset = offset;
      last = last;
      eno = none;
    }

-- The loop of `get_inblock_offset`.
abbrev pub cumulative_size : List ℕ → ℕ → ℕ
cumulative_size sizes zero = 0
cumulative_size [] (suc blk_idx) = 0
cumulative_size (size ∷ sizes) (suc blk_idx) = size + cumulative_size sizes blk_idx

unfoldable pub get_inblock_offset : CompressionFile → ℕ → ℕ → ℕ
get_inblock_offset z offset blk_idx =
    if variable_blocks z
    then size_sub offset (cumulative_size z.raw_block_sizes blk_idx)
    else offset % z.block_size

-- `block_size()` of the reader.
unfoldable pub raw_size : CompressionFile → ℕ → ℕ
raw_size z idx =
    if variable_blocks z && ltb idx (length z.raw_block_sizes)
    then get_or z.raw_block_sizes idx 0
    else z.block_size

abbrev pub place_difference : Option ℕ → Option ℕ → Option ℕ
place_difference (some begin) (some end) = some (size_sub end begin)
place_difference (some begin) none = none
place_difference none end = none

-- `none` is a read outside the jump table, here and below.
unfoldable pub get_blocks_length : CompressionFile → ℕ → ℕ → Option ℕ
get_blocks_length z begin end =
    place_difference (at_index z.jump_table begin) (at_index z.jump_table end)

-- `sizeof(uint32_t)` where blocks have a checksum.
abbrev pub checksum_size : CompressionFile → ℕ
checksum_size z = if z.verify then 4 else 0

-- A block as the iterator describes it.
pub record Block : Type 0 where
  pub compressed_size : ℕ
  pub cp_begin : ℕ
  pub cp_len : ℕ

-- The last part of `get_current_block`.
unfoldable pub block_part : {F : Type 0} → CompressionFile → BlockReader F → ℕ → Block
block_part z r compressed_size =
    let cp_begin =
      if r.idx == r.original_begin_idx then get_inblock_offset z r.original_offset r.idx else 0 in
    let cp_end =
      if suc r.idx == r.end_idx then get_inblock_offset z r.last r.idx + 1 else raw_size z r.idx in
    record {
      compressed_size = compressed_size;
      cp_begin = cp_begin;
      cp_len = size_sub cp_end cp_begin;
    }

-- From the offset in the buffer and the length of the block, with its checksum.
abbrev pub current_block :
    {F : Type 0}
    → CompressionFile
    → BlockReader F
    → Option ℕ
    → Option ℕ
    → Option (BlockReader F × Option Block)
current_block z r none len = none
current_block z r (some offset) none = none
current_block z r (some offset) (some len) =
    let compressed_size = size_sub len (checksum_size z) in
    if leb max_read_size offset || ltb max_read_size (offset + compressed_size)
    then some (record r { buf_offset = offset; eno = some erange }, none)
    else some (
      record r { buf_offset = offset },
      some (block_part z (record r { buf_offset = offset }) compressed_size),
    )

unfoldable pub get_current_block :
    {F : Type 0} → CompressionFile → BlockReader F → Option (BlockReader F × Option Block)
get_current_block z r =
    current_block z r (get_blocks_length z r.begin_idx r.idx)
      (get_blocks_length z r.idx (suc r.idx))

module _ {F : Type 0} (file_pread : F → ℕ → ℕ → Option (List ℕ)) where
  abbrev pub received : BlockReader F → ℕ → Option (List ℕ) → BlockReader F × Bool
  received r read_size none = (record r { eno = some read_error }, false)
  received r read_size (some xs) =
      if length xs == read_size
      then (record r { buf = overwrite r.buf xs }, true)
      else (record r { buf = overwrite r.buf xs; eno = some read_error }, false)

  abbrev pub read_range : BlockReader F → Option ℕ → Option ℕ → Option (BlockReader F × Bool)
  read_range r none len = none
  read_range r (some offset) none = none
  read_range r (some offset) (some len) =
      some (received r (min max_read_size len) (file_pread r.file (min max_read_size len) offset))

  unfoldable pub read_blocks :
      CompressionFile → BlockReader F → ℕ → ℕ → Option (BlockReader F × Bool)
  read_blocks z r begin end =
      read_range r (at_index z.jump_table begin) (get_blocks_length z begin end)

  -- `iterator(this)` after `read_blocks`.
  abbrev pub first_block :
      CompressionFile → Option (BlockReader F × Bool) → Option (BlockReader F × Option Block)
  first_block z none = none
  first_block z (some (r, false)) = some (r, none)
  first_block z (some (r, true)) = get_current_block z r

  -- `begin()`
  unfoldable pub begin_block :
      CompressionFile → BlockReader F → Option (BlockReader F × Option Block)
  begin_block z r = first_block z (read_blocks z r r.idx r.end_idx)

  -- The buffer was filled again, from the block on.
  abbrev pub refilled :
      CompressionFile → Option (BlockReader F × Bool) → Option (BlockReader F × Option Block)
  refilled z none = none
  refilled z (some (r, false)) = some (r, none)
  refilled z (some (r, true)) = get_current_block z (record r { begin_idx = r.idx })

  -- `buf_exceed(m_idx)`, from the length up to the end of the block.
  abbrev pub within_buf :
      CompressionFile → BlockReader F → Option ℕ → Option (BlockReader F × Option Block)
  within_buf z r none = none
  within_buf z r (some len) =
      if ltb max_read_size len
      then refilled z (read_blocks z r r.idx r.end_idx)
      else get_current_block z r

  -- `operator++`
  unfoldable pub next_block :
      CompressionFile → BlockReader F → Option (BlockReader F × Option Block)
  next_block z r =
      let r1 = record r { idx = suc r.idx } in
      if suc r.idx == r.end_idx
      then some (r1, none)
      else within_buf z r1 (get_blocks_length z r1.begin_idx (suc r1.idx))

  module _ (trim : F → ℕ → ℕ → F × Bool) where
    -- The second half of `reload`, over the bytes at `m_buf + m_buf_offset`.
    abbrev pub reloaded : BlockReader F → ℕ → Option (List ℕ) → BlockReader F × Bool
    reloaded r read_size none = (r, false)
    reloaded r read_size (some xs) = (
      record r { buf = take r.buf_offset r.buf ++ overwrite (drop r.buf_offset r.buf) xs },
      length xs == read_size,
    )

    abbrev pub trimmed : BlockReader F → ℕ → ℕ → F × Bool → BlockReader F × Bool
    trimmed r offset len (file, false) = (record r { file = file }, false)
    trimmed r offset len (file, true) =
        reloaded (record r { file = file }) len (file_pread file len offset)

    abbrev pub reload_range : BlockReader F → Option ℕ → Option ℕ → Option (BlockReader F × Bool)
    reload_range r none len = none
    reload_range r (some offset) none = none
    reload_range r (some offset) (some len) = some (trimmed r offset len (trim r.file offset len))

    unfoldable pub reload : CompressionFile → BlockReader F → Option (BlockReader F × Bool)
    reload z r =
        reload_range r (at_index z.jump_table r.idx) (get_blocks_length z r.idx (suc r.idx))
