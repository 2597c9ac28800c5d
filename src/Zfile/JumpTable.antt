-- ===== src/Zfile/JumpTable.antt =====
-- `CompressionFile::JumpTable` of src/overlaybd/zfile/zfile.cpp: where each compressed block begins,
-- in groups, with an offset of 64 bits for a group and a delta of 16 bits for a block in it.
mod Groups
pub mod Built
pub mod Total
pub mod Deltas
mod Tests
use dadi_fast_cdc.Prelude.{ℕ, suc, ◌+◌, ◌-◌, ◌/◌, ◌%◌, bit_and, Option, none, some, Bool, ◌||◌}
use dadi_fast_cdc.Prelude.{List, [], ◌∷◌, ◌++◌, leb, ◌==◌, if◌then◌else◌, get_elem?, get_or}

pub record JumpTable : Type 0 where
  pub group_size : ℕ
  pub partial_offset : List ℕ
  pub deltas : List ℕ

-- `uinttype_max`, the largest 16-bit number.
abbrev pub uinttype_max : ℕ
uinttype_max = 65535

abbrev pub in_group : Option ℕ → Option ℕ → Option ℕ
in_group none delta = none
in_group (some part) none = none
in_group (some part) (some delta) = some (part + delta)

-- `operator[]`; `none` is a read behind the end of one of the vectors.
unfoldable pub at_index : JumpTable → ℕ → Option ℕ
at_index t idx =
    if bit_and idx (t.group_size - 1) == 0
    then get_elem? t.partial_offset (idx / t.group_size)
    else in_group (get_elem? t.partial_offset (idx / t.group_size)) (get_elem? t.deltas idx)

-- What `build` comes to: a table, `EIO`, `ERANGE`, or the division by zero of a block size that is 0
-- or more than 65536.
pub data Build : Type 0 where
  built : JumpTable → Build
  eio erange division_by_zero : Build

-- `sizeof(uint32_t)` with a checksum behind each block.
abbrev pub crc_size : Bool → ℕ
crc_size enable_crc = if enable_crc then 4 else 0

-- `partial_offset.push_back(raw_offset)` and `deltas.push_back(0)`
abbrev pub push_group : JumpTable → ℕ → JumpTable
push_group t raw_offset = record t {
  partial_offset = t.partial_offset ++ (raw_offset ∷ []);
  deltas = t.deltas ++ (0 ∷ []);
}

-- `deltas[i - 1] + ibuf[i - 1]`
abbrev pub delta_after : JumpTable → ℕ → ℕ → ℕ
delta_after t i len = get_or t.deltas (i - 1) 0 + len

abbrev pub push_delta : JumpTable → ℕ → ℕ → JumpTable
push_delta t i len = record t { deltas = t.deltas ++ (delta_after t i len ∷ []) }

-- The loop of `build` from round `i`, with what is left of `ibuf`.
unfoldable pub build_from : Bool → List ℕ → ℕ → ℕ → JumpTable → Build
build_from enable_crc [] i raw_offset t = built t
build_from enable_crc (len ∷ ibuf) i raw_offset t =
    let offset = raw_offset + len in
    let grouped = build_from enable_crc ibuf (suc i) offset (push_group t offset) in
    let inside = build_from enable_crc ibuf (suc i) offset (push_delta t i len) in
    if leb len (crc_size enable_crc)
    then eio
    else if i % t.group_size == 0
    then grouped
    else if leb uinttype_max (delta_after t i len)
    then erange
    else inside

abbrev pub empty_table : ℕ → ℕ → JumpTable
empty_table group_size offset_begin = record {
  group_size = group_size;
  partial_offset = offset_begin ∷ [];
  deltas = 0 ∷ [];
}

unfoldable pub build : List ℕ → ℕ → ℕ → Bool → Build
unfolding build_from
build ibuf offset_begin block_size enable_crc =
    let group_size = (uinttype_max + 1) / block_size in
    if block_size == 0 || group_size == 0
    then division_by_zero
    else build_from enable_crc ibuf 1 offset_begin (empty_table group_size offset_begin)
