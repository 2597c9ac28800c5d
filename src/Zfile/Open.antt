-- ===== src/Zfile/Open.antt =====
-- `load_jump_table` and `zfile_open_ro` of src/overlaybd/zfile/zfile.cpp. The file below is a
-- parameter: `file_pread file n offset`, which may give fewer bytes, `none` for an error; the size
-- that `fstat` gives; and `evict`, `fallocate(0, 0, -1)`. So are what is in the 512 bytes of a header
-- or trailer, `unpack`, and whether its magic and its digest are right. The parts of the index, which
-- threads read, are read one after another: they do not overlap, and each must succeed. A file that
-- cannot be opened is `none`. The size of the index in bytes is not cut to 64 bits: an array of so
-- many cannot be had.
pub mod Parts
pub mod Laid
pub mod Inversion
pub mod Pieces
pub mod Loaded
pub mod Checked
mod Tests
use dadi_fast_cdc.Prelude.{
  ℕ, zero, suc, ◌+◌, ◌-◌, ◌*◌, ◌^◌, min, Option, none, some, Bool, true, false,
}
use dadi_fast_cdc.Prelude.{List, [], ◌∷◌, ◌++◌, ltb, ◌==◌, ◌&&◌, not, if◌then◌else◌, length}
use dadi_fast_cdc.Zfile.JumpTable.{JumpTable, Build, built, build}
use dadi_fast_cdc.Zfile.BlockReader.{CompressionFile, size_sub}
use dadi_fast_cdc.Zfile.Pread.{little_endian}
use dadi_fast_cdc.Zfile.Builder.{HeaderTrailer, space}
use dadi_fast_cdc.Zfile.Compress.{Options}

infixl 5 ◌>>=◌ ◌>>◌
abbrev pub ◌>>=◌ {ℓ κ} : {A : Type ℓ} {B : Type κ} → Option A → (A → Option B) → Option B
none >>= f = none
some a >>= f = f a

abbrev pub ◌>>◌ {ℓ} : {B : Type ℓ} → Option (Unit {0}) → Option B → Option B
m >> k = m >>= λ _. k

abbrev pub guard : Bool → Option (Unit {0})
guard true = some tt
guard false = none

-- An array of `uint32_t` from its bytes.
abbrev pub words : List ℕ → List ℕ
words (a ∷ (b ∷ (c ∷ (d ∷ rest)))) = little_endian (a ∷ (b ∷ (c ∷ (d ∷ [])))) ∷ words rest
words _ = []

-- `delta`, the bytes of the index that a thread reads.
abbrev pub chunk_bytes : ℕ
chunk_bytes = 2 ^ 20

abbrev pub table_of : Build → Option JumpTable
table_of (built t) = some t
table_of _ = none

-- The checksum and the file below, with what its headers say.
pub record Disk (F : Type 0) : Type 0 where
  pub crc32c : List ℕ → ℕ
  pub file_pread : F → ℕ → ℕ → Option (List ℕ)
  pub file_size : F → Option ℕ
  pub verify_magic : List ℕ → Bool
  pub is_valid : List ℕ → Bool
  pub unpack : List ℕ → Options × HeaderTrailer
  pub evict : F → F × Bool

module _ {F : Type 0} (disk : Disk F) where
  -- The 512 bytes at an offset.
  unfoldable pub read_header : F → ℕ → Option (List ℕ)
  read_header file offset = do
    buf ← disk.file_pread file space offset
    guard (not (ltb (length buf) space))
    some buf

  unfoldable pub read_chunk : F → ℕ → ℕ → Option (List ℕ)
  read_chunk file offset size = do
    buf ← disk.file_pread file size offset
    guard (length buf == size)
    some buf

  -- The index, on fuel: from `offset` on, of `index_bytes`.
  unfoldable pub read_index : ℕ → F → ℕ → ℕ → ℕ → Option (List ℕ)
  read_index zero file index_offset index_bytes offset = none
  read_index (suc fuel) file index_offset index_bytes offset =
      let rest = read_index fuel file index_offset index_bytes (offset + chunk_bytes) in
      if ltb offset index_bytes
      then (do
        buf ← read_chunk file (index_offset + offset) (min (index_bytes - offset) chunk_bytes)
        more ← rest
        some (buf ++ more))
      else some []

  -- The trailer, where the header was not written again.
  unfoldable pub read_trailer : F → HeaderTrailer → Option (Options × HeaderTrailer)
  read_trailer file ht = do
    size ← disk.file_size file
    guard ht.data_file
    let trailer_offset = size_sub size space
    buf ← read_header file trailer_offset
    let t = (disk.unpack buf).1
    guard (disk.verify_magic buf && not t.header && t.data_file && t.sealed)
    guard (not (ltb (size_sub trailer_offset t.index_offset) (t.index_size * 4)))
    some (disk.unpack buf)

  -- From the header or the trailer on.
  unfoldable pub load_index :
      F → Options × HeaderTrailer → Option (Options × HeaderTrailer × JumpTable)
  load_index file (o, ht) = do
    ibuf ← read_index (suc (ht.index_size * 4)) file ht.index_offset (ht.index_size * 4) 0
    guard (if ht.digest_enabled then disk.crc32c ibuf == ht.index_crc else true)
    t ← table_of (build (words ibuf) (space + o.dict_size) o.block_size o.verify)
    some (o, ht, t)

  unfoldable pub load_jump_table : F → Option (Options × HeaderTrailer × JumpTable)
  load_jump_table file = do
    buf ← read_header file 0
    guard (disk.verify_magic buf && (disk.unpack buf).1.header)
    guard (disk.is_valid buf)
    _ ← disk.file_size file
    pht ←
        (if (disk.unpack buf).1.header_overwrite
          then some (disk.unpack buf)
          else read_trailer file (disk.unpack buf).1)
    load_index file pht

  abbrev pub loaded_or :
      F
      → Option (Options × HeaderTrailer × JumpTable)
      → Option (F × Options × HeaderTrailer × JumpTable)
      → Option (F × Options × HeaderTrailer × JumpTable)
  loaded_or file none other = other
  loaded_or file (some (o, ht, t)) other = some (file, o, ht, t)

  -- From `again:` on, with `retry` left.
  unfoldable pub load_again : ℕ → Bool → F → Option (F × Options × HeaderTrailer × JumpTable)
  load_again zero verify file = loaded_or file (load_jump_table file) none
  load_again (suc retry) verify file =
      let p = disk.evict file in
      let again = load_again retry verify (p.0) in
      loaded_or file (load_jump_table file) (if verify && p.1 then again else none)

  -- The sizes of the blocks, which a FastCDC file has behind the index.
  unfoldable pub load_sizes : F → Options → HeaderTrailer → Option (List ℕ)
  load_sizes file o ht =
      if o.is_fastcdc
      then (do
        buf ← read_chunk file (ht.index_offset + ht.index_size * 4) (ht.index_size * 4)
        some (words buf))
      else some []

  -- `verify` has no effect on the file that is opened.
  unfoldable pub zfile_open_ro : Bool → F → Option (F × CompressionFile)
  zfile_open_ro verify file = do
    (file1, o, ht, t) ← load_again 2 verify file
    sizes ← load_sizes file1 o ht
    some (
      file1,
      record {
        jump_table = t;
        raw_block_sizes = sizes;
        fastcdc = o.is_fastcdc;
        block_size = o.block_size;
        verify = o.verify;
        original_file_size = ht.original_file_size;
        valid = 1;
      },
    )
