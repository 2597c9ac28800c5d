-- ===== src/Zfile/Open/Checked.antt =====
-- What has been checked of a zfile that `zfile_open_ro` of src/overlaybd/zfile/zfile.cpp opens.
use dadi_fast_cdc.Prelude.{ℕ, ◌+◌, ◌*◌, ◌≡◌, Option, some, Bool, true}
use dadi_fast_cdc.Prelude.{List, length}
use dadi_fast_cdc.Zfile.JumpTable.{JumpTable}
use dadi_fast_cdc.Zfile.BlockReader.{CompressionFile}
use dadi_fast_cdc.Zfile.Builder.{HeaderTrailer}
use dadi_fast_cdc.Zfile.Compress.{Options}
use dadi_fast_cdc.Zfile.Open.{Disk, words, load_jump_table, load_again}
use dadi_fast_cdc.Zfile.Open.Loaded.{Checked}

module _ {F : Type 0} (disk : Disk F) where
  abbrev load : ℕ → Bool → F → Option (F × Options × HeaderTrailer × JumpTable)
  load = load_again disk

  abbrev here : F → Option (Options × HeaderTrailer × JumpTable)
  here = load_jump_table disk

  -- The sizes of the blocks are the words of the file behind the index.
  abbrev pub Sizes : F → HeaderTrailer → List ℕ → Type 0
  Sizes file ht sizes =
      (buf : List ℕ) × (disk.file_pread file (ht.index_size * 4)
          (ht.index_offset + ht.index_size * 4)
        ≡ some buf)
      × (length buf ≡ ht.index_size * 4)
      × (sizes ≡ words buf)
      × (length sizes ≡ ht.index_size)

  -- What is opened has been checked, and takes its options from the header or trailer.
  abbrev pub Opened : F → CompressionFile → Type 0
  Opened file z =
      (o : Options) × (ht : HeaderTrailer) × Checked disk file o ht z.jump_table
      × (z.block_size ≡ o.block_size)
      × (z.verify ≡ o.verify)
      × (z.fastcdc ≡ o.is_fastcdc)
      × (z.original_file_size ≡ ht.original_file_size)
      × (o.is_fastcdc ≡ true → Sizes file ht z.raw_block_sizes)
