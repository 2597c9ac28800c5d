-- ===== src/Lib.antt =====
-- Verification of the content-defined chunking, of the compressed file format, of the block index and
-- of the locks of the cache of overlaybd.
--
-- The repository holds overlaybd, a block device over layered container images, and with it FastCDC-c
-- (overlaybd/FastCDC-c), which cuts data into chunks where its content says so. zfile, overlaybd's
-- compressed file format (overlaybd/src/overlaybd/zfile), calls FastCDC through a wrapper and hands
-- the chunks to a compressor in batches; ZFileBuilder writes the same format from a stream of writes. A
-- zfile is read through a jump table of its compressed blocks. overlaybd's cache runs on a cache engine
-- that is kept in the tree (overlaybd/src/overlaybd/cache/ocf_cache/ocf/src), whose requests lock the
-- lines of the cache, and whose management takes the cache's asynchronous lock.
-- LSMT (overlaybd/src/overlaybd/lsmt) maps the sectors of the device to places in the layers of an image:
-- the read-only layers have an index each, which are merged into one, and the writable layer has a set
-- of mappings over it.
--
-- Files, and the code that each is about:
--   Prelude            shared names, Boolean tests, arrays as lists and parts of them, bit masks
--   FastCdc/Gear       GEARv2 of FastCDC-c/fastcdc.c
--   FastCdc/Globals    the masks, the global variables and fastCDC_init of fastcdc.c
--   FastCdc/Chunking   cdc_origin_64, rolling_data_2byes_64, normalized_chunking_64 and
--                      normalized_chunking_2byes_64 of fastcdc.c
--   FastCdc/Driver     main of fastcdc.c
--   FastCdc/Fingerprint, FirstCut, TwoBytes, Window, Init
--                      the fingerprint in closed form, and what the functions return
--   Zfile/Chunker      FastCDCChunker of zfile/fastcdc_wrapper.cpp; Bounds: the sizes it returns
--   Zfile/ChunkLoop    the loops of zfile_compress of zfile/zfile.cpp that cut a buffer into chunks
--                      and batches; Tiling: what these cover
--   Zfile/Compressor   BaseCompressor and LZ4Compressor of zfile/compressor.cpp; Laws
--   Zfile/Compress     zfile_compress of zfile/zfile.cpp; Blocks, Batches, Loop, Layout, Written (what it has
--                      written), RoundTrip
--   Zfile/Open         load_jump_table and zfile_open_ro of zfile/zfile.cpp; Parts, Laid (a file as
--                      zfile_compress lays it out), Inversion, Pieces, Loaded, Checked (any file)
--   Zfile/JumpTable    JumpTable of zfile/zfile.cpp; Built, Groups, Total (the places it gives), Deltas (their
--                      16 bits)
--   Zfile/BlockReader  BlockReader of zfile/zfile.cpp: the blocks of a range and the buffer of the reader
--   Zfile/Pread        CompressionFile::pread of zfile/zfile.cpp; Stored, Clip, Parts, Blocks, Copy, Loop (one
--                      block, and all), FastCdc and Fixed (blocks of any size, and of one), Errors,
--                      Verify (checksums and retries)
--   Zfile/Decompress   zfile_decompress and zfile_validation_check of zfile/zfile.cpp; Whole
--   Zfile/Builder      compress_data and ZFileBuilder of zfile/zfile.cpp; Written, Session, Writes, Fini (what it
--                      has stored), Opened, RoundTrip
--   Ocf/AsyncLock      utils/utils_async_lock.c of the engine; Invariant, Fifo
--   Ocf/Alock          utils/utils_alock.c of the engine: Entry (the access word), Waitlist (the lists of
--                      waiters and the hand-over of a lock), Request (the operations on the table),
--                      Lifecycle (the creation and the destruction of the table)
--   Lsmt/Segment       segments and mappings of lsmt/index.h, and trim_edge_mappings of lsmt/index.cpp;
--                      Place: what mappings say of a sector; Trim
--   Lsmt/Index         Index of index.cpp: the lookup, the checks and the compression; Lookup, Compress,
--                      Count
--   Lsmt/Index0        Index0 of index.cpp; Parts, Clear (the room for a new mapping), Insert, RoundTrip
--   Lsmt/Merge         merge_indexes and merge_memory_indexes of index.cpp; Layers, Loop, Refines
--   Lsmt/Combo         ComboIndex of index.cpp; Gaps, Lookup, ReadOnly
--   Lsmt/Foreach       foreach_segments of index.h; Events, Fold, Tiles
--   Lsmt/File          LSMTFile of lsmt/file.cpp: pwrite, discard, fallocate, the buffer of mappings and the
--                      reload of the index; Content, Write (what the sectors hold), Reload, Reopen,
--                      Session (what a reload makes of the index file)
--   Lsmt/File/Pread    pread of lsmt/file.cpp; Read (what it reads), RoundTrip (after a write)
--   Lsmt/Examples      mappings that the tests of Lsmt share
--   Tests              in each part: concrete data and the theorems at it
--
-- How the code is modelled:
--   Bytes and machine words are natural numbers, with the wrap-around of 32 and 64 bits written out. A
--   buffer is the list of the bytes that may be read, and a read outside it is the result none or an
--   own constructor. FastCDC's global variables are a record that its functions take and return. The
--   sizes that the source keeps in an int are natural numbers.
--   The asynchronous lock and the lists of alock are guarded by spinlocks: what runs under one is one
--   function, and the callbacks are a list in the order of their calls. An ENV_BUG_ON is the result
--   none.
--   A mapping keeps the widths of its bit fields: an assignment is reduced to them. The set of Index0 is
--   the list of its elements in order, and an iterator the list from it on. The abstract view of an index
--   is the place that it gives a sector. merge_indexes appends to a vector: a call is the list of what
--   it appends. foreach_segments takes the lookup and the callbacks as arguments. The files of
--   photon under LSMTFile are types of their own with what appending to them does; what is relied on of
--   them are hypotheses (AppendLaws, ReadLaws).
--   The buffers of zfile are lists: what a read or the compressor puts over them is written out, and
--   those that are not initialised are parameters. LZ4, or the compressor of the builder and of the
--   reader, the checksums, the packing of the header and the files are parameters too, with what is
--   relied on of them as hypotheses (IsCode, Stored, Compresses, Takes, Rewrites, Services, Source,
--   Unpacks, ReadsBack); Disk is the file below with what its headers say. A subtraction of size_t
--   wraps around, and the signed range test of pread is made on 64 bits. The error results of the reader
--   are values, and none is a read outside the jump table, or a signed sum that overflows. A batch of
--   more chunks than the compressor has room for in its vectors is none.
--   MD5, fread, malloc, fopen, the allocators and the callbacks that alock's user registers are
--   parameters.
--
-- Fuel: the loops of the chunking functions have as many rounds as bytes or pairs of bytes are left,
-- so that they end as in the source. The chunk loop of zfile gets readn + 1 rounds, since
-- each takes a byte at least and the last only tests the end. main of FastCDC-c takes its number of
-- rounds as an argument. foreach_segments gets a round more than the segment has sectors, since each
-- round but the last takes 16 mappings of one sector at least. pread, pwrite and fallocate get a round more
-- than there are sectors, since each takes one at least. pread of zfile gets a round more than there are
-- blocks, zfile_decompress, the loop of write of the builder and that of zfile_compress a round more than
-- there are bytes. The reads of the index get a round more than it has bytes, for each but the last reads
-- one at least.
--
-- Not modelled: the rest of overlaybd (LSMT's other files, its LevelIndex, ZFileBuilderMP and the
-- ZSTD compressor of zfile, registryfs, gzip, tar, the image service), which is C++ over the photon
-- library; the rest of the cache engine, which is a copy of another project's library (metadata,
-- LRU, reference counters, pipelines, engines, cleaning, management); the accelerated container
-- image, written in Go; the copies of other projects' libraries (LZ4, isa-l, uthash, CLI11);
-- logging, timing and printing.
pub mod Prelude
pub mod FastCdc
pub mod Zfile
pub mod Ocf
pub mod Lsmt
