-- ===== src/Zfile.antt =====
-- overlaybd's ZFile: the FastCDC wrapper, src/overlaybd/zfile/fastcdc_wrapper.cpp, the LZ4 compressor
-- of src/overlaybd/zfile/compressor.cpp, and of src/overlaybd/zfile/zfile.cpp the writers
-- `zfile_compress` and `ZFileBuilder`, the jump table, the opening, the reader and `zfile_decompress`.
pub mod Chunker
pub mod ChunkLoop
pub mod JumpTable
pub mod BlockReader
pub mod Pread
pub mod Decompress
pub mod Builder
pub mod Compressor
pub mod Compress
pub mod Open
mod Tests
