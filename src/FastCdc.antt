-- ===== src/FastCdc.antt =====
-- FastCDC-c/fastcdc.c and fastcdc.h: the gear table, the global state, the chunking functions.
pub mod Gear
pub mod Globals
pub mod Chunking
pub mod Fingerprint
pub mod FirstCut
pub mod TwoBytes
pub mod Window
pub mod Init
pub mod Driver
pub mod Tests
