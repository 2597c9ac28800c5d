-- ===== src/Lsmt.antt =====
-- The index of overlaybd's log-structured layers: src/overlaybd/lsmt/index.h and index.cpp.
pub mod Segment
pub mod Examples
pub mod Index
pub mod Index0
pub mod Merge
pub mod Combo
pub mod Foreach
pub mod File
