-- ===== src/Ocf.antt =====
-- Of the block cache engine that overlaybd builds from src/overlaybd/cache/ocf_cache/ocf/src (the
-- target `ocf_lib`), the locks.
pub mod Alock
pub mod AsyncLock
