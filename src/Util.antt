-- ===== src/Util.antt =====
-- The utilities of src/util.
pub mod StringPiece
pub mod Splitting
pub mod Stripping
pub mod Config
pub mod Trimming
pub mod Options
pub mod Sharding
pub mod Hash
pub mod Marshal
pub mod Tuple
pub mod Histogram
pub mod Stats
pub mod Search
pub mod Registry
pub mod SpinLock
pub mod Proc
pub mod Timer
