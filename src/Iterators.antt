-- ===== src/Iterators.antt =====
-- The iterators of src/kernel/statetable.h: the intervals of the worker threads, the pass over the
-- whole table, and the choice of the buckets to schedule.
pub mod Intervals
pub mod Partition
pub mod Visits
pub mod Results
pub mod SameLines
pub mod Pass
pub mod Cursor
pub mod Termination
pub mod Schedule
pub mod Scheduled
pub mod Sorted
pub mod Cut
