-- ===== src/StateTable.antt =====
-- src/kernel/statetable.h: the hash table of vertex states, with open addressing by linear probing.
pub mod Defs
pub mod Access
pub mod Put
pub mod Probe
pub mod Walk
pub mod Invariant
pub mod Room
pub mod Insert
pub mod Overwrite
pub mod Latest
pub mod Resize
pub mod Grow
pub mod Total
pub mod Lookup
pub mod Update
