-- ===== src/Maiter.antt =====
-- src/kernel/kernel.h: the second phase, in which threads iterate over the table.
pub mod Iterate
pub mod Vertex
pub mod Balance
pub mod Arrival
pub mod Transit
pub mod Threads
pub mod Turn
pub mod Load
pub mod Loaded
pub mod Settings
pub mod Job
pub mod Handshake
pub mod Frame
pub mod Round
pub mod Lifetime
