-- ===== src/Partition.antt =====
-- main.go: `syncPartition`, which copies a partition as a whole. Its parts are in `Partition.Full`,
-- the incremental copies of incremental.go in `Partition.Delta`.
pub mod Full
pub mod Announce
pub mod Order
pub mod Imports
pub mod Delta
