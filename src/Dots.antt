-- ===== src/Dots.antt =====
-- The package dots: the ranges of time for which a key may read a stream, from the permissions
-- (DOTs) that were granted to it.
mod Tests
pub mod TimeRange
pub mod DisjointRanges
pub mod ArchiveUri
pub mod Chains
pub mod Master
