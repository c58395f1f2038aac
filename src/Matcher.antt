-- ===== src/Matcher.antt =====
-- rustmatch/src/api.rs: the builder, the partitions of its patterns and the scan over all of them.
pub mod Builder
pub mod Partitions
pub mod Workers
pub mod Registered
pub mod Balanced
pub mod Merged
pub mod Joined
pub mod Delivered
