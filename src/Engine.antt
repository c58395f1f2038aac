-- ===== src/Engine.antt =====
-- rustmatch/src/engine.rs: the scanners.
pub mod Closure
pub mod Flags
pub mod Reach
pub mod Step
pub mod Walks
pub mod Front
pub mod Recorded
pub mod Longest
pub mod Correct
pub mod Cache
pub mod CachedScan
pub mod Coherent
pub mod Learn
pub mod Moves
pub mod CachedRun
pub mod Events
pub mod Sorted
pub mod Dispatch
pub mod Plain
pub mod Report
pub mod Exact
pub mod Filtered
pub mod Skipped
pub mod Answers
pub mod Scan
