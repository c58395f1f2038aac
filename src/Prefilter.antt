-- ===== src/Prefilter.antt =====
-- rustmatch/src/prefilter.rs: the candidate starts that are scanned.
pub mod Literal
pub mod Spelling
pub mod Exact
pub mod Necessary
pub mod Begins
pub mod Hint
pub mod Bits
pub mod Filter
pub mod Covers
pub mod Admits
pub mod StartTable
pub mod Closing
pub mod Pairs
pub mod Passes
pub mod Candidates
pub mod Counted
pub mod Plan
pub mod Assembled
pub mod Complete
