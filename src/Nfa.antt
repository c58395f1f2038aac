-- ===== src/Nfa.antt =====
-- rustmatch/src/nfa.rs: the compiler from expressions to one shared automaton.
pub mod Builder
pub mod Compile
pub mod Paths
pub mod Growth
pub mod Labels
pub mod Fragment
pub mod Combine
pub mod Counting
pub mod Repeat
pub mod Unbounded
pub mod Safety
pub mod Correct
pub mod Database
pub mod Layout
pub mod Accepts
pub mod Sound
pub mod Ordinals
pub mod Plain
pub mod Shared
