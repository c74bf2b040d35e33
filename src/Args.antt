-- ===== src/Args.antt =====
-- Command line arguments: include/fpag/arg and src/arg.
pub mod Arg
pub mod Command
pub mod Matches
pub mod Session
pub mod Parser
pub mod Entry
pub mod Moves
pub mod Reads
pub mod Accepts
pub mod Steps
pub mod Safety
pub mod Results
pub mod Partial
pub mod Render
pub mod Roundtrip
pub mod Clusters
pub mod Lookup
mod Tests
