-- ===== src/Seed.antt =====
-- The seeding of internal/seed/seed.go: `RunPairs`, `Run`, `copySchema`, `copyTable`, the marker and
-- `Discover`. The source database answers queries; the target executes statements over a state.
pub mod Tables
pub mod Batches
pub mod Pairs
pub mod Sums
pub mod Discovery
