-- ===== src/Sniff.antt =====
-- The passive capture of internal/sniff: sniff.go, and the packet sources of sources.go.
pub mod Sources
pub mod Pairing
pub mod Output
