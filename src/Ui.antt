-- ===== src/Ui.antt =====
-- The dashboard of internal/ui: the registry of agents, the replay it runs, its settings, the lists of runs
-- and recordings, and the seeding.
pub mod Registry
pub mod Replaying
pub mod Settings
pub mod Listing
pub mod Seeding
