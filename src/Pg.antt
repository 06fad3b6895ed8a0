-- ===== src/Pg.antt =====
-- The PostgreSQL side: the connection string and discovery of internal/pg/pg.go (Connection), the copy of
-- internal/pg/copy.go (Copy), and the write-set source of internal/pg/capture.go (Capture, its start and
-- its windows).
pub mod Connection
pub mod Capture
pub mod Windows
pub mod Start
pub mod Copy
