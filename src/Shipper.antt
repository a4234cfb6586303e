-- ===== src/Shipper.antt =====
-- pkg/logshipper: an slog.Handler that batches log entries and posts them to the ingest API.
pub mod Entry
pub mod Settings
pub mod Queue
pub mod Handler
