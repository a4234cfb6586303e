-- ===== src/Model.antt =====
-- api/internal/model: the events of the three feeds, their filters and the levels.
pub mod Event
pub mod Unicode
pub mod Filter
pub mod Level
pub mod Cursor
pub mod Query
