-- ===== src/Store.antt =====
-- The database of dae-wing (db/*.go), and the statements that gorm runs on it.
-- The SQL engine is not part of the repository: it is the interface `Engine` of Store/Engine.antt.
pub mod Engine
pub mod Models
pub mod Exec
pub mod Memory
pub mod Laws
pub mod Frames
pub mod Kept
