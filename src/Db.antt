-- ===== src/Db.antt =====
-- db: the store of sessions, logs and projects, in its in-memory form.
pub mod Map
pub mod Order
pub mod MemStore
