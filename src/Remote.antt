-- ===== src/Remote.antt =====
-- remote/: the byte streams between a server and its remote agents.
pub mod Bytes
pub mod Outbox
pub mod Inbuf
pub mod Link
pub mod Wire
