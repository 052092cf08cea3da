-- ===== src/Helpers.antt =====
-- acp/helpers: buffers that turn a stream of text fragments into lines, code blocks and tables.
pub mod Table
pub mod LineBuffer
pub mod BlockBuffer
