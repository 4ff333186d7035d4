-- ===== src/Utils.antt =====
-- lib/utils: buffers of bytes.
pub mod Buffer
pub mod Streambuf
