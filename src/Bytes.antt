-- ===== src/Bytes.antt =====
-- Bytes and byte buffers: big-endian integers of the standard library, and the interface of the
-- `bytes` and `crc32c` crates, which the sources call and do not contain.
pub mod Endian
pub mod LittleEndian
pub mod Buf
pub mod Cursor
pub mod Fields
pub mod Plain
pub mod Many
pub mod Fueled
pub mod Utf8
