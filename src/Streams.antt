-- ===== src/Streams.antt =====
-- What the two sides of a transfer share: a file's chunks are split into streams, each of which holds
-- a range of them.
pub mod Split
