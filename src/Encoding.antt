-- ===== src/Encoding.antt =====
-- internal/sim/encoding: run-length encoding of block ids, and what it uses of encoding/binary and
-- encoding/base64.
pub mod Varint
pub mod Base64
pub mod Rle
