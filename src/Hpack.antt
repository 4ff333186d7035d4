-- ===== src/Hpack.antt =====
-- lib/hpack: header compression (RFC 7541).
pub mod Integer
pub mod DynamicTable
pub mod Huffman
pub mod StaticTable
pub mod Command
pub mod HpackTable
pub mod Bitstream
pub mod EncoderStream
pub mod HpackString
pub mod HeaderField
pub mod Decoder
pub mod IndexedTable
pub mod Encoder
