-- ===== src/Hpack.antt =====
-- HPACK, the header compression of HTTP/2 (src/hpack.h, src/vtc_h2_priv.h, src/vtc_h2_hpack.c,
-- src/vtc_h2_tbl.c).
pub mod Types
pub mod CodingTable
pub mod Huffman
pub mod HuffDecode
pub mod Header
pub mod Str
pub mod Num
pub mod Static
pub mod Table
