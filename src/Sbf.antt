-- ===== src/Sbf.antt =====
-- main/sbf_parser.c and main/sbf_parser.h: the streaming parser of Septentrio binary blocks.
pub mod Fields
pub mod Crc
pub mod Blocks
pub mod Feed
pub mod Framing
pub mod Labels
