-- ===== src/Codec.antt =====
-- The codecs of PLC values (src/codec): between bytes and JSON.
pub mod Crates
pub mod Numbers
pub mod Texts
pub mod Registry
pub mod Property
pub mod Block
