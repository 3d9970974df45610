-- ===== src/Codec.antt =====
-- shared/sih_shared/codec.py: the canonical binary encoding.
pub mod Digits
pub mod Utf8
pub mod Encoder
pub mod Text
pub mod KeyFile
pub mod Decoder
pub mod Mirrors
pub mod Sizes
