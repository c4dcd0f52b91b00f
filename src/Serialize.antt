-- ===== src/Serialize.antt =====
-- serialize/: the mVRL packet stream, written by the Serializer and read by the Deserializer.
pub mod Format
pub mod Serializer
pub mod Deserializer
