-- ===== src/Serialization.antt =====
-- The binary serialization of libs/core: buffers, and the serializers of values.
pub mod Bytes
pub mod Swap
pub mod Buffer
pub mod Values
