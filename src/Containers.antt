-- ===== src/Containers.antt =====
-- The containers of libs/core.
pub mod NamedIndexes
