-- ===== src/Net.antt =====
-- Byte order and addresses (src/module.h, lines 45-50), shared by all parts.
pub mod ByteOrder
pub mod Address
