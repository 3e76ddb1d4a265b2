-- ===== src/Core.antt =====
-- internal/core: values, rows, changes and column masks.
pub mod Value
pub mod Mask
pub mod Row
pub mod Change
pub mod Key
pub mod Encoding
