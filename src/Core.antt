-- ===== src/Core.antt =====
-- pkg/core: the messages that the components exchange, how they compare, and their validation.
pub mod Types
pub mod Comparator
pub mod Validate
