-- ===== src/Rules.antt =====
-- pkg/rules.
pub mod Notifier
pub mod Finder
