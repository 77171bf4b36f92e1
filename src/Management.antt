-- ===== src/Management.antt =====
-- The handlers of pkg/management over the storage backend. Of a status error its code is kept.
pub mod Requests
pub mod Tokens
pub mod Clusters
pub mod Roles
pub mod Watch
pub mod Guards
pub mod Edit
