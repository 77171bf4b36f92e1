-- ===== src/Auth.antt =====
-- pkg/auth: the middleware that authenticates clusters.
pub mod Cluster
pub mod Registry
