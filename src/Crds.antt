-- ===== src/Crds.antt =====
-- pkg/storage/crds: the stores over the custom resources of a Kubernetes API server.
pub mod Objects
pub mod Clusters
pub mod Roles
pub mod Tokens
pub mod Keyrings
