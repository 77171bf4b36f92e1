-- ===== src/Storage.antt =====
-- pkg/storage: selection of clusters, mutators, taints, and the RBAC provider.
pub mod Selection
pub mod Mutators
pub mod Rbac
pub mod Stores
pub mod Composite
