-- ===== src/Etcd.antt =====
-- pkg/storage/etcd: the stores over an etcd client. The client, the protojson codec and
-- retry.OnError are code outside the repository, so they are parameters.
pub mod Client
pub mod Clusters
pub mod Tokens
pub mod Roles
pub mod KeyValues
pub mod Keys
pub mod Stores
