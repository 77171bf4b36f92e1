-- ===== src/Etcd/Stores.antt =====
-- The etcd store as an implementation of the cluster store's interface.
use opni_monitoring.Core.Types.{Cluster}
use opni_monitoring.Storage.Stores.{ClusterStore}
use opni_monitoring.Etcd.Client.{Client, Codec, Retry}
use opni_monitoring.Etcd.Clusters.{
  create_cluster, delete_cluster, get_cluster, update_cluster, list_clusters,
}
use opni_monitoring.Prelude.{Str}

unfoldable pub etcd_cluster_store :
    (etcd : Client) → Codec Cluster → Str → Retry etcd.State Cluster → ClusterStore etcd.State
etcd_cluster_store etcd json prefix retry = record {
  create_cluster = create_cluster etcd json prefix;
  delete_cluster = delete_cluster etcd json prefix;
  get_cluster = get_cluster etcd json prefix;
  update_cluster = update_cluster etcd json prefix retry;
  list_clusters = list_clusters etcd json prefix;
}
