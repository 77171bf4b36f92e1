-- ===== src/Management/Clusters.antt =====
-- pkg/management/clusters.go, less WatchClusters.
use opni_monitoring.Prelude.{Option, none, some, List, ok, panicked, Assoc, Str}
use opni_monitoring.Exec.{Exec, lift, fail, ◌>>◌}
use opni_monitoring.Core.Types.{Reference, Cluster, set_cluster_labels}
use opni_monitoring.Core.Validate.{validate_reference}
use opni_monitoring.Storage.Stores.{ClusterStore}
use opni_monitoring.Storage.Mutators.{Mutator}
use opni_monitoring.Management.Requests.{
  ListClustersRequest, EditClusterRequest, validate_list_clusters, validate_edit_cluster,
}

-- The mutator of EditCluster.
unfoldable pub edit_labels : Assoc Str → Mutator Cluster
unfolding set_cluster_labels
edit_labels labels cluster = ok (set_cluster_labels labels cluster)

module _ {State : Type 0} (store : ClusterStore State) where
  unfoldable pub list_clusters : ListClustersRequest → Exec State (List Cluster)
  list_clusters in' = do
    lift (validate_list_clusters in')
    store.list_clusters in'.match_labels in'.match_options

  unfoldable pub delete_cluster : Reference → Exec State (Unit {0})
  delete_cluster ref = do lift (validate_reference ref); store.delete_cluster ref

  unfoldable pub get_cluster : Reference → Exec State Cluster
  get_cluster ref = do lift (validate_reference ref); store.get_cluster ref

  -- UpdateCluster of in.GetCluster(); the stores dereference it.
  unfoldable pub edit_found : Option Reference → Mutator Cluster → Exec State Cluster
  edit_found none mutator = fail panicked
  edit_found (some ref) mutator = store.update_cluster ref mutator

  unfoldable pub edit_cluster : EditClusterRequest → Exec State Cluster
  unfolding edit_found edit_labels
  edit_cluster in' = do
    lift (validate_edit_cluster in')
    edit_found in'.cluster (edit_labels in'.labels)
