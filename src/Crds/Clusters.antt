-- ===== src/Crds/Clusters.antt =====
-- pkg/storage/crds/cluster_store.go.
use opni_monitoring.Prelude.{Option, List, ℕ, [], ◌∷◌, if◌then◌else◌}
use opni_monitoring.Exec.{Exec, pure, ◌>>=◌}
use opni_monitoring.Core.Types.{Reference, Cluster, LabelSelector, cluster_labels}
use opni_monitoring.Storage.Selection.{ClusterSelector, predicate}
use opni_monitoring.Storage.Mutators.{Mutator}
use opni_monitoring.Etcd.Client.{Retry}
use opni_monitoring.Crds.Objects.{Object, Resource, new_object, get_object, update_object}

-- The loop of ListClusters.
unfoldable pub select_clusters : ClusterSelector → List (Object Cluster) → List Cluster
select_clusters selector [] = []
select_clusters selector (item ∷ items) =
    let rest = select_clusters selector items in
    if predicate selector item.spec then item.spec ∷ rest else rest

module _ {State : Type 0} (clusters : Resource State Cluster) where
  open clusters use {create, list, delete}

  unfoldable pub create_cluster : Cluster → Exec State (Unit {0})
  unfolding cluster_labels
  create_cluster cluster = create (new_object cluster.id (cluster_labels cluster) cluster)

  -- The error is not translated.
  unfoldable pub delete_cluster : Reference → Exec State (Unit {0})
  delete_cluster ref = delete ref.id

  unfoldable pub get_cluster : Reference → Exec State Cluster
  unfolding get_object
  get_cluster ref = do cluster ← get_object clusters ref.id; pure cluster.spec

  unfoldable pub update_cluster :
      Retry State Cluster → Reference → Mutator Cluster → Exec State Cluster
  unfolding update_object
  update_cluster retry ref mutator = update_object clusters retry ref.id mutator

  unfoldable pub list_clusters : Option LabelSelector → ℕ → Exec State (List Cluster)
  unfolding select_clusters
  list_clusters match_labels match_options = do
    items ← list
    pure (
        select_clusters
          (record {
            cluster_ids = [];
            label_selector = match_labels;
            match_options = match_options;
          })
          items)
