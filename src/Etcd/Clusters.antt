-- ===== src/Etcd/Clusters.antt =====
-- pkg/storage/etcd/cluster_store.go.
pub mod Laws
pub mod Update
use opni_monitoring.Prelude.{
  ℕ, Str, Option, none, some, Bool, true, false, List, [], ◌∷◌, ◌==◌, if◌then◌else◌, Result, ok,
  err, Error, not_found, retry_err, keep,
}
use opni_monitoring.Exec.{Exec, pure, fail, lift, ◌>>=◌, ◌>>◌}
use opni_monitoring.Core.Types.{Reference, Cluster, LabelSelector}
use opni_monitoring.Storage.Selection.{ClusterSelector, predicate}
use opni_monitoring.Storage.Mutators.{Mutator}
use opni_monitoring.Etcd.Client.{
  Client, KeyValue, Codec, Retry, is_retry_err, object_key, kind_key, clusters_kind,
}

unfoldable pub cluster_key : Str → Str → Str
cluster_key prefix id = object_key prefix clusters_kind id

-- if !txnResp.Succeeded { return retryErr }
abbrev pub succeeded : {S T : Type 0} → T → Bool → Exec S T
succeeded t true = pure t
succeeded t false = fail retry_err

module _ (json : Codec Cluster) where
  unfoldable pub read_cluster : Option KeyValue → Result (Cluster × ℕ)
  read_cluster none = err not_found
  read_cluster (some kv) = elim (json.unmarshal kv.value) [
    | ok cluster ↦ ok (cluster, kv.version)
    | err e ↦ err e
  ]

  -- The loop of ListClusters; the first value that cannot be read ends it.
  unfoldable pub select_clusters : ClusterSelector → List KeyValue → Result (List Cluster)
  select_clusters selector [] = ok []
  select_clusters selector (kv ∷ kvs) =
      let later = select_clusters selector kvs in
      elim (json.unmarshal kv.value) [
        | err e ↦ err e
        | ok cluster ↦ elim later [
          | err e ↦ err e
          | ok items ↦ ok (if predicate selector cluster then cluster ∷ items else items)
        ]
      ]

module _ (etcd : Client) (json : Codec Cluster) (prefix : Str) where
  open etcd use {State, get, get_prefix, put, delete, commit}

  unfoldable pub create_cluster : Cluster → Exec State (Unit {0})
  create_cluster cluster = do
    data' ← lift (json.marshal cluster)
    put (cluster_key prefix cluster.id) data' 0

  unfoldable pub delete_cluster : Reference → Exec State (Unit {0})
  delete_cluster ref = do
    deleted ← delete (cluster_key prefix ref.id)
    if deleted == 0 then fail not_found else pure tt

  -- getCluster: the cluster and the version that it was read at
  unfoldable pub get_cluster_version : Reference → Exec State (Cluster × ℕ)
  unfolding read_cluster
  get_cluster_version ref = do
    found ← get (cluster_key prefix ref.id)
    lift (read_cluster json found)

  unfoldable pub get_cluster : Reference → Exec State Cluster
  unfolding get_cluster_version
  get_cluster ref = do found ← get_cluster_version ref; pure found.0

  unfoldable pub list_clusters : Option LabelSelector → ℕ → Exec State (List Cluster)
  unfolding select_clusters
  list_clusters match_labels match_options = do
    kvs ← get_prefix (kind_key prefix clusters_kind)
    lift (
        select_clusters json
          (record {
            cluster_ids = [];
            label_selector = match_labels;
            match_options = match_options;
          })
          kvs)

  -- One call of the function that UpdateCluster retries.
  unfoldable pub update_cluster_once : Reference → Mutator Cluster → Exec State Cluster
  unfolding get_cluster_version
  update_cluster_once ref mutator = do
    found ← get_cluster_version ref
    cluster ← lift (mutator found.0)
    data' ← lift (json.marshal cluster)
    done ← commit (cluster_key prefix ref.id) found.1 data' false
    succeeded cluster done

  unfoldable pub update_cluster :
      Retry State Cluster → Reference → Mutator Cluster → Exec State Cluster
  unfolding update_cluster_once
  update_cluster retry ref mutator = retry is_retry_err (update_cluster_once ref mutator)
