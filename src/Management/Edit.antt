-- ===== src/Management/Edit.antt =====
-- EditCluster over the etcd store: the labels are replaced, and nothing else is.
use opni_monitoring.Prelude.{
  Str, Assoc, Option, none, some, Result, ok, ok_injective, ◌≡◌, refl, sym, ap,
}
use mathlib.Core.Path.{subst}
use opni_monitoring.Exec.{bind_ok}
use opni_monitoring.Core.Types.{
  Reference, Cluster, cluster_labels, cluster_capabilities, set_cluster_labels,
}
use opni_monitoring.Etcd.Client.{Client, IsEtcd, Codec, IsCodec, Retry, IsRetry}
use opni_monitoring.Etcd.Clusters.Update.{Swapped, update_cluster_swaps}
use opni_monitoring.Etcd.Stores.{etcd_cluster_store}
use opni_monitoring.Management.Requests.{EditClusterRequest, validate_edit_cluster}
use opni_monitoring.Management.Clusters.{edit_labels, edit_found, edit_cluster}

edited :
    (labels : Assoc Str) (c c' : Cluster)
    → edit_labels labels c ≡ ok c'
    → (cluster_labels c' ≡ labels)
      × (cluster_capabilities c' ≡ cluster_capabilities c)
      × (c'.id ≡ c.id)
unfolding edit_labels set_cluster_labels cluster_labels cluster_capabilities
edited labels c c' h =
    subst
      (λ (d : Cluster).
        (cluster_labels d ≡ labels)
        × (cluster_capabilities d ≡ cluster_capabilities c)
        × (d.id ≡ c.id))
      (ok_injective h) (refl, refl, refl)

module _ (etcd : Client) (laws : IsEtcd etcd) (json : Codec Cluster) (codec : IsCodec json)
    (prefix : Str) (retry : Retry etcd.State Cluster) (r : IsRetry retry) where
  open etcd use {State}

  -- If EditCluster succeeds, its request named a cluster, and there is a state from which one
  -- attempt of UpdateCluster ends with the result and in the state of the whole call. That attempt
  -- replaced the cluster that it read by one with the request's labels and otherwise the id and
  -- the capabilities that were read, when in the state that the read left the stored version was
  -- still the one read; that cluster is returned.
  pub edit_cluster-swaps :
      (in' : EditClusterRequest) (s : State) (c' : Cluster)
      → (edit_cluster (etcd_cluster_store etcd json prefix retry) in' s).0 ≡ ok c'
      → (ref : Reference) × (start : State) × (w : Swapped etcd laws json codec prefix ref.id
          (edit_labels in'.labels)
          start
          (edit_cluster (etcd_cluster_store etcd json prefix retry) in' s).1
          c')
        × (in'.cluster ≡ some ref)
        × (cluster_labels c' ≡ in'.labels)
        × (cluster_capabilities c' ≡ cluster_capabilities w.before)
        × (c'.id ≡ w.before.id)
  unfolding edit_cluster edit_found etcd_cluster_store
  edit_cluster-swaps in' s c' h =
      let (u, valid, run, rest) =
        bind_ok (λ (t : State). (validate_edit_cluster in', t))
          (λ _.
            edit_found (etcd_cluster_store etcd json prefix retry) in'.cluster
              (edit_labels in'.labels))
          s h in
      found in'.cluster s rest refl (ap (λ (p : Result Cluster × State). p.1) (sym run))
    where
      found :
          (o : Option Reference) (t : State)
          → (edit_found (etcd_cluster_store etcd json prefix retry) o (edit_labels in'.labels) t).0
            ≡ ok c'
          → in'.cluster ≡ o
          → {finish : State}
          → (edit_found (etcd_cluster_store etcd json prefix retry) o (edit_labels in'.labels) t).1
            ≡ finish
          → (ref : Reference) × (start : State) × (w : Swapped etcd laws json codec prefix ref.id
              (edit_labels in'.labels)
              start
              finish
              c')
            × (in'.cluster ≡ some ref)
            × (cluster_labels c' ≡ in'.labels)
            × (cluster_capabilities c' ≡ cluster_capabilities w.before)
            × (c'.id ≡ w.before.id)
      found none t e named fin = cc
      found (some ref) t e named fin =
          let (start, w) =
            update_cluster_swaps etcd laws json codec prefix retry r ref (edit_labels in'.labels) t
              c' e in
          let w' =
            subst
              (λ f. Swapped etcd laws json codec prefix ref.id (edit_labels in'.labels) start f c')
              fin w in
          let (labels, capabilities, id) = edited in'.labels w'.before c' w'.changed in
          (ref, start, w', named, labels, capabilities, id)
