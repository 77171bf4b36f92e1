-- ===== src/Management/Watch.antt =====
-- WatchClusters of pkg/management/clusters.go. The stream is what was sent on it, the newest first;
-- whether it refuses the next event, and in which order a range visits the map of the known
-- clusters after what was sent, are parameters. What the ticks list is a sequence.
pub mod Keys
pub mod View
use opni_monitoring.Prelude.{
  Str, str_eq, Assoc, has_key, insert, remove, Option, none, some, Bool, true, false, List, [], ◌∷◌,
  any, if◌then◌else◌, Result, ok, err, Error, other, panicked,
}
use opni_monitoring.Exec.{Exec, pure, lift, fail, ◌>>=◌, ◌>>◌}
use opni_monitoring.Core.Types.{Reference, Cluster, cluster_reference}
use opni_monitoring.Storage.Stores.{ClusterStore}
use opni_monitoring.Management.Requests.{WatchClustersRequest, validate_watch_clusters}

pub data WatchEvent : Type 0 where
  added deleted : Reference → WatchEvent

-- What the loop keeps: the known clusters by id, and what it sent.
abbrev pub Watching : Type 0
Watching = Assoc Reference × List WatchEvent

-- updatedIds, with the ids of the clusters that were listed
abbrev pub listed_ids : List Cluster → List Str
listed_ids [] = []
listed_ids (c ∷ cs) = c.id ∷ listed_ids cs

abbrev pub is_listed : Str → List Cluster → Bool
is_listed id cs = any (λ x. str_eq x id) (listed_ids cs)

module _ (refuses : List WatchEvent → Bool) where
  -- stream.Send, whose failure ends the call
  unfoldable pub send : WatchEvent → Exec (List WatchEvent) (Unit {0})
  send event sent = if refuses sent then (err other, sent) else (ok tt, event ∷ sent)

  unfoldable pub note_cluster : Cluster → Exec Watching (Unit {0})
  unfolding send
  note_cluster cluster (known, sent) =
      if has_key cluster.id known
      then (ok tt, (known, sent))
      else let (r, sent') = send (added (cluster_reference cluster)) sent in
        (r, (insert cluster.id (cluster_reference cluster) known, sent'))

  -- The loop over the clusters that were listed.
  unfoldable pub note_clusters : List Cluster → Exec Watching (Unit {0})
  unfolding note_cluster
  note_clusters [] = pure tt
  note_clusters (c ∷ cs) = do note_cluster c; note_clusters cs

  unfoldable pub drop_known : List Cluster → Str → Reference → Exec Watching (Unit {0})
  unfolding send
  drop_known cs id cluster (known, sent) =
      if is_listed id cs
      then (ok tt, (known, sent))
      else let (r, sent') = send (deleted cluster) sent in (r, (remove id known, sent'))

  -- The loop over the known clusters; each entry that is there when it starts is visited once.
  unfoldable pub drop_missing : List Cluster → Assoc Reference → Exec Watching (Unit {0})
  unfolding drop_known
  drop_missing cs [] = pure tt
  drop_missing cs ((id, cluster) ∷ entries) = do drop_known cs id cluster; drop_missing cs entries

module _ (refuses : List WatchEvent → Bool)
    (order : List WatchEvent → Assoc Reference → Assoc Reference) where
  unfoldable pub tick : List Cluster → Exec Watching (Unit {0})
  unfolding note_clusters drop_missing
  tick cs = do
    note_clusters refuses cs
    λ (known, sent). drop_missing refuses cs (order sent known) (known, sent)

  -- The ticks so far, each with what ListClusters answered.
  unfoldable pub ticks : List (Result (List Cluster)) → Exec Watching (Unit {0})
  unfolding tick
  ticks [] = pure tt
  ticks (answer ∷ answers) = do cs ← lift answer; tick cs; ticks answers

module _ {State : Type 0} (store : ClusterStore State) where
  -- The loop over KnownClusters.Items.
  unfoldable pub load_known : List Reference → Assoc Reference → Exec State (Assoc Reference)
  load_known [] known = pure known
  load_known (ref ∷ refs) known = do
    store.get_cluster ref
    load_known refs (insert ref.id ref known)

  -- in.KnownClusters.Items, where KnownClusters may be nil
  unfoldable pub load_items : Option (List Reference) → Exec State (Assoc Reference)
  unfolding load_known
  load_items none = fail panicked
  load_items (some refs) = load_known refs []

  -- The part of WatchClusters before its loop.
  unfoldable pub start_watch : WatchClustersRequest → Exec State (Assoc Reference)
  unfolding load_items
  start_watch in' = do lift (validate_watch_clusters in'); load_items in'.known_clusters
