-- ===== src/Examples/Store.antt =====
-- An etcd with one client and no failures, and the cluster store upon it.
use opni_monitoring.Prelude.{
  ℕ, suc, Str, str_eq, str_eq_refl, codes, Assoc, lookup, insert, remove, has_key, lookup-insert,
  lookup-remove, Option, none, some, Bool, true, false, List, [], ◌∷◌, ◌==◌, if◌then◌else◌, Result,
  ok, err, not_found, other, ◌≡◌, ◌≢◌, refl, ap, arith,
}
use opni_monitoring.Exec.{Exec}
use opni_monitoring.GoLib.Path.{join}
use opni_monitoring.GoLib.Split.{split_on}
use opni_monitoring.GoLib.Text.{has_prefix}
use opni_monitoring.Validation.{validate_id}
use opni_monitoring.Core.Types.{Cluster, ClusterMetadata, cluster_reference}
use opni_monitoring.Storage.Selection.{ClusterSelector}
use opni_monitoring.Etcd.Client.{
  Client, IsEtcd, KeyValue, Codec, IsCodec, Retry, IsRetry, object_key, kind_key, clusters_kind,
}
use opni_monitoring.Etcd.Keys.{object_key_injective}
use opni_monitoring.Etcd.Clusters.{
  cluster_key, create_cluster, delete_cluster, get_cluster, update_cluster,
}
use opni_monitoring.Etcd.Clusters.Laws.{
  stored, delete_result, get-create_cluster, delete_cluster_lem,
}
use opni_monitoring.Etcd.Clusters.Update.{Swapped, update_cluster_swaps}

object_key_injective_example :
    (codes "edge-1" ≡ codes "edge-1")
    × (has_prefix
          (object_key (codes "/opni") clusters_kind (codes "edge-1"))
          (kind_key (codes "/opni") clusters_kind)
        ≡ true)
unfolding str_eq validate_id
object_key_injective_example =
    object_key_injective (codes "/opni") clusters_kind (codes "edge-1") (codes "edge-1") refl refl
      refl refl

-- Versions are kept less one, so that each that is seen is positive.
abbrev pub seen : KeyValue → KeyValue
seen kv = record kv { version = suc kv.version }

abbrev pub seen_at : Option KeyValue → Option KeyValue
seen_at none = none
seen_at (some kv) = some (seen kv)

abbrev pub next_version : Option KeyValue → ℕ
next_version none = 0
next_version (some kv) = suc kv.version

abbrev entries_under : Str → Assoc KeyValue → List KeyValue
entries_under prefix [] = []
entries_under prefix ((k, kv) ∷ m) =
    let rest = entries_under prefix m in if has_prefix k prefix then seen kv ∷ rest else rest

abbrev pub written : Str → Str → ℕ → ℕ → KeyValue
written k v version lease = record { key = k; value = v; version = version; lease = lease }

abbrev commit_at : Option KeyValue → Str → ℕ → Str → Bool → Exec (Assoc KeyValue) Bool
commit_at none k n v keep s = (ok false, s)
commit_at (some old) k n v keep s =
    if suc old.version == n
    then (ok true, insert k (written k v (suc old.version) (if keep then old.lease else 0)) s)
    else (ok false, s)

abbrev pub etcd : Client
etcd = record {
  State = Assoc KeyValue;
  get = λ k s. (ok (seen_at (lookup k s)), s);
  get_prefix = λ p s. (ok (entries_under p s), s);
  put = λ k v l s. (ok tt, insert k (written k v (next_version (lookup k s)) l) s);
  delete = λ k s. (ok (if has_key k s then 1 else 0), remove k s);
  commit = λ k n v keep s. commit_at (lookup k s) k n v keep s;
  grant = λ n s. (ok n, s);
  revoke = λ n s. (ok tt, s);
  time_to_live = λ n s. (ok n, s);
}

seen_version : (o : Option KeyValue) (kv : KeyValue) → seen_at o ≡ some kv → kv.version ≢ 0
seen_version none kv h = cc
seen_version (some old) kv h = λ e. ground arith

commit_at_compares :
    (o : Option KeyValue) (k : Str) (n : ℕ) (v : Str) (keep : Bool) (s : Assoc KeyValue)
    → lookup k s ≡ o
    → (commit_at o k n v keep s).0 ≡ ok true
    → (old new : KeyValue) × (seen_at o ≡ some old)
      × (old.version ≡ n)
      × (seen_at (lookup k (commit_at o k n v keep s).1) ≡ some new)
      × (new.value ≡ v)
      × (new.lease ≡ (if keep then old.lease else 0))
commit_at_compares none k n v keep s e h = cc
commit_at_compares (some old) k n v keep s e h = (
  seen old,
  seen (written k v (suc old.version) (if keep then old.lease else 0)),
  refl,
  ground arith,
  ground (
    arith,
    str_eq_refl k,
    lookup-insert k k (written k v (suc old.version) (if keep then old.lease else 0)) s,
  ),
  refl,
  refl,
)

pub etcd-IsEtcd : IsEtcd etcd
etcd-IsEtcd = record {
  cell = λ s k. seen_at (lookup k s);
  get_reads = λ k s r h. cc;
  version_positive = λ k s kv h. seen_version (lookup k s) kv h;
  put_writes = λ k v l s h. (
    seen (written k v (next_version (lookup k s)) l),
    rw (lookup-insert k k (written k v (next_version (lookup k s)) l) s, str_eq_refl k) refl,
    refl,
    refl,
  );
  put_frame =
      λ k v l s j ne. rw (lookup-insert k j (written k v (next_version (lookup k s)) l) s, ne) refl;
  delete_counts = λ k s n h. deleted k s n h;
  delete_frame = λ k s j ne. rw (lookup-remove k j s, ne) refl;
  commit_compares = λ k n v keep s pos h. commit_at_compares (lookup k s) k n v keep s refl h;
}
  where
    count :
        (o : Option KeyValue) (n : ℕ)
        → ok (if elim o [ none ↦ false | some v ↦ true ] then 1 else 0) ≡ ok n
        → (n ≡ 0 → seen_at o ≡ none) × (seen_at o ≡ none → n ≡ 0)
    count none n h = (λ _. refl, λ _. ground arith)
    count (some kv) n h = (λ e. ground arith, λ e. cc)

    deleted :
        (k : Str) (s : Assoc KeyValue) (n : ℕ)
        → ok (if has_key k s then 1 else 0) ≡ ok n
        → (n ≡ 0 → seen_at (lookup k s) ≡ none)
          × (seen_at (lookup k s) ≡ none → n ≡ 0)
          × (seen_at (lookup k (remove k s)) ≡ none)
    deleted k s n h =
        let (a, b) = count (lookup k s) n h in (a, b, rw (lookup-remove k k s, str_eq_refl k) refl)

-- Clusters without metadata, written as their ids.
abbrev toy_marshal : Cluster → Result Str
toy_marshal c = elim c.metadata [ none ↦ ok c.id | some m ↦ err other ]

abbrev pub json : Codec Cluster
json = record {
  marshal = toy_marshal;
  unmarshal = λ text. ok (record { id = text; metadata = none });
}

pub json-IsCodec : IsCodec json
json-IsCodec = record { reads_back = λ x s h. read_back x.id x.metadata s h }
  where
    read_back :
        (id : Str) (m : Option ClusterMetadata) (s : Str)
        → toy_marshal (record { id = id; metadata = m }) ≡ ok s
        → ◌≡◌ {A = Result Cluster}
            (ok (record { id = s; metadata = none }))
            (ok (record { id = id; metadata = m }))
    read_back id none s h = cc
    read_back id (some m) s h = cc

abbrev pub prefix : Str
prefix = codes "/opni"

abbrev pub edge_1 : Cluster
edge_1 = record { id = codes "edge-1"; metadata = none }

abbrev pub start : Assoc KeyValue
start = []

apart : true ≢ false
apart h = cc

edge_ids_differ : codes "edge-1" ≢ codes "edge-2"
unfolding str_eq
edge_ids_differ h = apart (ap (λ s. str_eq (codes "edge-1") s) h)

-- A retry that gives up after the first call.
abbrev pub once : {S A : Type 0} → Retry S A
once retriable fn = fn

pub once-IsRetry : {S A : Type 0} → IsRetry {S = S} {A = A} once
once-IsRetry = record {
  last_call = λ retriable fn P keep s p. (s, p, refl);
  first_ok = λ retriable fn s a h. refl;
  first_final = λ retriable fn s e h n. refl;
}

abbrev pub created : Assoc KeyValue
created = (create_cluster etcd json prefix edge_1 start).1

abbrev edge_1_key : Str
edge_1_key = cluster_key prefix edge_1.id

get-create_cluster_example :
    ((get_cluster etcd json prefix (cluster_reference edge_1) created).0 ≡ ok edge_1)
    × (stored etcd etcd-IsEtcd json json-IsCodec prefix created (codes "edge-2")
        ≡ stored etcd etcd-IsEtcd json json-IsCodec prefix start (codes "edge-2"))
unfolding str_eq validate_id create_cluster
get-create_cluster_example =
    get-create_cluster etcd etcd-IsEtcd json json-IsCodec prefix edge_1 start refl refl
      (seen_at (lookup edge_1_key created)) refl (codes "edge-2") refl edge_ids_differ

delete_cluster_lem_example :
    ((delete_cluster etcd json prefix (cluster_reference edge_1) start).0
      ≡ delete_result (etcd-IsEtcd.cell start edge_1_key))
    × (stored etcd etcd-IsEtcd json json-IsCodec prefix
          (delete_cluster etcd json prefix (cluster_reference edge_1) start).1
          edge_1.id
        ≡ err not_found)
    × (stored etcd etcd-IsEtcd json json-IsCodec prefix
          (delete_cluster etcd json prefix (cluster_reference edge_1) start).1
          (codes "edge-2")
        ≡ stored etcd etcd-IsEtcd json json-IsCodec prefix start (codes "edge-2"))
unfolding str_eq validate_id lookup
delete_cluster_lem_example =
    delete_cluster_lem etcd etcd-IsEtcd json json-IsCodec prefix (cluster_reference edge_1) start 0
      refl refl (codes "edge-2") refl edge_ids_differ

abbrev edge_2 : Cluster
edge_2 = record { id = codes "edge-2"; metadata = none }

update_cluster_swaps_example :
    (s : Assoc KeyValue) × Swapped etcd etcd-IsEtcd json json-IsCodec prefix edge_1.id
      (λ c. ok edge_2)
      s
      (update_cluster etcd json prefix once (cluster_reference edge_1) (λ c. ok edge_2) created).1
      edge_2
unfolding str_eq create_cluster update_cluster cluster_key object_key lookup insert join split_on
update_cluster_swaps_example =
    update_cluster_swaps etcd etcd-IsEtcd json json-IsCodec prefix once once-IsRetry
      (cluster_reference edge_1) (λ c. ok edge_2) created edge_2 refl

abbrev one_id : ClusterSelector
one_id = record { cluster_ids = codes "edge-1" ∷ []; label_selector = none; match_options = 0 }

abbrev listed : List KeyValue
listed = written (codes "a") (codes "edge-1") 1 0 ∷ written (codes "b") (codes "edge-2") 1 0 ∷ []
