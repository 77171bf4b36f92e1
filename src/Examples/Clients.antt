-- ===== src/Examples/Clients.antt =====
-- Objects of the API server, and requests to the management API.
use opni_monitoring.Prelude.{
  ℕ, ◌+◌, ◌-◌, Str, codes, str_eq, Assoc, lookup, insert, has_key, Option, none, some, Bool, false,
  List, [], ◌∷◌, ltb, if◌then◌else◌, Result, ok, err, other, not_found, object_not_found, ◌≡◌, ◌≢◌,
  refl, arith,
}
use opni_monitoring.Core.Types.{
  Reference, BootstrapToken, BootstrapTokenMetadata, Cluster, ClusterMetadata, ClusterCapability,
  RoleBinding, cluster_labels, cluster_capabilities, cluster_reference,
}
use opni_monitoring.Core.Validate.{validate_role_binding}
use opni_monitoring.Storage.Stores.{ClusterStore, RbacStore}
use opni_monitoring.Etcd.Client.{KeyValue, Codec, IsCodec}
use opni_monitoring.Etcd.Clusters.Update.{Swapped}
use opni_monitoring.Etcd.Stores.{etcd_cluster_store}
use opni_monitoring.Crds.Objects.{Object, new_object, update_object}
use opni_monitoring.Crds
use opni_monitoring.Crds.Objects.Laws.{update_object_swaps}
use opni_monitoring.Crds.Tokens.{get_token}
use opni_monitoring.Crds.Tokens.Laws.{get_token_lem}
use opni_monitoring.Crds.Keyrings.{put_keyring, get_keyring}
use opni_monitoring.Crds.Keyrings.Laws.{get_keyring-put}
use opni_monitoring.Management.Requests.{EditClusterRequest, WatchClustersRequest}
use opni_monitoring.Management.Clusters.{edit_labels, edit_cluster}
use opni_monitoring.Management.Edit.{edit_cluster-swaps}
use opni_monitoring.Management.Roles.{create_role_binding}
use opni_monitoring.Management.Guards.{create_role_binding-guarded}
use opni_monitoring.Management.Watch.{WatchEvent, added, deleted, ticks}
use opni_monitoring.Management.Watch.View.{IsOrder, view, last_listed, ticks-view}
use opni_monitoring.Examples.Server.{server, server-IsResource}
use opni_monitoring.Examples.Store.{etcd, etcd-IsEtcd, prefix, edge_1, created, once, once-IsRetry}

abbrev metadata : BootstrapTokenMetadata
metadata = record { lease_id = 0; ttl = 60; usage_count = 0; labels = []; capabilities = [] }

abbrev token : BootstrapToken
token = record { token_id = codes "aa"; secret = codes "bb"; metadata = some metadata }

abbrev token_object : Object BootstrapToken
token_object = record { name = codes "aa"; labels = []; created = 100; version = 1; spec = token }

abbrev tokens : Assoc (Object BootstrapToken)
tokens = (codes "aa", token_object) ∷ []

abbrev token_ref : Reference
token_ref = record { id = codes "aa" }

get_token_lem_example : get_token server 130 token_ref (tokens, []) ≡ (
    if ltb 130 (100 + 60)
    then (
      ok (record token { metadata = some (record metadata { ttl = 100 + 60 - 130 }) }),
      (tokens, []),
    )
    else (err object_not_found, (tokens, codes "aa" ∷ [])))
unfolding lookup str_eq
get_token_lem_example =
    get_token_lem server 130 token_ref tokens [] token_object metadata refl refl (omega arith)
      (omega arith) (omega arith)

-- It is returned with what is left, and no longer once it is 60 seconds old.
young_and_old :
    ((get_token server 130 token_ref (tokens, [])).0
      ≡ ok (record token { metadata = some (record metadata { ttl = 30 }) }))
    × (get_token server 160 token_ref (tokens, [])
        ≡ (err object_not_found, (tokens, codes "aa" ∷ [])))
unfolding get_token lookup str_eq
young_and_old = (refl, refl)

abbrev clusters : Assoc (Object Cluster)
clusters = (codes "edge-1", record (new_object (codes "edge-1") [] edge_1) { version = 1 }) ∷ []

abbrev relabelled : Cluster
relabelled = record {
  id = codes "edge-1";
  metadata = some (record { labels = (codes "a", codes "b") ∷ []; capabilities = [] });
}

update_object_swaps_example :
    (s : Assoc (Object Cluster)) × Crds.Objects.Laws.Swapped server server-IsResource
      (codes "edge-1")
      (edit_labels ((codes "a", codes "b") ∷ []))
      s
      (update_object server once
        (codes "edge-1")
        (edit_labels ((codes "a", codes "b") ∷ []))
        clusters).1
      relabelled
unfolding update_object lookup str_eq edit_labels
update_object_swaps_example =
    update_object_swaps server server-IsResource once once-IsRetry (codes "edge-1")
      (edit_labels ((codes "a", codes "b") ∷ [])) clusters relabelled refl

abbrev text : Codec Str
text = record { marshal = λ x. ok x; unmarshal = λ x. ok x }

text-IsCodec : IsCodec text
text-IsCodec = record { reads_back = λ x s h. same x s h }
  where
    same : (x s : Str) → ◌≡◌ {A = Result Str} (ok x) (ok s) → ◌≡◌ {A = Result Str} (ok s) (ok x)
    same x s h = cc

get_keyring-put_example : codes "keys" ≡ codes "keys"
unfolding put_keyring lookup get_keyring insert str_eq
get_keyring-put_example =
    get_keyring-put server server-IsResource text text-IsCodec (codes "edge-1") (codes "gateway")
      (codes "gateway-internal") once once-IsRetry (codes "keys") (codes "keys") [] refl refl

-- A cluster store in which every cluster is there.
abbrev full : ClusterStore (Unit {0})
full = record {
  create_cluster = λ c s. (ok tt, s);
  delete_cluster = λ ref s. (ok tt, s);
  get_cluster = λ ref s. (ok (record { id = ref.id; metadata = none }), s);
  update_cluster = λ ref m s. (err other, s);
  list_clusters = λ selector options s. (ok [], s);
}

abbrev cluster_ref : Str → Reference
cluster_ref id = record { id = id }

abbrev watch_request : WatchClustersRequest
watch_request = record { known_clusters = some (cluster_ref (codes "edge-1") ∷ []) }

abbrev known : Assoc Reference
known = (codes "edge-1", cluster_ref (codes "edge-1")) ∷ []

abbrev edge_2 : Cluster
edge_2 = record { id = codes "edge-2"; metadata = none }

-- edge-2 appears, and then edge-1 is gone.
abbrev answers : List (Result (List Cluster))
answers = ok (edge_1 ∷ edge_2 ∷ []) ∷ ok (edge_2 ∷ []) ∷ []

abbrev accepts : List WatchEvent → Bool
accepts sent = false

abbrev in_order : List WatchEvent → Assoc Reference → Assoc Reference
in_order sent m = m

in_order-IsOrder : IsOrder in_order
in_order-IsOrder = record { keyed = λ sent m h. h; visits = λ sent m j. refl }

ticks-view_example :
    (view known (ticks accepts in_order answers (known, [])).1.1
      ≡ (ticks accepts in_order answers (known, [])).1.0)
    × ((id : Str)
        → has_key id (view known (ticks accepts in_order answers (known, [])).1.1)
          ≡ last_listed (λ j. has_key j known) answers id)
unfolding opni_monitoring.Management.Watch.start_watch
    opni_monitoring.Management.Requests.validate_watch_clusters
    opni_monitoring.Core.Validate.validate_reference opni_monitoring.Validation.validate_id str_eq
    insert ticks lookup
ticks-view_example =
    ticks-view full watch_request known tt accepts in_order answers in_order-IsOrder refl refl

events :
    (ticks accepts in_order answers (known, [])).1.1
    ≡ deleted (cluster_ref (codes "edge-1")) ∷ added (cluster_ref (codes "edge-2")) ∷ []
unfolding ticks lookup str_eq insert
events = refl

abbrev edit_request : EditClusterRequest
edit_request = record { cluster = some (cluster_reference edge_1); labels = [] }

-- Clusters with empty metadata, written as their ids.
abbrev bare : Str → Cluster
bare id = record { id = id; metadata = some (record { labels = []; capabilities = [] }) }

abbrev bare_text : Str → Assoc Str → List ClusterCapability → Result Str
bare_text id [] [] = ok id
bare_text id [] (c ∷ cs) = err other
bare_text id (l ∷ ls) cs = err other

abbrev bare_marshal : Str → Option ClusterMetadata → Result Str
bare_marshal id none = err other
bare_marshal id (some m) = bare_text id m.labels m.capabilities

abbrev bare_json : Codec Cluster
bare_json = record {
  marshal = λ c. bare_marshal c.id c.metadata;
  unmarshal = λ text. ok (bare text);
}

bare_json-IsCodec : IsCodec bare_json
bare_json-IsCodec = record { reads_back = λ c s h. reads c.id c.metadata s h }
  where
    emptied :
        (id : Str) (ls : Assoc Str) (cs : List ClusterCapability) (s : Str)
        → bare_text id ls cs ≡ ok s
        → ◌≡◌ {A = Result Cluster}
            (ok (bare s))
            (ok (record { id = id; metadata = some (record { labels = ls; capabilities = cs }) }))
    emptied id [] [] s h = cc
    emptied id [] (c ∷ cs) s h = cc
    emptied id (l ∷ ls) cs s h = cc

    reads :
        (id : Str) (m : Option ClusterMetadata) (s : Str)
        → bare_marshal id m ≡ ok s
        → ◌≡◌ {A = Result Cluster} (ok (bare s)) (ok (record { id = id; metadata = m }))
    reads id none s h = cc
    reads id (some m) s h = emptied id m.labels m.capabilities s h

abbrev after : Assoc KeyValue
after = (edit_cluster (etcd_cluster_store etcd bare_json prefix once) edit_request created).1

edit_cluster-swaps_example :
    (ref : Reference) × (s : Assoc KeyValue) × (w : Swapped etcd etcd-IsEtcd bare_json
      bare_json-IsCodec prefix ref.id
      (edit_labels [])
      s
      after
      (bare (codes "edge-1")))
    × (edit_request.cluster ≡ some ref)
    × (cluster_labels (bare (codes "edge-1")) ≡ [])
    × (cluster_capabilities (bare (codes "edge-1")) ≡ cluster_capabilities w.before)
    × (codes "edge-1" ≡ w.before.id)
unfolding edit_cluster opni_monitoring.Management.Requests.validate_edit_cluster
    opni_monitoring.Core.Validate.validate_reference opni_monitoring.Validation.validate_id str_eq
    opni_monitoring.Validation.validate_labels etcd_cluster_store
    opni_monitoring.Etcd.Clusters.update_cluster lookup opni_monitoring.Etcd.Clusters.create_cluster
    insert opni_monitoring.Etcd.Clusters.cluster_key opni_monitoring.Etcd.Client.object_key
    opni_monitoring.GoLib.Path.join opni_monitoring.GoLib.Split.split_on
edit_cluster-swaps_example =
    edit_cluster-swaps etcd etcd-IsEtcd bare_json bare_json-IsCodec prefix once once-IsRetry
      edit_request created (bare (codes "edge-1")) refl

abbrev binding : RoleBinding
binding = record { id = codes "viewers"; role_id = codes "viewer"; subjects = []; taints = [] }

-- A store of role bindings that counts them.
abbrev counting : RbacStore ℕ
counting = record {
  create_role = λ r n. (ok tt, n);
  delete_role = λ ref n. (ok tt, n);
  get_role = λ ref n. (err not_found, n);
  create_role_binding = λ rb n. (ok tt, 1 + n);
  delete_role_binding = λ ref n. (ok tt, n);
  get_role_binding = λ ref n. (err not_found, n);
  list_roles = λ n. (ok [], n);
  list_role_bindings = λ n. (ok [], n);
}

counted : (create_role_binding counting binding 0).1 ≢ 0
unfolding create_role_binding validate_role_binding opni_monitoring.Validation.validate_id str_eq
counted e = one_apart e
  where
    one_apart : ◌≡◌ {A = ℕ} 1 0 → ⊥
    one_apart h = omega arith

create_role_binding-guarded_example :
    (validate_role_binding binding ≡ ok tt)
    × (◌≡◌ {A = List Str} [] [])
    × (create_role_binding counting binding 0 ≡ (ok tt, 1))
create_role_binding-guarded_example = create_role_binding-guarded counting binding 0 counted
