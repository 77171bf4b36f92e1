-- ===== src/Etcd/Clusters/Laws.antt =====
-- The cluster store keeps what it is given: create, get, delete and update, id by id.
use opni_monitoring.Prelude.{
  ℕ, Str, str_eq, Option, none, some, true, false, ◌==◌, if◌then◌else◌, Result, ok, err, not_found,
  ◌≡◌, ◌≢◌, refl, ◌∙◌, ap, arith,
}
use opni_monitoring.Exec.{bind_ok}
use opni_monitoring.GoLib.Path.{is_plain}
use opni_monitoring.Validation.{validate_id}
use opni_monitoring.Core.Types.{Reference, Cluster, cluster_reference}
use opni_monitoring.Etcd.Client.{Client, IsEtcd, KeyValue, Codec, IsCodec, clusters_kind}
use opni_monitoring.Etcd.Keys.{object_key_ne}
use opni_monitoring.Etcd.Clusters.{
  cluster_key, create_cluster, delete_cluster, read_cluster, get_cluster_version, get_cluster,
}

clusters_plain : is_plain clusters_kind ≡ true
unfolding str_eq
clusters_plain = refl

-- What DeleteCluster returns, by what was stored.
abbrev pub delete_result : Option KeyValue → Result (Unit {0})
delete_result none = err not_found
delete_result (some kv) = ok tt

module _ (etcd : Client) (laws : IsEtcd etcd) (json : Codec Cluster) (codec : IsCodec json)
    (prefix : Str) where
  open etcd use {State}

  abbrev pub cell_of : State → Str → Option KeyValue
  cell_of s id = laws.cell s (cluster_key prefix id)

  -- What a cluster id stands for: the cluster that its cell reads as, with its version.
  abbrev pub stored : State → Str → Result (Cluster × ℕ)
  stored s id = read_cluster json (cell_of s id)

  read_of_get :
      (key : Str) (s : State) (r : Option KeyValue)
      → (etcd.get key s).0 ≡ ok r
      → read_cluster json r ≡ read_cluster json (laws.cell s key)
  read_of_get key s r h =
      ap (λ (o : Option KeyValue). read_cluster json o) (laws.get_reads key s r h)

  pub get_version_reads :
      (ref : Reference) (s : State) (found : Cluster × ℕ)
      → (get_cluster_version etcd json prefix ref s).0 ≡ ok found
      → stored s ref.id ≡ ok found
  unfolding get_cluster_version
  get_version_reads ref s found h =
      let (r, got, _, rest) = bind_ok (etcd.get (cluster_key prefix ref.id)) _ s h in
      cc (read_of_get (cluster_key prefix ref.id) s r got, rest)

  -- A successful read returns what is stored under the id.
  get_cluster_reads :
      (ref : Reference) (s : State) (c : Cluster)
      → (get_cluster etcd json prefix ref s).0 ≡ ok c
      → (n : ℕ) × (stored s ref.id ≡ ok (c, n))
  unfolding get_cluster
  get_cluster_reads ref s c h =
      let (found, got, _, rest) = bind_ok (get_cluster_version etcd json prefix ref) _ s h in
      (found.1, get_version_reads ref s found got ∙ ground arith)

  pub read_back :
      (c : Cluster) (text : Str) (kv : KeyValue)
      → json.marshal c ≡ ok text
      → kv.value ≡ text
      → read_cluster json (some kv) ≡ ok (c, kv.version)
  unfolding read_cluster
  read_back c text kv m e =
      let u : json.unmarshal kv.value ≡ ok c = rw e (codec.reads_back c text m) in
      rw (read_cluster, u)

  get_returns :
      (ref : Reference) (s : State) (r : Option KeyValue) (c : Cluster) (n : ℕ)
      → (etcd.get (cluster_key prefix ref.id) s).0 ≡ ok r
      → stored s ref.id ≡ ok (c, n)
      → (get_cluster etcd json prefix ref s).0 ≡ ok c
  unfolding get_cluster get_cluster_version
  get_returns ref s r c n got e = rw (got, read_of_get (cluster_key prefix ref.id) s r got, e)

  created_cell :
      (c : Cluster) (s : State)
      → (create_cluster etcd json prefix c s).0 ≡ ok tt
      → (n : ℕ) × (stored (create_cluster etcd json prefix c s).1 c.id ≡ ok (c, n))
  unfolding create_cluster
  created_cell c s h =
      let (text, m, run, wrote) = bind_ok (λ (t : State). (json.marshal c, t)) _ s h in
      let (kv, at, v, _) = laws.put_writes (cluster_key prefix c.id) text 0 s wrote in
      (kv.version, rw (m, at) (read_back c text kv m v))

  created_frame :
      (c : Cluster) (s : State) (id : Str)
      → str_eq (cluster_key prefix c.id) (cluster_key prefix id) ≡ false
      → (create_cluster etcd json prefix c s).0 ≡ ok tt
      → cell_of (create_cluster etcd json prefix c s).1 id ≡ cell_of s id
  unfolding create_cluster
  created_frame c s id ne h =
      let (text, m, _, _) = bind_ok (λ (t : State). (json.marshal c, t)) _ s h in
      rw m (laws.put_frame (cluster_key prefix c.id) text 0 s (cluster_key prefix id) ne)

  key_ne :
      (a b : Str)
      → validate_id a ≡ ok tt
      → validate_id b ≡ ok tt
      → a ≢ b
      → str_eq (cluster_key prefix a) (cluster_key prefix b) ≡ false
  unfolding cluster_key
  key_ne a b = object_key_ne prefix clusters_kind a b clusters_plain

  -- After CreateCluster stored a cluster with an accepted id, a GetCluster of its reference that
  -- reaches etcd returns that cluster, and what is stored under another accepted id is as before.
  pub get-create_cluster :
      (c : Cluster) (s : State)
      → validate_id c.id ≡ ok tt
      → (create_cluster etcd json prefix c s).0 ≡ ok tt
      → (r : Option KeyValue)
      → (etcd.get (cluster_key prefix c.id) (create_cluster etcd json prefix c s).1).0 ≡ ok r
      → (id : Str) → validate_id id ≡ ok tt
      → c.id ≢ id
      → ((get_cluster etcd json prefix
            (cluster_reference c)
            (create_cluster etcd json prefix c s).1).0
          ≡ ok c)
        × (stored (create_cluster etcd json prefix c s).1 id ≡ stored s id)
  get-create_cluster c s valid h r got id v ne =
      let (n, e) = created_cell c s h in
      (
        get_returns (cluster_reference c) (create_cluster etcd json prefix c s).1 r c n got e,
        ap (λ (o : Option KeyValue). read_cluster json o)
            (created_frame c s id (key_ne c.id id valid v ne) h),
      )

  delete_run :
      (ref : Reference) (s : State) (n : ℕ)
      → (etcd.delete (cluster_key prefix ref.id) s).0 ≡ ok n
      → delete_cluster etcd json prefix ref s
        ≡ (if n == 0 then err not_found else ok tt, (etcd.delete (cluster_key prefix ref.id) s).1)
  unfolding delete_cluster
  delete_run ref s n h = rw h (ground arith)

  delete_decides :
      (o : Option KeyValue) (n : ℕ)
      → (n ≡ 0 → o ≡ none)
      → (o ≡ none → n ≡ 0)
      → (if n == 0 then err not_found else ok tt) ≡ delete_result o
  delete_decides none n a b = let e : n ≡ 0 = b refl in rw e
  delete_decides (some kv) n a b = ground (arith, a)

  -- When the delete request for an accepted id reaches etcd, DeleteCluster fails with "not found"
  -- if nothing was stored under the id and succeeds otherwise; afterwards the id reads as not
  -- found, and what is stored under another accepted id is as before.
  pub delete_cluster_lem :
      (ref : Reference) (s : State) (n : ℕ)
      → validate_id ref.id ≡ ok tt
      → (etcd.delete (cluster_key prefix ref.id) s).0 ≡ ok n
      → (id : Str) → validate_id id ≡ ok tt
      → ref.id ≢ id
      → ((delete_cluster etcd json prefix ref s).0 ≡ delete_result (cell_of s ref.id))
        × (stored (delete_cluster etcd json prefix ref s).1 ref.id ≡ err not_found)
        × (stored (delete_cluster etcd json prefix ref s).1 id ≡ stored s id)
  unfolding read_cluster
  delete_cluster_lem ref s n valid h id v ne =
      let key : Str = cluster_key prefix ref.id in
      let (zero_none, none_zero, gone) = laws.delete_counts key s n h in
      let run = delete_run ref s n h in
      (
        rw run (delete_decides (cell_of s ref.id) n zero_none none_zero),
        rw (run, gone),
        rw run (
            ap (λ (o : Option KeyValue). read_cluster json o)
              (laws.delete_frame key s (cluster_key prefix id) (key_ne ref.id id valid v ne))),
      )
