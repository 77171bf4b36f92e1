-- ===== src/Etcd/Clusters/Update.antt =====
-- UpdateCluster writes only over the version that it read.
use opni_monitoring.Prelude.{
  ℕ, Str, Option, none, some, Bool, true, false, List, [], ◌∷◌, Result, ok, err, not_found, ◌≡◌,
  ◌≢◌, refl, sym, ◌∙◌, ap, arith, keep,
}
use opni_monitoring.Exec.{bind_ok}
use opni_monitoring.Core.Types.{Reference, Cluster}
use opni_monitoring.Storage.Mutators.{Mutator}
use opni_monitoring.Storage.Selection.{ClusterSelector, predicate}
use opni_monitoring.Etcd.Client.{
  Client, IsEtcd, KeyValue, Codec, IsCodec, Retry, IsRetry, is_retry_err,
}
use opni_monitoring.Etcd.Clusters.{
  cluster_key, read_cluster, get_cluster_version, succeeded, select_clusters, update_cluster_once,
  update_cluster,
}
use opni_monitoring.Etcd.Clusters.Laws.{get_version_reads, read_back}

-- The last step of an update, when it succeeded.
pub succeeded_ok :
    {S T : Type 0} (c c' : T) (b : Bool) (s : S)
    → (succeeded {S = S} c b s).0 ≡ ok c'
    → (b ≡ true) × (c ≡ c') × ((succeeded {S = S} c b s).1 ≡ s)
succeeded_ok c c' true s h = (refl, ground arith, refl)
succeeded_ok c c' false s h = cc

module _ (etcd : Client) (laws : IsEtcd etcd) (json : Codec Cluster) (codec : IsCodec json)
    (prefix : Str) where
  open etcd use {State}

  abbrev at : State → Str → Option KeyValue
  at s id = laws.cell s (cluster_key prefix id)

  -- What one attempt did that ended with this cluster and in this state: it read a cluster at the
  -- state where it started, changed it, and wrote it when, in the state that the read left, the
  -- version was still the one read.
  pub record Swapped (id : Str) (m : Mutator Cluster) (start finish : State) (c' : Cluster)
      : Type 0 where
    pub before : Cluster
    pub version : ℕ
    pub at_commit : State
    pub old : KeyValue
    pub new : KeyValue
    pub attempt :
        update_cluster_once etcd json prefix (record { id = id }) m start ≡ (ok c', finish)
    pub after_read : at_commit ≡ (get_cluster_version etcd json prefix (record { id = id }) start).1
    pub read : read_cluster json (at start id) ≡ ok (before, version)
    pub changed : m before ≡ ok c'
    pub present : at at_commit id ≡ some old
    pub unchanged : old.version ≡ version
    pub written : at finish id ≡ some new
    pub reads_as : read_cluster json (some new) ≡ ok (c', new.version)

  read_version :
      (o : Option KeyValue) (c : Cluster) (n : ℕ)
      → read_cluster json o ≡ ok (c, n)
      → (kv : KeyValue) × (o ≡ some kv) × (kv.version ≡ n)
  unfolding read_cluster
  read_version none c n h = cc
  read_version (some kv) c n h = (kv, refl, ground arith)

  version_read :
      (id : Str) (s : State) (c : Cluster) (n : ℕ) → read_cluster json (at s id) ≡ ok (c, n) → n ≢ 0
  version_read id s c n h zero =
      let (kv, present, e) = read_version (at s id) c n h in
      laws.version_positive (cluster_key prefix id) s kv present (e ∙ zero)

  swap_of :
      (id : Str) (m : Mutator Cluster) (start s1 finish : State) (c c' : Cluster) (n : ℕ)
      (text : Str) (done : Bool)
      → read_cluster json (at start id) ≡ ok (c, n)
      → m c ≡ ok c'
      → json.marshal c' ≡ ok text
      → done ≡ true
      → (etcd.commit (cluster_key prefix id) n text false s1).0 ≡ ok done
      → finish ≡ (etcd.commit (cluster_key prefix id) n text false s1).1
      → update_cluster_once etcd json prefix (record { id = id }) m start ≡ (ok c', finish)
      → s1 ≡ (get_cluster_version etcd json prefix (record { id = id }) start).1
      → Swapped id m start finish c'
  swap_of id m start s1 finish c c' n text done r ch co d sent fin run from =
      let (old, new, was, same, now, v, _) =
        laws.commit_compares (cluster_key prefix id) n text false s1 (version_read id start c n r)
          (sent ∙ ap (λ (b : Bool). ok b) d) in
      record {
        before = c;
        version = n;
        at_commit = s1;
        old = old;
        new = new;
        attempt = run;
        after_read = from;
        read = r;
        changed = ch;
        present = was;
        unchanged = same;
        written = ap (λ (t : State). at t id) fin ∙ now;
        reads_as = read_back etcd laws json codec prefix c' text new co v;
      }

  pub update_cluster_once_swaps :
      (ref : Reference) (m : Mutator Cluster) (s : State) (c' : Cluster)
      → (update_cluster_once etcd json prefix ref m s).0 ≡ ok c'
      → Swapped ref.id m s (update_cluster_once etcd json prefix ref m s).1 c'
  unfolding update_cluster_once
  update_cluster_once_swaps ref m s c' h =
      let key : Str = cluster_key prefix ref.id in
      let (found, got, run1, rest1) = bind_ok (get_cluster_version etcd json prefix ref) _ s h in
      let s1 : State = (get_cluster_version etcd json prefix ref s).1 in
      let (c, changed, run2, rest2) = bind_ok (λ (t : State). (m found.0, t)) _ s1 rest1 in
      let (text, coded, run3, rest3) = bind_ok (λ (t : State). (json.marshal c, t)) _ s1 rest2 in
      let (done, sent, run4, rest4) =
        bind_ok (etcd.commit key found.1 text false) (λ done. succeeded {S = State} c done) s1
          rest3 in
      let (d, same, kept) =
        succeeded_ok c c' done (etcd.commit key found.1 text false s1).1 rest4 in
      swap_of ref.id m s s1 (update_cluster_once etcd json prefix ref m s).1 found.0 c' found.1 text
        done (get_version_reads etcd laws json codec prefix ref s found got)
        (changed ∙ ap (λ (x : Cluster). ok x) same)
        (ap (λ (x : Cluster). json.marshal x) (sym same) ∙ coded) d sent
        (ap (λ (p : Result Cluster × State). p.1) (run1 ∙ run2 ∙ run3 ∙ run4) ∙ kept)
        (ap (λ (x : Result Cluster). (x, (update_cluster_once etcd json prefix ref m s).1)) h) refl

  -- If UpdateCluster succeeds, there is a state from which one attempt ends with the result and in
  -- the state of the whole call. That attempt read a cluster and its version at that state, the
  -- mutator changed it into the cluster that is returned, and in the state that the read left,
  -- when the write was made, the stored version was still the one read; afterwards the id reads as
  -- the returned cluster.
  pub update_cluster_swaps :
      (retry : Retry State Cluster) (r : IsRetry retry) (ref : Reference) (m : Mutator Cluster)
      (s : State) (c' : Cluster)
      → (update_cluster etcd json prefix retry ref m s).0 ≡ ok c'
      → (start : State) × Swapped ref.id m start
          (update_cluster etcd json prefix retry ref m s).1
          c'
  unfolding update_cluster
  update_cluster_swaps retry r ref m s c' h =
      let (t, _, e) =
        r.last_call is_retry_err (update_cluster_once etcd json prefix ref m) (λ _. Unit {0})
          (λ _ _. tt) s tt in
      (t, rw e (update_cluster_once_swaps ref m t c' (rw e at h)))

  missing_once :
      (ref : Reference) (m : Mutator Cluster) (s : State)
      → (etcd.get (cluster_key prefix ref.id) s).0 ≡ ok none
      → update_cluster_once etcd json prefix ref m s
        ≡ (err not_found, (etcd.get (cluster_key prefix ref.id) s).1)
  unfolding update_cluster_once get_cluster_version read_cluster
  missing_once ref m s h = rw h

  -- An update of an id under which the first read finds nothing fails with "not found" after that
  -- one read, with no write and no retry.
  pub update_cluster_missing :
      (retry : Retry State Cluster) (r : IsRetry retry) (ref : Reference) (m : Mutator Cluster)
      (s : State)
      → (etcd.get (cluster_key prefix ref.id) s).0 ≡ ok none
      → update_cluster etcd json prefix retry ref m s
        ≡ (err not_found, (etcd.get (cluster_key prefix ref.id) s).1)
  unfolding update_cluster
  update_cluster_missing retry r ref m s h =
      let once = missing_once ref m s h in
      r.first_final is_retry_err (update_cluster_once etcd json prefix ref m) s not_found
        (ap (λ (p : Result Cluster × State). p.0) once) refl
      ∙ once

-- Every value decoded, or the first failure.
abbrev pub decode_all : Codec Cluster → List KeyValue → Result (List Cluster)
decode_all json [] = ok []
decode_all json (kv ∷ kvs) =
    let later = decode_all json kvs in
    elim (json.unmarshal kv.value) [
      | err e ↦ err e
      | ok c ↦ elim later [ err e ↦ err e | ok cs ↦ ok (c ∷ cs) ]
    ]

abbrev pub pick : ClusterSelector → Result (List Cluster) → Result (List Cluster)
pick p (err e) = err e
pick p (ok cs) = ok (keep (predicate p) cs)

-- Listing fails if some value cannot be read, and otherwise keeps, in the order of the keys,
-- exactly the clusters that the selector picks.
pub select_clusters_lem :
    (json : Codec Cluster) (p : ClusterSelector) (kvs : List KeyValue)
    → select_clusters json p kvs ≡ pick p (decode_all json kvs)
unfolding select_clusters
select_clusters_lem json p [] = refl
select_clusters_lem json p (kv ∷ kvs) = ground (arith, select_clusters_lem json p kvs)
