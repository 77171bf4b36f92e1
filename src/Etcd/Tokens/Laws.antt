-- ===== src/Etcd/Tokens/Laws.antt =====
-- UpdateToken writes only over the version that it read, and keeps the lease of the token's key.
use opni_monitoring.Prelude.{
  ok_injective, ℕ, Str, Option, none, some, Bool, true, Result, ok, ◌≡◌, refl, sym, ◌∙◌, ap,
}
use opni_monitoring.Exec.{bind_ok}
use opni_monitoring.Core.Types.{BootstrapToken}
use opni_monitoring.Storage.Mutators.{Mutator}
use opni_monitoring.Etcd.Client.{
  Client, IsEtcd, KeyValue, Codec, IsCodec, Retry, IsRetry, is_retry_err,
}
use opni_monitoring.Etcd.Clusters.{succeeded}
use opni_monitoring.Etcd.Clusters.Update.{succeeded_ok}
use opni_monitoring.Etcd.Tokens.{
  token_key, read_token, add_lease_metadata, get_token_version, update_token_once, update_token,
}

module _ (etcd : Client) (laws : IsEtcd etcd) (json : Codec BootstrapToken) (codec : IsCodec json)
    (prefix : Str) where
  open etcd use {State}

  abbrev at : State → Str → Option KeyValue
  at s id = laws.cell s (token_key prefix id)

  -- What a read found: a value under the key, its version, and the token that it holds with the
  -- lease of the key, as it was looked up right after.
  pub record ReadAt (id : Str) (start : State) (found : BootstrapToken × ℕ) : Type 0 where
    pub stored : KeyValue
    pub raw : BootstrapToken
    pub present : at start id ≡ some stored
    pub version : stored.version ≡ found.1
    pub decoded : json.unmarshal stored.value ≡ ok raw
    pub leased :
        (add_lease_metadata etcd json prefix raw stored.lease
          (etcd.get (token_key prefix id) start).1).0
        ≡ ok found.0

  -- What one attempt did that ended with this token and in this state: it read a token at the
  -- state where it started, changed it, and wrote it when, in the state that the read left, the
  -- version was still the one read, under the lease that the key had in that state.
  pub record Renewed (id : Str) (m : Mutator BootstrapToken) (start finish : State)
      (t' : BootstrapToken) : Type 0 where
    pub before : BootstrapToken
    pub version : ℕ
    pub at_commit : State
    pub old : KeyValue
    pub new : KeyValue
    pub attempt : update_token_once etcd json prefix (record { id = id }) m start ≡ (ok t', finish)
    pub after_read : at_commit ≡ (get_token_version etcd json prefix (record { id = id }) start).1
    pub read : ReadAt id start (before, version)
    pub changed : m before ≡ ok t'
    pub present : at at_commit id ≡ some old
    pub unchanged : old.version ≡ version
    pub written : at finish id ≡ some new
    pub same_lease : new.lease ≡ old.lease
    pub decodes : json.unmarshal new.value ≡ ok t'

  read_token-some :
      (o : Option KeyValue) (s : State) (found : BootstrapToken × ℕ)
      → (read_token etcd json prefix o s).0 ≡ ok found
      → (kv : KeyValue) × (raw : BootstrapToken) × (o ≡ some kv)
        × (kv.version ≡ found.1)
        × (json.unmarshal kv.value ≡ ok raw)
        × ((add_lease_metadata etcd json prefix raw kv.lease s).0 ≡ ok found.0)
  unfolding read_token
  read_token-some none s found h = cc
  read_token-some (some kv) s found h =
      let (raw, decoded, _, rest) = bind_ok (λ (t : State). (json.unmarshal kv.value, t)) _ s h in
      let (leased, looked_up, _, rest') =
        bind_ok (add_lease_metadata etcd json prefix raw kv.lease) _ s rest in
      let same = ok_injective rest' in
      (
        kv,
        raw,
        refl,
        ap (λ (p : BootstrapToken × ℕ). p.1) same,
        decoded,
        looked_up ∙ ap (λ (p : BootstrapToken × ℕ). ok p.0) same,
      )

  get_token_version-ReadAt :
      (id : Str) (s : State) (found : BootstrapToken × ℕ)
      → (get_token_version etcd json prefix (record { id = id }) s).0 ≡ ok found
      → ReadAt id s found
  unfolding get_token_version
  get_token_version-ReadAt id s found h =
      let key : Str = token_key prefix id in
      let (o, got, _, rest) = bind_ok (etcd.get key) _ s h in
      let (kv, raw, present, version, decoded, leased) =
        read_token-some o (etcd.get key s).1 found rest in
      record {
        stored = kv;
        raw = raw;
        present = sym (laws.get_reads key s o got) ∙ present;
        version = version;
        decoded = decoded;
        leased = leased;
      }

  Renewed-of :
      (id : Str) (m : Mutator BootstrapToken) (start s1 finish : State) (t t' : BootstrapToken)
      (n : ℕ) (text : Str) (done : Bool)
      → ReadAt id start (t, n)
      → m t ≡ ok t'
      → json.marshal t' ≡ ok text
      → done ≡ true
      → (etcd.commit (token_key prefix id) n text true s1).0 ≡ ok done
      → finish ≡ (etcd.commit (token_key prefix id) n text true s1).1
      → update_token_once etcd json prefix (record { id = id }) m start ≡ (ok t', finish)
      → s1 ≡ (get_token_version etcd json prefix (record { id = id }) start).1
      → Renewed id m start finish t'
  Renewed-of id m start s1 finish t t' n text done r ch co d sent fin run from =
      let (old, new, was, same, now, v, lease) =
        laws.commit_compares (token_key prefix id) n text true s1
          (λ zero.
            laws.version_positive (token_key prefix id) start r.stored r.present (r.version ∙ zero))
          (sent ∙ ap (λ (b : Bool). ok b) d) in
      record {
        before = t;
        version = n;
        at_commit = s1;
        old = old;
        new = new;
        attempt = run;
        after_read = from;
        read = r;
        changed = ch;
        present = was;
        unchanged = same;
        written = ap (λ (s : State). at s id) fin ∙ now;
        same_lease = lease;
        decodes = rw v (codec.reads_back t' text co);
      }

  update_token_once_renews :
      (id : Str) (m : Mutator BootstrapToken) (s : State) (t' : BootstrapToken)
      → (update_token_once etcd json prefix (record { id = id }) m s).0 ≡ ok t'
      → Renewed id m s (update_token_once etcd json prefix (record { id = id }) m s).1 t'
  unfolding update_token_once
  update_token_once_renews id m s t' h =
      let key : Str = token_key prefix id in
      let (found, got, run1, rest1) =
        bind_ok (get_token_version etcd json prefix (record { id = id })) _ s h in
      let s1 : State = (get_token_version etcd json prefix (record { id = id }) s).1 in
      let (t, changed, run2, rest2) = bind_ok (λ (u : State). (m found.0, u)) _ s1 rest1 in
      let (text, coded, run3, rest3) = bind_ok (λ (u : State). (json.marshal t, u)) _ s1 rest2 in
      let (done, sent, run4, rest4) =
        bind_ok (etcd.commit key found.1 text true) (λ done. succeeded {S = State} t done) s1
          rest3 in
      let (d, same, kept) = succeeded_ok t t' done (etcd.commit key found.1 text true s1).1 rest4 in
      Renewed-of id m s s1 (update_token_once etcd json prefix (record { id = id }) m s).1 found.0
        t' found.1 text done (get_token_version-ReadAt id s found got)
        (changed ∙ ap (λ (x : BootstrapToken). ok x) same)
        (ap (λ (x : BootstrapToken). json.marshal x) (sym same) ∙ coded) d sent
        (ap (λ (p : Result BootstrapToken × State). p.1) (run1 ∙ run2 ∙ run3 ∙ run4) ∙ kept)
        (ap
          (λ (x : Result BootstrapToken).
            (x, (update_token_once etcd json prefix (record { id = id }) m s).1))
          h)
        refl

  -- If UpdateToken succeeds, there is a state from which one attempt ends with the result and in
  -- the state of the whole call. That attempt read the key's value at that state, with its
  -- version, as a token with the lease of the key; the mutator changed it into the token that is
  -- returned, and in the state that the read left, when the write was made, the stored version was
  -- still the one read; afterwards the key holds the returned token, under the lease that the key
  -- had when the write was made.
  pub update_token_renews :
      (retry : Retry State BootstrapToken) (r : IsRetry retry) (id : Str)
      (m : Mutator BootstrapToken) (s : State) (t' : BootstrapToken)
      → (update_token etcd json prefix retry (record { id = id }) m s).0 ≡ ok t'
      → (start : State) × Renewed id m start
          (update_token etcd json prefix retry (record { id = id }) m s).1
          t'
  unfolding update_token
  update_token_renews retry r id m s t' h =
      let (start, _, e) =
        r.last_call is_retry_err (update_token_once etcd json prefix (record { id = id }) m)
          (λ _. Unit {0}) (λ _ _. tt) s tt in
      (start, rw e (update_token_once_renews id m start t' (rw e at h)))
