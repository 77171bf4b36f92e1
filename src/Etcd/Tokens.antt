-- ===== src/Etcd/Tokens.antt =====
-- pkg/storage/etcd/token_store.go.
pub mod Laws
use opni_monitoring.Prelude.{
  ℕ, Str, Assoc, Option, none, some, true, List, [], ◌∷◌, ◌==◌, if◌then◌else◌, Result, ok, err,
  not_found, panicked,
}
use opni_monitoring.Exec.{Exec, pure, fail, lift, attempt, ◌>>=◌, ◌>>◌}
use opni_monitoring.Core.Types.{Reference, BootstrapToken, TokenCapability, token_metadata}
use opni_monitoring.Tokens.{new_token, to_bootstrap_token}
use opni_monitoring.Storage.Mutators.{Mutator}
use opni_monitoring.Etcd.Client.{
  Client, KeyValue, Codec, Retry, is_retry_err, object_key, kind_key, tokens_kind,
}
use opni_monitoring.Etcd.Clusters.{succeeded}

-- storage.TokenCreateOptions, with the options applied
pub record TokenCreateOptions : Type 0 where
  pub labels : Assoc Str
  pub capabilities : List TokenCapability

unfoldable pub token_key : Str → Str → Str
token_key prefix id = object_key prefix tokens_kind id

-- token.Metadata.LeaseID = lease and token.Metadata.Ttl = ttl; Metadata may be nil.
unfoldable pub set_lease : ℕ → ℕ → BootstrapToken → Result BootstrapToken
set_lease lease ttl t = elim t.metadata [
  | none ↦ err panicked
  | some m ↦ ok (record t { metadata = some (record m { lease_id = lease; ttl = ttl }) })
]

-- The token that CreateToken stores, made of the digest of fresh random bytes.
unfoldable pub fresh_token : Str → ℕ → TokenCreateOptions → BootstrapToken
fresh_token sum lease options = record (to_bootstrap_token (new_token sum)) {
  metadata = some (record {
    lease_id = lease;
    ttl = 0;
    usage_count = 0;
    labels = options.labels;
    capabilities = options.capabilities;
  });
}

module _ (etcd : Client) (json : Codec BootstrapToken) (prefix : Str) where
  open etcd use {State, get, get_prefix, put, delete, commit, grant, revoke, time_to_live}

  -- `ttl` is int64(ttl.Seconds()); `sum` is the digest that NewToken computes.
  unfoldable pub create_token : ℕ → Str → TokenCreateOptions → Exec State BootstrapToken
  unfolding fresh_token set_lease
  create_token ttl sum options = do
    lease ← grant ttl
    let token = fresh_token sum lease options
    data' ← lift (json.marshal token)
    put (token_key prefix token.token_id) data' lease
    lift (set_lease lease ttl token)

  -- A key without a lease leaves the token as it was read. LeaseID is set before the lookup of
  -- the lease, whose failure drops the token.
  unfoldable pub add_lease_metadata : BootstrapToken → ℕ → Exec State BootstrapToken
  unfolding set_lease
  add_lease_metadata token lease = if lease == 0 then pure token else do
    lift (set_lease lease 0 token)
    ttl ← time_to_live lease
    lift (set_lease lease ttl token)

  unfoldable pub read_token : Option KeyValue → Exec State (BootstrapToken × ℕ)
  unfolding add_lease_metadata
  read_token none = fail not_found
  read_token (some kv) = do
    token ← lift (json.unmarshal kv.value)
    leased ← add_lease_metadata token kv.lease
    pure (leased, kv.version)

  -- getToken
  unfoldable pub get_token_version : Reference → Exec State (BootstrapToken × ℕ)
  unfolding read_token
  get_token_version ref = do found ← get (token_key prefix ref.id); read_token found

  unfoldable pub get_token : Reference → Exec State BootstrapToken
  unfolding get_token_version
  get_token ref = do found ← get_token_version ref; pure found.0

  -- The deferred revocation runs when the function returns; its failure is only logged.
  unfoldable pub revoke_after : ℕ → Exec State (Unit {0}) → Exec State (Unit {0})
  revoke_after lease body =
      if lease == 0
      then body
      else do result ← attempt body; revoked ← attempt (revoke lease); lift result

  unfoldable pub delete_token : Reference → Exec State (Unit {0})
  unfolding get_token revoke_after
  delete_token ref = do
    t ← get_token ref
    revoke_after (token_metadata t).lease_id do
      deleted ← delete (token_key prefix ref.id)
      if deleted == 0 then fail not_found else pure tt

  unfoldable pub read_tokens : List KeyValue → Exec State (List BootstrapToken)
  unfolding add_lease_metadata
  read_tokens [] = pure []
  read_tokens (kv ∷ kvs) = do
    token ← lift (json.unmarshal kv.value)
    leased ← add_lease_metadata token kv.lease
    items ← read_tokens kvs
    pure (leased ∷ items)

  unfoldable pub list_tokens : Exec State (List BootstrapToken)
  unfolding read_tokens
  list_tokens = do kvs ← get_prefix (kind_key prefix tokens_kind); read_tokens kvs

  -- One call of the function that UpdateToken retries; the put keeps the key's lease.
  unfoldable pub update_token_once : Reference → Mutator BootstrapToken → Exec State BootstrapToken
  unfolding get_token_version
  update_token_once ref mutator = do
    found ← get_token_version ref
    token ← lift (mutator found.0)
    data' ← lift (json.marshal token)
    done ← commit (token_key prefix ref.id) found.1 data' true
    succeeded token done

  unfoldable pub update_token :
      Retry State BootstrapToken → Reference → Mutator BootstrapToken → Exec State BootstrapToken
  unfolding update_token_once
  update_token retry ref mutator = retry is_retry_err (update_token_once ref mutator)
