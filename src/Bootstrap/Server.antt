-- ===== src/Bootstrap/Server.antt =====
-- The handlers of ServerConfig in pkg/bootstrap/server.go.
use opni_monitoring.Prelude.{
  ℕ, Str, str_eq, codes, Assoc, insert, Option, none, some, Bool, true, false, not, List, [], ◌∷◌,
  is_empty, if◌then◌else◌, Result, ok, err, Error, is_not_found, not_found, unknown_capability,
  panicked,
}
use opni_monitoring.Prelude
use opni_monitoring.Exec
use opni_monitoring.Exec.{Exec}
use opni_monitoring.GoLib.Text.{trim_space, trim_prefix}
use opni_monitoring.Core.Types.{
  slot_token, Reference, BootstrapToken, Cluster, cluster_reference, token_reference, token_labels,
}
use opni_monitoring.Storage.Mutators.{
  composite_mutator, increment_usage_count, add_token_capability, add_cluster_capability, token_has,
  cluster_has, join_existing_cluster_for, cluster_capability,
}
use opni_monitoring.Tokens.{Token, reference, hex_id, from_bootstrap_token}
use opni_monitoring.Tokens.Jws.{Signer, SigningKey, sign_detached}
use opni_monitoring.Keyring.{Keyring, shared, new, new_shared_keys, merge}
use opni_monitoring.Ecdh.{Crypto, EphemeralKeyPair, client, derive_shared_secret}
use opni_monitoring.Bootstrap.{
  AuthRequest, validate_request, Stores, no_body, text, signatures, server_pub_key, Response, send,
  crashed, Progress, respond, proceed, Handler,
}
use opni_monitoring.Bootstrap.Handler.{◌>>=◌, ◌>>◌, stop, go_on, check, check_result}

-- The response to a GetToken that failed.
abbrev pub token_error : Error → Response
token_error e = if is_not_found e then send 401 no_body else send 500 no_body

-- The response to a CanInstall that failed.
abbrev pub install_error : Error → Response
install_error unknown_capability = send 404 text
install_error _ = send 503 text

-- What the handler of /bootstrap/auth has established when it begins to write.
pub record Plan : Type 0 where
  pub request : AuthRequest
  pub token : BootstrapToken
  pub keyring : Keyring
  pub edit_existing : Bool

-- What the handler is given: the header Authorization and the result of parsing the body.
pub record HttpRequest : Type 0 where
  pub authorization : Str
  pub body : Result AuthRequest

module _ {S : Type 0} (j : Signer) (stores : Stores S) where
  open j use {PrivateKey, PublicKey, verify}
  open stores use {
    list_tokens, get_token, update_token, get_cluster, create_cluster, update_cluster, open_keyring,
    get_keyring, put_keyring, can_install, install_capabilities,
  }

  -- The loop of bootstrapJoinResponse.
  unfoldable pub sign_tokens :
      SigningKey PrivateKey → Assoc Str → List (Option BootstrapToken) → Result (Assoc Str)
  unfolding slot_token
  sign_tokens key acc [] = ok acc
  sign_tokens key acc (t ∷ ts) = Prelude.◌>>=◌ (from_bootstrap_token (slot_token t)) λ raw.
      Prelude.◌>>=◌ (sign_detached j raw key)
        λ sig. sign_tokens key (insert (hex_id raw) sig acc) ts

  -- The two tests of the signatures that were gathered.
  abbrev pub join_response : Assoc Str → Response
  join_response [] = send 405 no_body
  join_response (entry ∷ entries) = send 200 (signatures (entry ∷ entries))

  unfoldable pub handle_bootstrap_join : SigningKey PrivateKey → Str → S → Response × S
  unfolding sign_tokens
  handle_bootstrap_join key authorization s =
      if is_empty (trim_space authorization)
      then (let (listed, s') = list_tokens s in
          (
            elim (Prelude.◌>>=◌ listed (sign_tokens key [])) [
              | ok sigs ↦ join_response sigs
              | err e ↦ send 500 no_body
            ],
            s',
          ))
      else (send 400 no_body, s)

  -- Whether the cluster with the requested id exists and may be edited.
  unfoldable pub decide_existing : AuthRequest → BootstrapToken → Result Cluster → Progress Bool
  decide_existing req token (err e) =
      if is_not_found e then proceed false else respond (send 500 no_body)
  decide_existing req token (ok cluster) =
      if cluster_has cluster (cluster_capability req.capability)
      then respond (send 409 text)
      else if token_has token (join_existing_cluster_for (record { id = req.client_id }))
      then proceed true
      else respond (send 401 text)

  unfoldable pub check_existing : AuthRequest → BootstrapToken → Handler S Bool
  unfolding decide_existing
  check_existing req token s =
      let (found, s') = get_cluster (record { id = req.client_id }) s in
      (decide_existing req token found, s')

  -- The server's key pair and the shared keys that it derives with the client's public key.
  unfoldable pub derive_keyring :
      Crypto → (Str → Str) → EphemeralKeyPair → AuthRequest → Progress Keyring
  derive_keyring crypto from_seed ekp req =
      elim (derive_shared_secret crypto ekp req.client_pub_key client) [
        | err e ↦ respond (send 500 no_body)
        | ok secret ↦
            elim (Prelude.◌>>=◌ (new_shared_keys from_seed secret) λ k. new (shared k ∷ [])) [
              | err e ↦ respond crashed
              | ok kr ↦ proceed kr
            ]
      ]

  -- The bearer token's signature, and the token that it carries.
  unfoldable pub authenticate : (Str → Result Token) → PublicKey → Str → Handler S BootstrapToken
  authenticate parse_json public_key authorization =
      let header = trim_space authorization in
      if is_empty (trim_space header) then stop (send 401 no_body) else do
        payload ←
            check_result (verify (trim_space (trim_prefix header (codes "Bearer"))) public_key)
              (λ _. send 401 no_body)
        token ← check_result (parse_json payload) (λ _. crashed)
        check (get_token (reference token)) token_error

  -- handleBootstrapAuth up to its first write.
  unfoldable pub prepare :
      (Str → Result Token)
      → PublicKey
      → Crypto
      → (Str → Str)
      → EphemeralKeyPair
      → HttpRequest
      → Handler S Plan
  unfolding authenticate check_existing derive_keyring
  prepare parse_json public_key crypto from_seed ekp http = do
    token ← authenticate parse_json public_key http.authorization
    req ← check_result http.body (λ _. send 400 text)
    check_result (validate_request req) (λ _. send 400 text)
    edit ← check_existing req token
    kr ← (λ s. (derive_keyring crypto from_seed ekp req, s))
    check (can_install req.capability) install_error
    go_on (record { request = req; token = token; keyring = kr; edit_existing = edit })

  -- Opens the keyring store of a cluster, writes the keyring and installs the capability.
  unfoldable pub install : Reference → Str → S → Result (Unit {0}) × S
  install ref capability s = (ok tt, install_capabilities ref capability s)

  unfoldable pub handle_create : Cluster → Str → BootstrapToken → Keyring → Exec S (Unit {0})
  unfolding install
  handle_create new_cluster new_capability token kr = Exec.◌>>◌ (create_cluster new_cluster) (
      Exec.◌>>=◌
        (update_token (token_reference token) (
          composite_mutator (
            increment_usage_count
            ∷ add_token_capability (join_existing_cluster_for (cluster_reference new_cluster))
            ∷ [])))
        λ _. Exec.◌>>◌ (open_keyring (cluster_reference new_cluster)) (
          Exec.◌>>◌ (put_keyring (cluster_reference new_cluster) kr)
            (install (cluster_reference new_cluster) new_capability)))

  -- The two flags are the orders in which Merge ranges over the keyrings.
  unfoldable pub handle_edit :
      Bool → Bool → Reference → Str → BootstrapToken → Keyring → Exec S (Unit {0})
  unfolding install
  handle_edit order order' existing new_capability token kr =
      Exec.◌>>=◌ (update_token (token_reference token) increment_usage_count) λ _.
        Exec.◌>>=◌
          (update_cluster existing (add_cluster_capability (cluster_capability new_capability)))
          λ _. Exec.◌>>◌ (open_keyring existing) (
            Exec.◌>>=◌ (get_keyring existing) λ old.
              Exec.◌>>=◌ (Exec.lift (merge order order' kr old))
                λ merged. Exec.◌>>◌ (put_keyring existing merged) (install existing new_capability))

  -- The new cluster of a request.
  abbrev pub cluster_of : AuthRequest → BootstrapToken → Cluster
  cluster_of req token = record {
    id = req.client_id;
    metadata = some (record {
      labels = token_labels token;
      capabilities = cluster_capability req.capability ∷ [];
    });
  }

  unfoldable pub execute : Bool → Bool → Plan → Exec S (Unit {0})
  unfolding handle_create handle_edit
  execute order order' p =
      if p.edit_existing
      then handle_edit order order' (record { id = p.request.client_id }) p.request.capability
          p.token p.keyring
      else handle_create (cluster_of p.request p.token) p.request.capability p.token p.keyring

  abbrev pub final_response : EphemeralKeyPair → Result (Unit {0}) → Response
  final_response ekp (ok _) = send 200 (server_pub_key ekp.public_key)
  final_response ekp (err panicked) = crashed
  final_response ekp (err e) = send 500 text

  unfoldable pub finish : Bool → Bool → EphemeralKeyPair → Progress Plan → S → Response × S
  unfolding execute
  finish order order' ekp (respond r) s = (r, s)
  finish order order' ekp (proceed p) s =
      let (done, s') = execute order order' p s in (final_response ekp done, s')

  unfoldable pub handle_bootstrap_auth :
      (Str → Result Token)
      → PublicKey
      → Crypto
      → (Str → Str)
      → EphemeralKeyPair
      → Bool
      → Bool
      → HttpRequest
      → S
      → Response × S
  unfolding prepare finish
  handle_bootstrap_auth parse_json public_key crypto from_seed ekp order order' http s =
      let (p, s') = prepare parse_json public_key crypto from_seed ekp http s in
      finish order order' ekp p s'
