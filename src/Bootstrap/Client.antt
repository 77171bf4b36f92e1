-- ===== src/Bootstrap/Client.antt =====
-- pkg/bootstrap/client.go, less Finalize. HTTP over TLS is a parameter: it takes the check of the
-- connection that pkp.TLSConfig makes, and gives the response and the public key of the peer's
-- leaf certificate. So are url.Parse and the JSON of the two messages.
pub mod Run
pub mod Agreement
use opni_monitoring.Prelude.{
  ℕ, Str, codes, Assoc, lookup, Option, none, some, Bool, true, false, not, List, [], ◌∷◌, ◌++◌,
  ◌==◌, if◌then◌else◌, Result, ok, err, Error, other, bootstrap_failed, no_valid_signature,
  no_token,
}
use opni_monitoring.Prelude
use opni_monitoring.Exec.{Exec, pure, lift, fail, ◌>>=◌}
use opni_monitoring.Tokens.{Token, hex_id}
use opni_monitoring.Tokens.Jws.{Signer, verify_detached}
use opni_monitoring.Pkp.{PublicKeyPin, tls_config}
use opni_monitoring.Keyring.{Keyring, shared, pkp, new, new_shared_keys, new_pkp_key}
use opni_monitoring.Ecdh.{Crypto, EphemeralKeyPair, server, derive_shared_secret}
use opni_monitoring.Bootstrap.{
  AuthRequest, Response, send, crashed, Body, no_body, text, signatures, server_pub_key,
}

-- The fields of ClientConfig that Bootstrap reads.
pub record ClientConfig : Type 0 where
  pub capability : Str
  pub token : Option Token
  pub pins : List PublicKeyPin
  pub endpoint : Str

-- One exchange, and what each of the two requests is made of.
-- A tls.Config is the pins that it checks.
pub record Transport (PublicKey W : Type 0) : Type 0 where
  -- url.Parse, and the URL with the scheme https and a path
  pub parse : Str → Result Str
  pub with_path : Str → Str → Str
  pub join : List PublicKeyPin → Str → Exec W (Response × PublicKey)
  pub auth : List PublicKeyPin → Str → Str → AuthRequest → Exec W Response

-- json.Unmarshal of a BootstrapJoinResponse; fields that are absent stay empty.
abbrev pub read_signatures : Body → Result (Assoc Str)
read_signatures no_body = err other
read_signatures text = err other
read_signatures (signatures sigs) = ok sigs
read_signatures (server_pub_key k) = ok []

-- The same of a BootstrapAuthResponse.
abbrev pub read_pub_key : Body → Result Str
read_pub_key no_body = err other
read_pub_key text = err other
read_pub_key (signatures sigs) = ok []
read_pub_key (server_pub_key k) = ok k

-- if resp.StatusCode != 200 { return fault }, and the body otherwise
unfoldable pub body_of : Error → Response → Result Body
body_of fault (send status body) = if not (status == 200) then err fault else ok body
body_of fault crashed = err other

module _ (j : Signer) where
  open j use {PublicKey}

  unfoldable pub find_valid_signature : Token → Assoc Str → PublicKey → Result Str
  unfolding verify_detached
  find_valid_signature token sigs key = elim (lookup (hex_id token) sigs) [
    | none ↦ err no_valid_signature
    | some sig ↦ verify_detached j token sig key
  ]

-- The end of Bootstrap: the secret that is shared with the server, and the keyring of it.
unfoldable pub client_keyring :
    Crypto → (Str → Str) → List PublicKeyPin → EphemeralKeyPair → Str → Result Keyring
client_keyring crypto from_seed pins ekp key =
    Prelude.◌>>=◌ (derive_shared_secret crypto ekp key server) λ secret.
      Prelude.◌>>=◌ (new_shared_keys from_seed secret)
        λ keys. new (shared keys ∷ pkp (new_pkp_key pins) ∷ [])

module _ {W : Type 0} (j : Signer) (transport : Transport j.PublicKey W) (c : ClientConfig) where
  open j use {PublicKey}

  unfoldable pub bootstrap_join : Exec W (Assoc Str × PublicKey)
  unfolding body_of
  bootstrap_join = do
    url ← lift (transport.parse c.endpoint)
    check ← lift (tls_config c.pins)
    answer ← transport.join check (transport.with_path url (codes "bootstrap/join"))
    body ← lift (body_of other answer.0)
    sigs ← lift (read_signatures body)
    pure (sigs, answer.1)

  -- Bootstrap from the request to /bootstrap/auth on.
  unfoldable pub request_keyring :
      Crypto → (Str → Str) → EphemeralKeyPair → List PublicKeyPin → Str → Str → Exec W Keyring
  unfolding client_keyring body_of
  request_keyring crypto from_seed ekp check complete_jws id = do
    url ← lift (transport.parse c.endpoint)
    answer ←
        transport.auth check (transport.with_path url (codes "bootstrap/auth"))
          (codes "Bearer " ++ complete_jws)
          (record { client_id = id; client_pub_key = ekp.public_key; capability = c.capability })
    body ← lift (body_of bootstrap_failed answer)
    key ← lift (read_pub_key body)
    lift (client_keyring crypto from_seed c.pins ekp key)

  unfoldable pub bootstrap_with :
      Crypto → (Str → Str) → EphemeralKeyPair → Exec W Str → Option Token → Exec W Keyring
  unfolding bootstrap_join find_valid_signature request_keyring
  bootstrap_with crypto from_seed ekp unique_identifier none = fail no_token
  bootstrap_with crypto from_seed ekp unique_identifier (some token) = do
    answer ← bootstrap_join
    complete_jws ← lift (find_valid_signature j token answer.0 answer.1)
    check ← lift (tls_config c.pins)
    id ← unique_identifier
    request_keyring crypto from_seed ekp check complete_jws id

  -- `ekp` is what NewEphemeralKeyPair makes.
  unfoldable pub bootstrap : Crypto → (Str → Str) → EphemeralKeyPair → Exec W Str → Exec W Keyring
  unfolding bootstrap_with
  bootstrap crypto from_seed ekp unique_identifier =
      bootstrap_with crypto from_seed ekp unique_identifier c.token
