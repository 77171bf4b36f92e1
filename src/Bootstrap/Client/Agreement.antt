-- ===== src/Bootstrap/Client/Agreement.antt =====
-- The client against the server: both get the same keys.
use opni_monitoring.Prelude.{
  ℕ, Str, codes, Assoc, lookup, Option, none, some, Bool, true, false, List, [], ◌∷◌, ◌++◌, Result,
  ok, err, Error, >>=-ok, ok_injective, ◌≡◌, refl, sym, ap, ◌∙◌, bootstrap_failed,
  no_valid_signature, other,
}
use opni_monitoring.Prelude
use opni_monitoring.Exec.{Exec}
use opni_monitoring.Tokens.Jws.{Signer}
use opni_monitoring.Pkp.{PublicKeyPin}
use opni_monitoring.Keyring.{Keyring, SharedKeys, shared, new, new_shared_keys, add_keys}
use opni_monitoring.Ecdh.{
  Crypto, EphemeralKeyPair, client, server, derive_shared_secret, derive_shared_secret_agrees,
}
use opni_monitoring.Bootstrap.{
  AuthRequest, Stores, Response, send, crashed, server_pub_key, no_body, Progress, respond, proceed,
}
use opni_monitoring.Bootstrap.Server.{derive_keyring}
use opni_monitoring.Bootstrap.Client.{
  ClientConfig, Transport, body_of, read_pub_key, client_keyring, bootstrap,
}
use opni_monitoring.Bootstrap.Client.Run.{Exchanged, Bootstrapped, bootstrap_with-Bootstrapped}

-- Both keyrings hold the keys that a secret gives.
abbrev KeysOf : (Str → Str) → Result Str → List SharedKeys → Type 0
KeysOf from_seed r ks =
    (secret : Str) × (k : SharedKeys) × (r ≡ ok secret)
    × (new_shared_keys from_seed secret ≡ ok k)
    × (ks ≡ k ∷ [])

client_keyring-KeysOf :
    (crypto : Crypto) (from_seed : Str → Str) (pins : List PublicKeyPin) (ekp : EphemeralKeyPair)
    (key : Str) (kr : Keyring)
    → client_keyring crypto from_seed pins ekp key ≡ ok kr
    → KeysOf from_seed (derive_shared_secret crypto ekp key server) kr.shared_keys
unfolding client_keyring new add_keys
client_keyring-KeysOf crypto from_seed pins ekp key kr h =
    let (secret, derived, rest) = >>=-ok (derive_shared_secret crypto ekp key server) _ h in
    let (k, made, filled) = >>=-ok (new_shared_keys from_seed secret) _ rest in
    (secret, k, derived, made, ap (λ (x : Keyring). x.shared_keys) (sym (ok_injective filled)))

proceeded :
    (m : Result Keyring) (kr : Keyring)
    → (elim m as (λ _. Progress Keyring) [ err e ↦ respond crashed | ok x ↦ proceed x ])
      ≡ proceed kr
    → m ≡ ok kr
proceeded (err e) kr h = cc
proceeded (ok x) kr h = cc

made_keys :
    (from_seed : Str → Str) (r : Result Str) (kr : Keyring)
    → (elim r as (λ _. Progress Keyring) [
      | err e ↦ respond (send 500 no_body)
      | ok secret ↦
          elim (Prelude.◌>>=◌ (new_shared_keys from_seed secret) λ k. new (shared k ∷ [])) [
            | err e ↦ respond crashed
            | ok kr ↦ proceed kr
          ]
    ])
      ≡ proceed kr
    → KeysOf from_seed r kr.shared_keys
unfolding new add_keys
made_keys from_seed (err e) kr h = cc
made_keys from_seed (ok secret) kr h =
    let (k, made, filled) = >>=-ok (new_shared_keys from_seed secret) _ (
      proceeded (Prelude.◌>>=◌ (new_shared_keys from_seed secret) λ k. new (shared k ∷ [])) kr h) in
    (secret, k, refl, made, ap (λ (x : Keyring). x.shared_keys) (sym (ok_injective filled)))

one_secret :
    (from_seed : Str → Str) (r r' : Result Str) (ks ks' : List SharedKeys)
    → KeysOf from_seed r ks
    → KeysOf from_seed r' ks'
    → r ≡ r'
    → ks ≡ ks'
one_secret from_seed r r' ks ks' (secret, k, derived, made, is) (secret', k', derived', made', is')
      same =
    let secrets = ok_injective (sym derived ∙ same ∙ derived') in
    let keys =
      ok_injective (sym made ∙ ap (λ (x : Str). new_shared_keys from_seed x) secrets ∙ made') in
    is ∙ ap (λ (x : SharedKeys). x ∷ []) keys ∙ sym is'

module _ {S : Type 0} (j : Signer) (stores : Stores S) (crypto : Crypto)
    (from_seed : Str → Str) where
  derive_keyring-KeysOf :
      (ekp : EphemeralKeyPair) (req : AuthRequest) (kr : Keyring)
      → derive_keyring j stores crypto from_seed ekp req ≡ proceed kr
      → KeysOf from_seed (derive_shared_secret crypto ekp req.client_pub_key client) kr.shared_keys
  unfolding derive_keyring
  derive_keyring-KeysOf ekp req kr h =
      made_keys from_seed (derive_shared_secret crypto ekp req.client_pub_key client) kr h

module _ {W : Type 0} (j : Signer) (transport : Transport j.PublicKey W) (c : ClientConfig)
    (crypto : Crypto) (from_seed : Str → Str) (ekp : EphemeralKeyPair) where
  open j use {PublicKey}

  -- If Bootstrap succeeds against an endpoint whose answers to /bootstrap/auth carry the public key
  -- of a server's key pair, and the two scalar multiplications of the two pairs agree, then the
  -- server, when it derives a keyring from a request with the client's public key, gets exactly
  -- the shared keys of the client's new keyring. Moreover the run of the call was this, each step
  -- in the state that the one before left: one request to /bootstrap/join over the configured
  -- pins, whose answer has a signature under its token's id, which VerifyDetached accepted with
  -- the key of that connection; the identifier; and last one request to /bootstrap/auth, over the
  -- configured pins, whose bearer token is what VerifyDetached returned and which names the
  -- identifier, the client's public key and the capability, and from whose answer the keyring is.
  pub bootstrap-agrees :
      {S : Type 0} (stores : Stores S) (server_pair : EphemeralKeyPair) (req : AuthRequest)
      (unique_identifier : Exec W Str) (w : W) (kr server_kr : Keyring)
      → ((check : List PublicKeyPin) (url authorization : Str) (r : AuthRequest) (t : W)
          → (transport.auth check url authorization r t).0
            ≡ ok (send 200 (server_pub_key server_pair.public_key)))
      → crypto.x25519 server_pair.private_key ekp.public_key
        ≡ crypto.x25519 ekp.private_key server_pair.public_key
      → req.client_pub_key ≡ ekp.public_key
      → derive_keyring j stores crypto from_seed server_pair req ≡ proceed server_kr
      → (bootstrap j transport c crypto from_seed ekp unique_identifier w).0 ≡ ok kr
      → (kr.shared_keys ≡ server_kr.shared_keys)
        × Bootstrapped j transport c crypto from_seed ekp unique_identifier w
            (bootstrap j transport c crypto from_seed ekp unique_identifier w).1
            kr
  unfolding bootstrap body_of
  bootstrap-agrees stores server_pair req unique_identifier w kr server_kr serves curve sent derived
        h =
      let finish : W = (bootstrap j transport c crypto from_seed ekp unique_identifier w).1 in
      let b : Bootstrapped j transport c crypto from_seed ekp unique_identifier w finish kr =
        bootstrap_with-Bootstrapped j transport c crypto from_seed ekp unique_identifier c.token w
          kr refl h in
      let x : Exchanged j transport c crypto from_seed ekp b.check b.complete_jws b.id b.identified
          finish kr =
        b.exchanged in
      let key =
        server_key_of x.answer x.server_key
          (ok_injective (
            ap (λ (p : Result Response × W). p.0) (sym x.sent)
            ∙ serves b.check (transport.with_path x.url (codes "bootstrap/auth"))
                (codes "Bearer " ++ b.complete_jws)
                (record {
                  client_id = b.id;
                  client_pub_key = ekp.public_key;
                  capability = c.capability;
                })
                b.identified))
          x.answered in
      (
        one_secret from_seed _ _ kr.shared_keys server_kr.shared_keys
            (client_keyring-KeysOf crypto from_seed c.pins ekp x.server_key kr x.keyed)
            (derive_keyring-KeysOf j stores crypto from_seed server_pair req server_kr derived)
            (ap (λ (k : Str). derive_shared_secret crypto ekp k server) key
              ∙ sym (derive_shared_secret_agrees crypto server_pair ekp curve)
              ∙ ap (λ (k : Str). derive_shared_secret crypto server_pair k client) (sym sent)),
        b,
      )
    where
      server_key_of :
          (answer : Response) (key : Str)
          → answer ≡ send 200 (server_pub_key server_pair.public_key)
          → Prelude.◌>>=◌ (body_of bootstrap_failed answer) read_pub_key ≡ ok key
          → key ≡ server_pair.public_key
      server_key_of answer key is read = sym (
          ok_injective (
            sym (ap (λ (r : Response). Prelude.◌>>=◌ (body_of bootstrap_failed r) read_pub_key) is)
            ∙ read))
