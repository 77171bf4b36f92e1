-- ===== src/Bootstrap/Client/Run.antt =====
-- What a successful Bootstrap asked of the server, in which states, and what it verified.
use opni_monitoring.Prelude.{
  ℕ, Str, codes, Assoc, lookup, Option, none, some, Bool, true, false, List, [], ◌∷◌, ◌++◌, Result,
  ok, err, Error, >>=-ok, ok_injective, ◌≡◌, refl, sym, ap, ◌∙◌, bootstrap_failed,
  no_valid_signature, other,
}
use opni_monitoring.Prelude
use mathlib.Core.Path.{subst}
use opni_monitoring.Exec.{Exec, bind_ok}
use opni_monitoring.Tokens.{Token, hex_id}
use opni_monitoring.Tokens.Jws.{Signer, verify_detached}
use opni_monitoring.Pkp.{PublicKeyPin, tls_config}
use opni_monitoring.Keyring.{Keyring}
use opni_monitoring.Ecdh.{Crypto, EphemeralKeyPair}
use opni_monitoring.Bootstrap.{AuthRequest, Response, Body}
use opni_monitoring.Bootstrap.Client.{
  ClientConfig, Transport, body_of, read_pub_key, read_signatures, find_valid_signature,
  client_keyring, bootstrap_join, request_keyring, bootstrap_with,
}

module _ {W : Type 0} (j : Signer) (transport : Transport j.PublicKey W) (c : ClientConfig)
    (crypto : Crypto) (from_seed : Str → Str) (ekp : EphemeralKeyPair) where
  open j use {PublicKey}

  -- One exchange with /bootstrap/auth, from which a keyring came. It was made in the state
  -- `before`, and nothing after it changed the state that it left.
  pub record Exchanged (check : List PublicKeyPin) (jws id : Str) (before finish : W) (kr : Keyring)
      : Type 0 where
    pub url : Str
    pub answer : Response
    pub server_key : Str
    pub parsed : transport.parse c.endpoint ≡ ok url
    pub sent :
        transport.auth check
          (transport.with_path url (codes "bootstrap/auth"))
          (codes "Bearer " ++ jws)
          (record { client_id = id; client_pub_key = ekp.public_key; capability = c.capability })
          before
        ≡ (ok answer, finish)
    pub answered : Prelude.◌>>=◌ (body_of bootstrap_failed answer) read_pub_key ≡ ok server_key
    pub keyed : client_keyring crypto from_seed c.pins ekp server_key ≡ ok kr

  request_keyring-Exchanged :
      (check : List PublicKeyPin) (jws id : Str) (w : W) (kr : Keyring)
      → (request_keyring j transport c crypto from_seed ekp check jws id w).0 ≡ ok kr
      → Exchanged check jws id w
          (request_keyring j transport c crypto from_seed ekp check jws id w).1
          kr
  unfolding request_keyring
  request_keyring-Exchanged check jws id w kr h =
      let (u, parsed, run, rest) = bind_ok (λ (t : W). (transport.parse c.endpoint, t)) _ w h in
      let req : AuthRequest = record {
        client_id = id;
        client_pub_key = ekp.public_key;
        capability = c.capability;
      } in
      let call : Exec W Response =
        transport.auth check (transport.with_path u (codes "bootstrap/auth"))
          (codes "Bearer " ++ jws) req in
      let (answer, sent, run1, rest1) = bind_ok call _ w rest in
      let w1 : W = (call w).1 in
      let (body, two_hundred, run2, rest2) =
        bind_ok (λ (t : W). (body_of bootstrap_failed answer, t)) _ w1 rest1 in
      let (key, read, run3, keyed) =
        bind_ok (λ (t : W). (read_pub_key body, t))
          (λ key t. (client_keyring crypto from_seed c.pins ekp key, t)) w1 rest2 in
      record {
        url = u;
        answer = answer;
        server_key = key;
        parsed = parsed;
        sent =
            ap (λ (r : Result Response). (r, w1)) sent
            ∙ ap (λ (p : Result Keyring × W). (ok answer, p.1)) (sym (run ∙ run1 ∙ run2 ∙ run3));
        answered = ap (λ (r : Result Body). Prelude.◌>>=◌ r read_pub_key) two_hundred ∙ read;
        keyed = keyed;
      }

  -- The exchange with /bootstrap/join: over the configured pins, with the signatures of its answer
  -- and the key of its connection.
  pub record Joined (start finish : W) (sigs : Assoc Str) (key : PublicKey) : Type 0 where
    pub url : Str
    pub check : List PublicKeyPin
    pub answer : Response
    pub parsed : transport.parse c.endpoint ≡ ok url
    pub pinned : tls_config c.pins ≡ ok check
    pub sent :
        transport.join check (transport.with_path url (codes "bootstrap/join")) start
        ≡ (ok (answer, key), finish)
    pub answered : Prelude.◌>>=◌ (body_of other answer) read_signatures ≡ ok sigs

  Joined-of :
      (w finish : W) (u : Str) (check : List PublicKeyPin) (answer : Response) (key' : PublicKey)
      (body : Body) (sigs' sigs : Assoc Str) (key : PublicKey)
      → transport.parse c.endpoint ≡ ok u
      → tls_config c.pins ≡ ok check
      → transport.join check (transport.with_path u (codes "bootstrap/join")) w
        ≡ (ok (answer, key'), finish)
      → body_of other answer ≡ ok body
      → read_signatures body ≡ ok sigs'
      → ◌≡◌ {A = Assoc Str × PublicKey} (sigs', key') (sigs, key)
      → Joined w finish sigs key
  Joined-of w finish u check answer key' body sigs' sigs key parsed pinned sent two_hundred read
        same =
      record {
        url = u;
        check = check;
        answer = answer;
        parsed = parsed;
        pinned = pinned;
        sent = sent ∙ ap (λ (p : Assoc Str × PublicKey). (ok (answer, p.1), finish)) same;
        answered =
            ap (λ (r : Result Body). Prelude.◌>>=◌ r read_signatures) two_hundred
            ∙ read
            ∙ ap (λ (p : Assoc Str × PublicKey). ok p.0) same;
      }

  bootstrap_join-Joined :
      (w : W) (sigs : Assoc Str) (key : PublicKey)
      → (bootstrap_join j transport c w).0 ≡ ok (sigs, key)
      → Joined w (bootstrap_join j transport c w).1 sigs key
  unfolding bootstrap_join
  bootstrap_join-Joined w sigs key h =
      let (u, parsed, run, rest) = bind_ok (λ (t : W). (transport.parse c.endpoint, t)) _ w h in
      let (check, pinned, run1, rest1) = bind_ok (λ (t : W). (tls_config c.pins, t)) _ w rest in
      let call : Exec W (Response × PublicKey) =
        transport.join check (transport.with_path u (codes "bootstrap/join")) in
      let (answer, sent, run2, rest2) = bind_ok call _ w rest1 in
      let w1 : W = (call w).1 in
      let (body, two_hundred, run3, rest3) =
        bind_ok (λ (t : W). (body_of other answer.0, t)) _ w1 rest2 in
      let (sigs', read, run4, rest4) =
        bind_ok (λ (t : W). (read_signatures body, t)) (λ x t. (ok (x, answer.1), t)) w1 rest3 in
      subst (λ f. Joined w f sigs key)
        (ap (λ (p : Result (Assoc Str × PublicKey) × W). p.1)
          (sym (run ∙ run1 ∙ run2 ∙ run3 ∙ run4)))
        (Joined-of w w1 u check answer.0 answer.1 body sigs' sigs key parsed pinned
          (ap (λ (r : Result (Response × PublicKey)). (r, w1)) sent) two_hundred read
          (ok_injective rest4))

  found_signature :
      (token : Token) (o : Option Str) (key : PublicKey) (jws : Str)
      → (elim o as (λ _. Result Str) [
        | none ↦ err no_valid_signature
        | some sig ↦ verify_detached j token sig key
      ])
        ≡ ok jws
      → (sig : Str) × (o ≡ some sig) × (verify_detached j token sig key ≡ ok jws)
  found_signature token none key jws h = cc
  found_signature token (some sig) key jws h = (sig, refl, h)

  find_valid_signature-ok :
      (token : Token) (sigs : Assoc Str) (key : PublicKey) (jws : Str)
      → find_valid_signature j token sigs key ≡ ok jws
      → (sig : Str) × (lookup (hex_id token) sigs ≡ some sig)
        × (verify_detached j token sig key ≡ ok jws)
  unfolding find_valid_signature
  find_valid_signature-ok token sigs key jws h =
      found_signature token (lookup (hex_id token) sigs) key jws h

  -- The run of a successful Bootstrap from a state: the answer to /bootstrap/join, the signature
  -- in it that stands under the id of the token and was verified with the key of the connection,
  -- the identifier, and the exchange with /bootstrap/auth, each in the state that the one before
  -- left, up to the last.
  pub record Bootstrapped (unique_identifier : Exec W Str) (start finish : W) (kr : Keyring)
      : Type 0 where
    pub token : Token
    pub sigs : Assoc Str
    pub key : PublicKey
    pub complete_jws : Str
    pub check : List PublicKeyPin
    pub id : Str
    pub joined : W
    pub identified : W
    pub given : c.token ≡ some token
    pub sig : Str
    pub answered : Joined start joined sigs key
    pub found : lookup (hex_id token) sigs ≡ some sig
    pub verified : verify_detached j token sig key ≡ ok complete_jws
    pub pinned : tls_config c.pins ≡ ok check
    pub named : unique_identifier joined ≡ (ok id, identified)
    pub exchanged : Exchanged check complete_jws id identified finish kr

  pub bootstrap_with-Bootstrapped :
      (unique_identifier : Exec W Str) (o : Option Token) (w : W) (kr : Keyring)
      → c.token ≡ o
      → (bootstrap_with j transport c crypto from_seed ekp unique_identifier o w).0 ≡ ok kr
      → Bootstrapped unique_identifier w
          (bootstrap_with j transport c crypto from_seed ekp unique_identifier o w).1
          kr
  unfolding bootstrap_with
  bootstrap_with-Bootstrapped unique_identifier none w kr given h = cc
  bootstrap_with-Bootstrapped unique_identifier (some token) w kr given h =
      let (answer, joined, run, rest) = bind_ok (bootstrap_join j transport c) _ w h in
      let w1 : W = (bootstrap_join j transport c w).1 in
      let (jws, verified, run1, rest1) =
        bind_ok (λ (t : W). (find_valid_signature j token answer.0 answer.1, t)) _ w1 rest in
      let (check, pinned, run2, rest2) = bind_ok (λ (t : W). (tls_config c.pins, t)) _ w1 rest1 in
      let (id, named, run3, rest3) =
        bind_ok unique_identifier
          (λ id. request_keyring j transport c crypto from_seed ekp check jws id) w1 rest2 in
      let w2 : W = (unique_identifier w1).1 in
      let (sig, found, accepted) = find_valid_signature-ok token answer.0 answer.1 jws verified in
      record {
        token = token;
        sigs = answer.0;
        key = answer.1;
        complete_jws = jws;
        check = check;
        id = id;
        joined = w1;
        identified = w2;
        given = given;
        sig = sig;
        answered = bootstrap_join-Joined w answer.0 answer.1 joined;
        found = found;
        verified = accepted;
        pinned = pinned;
        named = ap (λ (r : Result Str). (r, w2)) named;
        exchanged =
            subst (λ f. Exchanged check jws id w2 f kr)
              (ap (λ (p : Result Keyring × W). p.1) (sym (run ∙ run1 ∙ run2 ∙ run3)))
              (request_keyring-Exchanged check jws id w2 kr rest3);
      }
