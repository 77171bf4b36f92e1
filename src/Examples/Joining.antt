-- ===== src/Examples/Joining.antt =====
-- A client that joins the server of the other examples.
use opni_monitoring.Prelude.{Str, codes, List, [], ◌∷◌, some, Result, ok, ◌≡◌, refl}
use opni_monitoring.Tokens.{hex_id}
use opni_monitoring.Keyring.{Keyring}
use opni_monitoring.Ecdh.{EphemeralKeyPair}
use opni_monitoring.Bootstrap.{AuthRequest, send, signatures, server_pub_key}
use opni_monitoring.Bootstrap.Client.{ClientConfig, Transport, bootstrap}
use opni_monitoring.Bootstrap.Client.Agreement.{bootstrap-agrees}
use opni_monitoring.Bootstrap.Client.Run.{Bootstrapped}
use opni_monitoring.Pkp.{PublicKeyPin, alg_sha256}
use opni_monitoring.Examples.Texts.{toy_signer, some_token}
use opni_monitoring.Examples.Join.{toy_pair, toy_crypto, toy_stores, first_signature}

-- A world that records what is requested, the last first.
abbrev transport : Transport (Unit {0}) (List Str)
transport = record {
  parse = λ endpoint. ok endpoint;
  with_path = λ url path. path;
  join = λ check url w.
      (ok (send 200 (signatures ((hex_id some_token, first_signature) ∷ [])), tt), url ∷ w);
  auth = λ check url authorization req w.
      (ok (send 200 (server_pub_key (codes "a"))), authorization ∷ url ∷ w);
}

abbrev pin : PublicKeyPin
pin = record { algorithm = alg_sha256; fingerprint = codes "0123456789abcdef0123456789abcdef" }

abbrev config : ClientConfig
config = record {
  capability = codes "metrics";
  token = some some_token;
  pins = pin ∷ [];
  endpoint = codes "gateway";
}

abbrev request : AuthRequest
request = record {
  client_id = codes "edge-1";
  client_pub_key = codes "b";
  capability = codes "metrics";
}

abbrev half : Str
half = codes "0123456789abcdef0123456789abcdef"

abbrev server_keyring : Keyring
server_keyring = record {
  shared_keys = record { client_key = half; server_key = half } ∷ [];
  pkp_keys = [];
}

abbrev client_kr : Keyring
client_kr = record server_keyring { pkp_keys = record { pinned_keys = pin ∷ [] } ∷ [] }

bootstrap-agrees_example :
    (client_kr.shared_keys ≡ server_keyring.shared_keys)
    × Bootstrapped toy_signer transport config toy_crypto
        (λ s. s)
        (toy_pair (codes "b"))
        (λ w. (ok (codes "edge-1"), w))
        []
        (bootstrap toy_signer transport config toy_crypto
          (λ s. s)
          (toy_pair (codes "b"))
          (λ w. (ok (codes "edge-1"), w))
          []).1
        client_kr
unfolding opni_monitoring.Bootstrap.Server.derive_keyring opni_monitoring.Ecdh.derive_shared_secret
    opni_monitoring.Keyring.new_shared_keys opni_monitoring.Keyring.new bootstrap
    opni_monitoring.Pkp.tls_config opni_monitoring.Prelude.str_eq opni_monitoring.Prelude.lookup
    hex_id opni_monitoring.GoLib.Hex.encode opni_monitoring.GoLib.Index.index_byte
    opni_monitoring.GoLib.Index.last_index_byte opni_monitoring.Keyring.new_pkp_key
bootstrap-agrees_example =
    bootstrap-agrees toy_signer transport config toy_crypto (λ s. s) (toy_pair (codes "b"))
      toy_stores (toy_pair (codes "a")) request (λ w. (ok (codes "edge-1"), w)) [] client_kr
      server_keyring (λ check url authorization r t. refl) refl refl refl refl
