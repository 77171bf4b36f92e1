-- ===== src/Examples/Join.antt =====
-- A request to /bootstrap/auth, and what its handling rests on.
use opni_monitoring.Prelude.{
  some, Option, ℕ, suc, Str, str_eq, codes, lookup, true, false, List, [], ◌∷◌, ok, err, not_found,
  ◌≡◌, refl,
}
use opni_monitoring.Core.Types.{token_capabilities, BootstrapToken}
use opni_monitoring.GoLib
use opni_monitoring.GoLib.Index.{index_byte, last_index_byte}
use opni_monitoring.GoLib.Text.{trim_space}
use opni_monitoring.Validation.{validate_id}
use opni_monitoring.Storage.Mutators.{
  composite_mutator, increment_usage_count, add_token_capability,
}
use opni_monitoring.Tokens.{to_bootstrap_token}
use opni_monitoring.Keyring.{
  new, new_shared_keys, Keyring, SharedKeys, PkpKey, empty_keyring, merge,
}
use opni_monitoring.Keyring.Laws.{merge_lem}
use opni_monitoring.Ecdh.{Crypto, EphemeralKeyPair, derive_shared_secret}
use opni_monitoring.Bootstrap.{validate_request, Stores, send, server_pub_key}
use opni_monitoring.Bootstrap.Server.{HttpRequest, handle_bootstrap_auth}
use opni_monitoring.Bootstrap.Join.{is_signed, Offers, handle_bootstrap_join-Offers}
use opni_monitoring.Tokens.Jws.{ed25519, sign_detached}
use opni_monitoring.Tokens.{hex_id, from_bootstrap_token}
use opni_monitoring.Prelude.{insert, is_empty, all}
use opni_monitoring.Bootstrap.Server.{handle_bootstrap_join}
use opni_monitoring.Bootstrap.Authorization.{ReadsOnly, Outcome, handle_bootstrap_auth-Outcome}
use opni_monitoring.Examples.Texts.{toy_signer, some_token}

abbrev first_keys : SharedKeys
first_keys = record { client_key = codes "c1"; server_key = codes "s1" }

abbrev second_keys : SharedKeys
second_keys = record { client_key = codes "c2"; server_key = codes "s2" }

abbrev no_pins : PkpKey
no_pins = record { pinned_keys = [] }

abbrev first_keyring : Keyring
first_keyring = record { shared_keys = first_keys ∷ []; pkp_keys = no_pins ∷ [] }

abbrev second_keyring : Keyring
second_keyring = record { shared_keys = second_keys ∷ []; pkp_keys = [] }

merge_lem_example :
    merge true false first_keyring second_keyring
    ≡ ok (record { shared_keys = first_keys ∷ second_keys ∷ []; pkp_keys = no_pins ∷ [] })
merge_lem_example = merge_lem true false first_keyring second_keyring

abbrev pub toy_pair : Str → EphemeralKeyPair
toy_pair key = record { private_key = key; public_key = key }

-- Scalar multiplication that forgets its operands, and a digest of 64 bytes.
abbrev pub toy_crypto : Crypto
toy_crypto = record {
  x25519 = λ a b. ok (codes "shared");
  blake2b_512 = λ s. codes "0123456789abcdef0123456789abcdef0123456789abcdef0123456789abcdef";
}

-- Stores that hold one token and no cluster; the state counts the writes.
abbrev toy_token : BootstrapToken
toy_token = to_bootstrap_token some_token

abbrev pub toy_stores : Stores ℕ
toy_stores = record {
  list_tokens = λ s. (ok (some toy_token ∷ []), s);
  get_token = λ ref s. (ok toy_token, s);
  update_token = λ ref m s. (m toy_token, suc s);
  get_cluster = λ ref s. (err not_found, s);
  create_cluster = λ c s. (ok tt, suc s);
  update_cluster = λ ref m s. (err not_found, s);
  open_keyring = λ ref s. (ok tt, s);
  get_keyring = λ ref s. (ok empty_keyring, s);
  put_keyring = λ ref kr s. (ok tt, suc s);
  can_install = λ c s. (ok tt, s);
  install_capabilities = λ ref c s. suc s;
}

toy_stores-ReadsOnly : ReadsOnly toy_stores
toy_stores-ReadsOnly = record {
  get_token = λ ref s. refl;
  get_cluster = λ ref s. refl;
  can_install = λ c s. refl;
}

abbrev toy_request : HttpRequest
toy_request = record {
  authorization = codes "Bearer h..s";
  body = ok (record {
    client_id = codes "edge-1";
    client_pub_key = codes "b";
    capability = codes "metrics";
  });
}

handle_bootstrap_auth-Outcome_example :
    Outcome toy_signer toy_stores toy_stores-ReadsOnly
      (λ s. ok some_token)
      tt
      (toy_pair (codes "a"))
      true
      true
      toy_request
      0
      (handle_bootstrap_auth toy_signer toy_stores
        (λ s. ok some_token)
        tt
        toy_crypto
        (λ s. s)
        (toy_pair (codes "a"))
        true
        true
        toy_request
        0)
handle_bootstrap_auth-Outcome_example =
    handle_bootstrap_auth-Outcome toy_signer toy_stores toy_stores-ReadsOnly (λ s. ok some_token) tt
      toy_crypto (λ s. s) (toy_pair (codes "a")) true true toy_request 0

-- The join makes four writes: the cluster, the token, the keyring and the installation.
join_succeeds :
    handle_bootstrap_auth toy_signer toy_stores
      (λ s. ok some_token)
      tt
      toy_crypto
      (λ s. s)
      (toy_pair (codes "a"))
      true
      true
      toy_request
      0
    ≡ (send 200 (server_pub_key (codes "a")), 4)
unfolding handle_bootstrap_auth trim_space validate_request validate_id str_eq derive_shared_secret
    new_shared_keys new composite_mutator increment_usage_count to_bootstrap_token
    add_token_capability token_capabilities
join_succeeds = refl

abbrev pub first_signature : Str
first_signature = codes "h..s"

handle_bootstrap_join-Offers_example :
    (ts : List (Option BootstrapToken)) × ((toy_stores.list_tokens 0).0 ≡ ok ts)
    × (is_empty (trim_space []) ≡ true)
    × (all (is_signed ((hex_id some_token, first_signature) ∷ [])) ts ≡ true)
    × Offers toy_signer (ed25519 tt) ts (hex_id some_token) first_signature
unfolding handle_bootstrap_join lookup insert str_eq trim_space sign_detached from_bootstrap_token
    to_bootstrap_token GoLib.Hex.decode GoLib.Hex.encode index_byte last_index_byte
    GoLib.Base64.encode
handle_bootstrap_join-Offers_example =
    handle_bootstrap_join-Offers toy_signer toy_stores (ed25519 tt) [] 0 0
      ((hex_id some_token, first_signature) ∷ []) refl (hex_id some_token) first_signature refl
