-- ===== src/Examples/Requests.antt =====
-- A request of a cluster, with a digest that only joins what it is given.
use opni_monitoring.Prelude.{ℕ, Str, codes, [], ◌∷◌, ◌++◌, ok, str_eq, ◌≡◌, refl}
use opni_monitoring.GoLib
use opni_monitoring.GoLib.Split.{split_on}
use opni_monitoring.GoLib.Text.{has_prefix, trim_space, trim_prefix}
use opni_monitoring.Keyring.{Keyring, SharedKeys, try}
use opni_monitoring.B2mac.{verify, Uuid, Blake2b, Fields, new_encoded_header, decode_auth_header}
use opni_monitoring.Auth.Cluster.{try_key, Keyrings, pass, handle}
use opni_monitoring.B2mac.{encode_auth_header}
use opni_monitoring.B2mac.Laws.{IsUuid, decode-encode_auth_header}
use opni_monitoring.Prelude.{str_eq_sound}
use opni_monitoring.Auth.Cluster.Keys.{Verifying}
use opni_monitoring.Auth.Cluster.Laws.{handle-Verifying, handle_passes}

abbrev uuid : Uuid
uuid = record { parse = λ s. ok s; text = λ s. s; is_v4 = λ s. str_eq s (codes "n"); nil_uuid = [] }

abbrev blake2b : Blake2b
blake2b = record { mac_512 = λ key message. ok (key ++ message) }

abbrev edge_keys : SharedKeys
edge_keys = record { client_key = codes "ck"; server_key = codes "sk" }

abbrev keyring : Keyring
keyring = record { shared_keys = edge_keys ∷ []; pkp_keys = [] }

abbrev keyrings : Keyrings ℕ
keyrings = record {
  open_keyring = λ ref s. (ok tt, s);
  get_keyring = λ ref s. (ok keyring, s);
  get_fake = λ s. (ok keyring, s);
}

abbrev authorization : Str
authorization = codes "MAC id=\"ZTE\",nonce=\"n\",mac=\"Y2tlMW5ieQ\""

abbrev body : Str
body = codes "by"

abbrev fields : Fields
fields = record {
  id = codes "e1";
  nonce = codes "n";
  mac = codes "cke1nby";
  found = codes "mac" ∷ codes "nonce" ∷ codes "id" ∷ [];
}

header_written :
    new_encoded_header uuid blake2b (codes "n") (codes "e1") body (codes "ck") ≡ ok authorization
unfolding new_encoded_header str_eq GoLib.Base64.encode
header_written = refl

header_decoded : decode_auth_header uuid authorization ≡ ok fields
unfolding decode_auth_header has_prefix split_on trim_space trim_prefix str_eq GoLib.Base64.decode
header_decoded = refl

handle_passes_example :
    (keys : SharedKeys) × ((handle uuid blake2b keyrings authorization body 0).0
      ≡ pass (codes "e1") keys)
unfolding str_eq verify
handle_passes_example =
    handle_passes uuid blake2b keyrings authorization body 0 fields keyring refl header_decoded refl
      refl refl

handle-Verifying_example :
    (f : Fields) × (decode_auth_header uuid authorization ≡ ok f)
    × (f.id ≡ codes "e1")
    × (kr : Keyring) × ((keyrings.get_keyring
          (record { id = f.id })
          (keyrings.open_keyring (record { id = f.id }) 0).1).0
        ≡ ok kr)
    × Verifying blake2b f body kr.shared_keys edge_keys
unfolding handle decode_auth_header has_prefix split_on trim_space trim_prefix str_eq
    GoLib.Base64.decode try try_key verify
handle-Verifying_example =
    handle-Verifying uuid blake2b keyrings authorization body (codes "e1") edge_keys 0 0 refl

uuid-IsUuid : IsUuid uuid
uuid-IsUuid = record {
  reads_back = λ nonce v4. refl;
  plain = λ nonce v4. rw (str_eq_sound nonce (codes "n") v4) refl;
}

decode-encode_auth_header_example :
    decode_auth_header uuid authorization
    ≡ ok (record {
      id = codes "e1";
      nonce = codes "n";
      mac = codes "cke1nby";
      found = codes "mac" ∷ codes "nonce" ∷ codes "id" ∷ [];
    })
unfolding encode_auth_header str_eq GoLib.Base64.encode
decode-encode_auth_header_example =
    decode-encode_auth_header uuid uuid-IsUuid (codes "e1") (codes "n") (codes "cke1nby")
      authorization refl refl refl refl refl refl
