-- ===== src/Examples/Objects.antt =====
-- Tokens, roles, keyrings and values upon the etcd of one client.
use opni_monitoring.Prelude.{
  Str, str_eq, codes, Assoc, lookup, insert, Option, none, some, List, [], ◌∷◌, Result, ok, err,
  other, ◌≡◌, refl, sym,
}
use opni_monitoring.GoLib.Path.{join}
use opni_monitoring.GoLib.Split.{split_on}
use opni_monitoring.Core.Types.{
  BootstrapToken, BootstrapTokenMetadata, LabelSelector, Role, RoleBinding,
}
use opni_monitoring.Etcd.Client.{KeyValue, Codec, IsCodec, object_key, keyrings_kind}
use opni_monitoring.Etcd.Roles.{create_role}
use opni_monitoring.Etcd.KeyValues.{put, put_keyring, get_keyring}
use opni_monitoring.Etcd.KeyValues.Laws.{get-put_keyring}
use opni_monitoring.Etcd.Tokens.{token_key, update_token}
use opni_monitoring.Etcd.Tokens.Laws.{Renewed, update_token_renews}
use opni_monitoring.Examples.Store.{
  etcd, etcd-IsEtcd, prefix, once, once-IsRetry, written, start, seen_at,
}

-- Values that are written as they are.
abbrev plain : Codec Str
plain = record { marshal = λ s. ok s; unmarshal = λ s. ok s }

plain-IsCodec : IsCodec plain
plain-IsCodec = record { reads_back = λ x s h. sym h }

abbrev stored_value : Assoc KeyValue
stored_value = (put etcd plain prefix (codes "color") (codes "red") start).1

abbrev stored_text : Assoc KeyValue
stored_text = (put_keyring etcd plain prefix (codes "edge-1") (codes "keys") start).1

get-put_keyring_example :
    (get_keyring etcd plain prefix (codes "edge-1") stored_text).0 ≡ ok (codes "keys")
unfolding put_keyring
get-put_keyring_example =
    get-put_keyring etcd etcd-IsEtcd plain plain-IsCodec prefix (codes "edge-1") (codes "keys")
      start (seen_at (lookup (object_key prefix keyrings_kind (codes "edge-1")) stored_text)) refl
      refl

-- Roles with an id only.
abbrev write_role : Str → List Str → Option LabelSelector → Result Str
write_role id [] none = ok id
write_role id [] (some ls) = err other
write_role id (c ∷ cs) ls = err other

abbrev roles : Codec Role
roles = record {
  marshal = λ r. write_role r.id r.cluster_ids r.match_labels;
  unmarshal = λ s. ok (record { id = s; cluster_ids = []; match_labels = none });
}

roles-IsCodec : IsCodec roles
roles-IsCodec = record { reads_back = λ r s h. same r.id r.cluster_ids r.match_labels s h }
  where
    same :
        (id : Str) (cs : List Str) (ls : Option LabelSelector) (s : Str)
        → write_role id cs ls ≡ ok s
        → ◌≡◌ {A = Result Role}
            (ok (record { id = s; cluster_ids = []; match_labels = none }))
            (ok (record { id = id; cluster_ids = cs; match_labels = ls }))
    same id [] none s h = cc
    same id [] (some ls) s h = cc
    same id (c ∷ cs) ls s h = cc

abbrev no_bindings : Codec RoleBinding
no_bindings = record { marshal = λ rb. err other; unmarshal = λ s. err other }

abbrev viewer : Role
viewer = record { id = codes "viewer"; cluster_ids = []; match_labels = none }

abbrev stored_role : Assoc KeyValue
stored_role = (create_role etcd roles no_bindings prefix viewer start).1

-- Tokens with an id only.
abbrev write_token : Str → Str → Option BootstrapTokenMetadata → Result Str
write_token id [] none = ok id
write_token id [] (some m) = err other
write_token id (c ∷ cs) m = err other

abbrev tokens : Codec BootstrapToken
tokens = record {
  marshal = λ t. write_token t.token_id t.secret t.metadata;
  unmarshal = λ s. ok (record { token_id = s; secret = []; metadata = none });
}

tokens-IsCodec : IsCodec tokens
tokens-IsCodec = record { reads_back = λ t s h. same t.token_id t.secret t.metadata s h }
  where
    same :
        (id secret : Str) (m : Option BootstrapTokenMetadata) (s : Str)
        → write_token id secret m ≡ ok s
        → ◌≡◌ {A = Result BootstrapToken}
            (ok (record { token_id = s; secret = []; metadata = none }))
            (ok (record { token_id = id; secret = secret; metadata = m }))
    same id [] none s h = cc
    same id [] (some m) s h = cc
    same id (c ∷ cs) m s h = cc

abbrev token_of : Str → BootstrapToken
token_of id = record { token_id = id; secret = []; metadata = none }

abbrev stored_token : Assoc KeyValue
stored_token =
    insert (token_key prefix (codes "6162"))
      (written (token_key prefix (codes "6162")) (codes "6162") 0 0) start

update_token_renews_example :
    (s : Assoc KeyValue) × Renewed etcd etcd-IsEtcd tokens tokens-IsCodec prefix
      (codes "6162")
      (λ t. ok (token_of (codes "6363")))
      s
      (update_token etcd tokens prefix once
        (record { id = codes "6162" })
        (λ t. ok (token_of (codes "6363")))
        stored_token).1
      (token_of (codes "6363"))
unfolding str_eq update_token token_key object_key lookup insert join split_on
update_token_renews_example =
    update_token_renews etcd etcd-IsEtcd tokens tokens-IsCodec prefix once once-IsRetry
      (codes "6162") (λ t. ok (token_of (codes "6363"))) stored_token (token_of (codes "6363")) refl
