-- ===== src/Etcd/KeyValues.antt =====
-- pkg/storage/etcd/kv_store.go and pkg/storage/etcd/keyring_store.go. base64.StdEncoding is taken
-- as a codec of bytes; `prefix` of the key-value store is path.Join(pfx, "kv").
pub mod Laws
use opni_monitoring.Prelude.{
  Str, codes, not, List, [], ◌∷◌, ◌++◌, if◌then◌else◌, is_empty, Result, other, guard,
}
use opni_monitoring.Exec.{Exec, pure, lift, ◌>>=◌, ◌>>◌}
use opni_monitoring.GoLib.Path.{join}
use opni_monitoring.GoLib.Text.{trim_prefix}
use opni_monitoring.Etcd.Client.{Client, KeyValue, Codec, object_key, keyrings_kind}
use opni_monitoring.Etcd.Roles.{read_object, check_deleted}

-- The prefix that a store is opened with: its own, or the store's where that is empty.
unfoldable pub store_prefix : Str → Str → Str
store_prefix own prefix = if is_empty prefix then own else prefix

unfoldable pub key_value_prefix : Str → Str → Str
unfolding store_prefix
key_value_prefix own prefix = join (store_prefix own prefix ∷ codes "kv" ∷ [])

unfoldable pub validate_key : Str → Result (Unit {0})
validate_key key = guard (not (is_empty key)) other

abbrev pub entry_key : Str → Str → Str
entry_key prefix key = join (prefix ∷ key ∷ [])

abbrev pub listed_keys : Str → List KeyValue → List Str
listed_keys prefix [] = []
listed_keys prefix (kv ∷ kvs) = trim_prefix kv.key (prefix ++ (b'/' ∷ [])) ∷ listed_keys prefix kvs

module _ (etcd : Client) (base64 : Codec Str) (prefix : Str) where
  open etcd use {State, get, get_prefix}

  unfoldable pub put : Str → Str → Exec State (Unit {0})
  unfolding validate_key
  put key value = do
    lift (validate_key key)
    text ← lift (base64.marshal value)
    etcd.put (entry_key prefix key) text 0

  unfoldable pub get_value : Str → Exec State Str
  unfolding validate_key read_object
  get_value key = do
    lift (validate_key key)
    found ← get (entry_key prefix key)
    lift (read_object base64 found)

  unfoldable pub delete : Str → Exec State (Unit {0})
  unfolding validate_key check_deleted
  delete key = do
    lift (validate_key key)
    deleted ← etcd.delete (entry_key prefix key)
    lift (check_deleted deleted)

  unfoldable pub list_keys : Str → Exec State (List Str)
  list_keys under = do kvs ← get_prefix (entry_key prefix under); pure (listed_keys prefix kvs)

-- The keyring of one cluster; `json` is Marshal and Unmarshal of a keyring.
module _ {K : Type 0} (etcd : Client) (json : Codec K) (prefix id : Str) where
  open etcd use {State, get}

  unfoldable pub put_keyring : K → Exec State (Unit {0})
  put_keyring keyring = do
    text ← lift (json.marshal keyring)
    etcd.put (object_key prefix keyrings_kind id) text 0

  unfoldable pub get_keyring : Exec State K
  unfolding read_object
  get_keyring = do found ← get (object_key prefix keyrings_kind id); lift (read_object json found)
