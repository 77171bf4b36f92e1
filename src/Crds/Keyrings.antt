-- ===== src/Crds/Keyrings.antt =====
-- pkg/storage/crds/keyring_store.go. `json` is Marshal and Unmarshal of a keyring. The prefix that
-- a store is opened with is no part of the object's name.
pub mod Laws
use opni_monitoring.Prelude.{Str, [], Result, ok, err, Error, if◌then◌else◌}
use opni_monitoring.Exec.{Exec, pure, lift, fail, attempt, ◌>>=◌, ◌>>◌}
use opni_monitoring.Etcd.Client.{Codec, Retry}
use opni_monitoring.Crds.Objects.{
  Object, Resource, new_object, get_object, is_object_not_found, is_conflict,
}

module _ {State K : Type 0} (keyrings : Resource State Str) (json : Codec K) (prefix id : Str) where
  open keyrings use {create, get, update}

  -- One call of the function that Put retries.
  unfoldable pub put_once : Str → Exec State (Unit {0})
  put_once data' = do kr ← get id; update (record kr { spec = data' })

  unfoldable pub put_data :
      Retry State (Unit {0}) → Str → Result (Object Str) → Exec State (Unit {0})
  unfolding put_once
  put_data retry data' (ok kr) = retry is_conflict (put_once data')
  put_data retry data' (err e) =
      if is_object_not_found e then create (new_object id [] data') else fail e

  unfoldable pub put_keyring : Retry State (Unit {0}) → K → Exec State (Unit {0})
  unfolding put_data
  put_keyring retry keyring = do
    data' ← lift (json.marshal keyring)
    kr ← attempt (get id)
    put_data retry data' kr

  unfoldable pub get_keyring : Exec State K
  unfolding get_object
  get_keyring = do kr ← get_object keyrings id; lift (json.unmarshal kr.spec)
