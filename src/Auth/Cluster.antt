-- ===== src/Auth/Cluster.antt =====
-- pkg/auth/cluster/cluster.go: a request of a cluster carries a digest that is made with one of
-- the keys that the gateway shares with it.
pub mod Keys
pub mod Laws
use opni_monitoring.Prelude.{
  ℕ, Str, Option, none, some, Bool, true, false, List, [], ◌∷◌, is_empty, is_ok, if◌then◌else◌,
  Result, ok, err, Error, codes,
}
use opni_monitoring.Exec.{Exec}
use opni_monitoring.Core.Types.{Reference}
use opni_monitoring.Keyring.{Keyring, SharedKeys, UseKeyFn, use_shared, try}
use opni_monitoring.B2mac.{Uuid, Blake2b, Fields, verify, decode_auth_header}

-- The stores of the middleware: the keyrings in the namespace "gateway", and the fake keyring.
pub record Keyrings (S : Type 0) : Type 0 where
  pub open_keyring : Reference → Exec S (Unit {0})
  pub get_keyring : Reference → Exec S Keyring
  pub get_fake : Exec S Keyring

-- A response's status, a panic, or the next handler with the cluster's id, which is added to the
-- request's headers and set as a local, and the keys.
pub data Verdict : Type 0 where
  reply : ℕ → Verdict
  crashed : Verdict
  pass : Str → SharedKeys → Verdict

-- What Handle's function does with a key: it remembers the last that verifies.
unfoldable pub try_key : Blake2b → Fields → Str → SharedKeys → Option SharedKeys → Option SharedKeys
try_key b f payload keys last =
    if is_ok (verify b f.mac f.id f.nonce payload keys.client_key) then some keys else last

abbrev pub authorized_as : Str → Option SharedKeys → Verdict
authorized_as id none = reply 401
authorized_as id (some keys) = pass id keys

-- Behind the call of Try.
unfoldable pub judge : Str → Result (Bool × Option SharedKeys) → Verdict
judge id (err e) = crashed
judge id (ok (false, last)) = reply 500
judge id (ok (true, last)) = authorized_as id last

module _ {S : Type 0} (u : Uuid) (b : Blake2b) (keyrings : Keyrings S) where
  open keyrings use {open_keyring, get_keyring, get_fake}

  -- doFakeKeyringVerify: its digests are computed and dropped.
  unfoldable pub do_fake_keyring_verify : S → S
  do_fake_keyring_verify s = (get_fake s).1

  unfoldable pub with_keyring : Fields → Str → Result Keyring × S → Verdict × S
  unfolding do_fake_keyring_verify judge
  with_keyring f payload (err e, s) = (reply 401, do_fake_keyring_verify s)
  with_keyring f payload (ok kr, s) =
      (judge f.id (try (use_shared (try_key b f payload) ∷ []) kr none), s)

  unfoldable pub with_store : Fields → Str → Result (Unit {0}) × S → Verdict × S
  unfolding do_fake_keyring_verify with_keyring
  with_store f payload (err e, s) = (reply 401, do_fake_keyring_verify s)
  with_store f payload (ok opened, s) =
      with_keyring f payload (get_keyring (record { id = f.id }) s)

  unfoldable pub with_header : Str → Result Fields → S → Verdict × S
  unfolding with_store
  with_header payload (err e) s = (reply 400, s)
  with_header payload (ok f) s = with_store f payload (open_keyring (record { id = f.id }) s)

  unfoldable pub handle : Str → Str → S → Verdict × S
  unfolding with_header
  handle authorization payload s =
      if is_empty authorization
      then (reply 400, s)
      else with_header payload (decode_auth_header u authorization) s
