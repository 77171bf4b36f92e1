-- ===== src/Keyring.antt =====
-- pkg/keyring: a set of keys of two types. The map from reflect.Type to keys has an entry for a
-- type exactly when it has a key of it, so it is a list for each of the two allowed types.
pub mod Laws
use opni_monitoring.Prelude.{
  ℕ, Str, Bool, true, false, not, ◌||◌, List, [], ◌∷◌, ◌++◌, ◌==◌, if◌then◌else◌, length, take,
  drop, is_empty, Result, ok, err, Error, panicked, ◌>>=◌, ◌>>◌,
}
use opni_monitoring.Pkp.{PublicKeyPin}

pub record SharedKeys : Type 0 where
  pub client_key : Str
  pub server_key : Str

pub record PkpKey : Type 0 where
  pub pinned_keys : List PublicKeyPin

-- A key handed over as interface{}; `foreign` is a value of any other type.
pub data Key : Type 0 where
  shared : SharedKeys → Key
  pkp : PkpKey → Key
  foreign : Key

pub record Keyring : Type 0 where
  pub shared_keys : List SharedKeys
  pub pkp_keys : List PkpKey

abbrev pub empty_keyring : Keyring
empty_keyring = record { shared_keys = []; pkp_keys = [] }

-- m[t] = append(m[t], key), for the keys in turn
unfoldable pub add_keys : Keyring → List Key → Result Keyring
add_keys kr [] = ok kr
add_keys kr (shared k ∷ ks) = add_keys (record kr { shared_keys = kr.shared_keys ++ (k ∷ []) }) ks
add_keys kr (pkp k ∷ ks) = add_keys (record kr { pkp_keys = kr.pkp_keys ++ (k ∷ []) }) ks
add_keys kr (foreign ∷ ks) = err panicked

-- New
unfoldable pub new : List Key → Result Keyring
unfolding add_keys
new keys = add_keys empty_keyring keys

abbrev pub all_shared : List SharedKeys → List Key
all_shared [] = []
all_shared (k ∷ ks) = shared k ∷ all_shared ks

abbrev pub all_pkp : List PkpKey → List Key
all_pkp [] = []
all_pkp (k ∷ ks) = pkp k ∷ all_pkp ks

-- The keys as ForEach visits them. Go ranges over a map in no fixed order; the flag says which
-- type comes first.
unfoldable pub visited : Bool → Keyring → List Key
visited true kr = all_shared kr.shared_keys ++ all_pkp kr.pkp_keys
visited false kr = all_pkp kr.pkp_keys ++ all_shared kr.shared_keys

unfoldable pub merge : Bool → Bool → Keyring → Keyring → Result Keyring
unfolding new visited
merge order order' kr other = new (visited order kr ++ visited order' other)

unfoldable pub deep_copy : Bool → Keyring → Result Keyring
unfolding new visited
deep_copy order kr = new (visited order kr)

-- What Try may be given: a function of one parameter, by the type of that, or what it panics on.
pub data UseKeyFn (S : Type 0) : Type 0 where
  use_shared : (SharedKeys → S → S) → UseKeyFn S
  use_pkp : (PkpKey → S → S) → UseKeyFn S
  use_foreign : UseKeyFn S
  not_a_function : UseKeyFn S

unfoldable pub call_each : {K S : Type 0} → (K → S → S) → List K → S → S
call_each f [] s = s
call_each f (k ∷ ks) s = call_each f ks (f k s)

-- Try, from what was found before
unfoldable pub try_from : {S : Type 0} → Bool → List (UseKeyFn S) → Keyring → S → Result (Bool × S)
unfolding call_each
try_from found [] kr s = ok (found, s)
try_from found (use_shared f ∷ fns) kr s =
    try_from (found || not (is_empty kr.shared_keys)) fns kr (call_each f kr.shared_keys s)
try_from found (use_pkp f ∷ fns) kr s =
    try_from (found || not (is_empty kr.pkp_keys)) fns kr (call_each f kr.pkp_keys s)
try_from found (use_foreign ∷ fns) kr s = try_from found fns kr s
try_from found (not_a_function ∷ fns) kr s = err panicked

unfoldable pub try : {S : Type 0} → List (UseKeyFn S) → Keyring → S → Result (Bool × S)
unfolding try_from
try fns kr s = try_from false fns kr s

-- completeKeyring
pub record CompleteKeyring : Type 0 where
  pub shared_keys : List SharedKeys
  pub pkp_key : List PkpKey

-- encoding/json of a completeKeyring
pub record Json : Type 0 where
  pub marshal : CompleteKeyring → Result Str
  pub unmarshal : Str → Result CompleteKeyring

module _ (json : Json) where
  unfoldable pub marshal : Keyring → Result Str
  marshal kr = json.marshal (record { shared_keys = kr.shared_keys; pkp_key = kr.pkp_keys })

  unfoldable pub unmarshal : Str → Result Keyring
  unfolding new
  unmarshal data' = do
    complete ← json.unmarshal data'
    new (all_shared complete.shared_keys ++ all_pkp complete.pkp_key)

-- NewSharedKeys; `from_seed` is ed25519.NewKeyFromSeed
unfoldable pub new_shared_keys : (Str → Str) → Str → Result SharedKeys
new_shared_keys from_seed secret =
    if not (length secret == 64)
    then err panicked
    else ok (record {
      client_key = from_seed (take 32 secret);
      server_key = from_seed (drop 32 secret);
    })

-- NewPKPKey
unfoldable pub new_pkp_key : List PublicKeyPin → PkpKey
new_pkp_key pins = record { pinned_keys = pins }
