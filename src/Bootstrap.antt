-- ===== src/Bootstrap.antt =====
-- pkg/bootstrap/server.go and pkg/bootstrap/types.go. The stores and the installer are the
-- interfaces that ServerConfig holds; crypto and JSON of other libraries are parameters.
pub mod Handler
pub mod Server
pub mod Authorization
pub mod Refusal
pub mod Permission
pub mod Join
pub mod Client
use opni_monitoring.Prelude.{
  ℕ, Str, Assoc, Option, none, some, Bool, true, false, not, List, [], ◌∷◌, is_empty, if◌then◌else◌,
  Result, ok, err, Error, guard, ◌>>◌, ◌>>=◌, validation_error, invalid_id,
}
use opni_monitoring.Exec.{Exec}
use opni_monitoring.Core.Types.{Reference, BootstrapToken, Cluster}
use opni_monitoring.Storage.Mutators.{Mutator}
use opni_monitoring.Keyring.{Keyring}
use opni_monitoring.Validation.{validate_id}

pub record AuthRequest : Type 0 where
  pub client_id : Str
  pub client_pub_key : Str
  pub capability : Str

-- validation.Errorf makes an error of its own, which wraps no sentinel.
unfoldable pub replace_error : {A : Type 0} → Error → Result A → Result A
replace_error e (ok a) = ok a
replace_error e (err x) = err e

unfoldable pub validate_request : AuthRequest → Result (Unit {0})
unfolding replace_error
validate_request h = do
  guard (not (is_empty h.client_id)) validation_error
  replace_error invalid_id (validate_id h.client_id)
  guard (not (is_empty h.client_pub_key)) validation_error
  guard (not (is_empty h.capability)) validation_error

-- The interfaces of ServerConfig: TokenStore, ClusterStore, KeyringStoreBroker with the keyring
-- store of a cluster in the namespace "gateway", and CapabilityInstaller.
pub record Stores (S : Type 0) : Type 0 where
  pub list_tokens : Exec S (List (Option BootstrapToken))
  pub get_token : Reference → Exec S BootstrapToken
  pub update_token : Reference → Mutator BootstrapToken → Exec S BootstrapToken
  pub get_cluster : Reference → Exec S Cluster
  pub create_cluster : Cluster → Exec S (Unit {0})
  pub update_cluster : Reference → Mutator Cluster → Exec S Cluster
  pub open_keyring : Reference → Exec S (Unit {0})
  pub get_keyring : Reference → Exec S Keyring
  pub put_keyring : Reference → Keyring → Exec S (Unit {0})
  pub can_install : Str → Exec S (Unit {0})
  pub install_capabilities : Reference → Str → S → S

pub data Body : Type 0 where
  no_body text : Body
  signatures : Assoc Str → Body
  server_pub_key : Str → Body

-- What a handler sends, or a panic.
pub data Response : Type 0 where
  send : ℕ → Body → Response
  crashed : Response

-- A handler up to a point: it has sent a response, or goes on with a value.
pub data Progress (A : Type 0) : Type 0 where
  respond : Response → Progress A
  proceed : A → Progress A

abbrev pub Handler : Type 0 → Type 0 → Type 0
Handler S A = S → Progress A × S

abbrev pub next : {S A B : Type 0} → Progress A → (A → Handler S B) → Handler S B
next (respond r) f s = (respond r, s)
next (proceed a) f s = f a s
