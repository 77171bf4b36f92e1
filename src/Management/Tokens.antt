-- ===== src/Management/Tokens.antt =====
-- pkg/management/tokens.go.
use opni_monitoring.Prelude.{Option, List, Result, ok, err, other}
use opni_monitoring.Exec.{Exec, lift, ◌>>◌}
use opni_monitoring.Core.Types.{Reference, BootstrapToken}
use opni_monitoring.Core.Validate.{validate_reference}
use opni_monitoring.Storage.Stores.{TokenStore}
use opni_monitoring.Management.Requests.{
  CreateBootstrapTokenRequest, Durations, validate_create_token,
}

-- status.Error(codes.Internal, err.Error()): the sentinel is no longer wrapped.
unfoldable pub internal {ℓ κ} : {S : Type ℓ} {A : Type κ} → Result A × S → Result A × S
internal (ok a, s) = (ok a, s)
internal (err e, s) = (err other, s)

module _ {State D : Type 0} (tokens : TokenStore State) (durations : Durations D) where
  open tokens use {create_token, delete_token, get_token, list_tokens}

  unfoldable pub create_bootstrap_token : CreateBootstrapTokenRequest D → Exec State BootstrapToken
  unfolding internal
  create_bootstrap_token req = do
    lift (validate_create_token durations req)
    λ s. internal (create_token (durations.as_duration req.ttl) req.labels req.capabilities s)

  unfoldable pub revoke_bootstrap_token : Reference → Exec State (Unit {0})
  revoke_bootstrap_token ref = do lift (validate_reference ref); delete_token ref

  unfoldable pub list_bootstrap_tokens : Exec State (List (Option BootstrapToken))
  unfolding internal
  list_bootstrap_tokens s = internal (list_tokens s)

  unfoldable pub get_bootstrap_token : Reference → Exec State BootstrapToken
  unfolding internal
  get_bootstrap_token ref = do lift (validate_reference ref); λ s. internal (get_token ref s)
