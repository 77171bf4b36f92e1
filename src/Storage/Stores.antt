-- ===== src/Storage/Stores.antt =====
-- The interfaces of pkg/storage/stores.go that the management API calls, over a state that the
-- calls read and change.
use opni_monitoring.Prelude.{ℕ, Str, Assoc, Option, List}
use opni_monitoring.Exec.{Exec}
use opni_monitoring.Core.Types.{
  Reference, BootstrapToken, TokenCapability, Cluster, LabelSelector, Role, RoleBinding,
}
use opni_monitoring.Storage.Mutators.{Mutator}

-- The duration is a time.Duration, an int64; the options are applied labels and capabilities. A
-- slot of a list of tokens may be nil.
pub record TokenStore (State : Type 0) : Type 0 where
  pub create_token : ℕ → Assoc Str → List TokenCapability → Exec State BootstrapToken
  pub delete_token : Reference → Exec State (Unit {0})
  pub get_token : Reference → Exec State BootstrapToken
  pub update_token : Reference → Mutator BootstrapToken → Exec State BootstrapToken
  pub list_tokens : Exec State (List (Option BootstrapToken))

pub record ClusterStore (State : Type 0) : Type 0 where
  pub create_cluster : Cluster → Exec State (Unit {0})
  pub delete_cluster : Reference → Exec State (Unit {0})
  pub get_cluster : Reference → Exec State Cluster
  pub update_cluster : Reference → Mutator Cluster → Exec State Cluster
  pub list_clusters : Option LabelSelector → ℕ → Exec State (List Cluster)

pub record RbacStore (State : Type 0) : Type 0 where
  pub create_role : Role → Exec State (Unit {0})
  pub delete_role : Reference → Exec State (Unit {0})
  pub get_role : Reference → Exec State Role
  pub create_role_binding : RoleBinding → Exec State (Unit {0})
  pub delete_role_binding : Reference → Exec State (Unit {0})
  pub get_role_binding : Reference → Exec State RoleBinding
  pub list_roles : Exec State (List Role)
  pub list_role_bindings : Exec State (List RoleBinding)
