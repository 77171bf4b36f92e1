-- ===== src/Management/Roles.antt =====
-- pkg/management/rbac.go.
use opni_monitoring.Prelude.{Str, List, is_empty, Result, ok, err, read_only_field, guard}
use opni_monitoring.Exec.{Exec, lift, ◌>>◌}
use opni_monitoring.Core.Types.{Reference, Role, RoleBinding}
use opni_monitoring.Core.Validate.{
  validate_reference, validate_role, validate_role_binding, validate_subject_access_request,
}
use opni_monitoring.Storage.Stores.{RbacStore}

module _ {State : Type 0} (store : RbacStore State) where
  unfoldable pub create_role : Role → Exec State (Unit {0})
  create_role in' = do lift (validate_role in'); store.create_role in'

  unfoldable pub delete_role : Reference → Exec State (Unit {0})
  delete_role in' = do lift (validate_reference in'); store.delete_role in'

  unfoldable pub get_role : Reference → Exec State Role
  get_role in' = do lift (validate_reference in'); store.get_role in'

  unfoldable pub create_role_binding : RoleBinding → Exec State (Unit {0})
  create_role_binding in' = do
    lift (validate_role_binding in')
    lift (guard (is_empty in'.taints) read_only_field)
    store.create_role_binding in'

  unfoldable pub delete_role_binding : Reference → Exec State (Unit {0})
  delete_role_binding in' = do lift (validate_reference in'); store.delete_role_binding in'

  unfoldable pub get_role_binding : Reference → Exec State RoleBinding
  get_role_binding in' = do lift (validate_reference in'); store.get_role_binding in'

  unfoldable pub list_roles : Exec State (List Role)
  list_roles = store.list_roles

  unfoldable pub list_role_bindings : Exec State (List RoleBinding)
  list_role_bindings = store.list_role_bindings

-- The provider is rbacProvider.
unfoldable pub subject_access : (Str → Result (List Str)) → Str → Result (List Str)
subject_access provider subject = elim (validate_subject_access_request subject) [
  | err e ↦ err e
  | ok tt ↦ provider subject
]
