-- ===== src/Crds/Roles.antt =====
-- pkg/storage/crds/rbac_store.go. Its bindings are returned as they are stored: no taints are
-- applied, unlike in pkg/storage/etcd/rbac_store.go.
use opni_monitoring.Prelude.{List, []}
use opni_monitoring.Exec.{Exec, pure, ◌>>=◌}
use opni_monitoring.Core.Types.{Reference, Role, RoleBinding}
use opni_monitoring.Crds.Objects.{Resource, new_object, get_object, specs}

module _ {State : Type 0} (roles : Resource State Role) where
  open roles use {create, list, delete}

  unfoldable pub create_role : Role → Exec State (Unit {0})
  create_role role = create (new_object role.id [] role)

  -- The error is not translated.
  unfoldable pub delete_role : Reference → Exec State (Unit {0})
  delete_role ref = delete ref.id

  unfoldable pub get_role : Reference → Exec State Role
  unfolding get_object
  get_role ref = do role ← get_object roles ref.id; pure role.spec

  unfoldable pub list_roles : Exec State (List Role)
  unfolding specs
  list_roles = do items ← list; pure (specs items)

module _ {State : Type 0} (bindings : Resource State RoleBinding) where
  open bindings use {create, list, delete}

  unfoldable pub create_role_binding : RoleBinding → Exec State (Unit {0})
  create_role_binding rb = create (new_object rb.id [] rb)

  -- The error is not translated.
  unfoldable pub delete_role_binding : Reference → Exec State (Unit {0})
  delete_role_binding ref = delete ref.id

  unfoldable pub get_role_binding : Reference → Exec State RoleBinding
  unfolding get_object
  get_role_binding ref = do rb ← get_object bindings ref.id; pure rb.spec

  unfoldable pub list_role_bindings : Exec State (List RoleBinding)
  unfolding specs
  list_role_bindings = do items ← list; pure (specs items)
