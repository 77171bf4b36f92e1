-- ===== src/Etcd/Roles.antt =====
-- pkg/storage/etcd/rbac_store.go.
pub mod Laws
use opni_monitoring.Prelude.{
  ℕ, Str, Option, none, some, List, [], ◌∷◌, ◌==◌, if◌then◌else◌, Result, ok, err, not_found,
}
use opni_monitoring.Exec.{Exec, pure, lift, attempt, ◌>>=◌}
use opni_monitoring.Core.Types.{Reference, Role, RoleBinding, role_reference}
use opni_monitoring.Storage.Rbac.{taint_found}
use opni_monitoring.Etcd.Client.{
  Client, KeyValue, Codec, object_key, kind_key, roles_kind, role_bindings_kind,
}

unfoldable pub role_key : Str → Str → Str
role_key prefix id = object_key prefix roles_kind id

unfoldable pub role_binding_key : Str → Str → Str
role_binding_key prefix id = object_key prefix role_bindings_kind id

-- The one value of a Get, decoded.
unfoldable pub read_object : {T : Type 0} → Codec T → Option KeyValue → Result T
read_object json none = err not_found
read_object json (some kv) = json.unmarshal kv.value

-- if resp.Deleted == 0 { return ErrNotFound }
unfoldable pub check_deleted : ℕ → Result (Unit {0})
check_deleted n = if n == 0 then err not_found else ok tt

module _ (etcd : Client) (roles : Codec Role) (bindings : Codec RoleBinding) (prefix : Str) where
  open etcd use {State, get, get_prefix, put, delete}

  unfoldable pub create_role : Role → Exec State (Unit {0})
  create_role role = do data' ← lift (roles.marshal role); put (role_key prefix role.id) data' 0

  unfoldable pub delete_role : Reference → Exec State (Unit {0})
  unfolding check_deleted
  delete_role ref = do deleted ← delete (role_key prefix ref.id); lift (check_deleted deleted)

  unfoldable pub get_role : Reference → Exec State Role
  unfolding read_object
  get_role ref = do found ← get (role_key prefix ref.id); lift (read_object roles found)

  unfoldable pub create_role_binding : RoleBinding → Exec State (Unit {0})
  create_role_binding rb = do
    data' ← lift (bindings.marshal rb)
    put (role_binding_key prefix rb.id) data' 0

  unfoldable pub delete_role_binding : Reference → Exec State (Unit {0})
  unfolding check_deleted
  delete_role_binding ref = do
    deleted ← delete (role_binding_key prefix ref.id)
    lift (check_deleted deleted)

  -- storage.ApplyRoleBindingTaints over this store
  unfoldable pub apply_taints : RoleBinding → Exec State RoleBinding
  unfolding get_role
  apply_taints rb = do role ← attempt (get_role (role_reference rb)); lift (taint_found role rb)

  unfoldable pub get_role_binding : Reference → Exec State RoleBinding
  unfolding read_object apply_taints
  get_role_binding ref = do
    found ← get (role_binding_key prefix ref.id)
    rb ← lift (read_object bindings found)
    apply_taints rb

  unfoldable pub read_roles : List KeyValue → Result (List Role)
  read_roles [] = ok []
  read_roles (kv ∷ kvs) =
      let later = read_roles kvs in
      elim (roles.unmarshal kv.value) [
        | err e ↦ err e
        | ok role ↦ elim later [ err e ↦ err e | ok items ↦ ok (role ∷ items) ]
      ]

  unfoldable pub list_roles : Exec State (List Role)
  unfolding read_roles
  list_roles = do kvs ← get_prefix (kind_key prefix roles_kind); lift (read_roles kvs)

  unfoldable pub read_role_bindings : List KeyValue → Exec State (List RoleBinding)
  unfolding apply_taints
  read_role_bindings [] = pure []
  read_role_bindings (kv ∷ kvs) = do
    rb ← lift (bindings.unmarshal kv.value)
    tainted ← apply_taints rb
    items ← read_role_bindings kvs
    pure (tainted ∷ items)

  unfoldable pub list_role_bindings : Exec State (List RoleBinding)
  unfolding read_role_bindings
  list_role_bindings = do
    kvs ← get_prefix (kind_key prefix role_bindings_kind)
    read_role_bindings kvs
