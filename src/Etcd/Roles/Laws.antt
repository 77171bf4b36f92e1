-- ===== src/Etcd/Roles/Laws.antt =====
-- Roles and role bindings are read back as they were created.
use opni_monitoring.Prelude.{ℕ, Str, Option, some, ok, ◌≡◌, ◌∙◌, ap}
use opni_monitoring.Exec.{bind_ok}
use opni_monitoring.Core.Types.{Reference, Role, RoleBinding}
use opni_monitoring.Etcd.Client.{Client, IsEtcd, KeyValue, Codec, IsCodec}
use opni_monitoring.Etcd.Roles.{role_key, read_object, create_role, get_role}

module _ (etcd : Client) (laws : IsEtcd etcd) {T : Type 0} (json : Codec T)
    (codec : IsCodec json) where
  read_value :
      (x : T) (text : Str) (kv : KeyValue)
      → json.marshal x ≡ ok text
      → kv.value ≡ text
      → read_object json (some kv) ≡ ok x
  unfolding read_object
  read_value x text kv m e = rw e (codec.reads_back x text m)

  -- What a Get sees after a Put of an encoded value decodes to the value.
  pub read_object-put :
      (key text : Str) (lease : ℕ) (x : T) (s : etcd.State) (r : Option KeyValue)
      → json.marshal x ≡ ok text
      → (etcd.put key text lease s).0 ≡ ok tt
      → (etcd.get key (etcd.put key text lease s).1).0 ≡ ok r
      → read_object json r ≡ ok x
  read_object-put key text lease x s r m put got =
      let (kv, at, v, _) = laws.put_writes key text lease s put in
      ap (λ (o : Option KeyValue). read_object json o)
        (laws.get_reads key (etcd.put key text lease s).1 r got ∙ at)
      ∙ read_value x text kv m v

module _ (etcd : Client) (laws : IsEtcd etcd) (roles : Codec Role) (bindings : Codec RoleBinding)
    (prefix : Str) where
  open etcd use {State}

  create_role_run :
      (role : Role) (text : Str) (s : State)
      → roles.marshal role ≡ ok text
      → create_role etcd roles bindings prefix role s ≡ etcd.put (role_key prefix role.id) text 0 s
  unfolding create_role
  create_role_run role text s m = rw m

  marshalled :
      (role : Role) (s : State)
      → (create_role etcd roles bindings prefix role s).0 ≡ ok tt
      → (text : Str) × (roles.marshal role ≡ ok text)
  unfolding create_role
  marshalled role s h =
      let (text, m, _, _) = bind_ok (λ (t : State). (roles.marshal role, t)) _ s h in (text, m)

  get_role_run :
      (ref : Reference) (s : State) (r : Option KeyValue)
      → (etcd.get (role_key prefix ref.id) s).0 ≡ ok r
      → (get_role etcd roles bindings prefix ref s).0 ≡ read_object roles r
  unfolding get_role
  get_role_run ref s r h = rw h

  -- After CreateRole succeeded, a GetRole of the role's id that reaches etcd returns the role.
  pub get-create_role :
      (codec : IsCodec roles) (role : Role) (s : State) (r : Option KeyValue)
      → (create_role etcd roles bindings prefix role s).0 ≡ ok tt
      → (etcd.get (role_key prefix role.id) (create_role etcd roles bindings prefix role s).1).0
        ≡ ok r
      → (get_role etcd roles bindings prefix
          (record { id = role.id })
          (create_role etcd roles bindings prefix role s).1).0
        ≡ ok role
  get-create_role codec role s r h got =
      let (text, m) = marshalled role s h in
      let run = create_role_run role text s m in
      get_role_run (record { id = role.id }) (create_role etcd roles bindings prefix role s).1 r got
      ∙ read_object-put etcd laws roles codec (role_key prefix role.id) text 0 role s r m
          (rw run at h) (rw run at got)
