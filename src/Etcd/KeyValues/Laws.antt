-- ===== src/Etcd/KeyValues/Laws.antt =====
-- Values and keyrings are read back as they were put.
use opni_monitoring.Prelude.{Str, Option, ok, ◌≡◌, ◌∙◌}
use opni_monitoring.Exec.{bind_ok}
use opni_monitoring.Etcd.Client.{
  Client, IsEtcd, KeyValue, Codec, IsCodec, object_key, keyrings_kind,
}
use opni_monitoring.Etcd.Roles.{read_object}
use opni_monitoring.Etcd.Roles.Laws.{read_object-put}
use opni_monitoring.Etcd.KeyValues.{
  validate_key, entry_key, put, get_value, put_keyring, get_keyring,
}

module _ (etcd : Client) (laws : IsEtcd etcd) (base64 : Codec Str) (codec : IsCodec base64)
    (prefix : Str) where
  open etcd use {State}

  put_parts :
      (key value : Str) (s : State)
      → (put etcd base64 prefix key value s).0 ≡ ok tt
      → (validate_key key ≡ ok tt) × (text : Str) × (base64.marshal value ≡ ok text)
  unfolding put
  put_parts key value s h =
      let (u, valid, _, rest) = bind_ok (λ (t : State). (validate_key key, t)) _ s h in
      let (text, m, _, _) = bind_ok (λ (t : State). (base64.marshal value, t)) _ s rest in
      (valid, text, m)

  put_run :
      (key value text : Str) (s : State)
      → validate_key key ≡ ok tt
      → base64.marshal value ≡ ok text
      → put etcd base64 prefix key value s ≡ etcd.put (entry_key prefix key) text 0 s
  unfolding put
  put_run key value text s v m = rw (v, m)

  get_value_run :
      (key : Str) (s : State) (r : Option KeyValue)
      → validate_key key ≡ ok tt
      → (etcd.get (entry_key prefix key) s).0 ≡ ok r
      → (get_value etcd base64 prefix key s).0 ≡ read_object base64 r
  unfolding get_value
  get_value_run key s r v h = rw (v, h)

  -- After a Put of the key-value store succeeded, a Get of its key that reaches etcd returns the
  -- value that was put.
  pub get_value-put :
      (key value : Str) (s : State) (r : Option KeyValue)
      → (put etcd base64 prefix key value s).0 ≡ ok tt
      → (etcd.get (entry_key prefix key) (put etcd base64 prefix key value s).1).0 ≡ ok r
      → (get_value etcd base64 prefix key (put etcd base64 prefix key value s).1).0 ≡ ok value
  get_value-put key value s r h got =
      let (valid, text, m) = put_parts key value s h in
      let run = put_run key value text s valid m in
      get_value_run key (put etcd base64 prefix key value s).1 r valid got
      ∙ read_object-put etcd laws base64 codec (entry_key prefix key) text 0 value s r m
          (rw run at h) (rw run at got)

module _ {K : Type 0} (etcd : Client) (laws : IsEtcd etcd) (json : Codec K) (codec : IsCodec json)
    (prefix id : Str) where
  open etcd use {State}

  abbrev keyring_key : Str
  keyring_key = object_key prefix keyrings_kind id

  put_keyring_run :
      (k : K) (text : Str) (s : State)
      → json.marshal k ≡ ok text
      → put_keyring etcd json prefix id k s ≡ etcd.put keyring_key text 0 s
  unfolding put_keyring
  put_keyring_run k text s m = rw m

  put_keyring_parts :
      (k : K) (s : State)
      → (put_keyring etcd json prefix id k s).0 ≡ ok tt
      → (text : Str) × (json.marshal k ≡ ok text)
  unfolding put_keyring
  put_keyring_parts k s h =
      let (text, m, _, _) = bind_ok (λ (t : State). (json.marshal k, t)) _ s h in (text, m)

  get_keyring_run :
      (s : State) (r : Option KeyValue)
      → (etcd.get keyring_key s).0 ≡ ok r
      → (get_keyring etcd json prefix id s).0 ≡ read_object json r
  unfolding get_keyring
  get_keyring_run s r h = rw h

  -- After a Put of a cluster's keyring succeeded, a Get that reaches etcd returns that keyring.
  pub get-put_keyring :
      (k : K) (s : State) (r : Option KeyValue)
      → (put_keyring etcd json prefix id k s).0 ≡ ok tt
      → (etcd.get keyring_key (put_keyring etcd json prefix id k s).1).0 ≡ ok r
      → (get_keyring etcd json prefix id (put_keyring etcd json prefix id k s).1).0 ≡ ok k
  get-put_keyring k s r h got =
      let (text, m) = put_keyring_parts k s h in
      let run = put_keyring_run k text s m in
      get_keyring_run (put_keyring etcd json prefix id k s).1 r got
      ∙ read_object-put etcd laws json codec keyring_key text 0 k s r m (rw run at h)
          (rw run at got)
