-- ===== src/Auth/Registry/Laws.antt =====
-- What registration gives to a later lookup.
use opni_monitoring.Prelude.{
  Str, str_eq, Assoc, has_key, lookup-insert_same, lookup-insert_other, Option, none, some, false,
  is_empty, ok, ◌≡◌, refl, arith,
}
use opni_monitoring.GoLib.Text.{trim_space}
use opni_monitoring.Auth.Registry.{
  add_middleware, register_trimmed, register_middleware, get_middleware,
}

module _ {M : Type 0} where
  add_lem :
      (name j : Str) (o : Option M) (mws : Assoc M)
      → str_eq name j ≡ false
      → (add_middleware name o mws).0 ≡ ok tt
      → (m : M) × (o ≡ some m)
        × (get_middleware name (add_middleware name o mws).1 ≡ ok (name, m))
        × (get_middleware j (add_middleware name o mws).1 ≡ get_middleware j mws)
  unfolding add_middleware get_middleware
  add_lem name j none mws differ h = cc
  add_lem name j (some m) mws differ h = (
    m,
    refl,
    rw (get_middleware, lookup-insert_same name m mws) refl,
    rw (get_middleware, lookup-insert_other name j m mws differ) refl,
  )

  register_lem :
      (name j : Str) (o : Option M) (mws : Assoc M)
      → str_eq name j ≡ false
      → (register_trimmed name o mws).0 ≡ ok tt
      → (is_empty name ≡ false)
        × (has_key name mws ≡ false)
        × (register_trimmed name o mws ≡ add_middleware name o mws)
  unfolding register_trimmed
  register_lem name j o mws differ h = ground arith

  -- If a middleware is registered without an error, then its name, trimmed of white space, is not
  -- empty and was not taken; it is found under the trimmed name, and what is found under any other
  -- name stays the same.
  pub get-register_middleware :
      (name j : Str) (o : Option M) (mws : Assoc M)
      → str_eq (trim_space name) j ≡ false
      → (register_middleware name o mws).0 ≡ ok tt
      → (m : M) × (o ≡ some m)
        × (is_empty (trim_space name) ≡ false)
        × (has_key (trim_space name) mws ≡ false)
        × (get_middleware (trim_space name) (register_middleware name o mws).1
            ≡ ok (trim_space name, m))
        × (get_middleware j (register_middleware name o mws).1 ≡ get_middleware j mws)
  unfolding register_middleware
  get-register_middleware name j o mws differ h =
      let (filled, new, same) = register_lem (trim_space name) j o mws differ h in
      let (m, is, found, other) = add_lem (trim_space name) j o mws differ (rw same at h) in
      (m, is, filled, new, rw same found, rw same other)
