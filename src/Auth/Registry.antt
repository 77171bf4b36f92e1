-- ===== src/Auth/Registry.antt =====
-- The registry by name of pkg/auth/middleware.go. A nil middleware is `none`.
pub mod Laws
use opni_monitoring.Prelude.{
  Str, Assoc, lookup, insert, has_key, Option, none, some, Bool, true, false, [], is_empty,
  if◌then◌else◌, Result, ok, err, Error, invalid_middleware_name, middleware_already_exists,
  nil_middleware, middleware_not_found,
}
use opni_monitoring.GoLib.Text.{trim_space}

module _ {M : Type 0} where
  unfoldable pub add_middleware : Str → Option M → Assoc M → Result (Unit {0}) × Assoc M
  add_middleware name none mws = (err nil_middleware, mws)
  add_middleware name (some m) mws = (ok tt, insert name m mws)

  unfoldable pub register_trimmed : Str → Option M → Assoc M → Result (Unit {0}) × Assoc M
  unfolding add_middleware
  register_trimmed name m mws =
      if is_empty name
      then (err invalid_middleware_name, mws)
      else if has_key name mws
      then (err middleware_already_exists, mws)
      else add_middleware name m mws

  unfoldable pub register_middleware : Str → Option M → Assoc M → Result (Unit {0}) × Assoc M
  unfolding register_trimmed trim_space
  register_middleware name m mws = register_trimmed (trim_space name) m mws

  -- The name is not trimmed; the named middleware is the pair.
  unfoldable pub get_middleware : Str → Assoc M → Result (Str × M)
  get_middleware name mws = elim (lookup name mws) [
    | none ↦ err middleware_not_found
    | some m ↦ ok (name, m)
  ]

  abbrev pub reset_middlewares : Assoc M
  reset_middlewares = []
