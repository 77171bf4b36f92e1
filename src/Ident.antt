-- ===== src/Ident.antt =====
-- pkg/ident/ident.go. A provider is registered by the function that makes it; a nil function is
-- `none`.
use opni_monitoring.Prelude.{
  Str, Assoc, lookup, insert, has_key, Option, none, some, is_empty, if◌then◌else◌, Result, ok, err,
  invalid_provider_name, provider_already_exists, nil_provider, provider_not_found,
}
use opni_monitoring.GoLib.Text.{trim_space}

module _ {P : Type 0} where
  unfoldable pub add_provider :
      Str → Option (Unit {0} → P) → Assoc (Unit {0} → P) → Result (Unit {0}) × Assoc (Unit {0} → P)
  add_provider name none ps = (err nil_provider, ps)
  add_provider name (some p) ps = (ok tt, insert name p ps)

  unfoldable pub register_trimmed :
      Str → Option (Unit {0} → P) → Assoc (Unit {0} → P) → Result (Unit {0}) × Assoc (Unit {0} → P)
  unfolding add_provider
  register_trimmed name p ps =
      if is_empty name
      then (err invalid_provider_name, ps)
      else if has_key name ps
      then (err provider_already_exists, ps)
      else add_provider name p ps

  unfoldable pub register_provider :
      Str → Option (Unit {0} → P) → Assoc (Unit {0} → P) → Result (Unit {0}) × Assoc (Unit {0} → P)
  unfolding register_trimmed trim_space
  register_provider name p ps = register_trimmed (trim_space name) p ps

  -- The name is not trimmed; the named provider is the pair.
  unfoldable pub get_provider : Str → Assoc (Unit {0} → P) → Result (Str × P)
  get_provider name ps = elim (lookup name ps) [
    | none ↦ err provider_not_found
    | some p ↦ ok (name, p tt)
  ]
