-- ===== src/OpenId/Cache.antt =====
-- UserInfoCache of pkg/auth/openid/cache.go. One Get runs at a time, under its lock; what the
-- provider answers to FetchUserInfo, and fmt.Sprint of a claim, are parameters.
pub mod Inverse
pub mod Consistent
use opni_monitoring.Prelude.{
  Str, str_eq, Assoc, lookup, insert, remove, Option, none, some, Bool, true, false, not, [],
  if◌then◌else◌, Result, ok, err, Error, other,
}
use opni_monitoring.Exec.{Exec}

pub record UserInfo (V : Type 0) : Type 0 where
  pub raw : Assoc V
  pub identifying_claim : Str

pub record UserInfoCache (V : Type 0) : Type 0 where
  -- by access token
  pub cache : Assoc (UserInfo V)
  -- from user ids to access tokens
  pub known_users : Assoc Str

abbrev pub new_user_info_cache : {V : Type 0} → UserInfoCache V
new_user_info_cache = record { cache = []; known_users = [] }

module _ {V : Type 0} (sprint : V → Str) where
  unfoldable pub user_id : UserInfo V → Result Str
  user_id info = elim (lookup info.identifying_claim info.raw) [
    | none ↦ err other
    | some v ↦ ok (sprint v)
  ]

module _ {V : Type 0} where
  -- The branch on the user's previous token.
  unfoldable pub refresh : Str → Str → Option Str → UserInfoCache V → UserInfoCache V
  refresh id token none c = record c { known_users = insert id token c.known_users }
  refresh id token (some previous) c =
      if not (str_eq previous token)
      then record { cache = remove previous c.cache; known_users = insert id token c.known_users }
      else c

  unfoldable pub remember : Str → Str → UserInfo V → UserInfoCache V → UserInfoCache V
  unfolding refresh
  remember id token info c =
      let c' = refresh id token (lookup id c.known_users) c in
      record c' { cache = insert token info c'.cache }

module _ {V W : Type 0} (sprint : V → Str) (fetch : Str → Exec W (Assoc V)) (claim : Str) where
  -- Behind the provider's answer.
  unfoldable pub store :
      Str → UserInfoCache V → Result (Assoc V) × W → Result (UserInfo V) × (UserInfoCache V × W)
  unfolding remember
  store token c (err e, w) = (err e, (c, w))
  store token c (ok raw, w) =
      let info : UserInfo V = record { raw = raw; identifying_claim = claim } in
      elim (user_id sprint info) [
        | err e ↦ (err e, (c, w))
        | ok id ↦ (ok info, (remember id token info c, w))
      ]

  unfoldable pub look_up : Str → Option (UserInfo V) → Exec (UserInfoCache V × W) (UserInfo V)
  unfolding store
  look_up token (some info) s = (ok info, s)
  look_up token none (c, w) = store token c (fetch token w)

  unfoldable pub get : Str → Exec (UserInfoCache V × W) (UserInfo V)
  unfolding look_up
  get token (c, w) = look_up token (lookup token c.cache) (c, w)
