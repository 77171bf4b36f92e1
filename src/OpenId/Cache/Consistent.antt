-- ===== src/OpenId/Cache/Consistent.antt =====
-- The two maps of the cache are inverse to each other, so that a user has one cached token.
use opni_monitoring.Prelude.{Str, Assoc, lookup, Option, none, some, Result, ok, err, ◌≡◌, refl}
use opni_monitoring.Exec.{Exec}
use opni_monitoring.OpenId.Cache.{
  UserInfo, UserInfoCache, new_user_info_cache, user_id, remember, store, look_up, get,
}
use opni_monitoring.OpenId.Cache.Inverse.{
  IsConsistent, new_user_info_cache-IsConsistent, one_token, remember-IsConsistent,
}

module _ {V W : Type 0} (sprint : V → Str) (fetch : Str → Exec W (Assoc V)) (claim : Str) where
  stored_as :
      (token : Str) (c : UserInfoCache V) (raw : Assoc V) (w : W) (r : Result Str)
      → IsConsistent sprint c
      → lookup token c.cache ≡ none
      → user_id sprint (record { raw = raw; identifying_claim = claim }) ≡ r
      → IsConsistent sprint
          (elim r as (λ _. Result (UserInfo V) × (UserInfoCache V × W)) [
            | err e ↦ (err e, (c, w))
            | ok id ↦ (
              ok (record { raw = raw; identifying_claim = claim }),
              (remember id token (record { raw = raw; identifying_claim = claim }) c, w),
            )
          ]).1.0
  stored_as token c raw w (err e) h missed known = h
  stored_as token c raw w (ok id) h missed known =
      remember-IsConsistent sprint c id token (record { raw = raw; identifying_claim = claim }) h
        known missed

  store-IsConsistent :
      (token : Str) (c : UserInfoCache V) (r : Result (Assoc V) × W)
      → IsConsistent sprint c
      → lookup token c.cache ≡ none
      → IsConsistent sprint (store sprint fetch claim token c r).1.0
  unfolding store
  store-IsConsistent token c (err e, w) h missed = h
  store-IsConsistent token c (ok raw, w) h missed =
      stored_as token c raw w (user_id sprint (record { raw = raw; identifying_claim = claim })) h
        missed refl

  look_up-IsConsistent :
      (token : Str) (o : Option (UserInfo V)) (c : UserInfoCache V) (w : W)
      → IsConsistent sprint c
      → lookup token c.cache ≡ o
      → IsConsistent sprint (look_up sprint fetch claim token o (c, w)).1.0
  unfolding look_up
  look_up-IsConsistent token (some info) c w h at = h
  look_up-IsConsistent token none c w h at = store-IsConsistent token c (fetch token w) h at

  get-IsConsistent :
      (token : Str) (c : UserInfoCache V) (w : W)
      → IsConsistent sprint c
      → IsConsistent sprint (get sprint fetch claim token (c, w)).1.0
  unfolding get
  get-IsConsistent token c w h = look_up-IsConsistent token (lookup token c.cache) c w h refl

  -- The caches and worlds that calls of Get lead to from a new cache. Between two calls the
  -- world, the provider included, may become any other.
  pub data Reach : UserInfoCache V → Type 0 where
    start : Reach new_user_info_cache
    call :
        {c : UserInfoCache V} (token : Str) (w : W)
        → Reach c
        → Reach (get sprint fetch claim token (c, w)).1.0

  -- In every cache that calls of Get lead to, whatever the provider answers, the two maps are
  -- inverse to each other: a cached answer's user is known by its token, and a known user's token
  -- is cached with an answer for that user; so no user has two cached tokens.
  pub Reach-IsConsistent :
      (c : UserInfoCache V)
      → Reach c
      → IsConsistent sprint c
        × ((t t' u : Str) (i i' : UserInfo V)
            → lookup t c.cache ≡ some i
            → lookup t' c.cache ≡ some i'
            → user_id sprint i ≡ ok u
            → user_id sprint i' ≡ ok u
            → t ≡ t')
  Reach-IsConsistent c r = let h = consistent r in (h, one_token sprint c h)
    where
      consistent : {c : UserInfoCache V} → Reach c → IsConsistent sprint c
      consistent start = new_user_info_cache-IsConsistent sprint
      consistent (call {c} token w r) = get-IsConsistent token c w (consistent r)
