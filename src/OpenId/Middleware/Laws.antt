-- ===== src/OpenId/Middleware/Laws.antt =====
-- Which requests the OpenID middleware passes on.
use opni_monitoring.Prelude.{
  some_injective, Str, Assoc, lookup, lookup-remove, str_eq_refl, Option, none, some, Bool, true,
  false, is_empty, Result, ok, err, ◌≡◌, refl, ap, ◌∙◌, ◌⊎◌, inl, inr, if◌then◌else◌,
}
use mathlib.Core.Path.{subst}
use opni_monitoring.Exec.{Exec}
use opni_monitoring.Http.{Request, status, next, header, delete_header}
use opni_monitoring.OpenId.Cache.{UserInfo, UserInfoCache, user_id, get}
use opni_monitoring.OpenId.Middleware.{
  TokenType, opaque, id_token, authorization, Jwx, get_token_type, validate_id_token, claimed_user,
  info_user, token_user, admit, bearer_token, with_keys, handle,
}

next_injective : {r r' : Request} → next r ≡ next r' → r ≡ r'
next_injective e = cc

module _ {Keys V W : Type 0} (jwx : Jwx Keys V W) where
  open jwx use {fetch_keys, parse, parse_signed}

  module _ (sprint : V → Str) (fetch : Str → Exec W (Assoc V)) (claim : Str) where
    -- A token tells of a user: it is an ID token that verifies against the keys and that claims the
    -- user, or it is opaque, and the cache or the provider has a user info of it with that claim.
    abbrev pub IdentifiedBy : Keys → Str → UserInfoCache V × W → Str → Type 0
    IdentifiedBy keys token (c, w) user =
        ((claims : Assoc V) × (v : V) × (get_token_type jwx w token ≡ id_token)
          × (parse_signed w keys token ≡ ok claims)
          × (lookup claim claims ≡ some v)
          × (user ≡ sprint v))
        ⊎ ((info : UserInfo V) × (get_token_type jwx w token ≡ opaque)
            × ((get sprint fetch claim token (c, w)).0 ≡ ok info)
            × (user_id sprint info ≡ ok user))

    claimed_user-some :
        (r : Result (Assoc V)) (user : Str)
        → claimed_user jwx sprint fetch claim r ≡ some user
        → (claims : Assoc V) × (v : V) × (r ≡ ok claims)
          × (lookup claim claims ≡ some v)
          × (user ≡ sprint v)
    unfolding claimed_user
    claimed_user-some (err e) user h = cc
    claimed_user-some (ok claims) user h = go (lookup claim claims) refl h
      where
        go :
            (o : Option V)
            → lookup claim claims ≡ o
            → (elim o as (λ _. Option Str) [ none ↦ none | some v ↦ some (sprint v) ]) ≡ some user
            → (claims' : Assoc V) × (v : V) × (◌≡◌ {A = Result (Assoc V)} (ok claims) (ok claims'))
              × (lookup claim claims' ≡ some v)
              × (user ≡ sprint v)
        go none found e = cc
        go (some v) found e = (claims, v, refl, found, cc)

    info_user-some :
        (r : Result (UserInfo V)) (user : Str)
        → info_user jwx sprint fetch claim r ≡ some user
        → (info : UserInfo V) × (r ≡ ok info) × (user_id sprint info ≡ ok user)
    unfolding info_user
    info_user-some (err e) user h = cc
    info_user-some (ok info) user h = go (user_id sprint info) refl h
      where
        go :
            (r : Result Str)
            → user_id sprint info ≡ r
            → (elim r as (λ _. Option Str) [ err e ↦ none | ok id ↦ some id ]) ≡ some user
            → (info' : UserInfo V) × (◌≡◌ {A = Result (UserInfo V)} (ok info) (ok info'))
              × (user_id sprint info' ≡ ok user)
        go (err e') found e = cc
        go (ok id) found e = (info, refl, found ∙ ap (λ (x : Str). ok x) (some_injective e))

    token_user-some :
        (ty : TokenType) (keys : Keys) (token : Str) (c : UserInfoCache V) (w : W) (user : Str)
        → get_token_type jwx w token ≡ ty
        → (token_user jwx sprint fetch claim ty keys token (c, w)).0 ≡ some user
        → IdentifiedBy keys token (c, w) user
    unfolding token_user validate_id_token
    token_user-some id_token keys token c w user is h =
        let (claims, v, parsed, found, same) =
          claimed_user-some (parse_signed w keys token) user h in
        inl (claims, v, is, parsed, found, same)
    token_user-some opaque keys token c w user is h =
        let (info, got, known) = info_user-some (get sprint fetch claim token (c, w)).0 user h in
        inr (info, is, got, known)

    admit-next :
        (r r' : Request) (p : Option Str × (UserInfoCache V × W))
        → (admit jwx sprint fetch claim r p).0 ≡ next r'
        → (user : Str) × (p.0 ≡ some user)
          × (r'.user_id ≡ some user)
          × (lookup authorization r'.headers ≡ none)
    unfolding admit delete_header
    admit-next r r' (none, s) h = cc
    admit-next r r' (some user, s) h =
        subst
          (λ r'.
            (u : Str) × (◌≡◌ {A = Option Str} (some user) (some u))
            × (r'.user_id ≡ some u)
            × (lookup authorization r'.headers ≡ none))
          (next_injective h)
          (
            user,
            refl,
            refl,
            lookup-remove authorization authorization r.headers
                ∙ rw (str_eq_refl authorization) refl,
          )

    with_keys-next :
        (r r' : Request) (c : UserInfoCache V) (k : Result Keys) (w : W)
        → (with_keys jwx sprint fetch claim r c (k, w)).0 ≡ next r'
        → (user : Str) × (keys : Keys) × (k ≡ ok keys)
          × IdentifiedBy keys (bearer_token (header authorization r)) (c, w) user
          × (r'.user_id ≡ some user)
          × (lookup authorization r'.headers ≡ none)
    unfolding with_keys
    with_keys-next r r' c (err e) w h = cc
    with_keys-next r r' c (ok keys) w h = go (is_empty (header authorization r)) h
      where
        token : Str
        token = bearer_token (header authorization r)

        found : Option Str × (UserInfoCache V × W)
        found = token_user jwx sprint fetch claim (get_token_type jwx w token) keys token (c, w)

        go :
            (b : Bool)
            → (if b then (status 401, (c, w)) else admit jwx sprint fetch claim r found).0 ≡ next r'
            → (user : Str) × (keys' : Keys) × (◌≡◌ {A = Result Keys} (ok keys) (ok keys'))
              × IdentifiedBy keys' token (c, w) user
              × (r'.user_id ≡ some user)
              × (lookup authorization r'.headers ≡ none)
        go true e = cc
        go false e =
            let (user, is, set, gone) = admit-next r r' found e in
            (
              user,
              keys,
              refl,
              token_user-some (get_token_type jwx w token) keys token c w user refl is,
              set,
              gone,
            )

    -- If the OpenID middleware passes a request on, then the provider was discovered, its key set
    -- was fetched, the request goes on under a user that the bearer token identifies with that key
    -- set, and its Authorization header is gone.
    pub handle-next :
        (r r' : Request) (c : Option (UserInfoCache V)) (w : W)
        → (handle jwx sprint fetch claim r (c, w)).0 ≡ next r'
        → (cache : UserInfoCache V) × (user : Str) × (keys : Keys) × (c ≡ some cache)
          × ((fetch_keys w).0 ≡ ok keys)
          × IdentifiedBy keys (bearer_token (header authorization r)) (cache, (fetch_keys w).1) user
          × (r'.user_id ≡ some user)
          × (lookup authorization r'.headers ≡ none)
    unfolding handle
    handle-next r r' none w h = cc
    handle-next r r' (some c) w h =
        let (user, keys, fetched, by, set, gone) =
          with_keys-next r r' c (fetch_keys w).0 (fetch_keys w).1 h in
        (c, user, keys, refl, fetched, by, set, gone)
