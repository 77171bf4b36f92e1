-- ===== src/OpenId/Middleware.antt =====
-- Handle of pkg/auth/openid/openid.go and pkg/auth/openid/tokens.go. The library
-- github.com/lestrrat-go/jwx is a parameter: the key sets that it fetches and what ParseString
-- reads from a token, with a key set or with none.
pub mod Laws
use opni_monitoring.Prelude.{
  Str, codes, Assoc, lookup, has_key, Option, none, some, Bool, true, false, List, [], ◌∷◌, all,
  is_empty, if◌then◌else◌, Result, ok, err, Error,
}
use opni_monitoring.Exec.{Exec}
use opni_monitoring.GoLib.Text.{trim_space, trim_prefix}
use opni_monitoring.Http.{Request, Outcome, status, next, header, delete_header}
use opni_monitoring.OpenId.Cache.{UserInfo, UserInfoCache, user_id, get}

-- GetTokenType's answers
pub data TokenType : Type 0 where
  opaque id_token : TokenType

abbrev pub required_claims : List Str
required_claims = codes "iss" ∷ codes "sub" ∷ codes "aud" ∷ codes "exp" ∷ codes "iat" ∷ []

abbrev pub authorization : Str
authorization = codes "Authorization"

-- strings.TrimSpace(strings.TrimPrefix(authHeader, "Bearer"))
unfoldable pub bearer_token : Str → Str
unfolding trim_space trim_prefix
bearer_token h = trim_space (trim_prefix h (codes "Bearer"))

-- Keys: the key sets; V: the values of claims; W: what lies outside the middleware.
pub record Jwx (Keys V W : Type 0) : Type 0 where
  -- AutoRefresh.Fetch of the JWKS URI
  pub fetch_keys : Exec W Keys
  -- jwt.ParseString(token, WithToken, WithValidate(true)), at the time of the world
  pub parse : W → Str → Result (Assoc V)
  -- the same with WithKeySet
  pub parse_signed : W → Keys → Str → Result (Assoc V)

module _ {Keys V W : Type 0} (jwx : Jwx Keys V W) where
  open jwx use {fetch_keys, parse, parse_signed}

  unfoldable pub has_claims : Result (Assoc V) → Bool
  has_claims (err e) = false
  has_claims (ok claims) = all (λ claim. has_key claim claims) required_claims

  unfoldable pub is_id_token : W → Str → Bool
  unfolding has_claims
  is_id_token w token = has_claims (parse w token)

  unfoldable pub get_token_type : W → Str → TokenType
  unfolding is_id_token
  get_token_type w token = if is_id_token w token then id_token else opaque

  unfoldable pub validate_id_token : W → Keys → Str → Result (Assoc V)
  validate_id_token w keys token = parse_signed w keys token

  module _ (sprint : V → Str) (fetch : Str → Exec W (Assoc V)) (claim : Str) where
    -- The user of a token, or the status of the refusal.
    unfoldable pub claimed_user : Result (Assoc V) → Option Str
    claimed_user (err e) = none
    claimed_user (ok claims) = elim (lookup claim claims) [ none ↦ none | some v ↦ some (sprint v) ]

    unfoldable pub info_user : Result (UserInfo V) → Option Str
    unfolding user_id
    info_user (err e) = none
    info_user (ok info) = elim (user_id sprint info) [ err e ↦ none | ok id ↦ some id ]

    unfoldable pub token_user :
        TokenType → Keys → Str → UserInfoCache V × W → Option Str × (UserInfoCache V × W)
    unfolding claimed_user info_user validate_id_token get
    token_user id_token keys token (c, w) = (claimed_user (validate_id_token w keys token), (c, w))
    token_user opaque keys token (c, w) =
        let (r, s) = get sprint fetch claim token (c, w) in (info_user r, s)

    -- The last part of Handle.
    unfoldable pub admit :
        Request → Option Str × (UserInfoCache V × W) → Outcome × (UserInfoCache V × W)
    unfolding delete_header
    admit r (none, s) = (status 401, s)
    admit r (some user, s) =
        (next (record (delete_header authorization r) { user_id = some user }), s)

    -- Behind the fetch of the key set.
    unfoldable pub with_keys :
        Request → UserInfoCache V → Result Keys × W → Outcome × (UserInfoCache V × W)
    unfolding admit token_user get_token_type header bearer_token
    with_keys r c (err e, w) = (status 503, (c, w))
    with_keys r c (ok keys, w) =
        if is_empty (header authorization r)
        then (status 401, (c, w))
        else let token = bearer_token (header authorization r) in
          admit r (token_user (get_token_type w token) keys token (c, w))

    -- The cache is there once the provider was discovered (wellKnownConfig is set).
    unfoldable pub handle :
        Request → Option (UserInfoCache V) × W → Outcome × (Option (UserInfoCache V) × W)
    unfolding with_keys
    handle r (none, w) = (status 503, (none, w))
    handle r (some c, w) = let (o, (c', w')) = with_keys r c (fetch_keys w) in (o, (some c', w'))
