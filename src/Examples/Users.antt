-- ===== src/Examples/Users.antt =====
-- A user with an opaque token, through the middlewares and the routes.
use opni_monitoring.Prelude.{
  ℕ, Str, codes, str_eq, str_lt, Assoc, lookup, insert, Option, none, some, Bool, true, false, List,
  [], ◌∷◌, any, is_empty, Result, ok, err, other, is_ok, ◌≡◌, refl,
}
use opni_monitoring.Exec.{Exec}
use opni_monitoring.Http.{Request, Outcome, next, header}
use opni_monitoring.Http.Codec.{org_id_codec, encode, decode}
use opni_monitoring.Http.Codec.Laws.{decode-encode}
use opni_monitoring.OpenId.Cache.{UserInfo, UserInfoCache, new_user_info_cache, user_id, get}
use opni_monitoring.OpenId.Cache.Inverse.{IsConsistent}
use opni_monitoring.OpenId.Cache.Consistent.{Reach, Reach-IsConsistent}
use opni_monitoring.OpenId.Middleware.{Jwx, authorization, bearer_token, handle}
use opni_monitoring.OpenId.Middleware.Laws.{IdentifiedBy}
use opni_monitoring.Core.Types.{RoleBinding}
use opni_monitoring.Storage.Rbac.{subject_access}
use opni_monitoring.Storage.Rbac.Access.{mem, binding_grants}
use opni_monitoring.Cortex.{query_route, alert_route}
use opni_monitoring.Cortex.Access.{query_route-grants, alert_route-grants}
use opni_monitoring.Examples.Access.{access_store}

abbrev W : Type 0
W = Unit {0}

-- No token is an ID token.
abbrev jwx : Jwx (Unit {0}) Str W
jwx = record {
  fetch_keys = λ w. (ok tt, w);
  parse = λ w token. err other;
  parse_signed = λ w keys token. err other;
}

-- Every token is the user's name, with one letter in front.
abbrev fetch : Str → Exec W (Assoc Str)
fetch token w = elim token [ [] ↦ (err other, w) | c ∷ name ↦ (ok ((codes "sub", name) ∷ []), w) ]

abbrev sprint : Str → Str
sprint s = s

abbrev sub : Str
sub = codes "sub"

abbrev cache : UserInfoCache Str
cache = new_user_info_cache

abbrev request : Request
request = record {
  headers = (codes "Authorization", codes "Bearer xann") ∷ [];
  user_id = none;
  cluster_ids = none;
}

abbrev first_info : UserInfo Str
first_info = record { raw = (codes "sub", codes "ann") ∷ []; identifying_claim = sub }

-- The user asks twice, with two tokens.
abbrev asked_twice : UserInfoCache Str
asked_twice =
    (get sprint fetch sub (codes "yann")
      ((get sprint fetch sub (codes "xann") (cache, tt)).1.0, tt)).1.0

asked_twice-Reach : Reach sprint fetch sub asked_twice
asked_twice-Reach = Reach.call (codes "yann") tt (Reach.call (codes "xann") tt Reach.start)

Reach-IsConsistent_example :
    IsConsistent sprint asked_twice
    × ((t t' u : Str) (i i' : UserInfo Str)
        → lookup t asked_twice.cache ≡ some i
        → lookup t' asked_twice.cache ≡ some i'
        → user_id sprint i ≡ ok u
        → user_id sprint i' ≡ ok u
        → t ≡ t')
Reach-IsConsistent_example = Reach-IsConsistent sprint fetch sub asked_twice asked_twice-Reach

abbrev queried : Request
queried = record {
  headers = (codes "X-Scope-OrgID", codes "edge-1|edge-2") ∷ [];
  user_id = some (codes "ann");
  cluster_ids = some (codes "edge-1" ∷ codes "edge-2" ∷ []);
}

query_route-grants_example :
    (c : UserInfoCache Str) × (user : Str) × (keys : Unit {0}) × (ids : List Str) × (rbs : List
      RoleBinding)
    × (some cache ≡ some c)
    × ((jwx.fetch_keys tt).0 ≡ ok keys)
    × IdentifiedBy jwx sprint fetch sub keys
        (bearer_token (header authorization request))
        (c, tt)
        user
    × (lookup authorization queried.headers ≡ none)
    × (header org_id_codec.key queried ≡ org_id_codec.encode ids)
    × (is_empty ids ≡ false)
    × (access_store.list_role_bindings ≡ ok rbs)
    × ((id : Str) → mem id ids ≡ any (binding_grants access_store user id) rbs)
unfolding query_route handle get lookup str_eq user_id subject_access str_lt
    opni_monitoring.Http.Rbac.handle insert opni_monitoring.Prelude.remove
    opni_monitoring.Http.Codec.delimiter_codec encode
query_route-grants_example =
    query_route-grants jwx sprint fetch sub access_store request queried (some cache) tt refl

abbrev alerted : Request
alerted = record queried { headers = (codes "X-Scope-OrgID", codes "edge-1") ∷ [] }

alert_route-grants_example :
    (c : UserInfoCache Str) × (user : Str) × (keys : Unit {0}) × (id : Str) × (rbs : List
      RoleBinding)
    × (some cache ≡ some c)
    × ((jwx.fetch_keys tt).0 ≡ ok keys)
    × IdentifiedBy jwx sprint fetch sub keys
        (bearer_token (header authorization request))
        (c, tt)
        user
    × (header org_id_codec.key alerted ≡ org_id_codec.encode (id ∷ []))
    × (access_store.list_role_bindings ≡ ok rbs)
    × (any (binding_grants access_store user id) rbs ≡ true)
unfolding alert_route query_route handle get lookup str_eq user_id subject_access str_lt
    opni_monitoring.Http.Rbac.handle opni_monitoring.Cortex.org_id_limiter insert
    opni_monitoring.Prelude.remove opni_monitoring.Http.Codec.delimiter_codec encode
alert_route-grants_example =
    alert_route-grants jwx sprint fetch sub access_store request alerted (some cache) tt refl

decode-encode_example :
    decode b'|' (encode b'|' (codes "edge-1" ∷ codes "edge-2" ∷ []))
    ≡ codes "edge-1" ∷ codes "edge-2" ∷ []
unfolding opni_monitoring.Validation.validate_id str_eq
decode-encode_example = decode-encode (codes "edge-1") (codes "edge-2" ∷ []) refl
