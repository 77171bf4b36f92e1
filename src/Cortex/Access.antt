-- ===== src/Cortex/Access.antt =====
-- The composition: OpenID authentication, RBAC and the limiter, before a forwarder.
use opni_monitoring.Prelude.{
  some_injective, Str, Assoc, lookup, Option, none, some, true, false, List, [], ◌∷◌, any, is_empty,
  take, ok, ◌≡◌, ◌∙◌, sym, ap, refl, str_eq_refl,
}
use mathlib.Core.Path.{subst}
use opni_monitoring.Exec.{Exec}
use opni_monitoring.Http.{Request, next, header}
use opni_monitoring.Http.Codec.{org_id_codec}
use opni_monitoring.OpenId.Cache.{UserInfoCache}
use opni_monitoring.OpenId.Middleware.{Jwx, authorization, bearer_token, handle}
use opni_monitoring.OpenId.Middleware.Laws.{IdentifiedBy, handle-next}
use opni_monitoring.Core.Types.{RoleBinding}
use opni_monitoring.Storage.Rbac.{SubjectAccessStore}
use opni_monitoring.Storage.Rbac.Access.{mem, binding_grants, subject_access_grants}
use opni_monitoring.Cortex.{query_route, alert_route}
use opni_monitoring.Cortex.Laws.{query-next, alert-next}

head_of :
    (ids : List Str)
    → is_empty ids ≡ false
    → (id : Str) × (take 1 ids ≡ id ∷ []) × (mem id ids ≡ true)
head_of [] h = cc
head_of (id ∷ ids) h = (id, refl, rw (str_eq_refl id) refl)

module _ {Keys V W : Type 0} (jwx : Jwx Keys V W) (sprint : V → Str)
    (fetch : Str → Exec W (Assoc V)) (claim : Str) (store : SubjectAccessStore) where
  open jwx use {fetch_keys}
  open store use {list_role_bindings}

  -- If a request reaches the query frontend behind OpenID and RBAC, then the provider was
  -- discovered, so that there is a cache, its key set was fetched, and with that key set and that
  -- cache the bearer token identifies a user: an ID token by claims whose signature was verified
  -- with the keys, an opaque token by the user info. The request no longer has its
  -- Authorization header, and its X-Scope-OrgID header encodes a list of at least one id, which has
  -- an id exactly when some role binding that was listed grants it to that user.
  pub query_route-grants :
      (r r' : Request) (c : Option (UserInfoCache V)) (w : W)
      → (query_route (handle jwx sprint fetch claim) store r (c, w)).0 ≡ next r'
      → (cache : UserInfoCache V) × (user : Str) × (keys : Keys) × (ids : List Str) × (rbs : List
          RoleBinding)
        × (c ≡ some cache)
        × ((fetch_keys w).0 ≡ ok keys)
        × IdentifiedBy jwx sprint fetch claim keys
            (bearer_token (header authorization r))
            (cache, (fetch_keys w).1)
            user
        × (lookup authorization r'.headers ≡ none)
        × (header org_id_codec.key r' ≡ org_id_codec.encode ids)
        × (is_empty ids ≡ false)
        × (list_role_bindings ≡ ok rbs)
        × ((id : Str) → mem id ids ≡ any (binding_grants store user id) rbs)
  unfolding query_route
  query_route-grants r r' c w h =
      let (m, user, ids, from, a, is, kept) =
        query-next store (handle jwx sprint fetch claim r (c, w)).0 r' h in
      let (cache, owner, keys, here, fetched, by, set, gone) =
        handle-next jwx sprint fetch claim r m c w from in
      let (rbs, listed, order, grants) = subject_access_grants store user ids a.access in
      (
        cache,
        user,
        keys,
        ids,
        rbs,
        here,
        fetched,
        subst
            (λ u.
              IdentifiedBy jwx sprint fetch claim keys (bearer_token (header authorization r))
                (cache, (fetch_keys w).1) u)
            (some_injective (sym set ∙ is)) by,
        kept ∙ gone,
        a.encoded,
        a.nonempty,
        listed,
        grants,
      )

  -- If a request reaches the alert manager behind OpenID, RBAC and the limiter, then the provider
  -- was discovered, so that there is a cache, its key set was fetched, and with that key set and
  -- that cache the bearer token identifies a user: an ID token by claims whose signature was
  -- verified with the keys, an opaque token by the user info; and its X-Scope-OrgID header
  -- encodes one id, which some role binding that was listed grants to that user.
  pub alert_route-grants :
      (r r' : Request) (c : Option (UserInfoCache V)) (w : W)
      → (alert_route (handle jwx sprint fetch claim) store r (c, w)).0 ≡ next r'
      → (cache : UserInfoCache V) × (user : Str) × (keys : Keys) × (id : Str) × (rbs : List
          RoleBinding)
        × (c ≡ some cache)
        × ((fetch_keys w).0 ≡ ok keys)
        × IdentifiedBy jwx sprint fetch claim keys
            (bearer_token (header authorization r))
            (cache, (fetch_keys w).1)
            user
        × (header org_id_codec.key r' ≡ org_id_codec.encode (id ∷ []))
        × (list_role_bindings ≡ ok rbs)
        × (any (binding_grants store user id) rbs ≡ true)
  unfolding alert_route query_route
  alert_route-grants r r' c w h =
      let (m, user, ids, from, is, access, nonempty, set', first) =
        alert-next store (handle jwx sprint fetch claim r (c, w)).0 r' h in
      let (cache, owner, keys, here, fetched, by, set, gone) =
        handle-next jwx sprint fetch claim r m c w from in
      let (rbs, listed, order, grants) = subject_access_grants store user ids access in
      let (id, e, member) = head_of ids nonempty in
      (
        cache,
        user,
        keys,
        id,
        rbs,
        here,
        fetched,
        subst
            (λ u.
              IdentifiedBy jwx sprint fetch claim keys (bearer_token (header authorization r))
                (cache, (fetch_keys w).1) u)
            (some_injective (sym set ∙ is)) by,
        first ∙ ap (λ (x : List Str). org_id_codec.encode x) e,
        listed,
        sym (grants id) ∙ member,
      )
