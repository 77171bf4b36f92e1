-- ===== src/Cortex/Laws.antt =====
-- What reaches the forwarders: requests of an authenticated user, with ids that are granted to it.
use opni_monitoring.Prelude.{
  Str, codes, str_eq, lookup, lookup-insert_other, lookup-insert_same, Option, none, some, Bool,
  true, false, List, [], ◌∷◌, is_empty, take, Result, ok, err, panicked, ◌≡◌, refl, sym, ◌∙◌, arith,
}
use mathlib.Core.Path.{subst}
use opni_monitoring.Http.{Request, Outcome, status, next, crash, and_then, set_header, header}
use opni_monitoring.Http.Rbac.{handle, authorize, authorize_user, authorized_user_id}
use opni_monitoring.Http.Codec.{org_id_codec, delimiter_codec}
use opni_monitoring.Storage.Rbac.{SubjectAccessStore, subject_access}
use opni_monitoring.Cortex.{authorized_cluster_ids, limit_to_first, org_id_limiter}

and_then-next :
    (o : Outcome) (f : Request → Outcome) (r' : Request)
    → and_then o f ≡ next r'
    → (r : Request) × (o ≡ next r) × (f r ≡ next r')
unfolding and_then
and_then-next (status n) f r' h = cc
and_then-next (next r) f r' h = (r, refl, h)
and_then-next crash f r' h = cc

header-set_header : (name value : Str) (r : Request) → header name (set_header name value r) ≡ value
unfolding header set_header
header-set_header name value r = rw (header, lookup-insert_same name value r.headers) refl

set_header-apart :
    (name value : Str) (r : Request)
    → str_eq org_id_codec.key name ≡ false
    → lookup name (set_header org_id_codec.key value r).headers ≡ lookup name r.headers
unfolding set_header
set_header-apart name value r h = lookup-insert_other org_id_codec.key name value r.headers h

next_injective : {r r' : Request} → next r ≡ next r' → r ≡ r'
next_injective e = cc

-- What RBAC makes of a request: the local and the header are set to what SubjectAccess answers for
-- its user, and the rest stays.
pub record IsAuthorized (store : SubjectAccessStore) (user : Str) (ids : List Str) (r : Request)
    : Type 0 where
  pub subject : r.user_id ≡ some user
  pub access : subject_access store user ≡ ok ids
  pub nonempty : is_empty ids ≡ false
  pub listed : r.cluster_ids ≡ some ids
  pub encoded : header org_id_codec.key r ≡ org_id_codec.encode ids

module _ (store : SubjectAccessStore) where
  authorize-next :
      (r r' : Request) (user : Str) (ids : Result (List Str))
      → r.user_id ≡ some user
      → subject_access store user ≡ ids
      → authorize (subject_access store) org_id_codec r ids ≡ next r'
      → (granted : List Str) × IsAuthorized store user granted r'
        × (lookup (codes "Authorization") r'.headers ≡ lookup (codes "Authorization") r.headers)
  unfolding authorize set_header str_eq delimiter_codec header
  authorize-next r r' user (err e) is_user at h = cc
  authorize-next r r' user (ok []) is_user at h = cc
  authorize-next r r' user (ok (id ∷ rest)) is_user at h =
      subst
        (λ r'.
          (granted : List Str) × IsAuthorized store user granted r'
          × (lookup (codes "Authorization") r'.headers ≡ lookup (codes "Authorization") r.headers))
        (next_injective h) (id ∷ rest, authorized, kept)
    where
      set : Request
      set = set_header org_id_codec.key (org_id_codec.encode (id ∷ rest)) r

      authorized :
          IsAuthorized store user (id ∷ rest) (record set { cluster_ids = some (id ∷ rest) })
      authorized = record {
        subject = is_user;
        access = at;
        nonempty = refl;
        listed = refl;
        encoded = header-set_header org_id_codec.key (org_id_codec.encode (id ∷ rest)) r;
      }

      kept : lookup (codes "Authorization") set.headers ≡ lookup (codes "Authorization") r.headers
      kept = set_header-apart (codes "Authorization") (org_id_codec.encode (id ∷ rest)) r refl

  handle-next :
      (r r' : Request) (o : Option Str)
      → r.user_id ≡ o
      → authorize_user (subject_access store) org_id_codec r o ≡ next r'
      → (user : Str) × (granted : List Str) × IsAuthorized store user granted r'
        × (r.user_id ≡ some user)
        × (lookup (codes "Authorization") r'.headers ≡ lookup (codes "Authorization") r.headers)
  unfolding authorize_user
  handle-next r r' none is_user h = cc
  handle-next r r' (some user) is_user h =
      let (granted, a, kept) =
        authorize-next r r' user (subject_access store user) is_user refl h in
      (user, granted, a, is_user, kept)

  limit_to_first-next :
      (r r' : Request) (user : Str) (ids : List Str)
      → IsAuthorized store user ids r
      → limit_to_first r (ok ids) ≡ next r'
      → (r'.user_id ≡ some user) × (header org_id_codec.key r' ≡ org_id_codec.encode (take 1 ids))
  unfolding limit_to_first set_header header
  limit_to_first-next r r' user [] a h = absurd (empty_apart a.nonempty)
    where
      empty_apart : ◌≡◌ {A = Bool} true false → ⊥
      empty_apart e = cc
  limit_to_first-next r r' user (id ∷ []) a h =
      subst
        (λ r'.
          (r'.user_id ≡ some user) × (header org_id_codec.key r' ≡ org_id_codec.encode (id ∷ [])))
        (next_injective h) (a.subject, a.encoded)
  limit_to_first-next r r' user (id ∷ other ∷ rest) a h =
      subst
        (λ r'.
          (r'.user_id ≡ some user) × (header org_id_codec.key r' ≡ org_id_codec.encode (id ∷ [])))
        (next_injective (sym (limited id other rest) ∙ h))
        (a.subject, header-set_header org_id_codec.key (org_id_codec.encode (id ∷ [])) r)
    where
      limited :
          (id other : Str) (rest : List Str)
          → limit_to_first r (ok (id ∷ other ∷ rest))
            ≡ next (set_header org_id_codec.key (org_id_codec.encode (id ∷ [])) r)
      limited id other rest = ground arith

  -- What the RBAC middleware and the limiter after it make of a request that was authenticated.
  pub query-next :
      (o : Outcome) (r' : Request)
      → and_then o (handle (subject_access store) org_id_codec) ≡ next r'
      → (r : Request) × (user : Str) × (ids : List Str) × (o ≡ next r)
        × IsAuthorized store user ids r'
        × (r.user_id ≡ some user)
        × (lookup (codes "Authorization") r'.headers ≡ lookup (codes "Authorization") r.headers)
  unfolding handle authorized_user_id
  query-next o r' h =
      let (r, from, run) = and_then-next o (handle (subject_access store) org_id_codec) r' h in
      let (user, ids, a, is, kept) = handle-next r r' r.user_id refl run in
      (r, user, ids, from, a, is, kept)

  pub alert-next :
      (o : Outcome) (r' : Request)
      → and_then (and_then o (handle (subject_access store) org_id_codec)) org_id_limiter ≡ next r'
      → (r : Request) × (user : Str) × (ids : List Str) × (o ≡ next r)
        × (r.user_id ≡ some user)
        × (subject_access store user ≡ ok ids)
        × (is_empty ids ≡ false)
        × (r'.user_id ≡ some user)
        × (header org_id_codec.key r' ≡ org_id_codec.encode (take 1 ids))
  unfolding org_id_limiter authorized_cluster_ids
  alert-next o r' h =
      let (m, queried, limited) =
        and_then-next (and_then o (handle (subject_access store) org_id_codec)) org_id_limiter r'
          h in
      let (r, user, ids, from, a, is, kept) = query-next o m queried in
      let (set, first) = limit_to_first-next m r' user ids a (resolve m r' ids a.listed limited) in
      (r, user, ids, from, is, a.access, a.nonempty, set, first)
    where
      resolve :
          (m r' : Request) (ids : List Str)
          → m.cluster_ids ≡ some ids
          → org_id_limiter m ≡ next r'
          → limit_to_first m (ok ids) ≡ next r'
      resolve m r' ids listed e =
          subst
            (λ x.
              limit_to_first m
                (elim x as (λ _. Result (List Str)) [ none ↦ err panicked | some ids ↦ ok ids ])
              ≡ next r')
            listed e
