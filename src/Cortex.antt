-- ===== src/Cortex.antt =====
-- The routes of plugins/cortex/pkg/cortex/api.go to the query frontend and to the alert manager,
-- up to their forwarder. Authentication is the middleware that the configuration names.
pub mod Laws
pub mod Access
pub mod Aggregation
use opni_monitoring.Prelude.{
  Str, Option, none, some, List, [], ◌∷◌, length, take, ltb, if◌then◌else◌, Result, ok, err,
  panicked,
}
use opni_monitoring.Http.{Request, Outcome, status, next, crash, and_then, set_header}
use opni_monitoring.Http.Rbac.{HeaderCodec, handle}
use opni_monitoring.Http.Codec.{org_id_codec, encode}
use opni_monitoring.Storage.Rbac.{SubjectAccessStore, subject_access}

-- rbac.AuthorizedClusterIDs: the type assertion panics when the local is not set.
unfoldable pub authorized_cluster_ids : Request → Result (List Str)
authorized_cluster_ids r = elim r.cluster_ids [ none ↦ err panicked | some ids ↦ ok ids ]

unfoldable pub limit_to_first : Request → Result (List Str) → Outcome
unfolding set_header
limit_to_first r (err e) = crash
limit_to_first r (ok ids) =
    if ltb 1 (length ids)
    then next (set_header org_id_codec.key (org_id_codec.encode (take 1 ids)) r)
    else next r

-- orgIdLimiter
unfoldable pub org_id_limiter : Request → Outcome
unfolding limit_to_first authorized_cluster_ids
org_id_limiter r = limit_to_first r (authorized_cluster_ids r)

-- The authentication reads and changes a state of its own.
module _ {S : Type 0} (auth : Request → S → Outcome × S) (store : SubjectAccessStore) where
  -- m.Auth, m.RBAC
  unfoldable pub query_route : Request → S → Outcome × S
  unfolding and_then
  query_route r s =
      let (o, s') = auth r s in (and_then o (handle (subject_access store) org_id_codec), s')

  -- m.Auth, m.RBAC, orgIdLimiter
  unfoldable pub alert_route : Request → S → Outcome × S
  unfolding query_route
  alert_route r s = let (o, s') = query_route r s in (and_then o org_id_limiter, s')
