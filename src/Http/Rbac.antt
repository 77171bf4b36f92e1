-- ===== src/Http/Rbac.antt =====
-- pkg/rbac/middleware.go and AuthorizedUserID of pkg/rbac/rbac.go. The header's codec is a
-- parameter, as it is in the code.
use opni_monitoring.Prelude.{
  Str, Option, none, some, List, is_empty, if◌then◌else◌, Result, ok, err,
}
use opni_monitoring.Http.{Request, Outcome, status, next, set_header}

-- HeaderCodec
pub record HeaderCodec : Type 0 where
  pub key : Str
  pub encode : List Str → Str

-- rbac.UserIDKey, not ok when it is not set
unfoldable pub authorized_user_id : Request → Option Str
authorized_user_id r = r.user_id

module _ (subject_access : Str → Result (List Str)) (codec : HeaderCodec) where
  open codec use {key, encode}

  -- On with the ids of the clusters that the provider answers.
  unfoldable pub authorize : Request → Result (List Str) → Outcome
  unfolding set_header
  authorize r (err e) = status 401
  authorize r (ok ids) =
      if is_empty ids
      then status 401
      else next (record (set_header key (encode ids) r) { cluster_ids = some ids })

  unfoldable pub authorize_user : Request → Option Str → Outcome
  unfolding authorize
  authorize_user r none = status 401
  authorize_user r (some user) = authorize r (subject_access user)

  unfoldable pub handle : Request → Outcome
  unfolding authorize_user authorized_user_id
  handle r = authorize_user r (authorized_user_id r)
