-- ===== src/Http.antt =====
-- What the middlewares read and change of a request of github.com/gofiber/fiber: its headers, by
-- canonical name, and the two locals that pkg/rbac names.
pub mod Rbac
pub mod Codec
use opni_monitoring.Prelude.{ℕ, Str, Assoc, lookup, insert, remove, Option, none, some, List, []}

pub record Request : Type 0 where
  pub headers : Assoc Str
  -- rbac.UserIDKey
  pub user_id : Option Str
  -- rbac.AuthorizedClusterIDsKey
  pub cluster_ids : Option (List Str)

-- What a handler does with a request: it answers with a status, calls the next handler, or panics.
pub data Outcome : Type 0 where
  status : ℕ → Outcome
  next : Request → Outcome
  crash : Outcome

-- Two handlers of a route, in a row.
unfoldable pub and_then : Outcome → (Request → Outcome) → Outcome
and_then (status n) handler = status n
and_then (next r) handler = handler r
and_then crash handler = crash

-- c.Get: a missing header reads as an empty one.
unfoldable pub header : Str → Request → Str
header name r = elim (lookup name r.headers) [ none ↦ [] | some value ↦ value ]

-- c.Request().Header.Set
unfoldable pub set_header : Str → Str → Request → Request
set_header name value r = record r { headers = insert name value r.headers }

-- c.Request().Header.Del
unfoldable pub delete_header : Str → Request → Request
delete_header name r = record r { headers = remove name r.headers }
