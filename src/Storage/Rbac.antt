-- ===== src/Storage/Rbac.antt =====
-- pkg/storage/rbac_provider.go and pkg/storage/taints.go. The reads of one request see the same
-- contents of the store: the store is the record of what its three reads return.
pub mod Access
pub mod Taints
use opni_monitoring.Prelude.{
  ℕ, Str, str_eq, str_lt, Option, none, some, Bool, true, false, not, List, [], ◌∷◌, if◌then◌else◌,
  any, is_empty, map, Result, ok, err, Error, ◌>>=◌, ◌++◌, is_not_found, codes,
}
use opni_monitoring.Core.Types.{Cluster, LabelSelector, Role, RoleBinding}
use opni_monitoring.Storage.Selection.{empty_selector_matches_none}

-- storage.SubjectAccessCapableStore
pub record SubjectAccessStore : Type 0 where
  pub list_role_bindings : Result (List RoleBinding)
  pub get_role : Str → Result Role
  pub list_clusters : Option LabelSelector → ℕ → Result (List Cluster)

-- A map[string]struct{} is kept as the list of its keys.
unfoldable pub add_key : Str → List Str → List Str
add_key id ids = if any (λ x. str_eq x id) ids then ids else id ∷ ids

unfoldable pub add_keys : List Str → List Str → List Str
unfolding add_key
add_keys [] ids = ids
add_keys (k ∷ ks) ids = add_keys ks (add_key k ids)

-- sort.Slice by Id, here by insertion; the keys of a map differ, so the order is determined.
unfoldable pub insert_sorted : Str → List Str → List Str
insert_sorted x [] = x ∷ []
insert_sorted x (y ∷ ys) =
    let rest = insert_sorted x ys in if str_lt x y then x ∷ y ∷ ys else y ∷ rest

unfoldable pub sort : List Str → List Str
unfolding insert_sorted
sort [] = []
sort (x ∷ xs) = insert_sorted x (sort xs)

abbrev pub cluster_ids_of : List Cluster → List Str
cluster_ids_of [] = []
cluster_ids_of (c ∷ cs) = c.id ∷ cluster_ids_of cs

-- ApplyRoleBindingTaints: the role's lookup first, then the subjects.
unfoldable pub taint_subjects : RoleBinding → RoleBinding
taint_subjects rb =
    if is_empty rb.subjects
    then record rb { taints = rb.taints ++ (codes "no subjects" ∷ []) }
    else rb

unfoldable pub taint_found : Result Role → RoleBinding → Result RoleBinding
unfolding taint_subjects
taint_found (ok role) rb = ok (taint_subjects rb)
taint_found (err e) rb =
    if is_not_found e
    then ok (taint_subjects (record rb { taints = rb.taints ++ (codes "role not found" ∷ []) }))
    else err e

module _ (store : SubjectAccessStore) where
  open store use {list_role_bindings, get_role, list_clusters}

  -- What a role that was found adds to the allowed clusters.
  unfoldable pub allow_role : Role → List Str → Result (List Str)
  unfolding add_keys
  allow_role role allowed = do
    filtered ← list_clusters role.match_labels empty_selector_matches_none
    ok (add_keys (cluster_ids_of filtered) (add_keys role.cluster_ids allowed))

  -- An error of GetRole skips the binding.
  unfoldable pub allow_found : Result Role → List Str → Result (List Str)
  unfolding allow_role
  allow_found (err e) allowed = ok allowed
  allow_found (ok role) allowed = allow_role role allowed

  -- One round of the loop over the bindings.
  unfoldable pub allow_binding : Str → RoleBinding → List Str → Result (List Str)
  unfolding allow_found
  allow_binding subject rb allowed =
      if not (any (λ s. str_eq s subject) rb.subjects)
      then ok allowed
      else if not (is_empty rb.taints)
      then ok allowed
      else allow_found (get_role rb.role_id) allowed

  unfoldable pub allow_bindings : Str → List RoleBinding → List Str → Result (List Str)
  unfolding allow_binding
  allow_bindings subject [] allowed = ok allowed
  allow_bindings subject (rb ∷ rbs) allowed = do
    allowed' ← allow_binding subject rb allowed
    allow_bindings subject rbs allowed'

  unfoldable pub subject_access : Str → Result (List Str)
  unfolding allow_bindings sort
  subject_access subject = do
    rbs ← list_role_bindings
    allowed ← allow_bindings subject rbs []
    ok (sort allowed)

  unfoldable pub apply_role_binding_taints : RoleBinding → Result RoleBinding
  unfolding taint_found
  apply_role_binding_taints rb = taint_found (get_role rb.role_id) rb
