-- ===== src/Storage/Rbac/Access.antt =====
-- SubjectAccess computes, in ascending order and without repetition, the clusters that some
-- applicable role binding grants.
use opni_monitoring.Prelude.{
  Str, str_eq, str_eq_iff, str_eq_comm, str_lt, str_lt_trans, str_lt_total, Bool, true, false, not,
  ◌&&◌, ◌||◌, List, [], ◌∷◌, any, all, is_empty, Result, ok, err, ◌≡◌, refl, arith, >>=-ok,
}
use opni_monitoring.Core.Types.{Cluster, Role, RoleBinding}
use opni_monitoring.Storage.Selection.{empty_selector_matches_none}
use opni_monitoring.Storage.Rbac.{
  SubjectAccessStore, add_key, add_keys, insert_sorted, sort, cluster_ids_of, allow_role,
  allow_found, allow_binding, allow_bindings, subject_access,
}

abbrev pub mem : Str → List Str → Bool
mem id ids = any (λ x. str_eq x id) ids

mem-add_key : (j k : Str) (ids : List Str) → mem j (add_key k ids) ≡ (mem j ids || str_eq k j)
unfolding add_key
mem-add_key j k ids = ground (arith, mem_congruent k j ids)
  where
    mem_congruent :
        (k j : Str) (ids : List Str) → mem k ids ≡ true → str_eq k j ≡ true → mem j ids ≡ true
    mem_congruent k j [] h e = cc
    mem_congruent k j (x ∷ ids) h e =
        ground (arith, mem_congruent k j ids, str_eq_iff k j, str_eq_iff x k, str_eq_iff x j)

mem-add_keys : (j : Str) (ks ids : List Str) → mem j (add_keys ks ids) ≡ (mem j ids || mem j ks)
unfolding add_keys
mem-add_keys j [] ids = ground arith
mem-add_keys j (k ∷ ks) ids = ground (arith, mem-add_keys j ks (add_key k ids), mem-add_key j k ids)

any-insert_sorted :
    (p : Str → Bool) (x : Str) (ys : List Str) → any p (insert_sorted x ys) ≡ (p x || any p ys)
unfolding insert_sorted
any-insert_sorted p x [] = refl
any-insert_sorted p x (y ∷ ys) = ground (arith, any-insert_sorted p x ys)

all-insert_sorted :
    (p : Str → Bool) (x : Str) (ys : List Str) → all p (insert_sorted x ys) ≡ (p x && all p ys)
unfolding insert_sorted
all-insert_sorted p x [] = refl
all-insert_sorted p x (y ∷ ys) = ground (arith, all-insert_sorted p x ys)

any-sort : (p : Str → Bool) (xs : List Str) → any p (sort xs) ≡ any p xs
unfolding sort
any-sort p [] = refl
any-sort p (x ∷ xs) = ground (arith, any-insert_sorted p x (sort xs), any-sort p xs)

-- No key stands twice.
abbrev pub distinct : List Str → Bool
distinct [] = true
distinct (x ∷ xs) = not (mem x xs) && distinct xs

-- Every id is below all that follow it.
abbrev pub ascending : List Str → Bool
ascending [] = true
ascending (x ∷ xs) = all (λ y. str_lt x y) xs && ascending xs

distinct-add_key :
    (k : Str) (ids : List Str) → distinct ids ≡ true → distinct (add_key k ids) ≡ true
unfolding add_key
distinct-add_key k ids h = ground arith

distinct-add_keys : (ks ids : List Str) → distinct ids ≡ true → distinct (add_keys ks ids) ≡ true
unfolding add_keys
distinct-add_keys [] ids h = h
distinct-add_keys (k ∷ ks) ids h = distinct-add_keys ks (add_key k ids) (distinct-add_key k ids h)

all_above :
    (x y : Str) (ys : List Str)
    → str_lt x y ≡ true
    → all (λ z. str_lt y z) ys ≡ true
    → all (λ z. str_lt x z) ys ≡ true
all_above x y [] h k = refl
all_above x y (z ∷ ys) h k = ground (arith, all_above x y ys, str_lt_trans x y z)

ascending-insert_sorted :
    (x : Str) (ys : List Str)
    → mem x ys ≡ false
    → ascending ys ≡ true
    → ascending (insert_sorted x ys) ≡ true
unfolding insert_sorted
ascending-insert_sorted x [] m h = refl
ascending-insert_sorted x (y ∷ ys) m h = ground (
  arith,
  ascending-insert_sorted x ys,
  all_above x y ys,
  all-insert_sorted (λ z. str_lt y z) x ys,
  str_lt_total x y,
  str_eq_comm x y,
)

ascending-sort : (xs : List Str) → distinct xs ≡ true → ascending (sort xs) ≡ true
unfolding sort
ascending-sort [] h = refl
ascending-sort (x ∷ xs) h =
    ground
      (arith, ascending-insert_sorted x (sort xs), ascending-sort xs, any-sort (λ y. str_eq y x) xs)

module _ (store : SubjectAccessStore) where
  open store use {list_role_bindings, get_role, list_clusters}

  abbrev pub is_listed : Result (List Cluster) → Str → Bool
  is_listed (ok cs) id = mem id (cluster_ids_of cs)
  is_listed (err e) id = false

  -- What a looked-up role grants: the ids that it names, and the clusters that its selector lists.
  abbrev pub role_grants : Result Role → Str → Bool
  role_grants (err e) id = false
  role_grants (ok role) id =
      mem id role.cluster_ids
      || is_listed (list_clusters role.match_labels empty_selector_matches_none) id

  -- A binding applies to its subjects unless it is tainted.
  abbrev pub binding_grants : Str → Str → RoleBinding → Bool
  binding_grants subject id rb =
      mem subject rb.subjects && is_empty rb.taints && role_grants (get_role rb.role_id) id

  allow_found_lem :
      (role : Result Role) (id : Str) (allowed allowed' : List Str)
      → allow_found store role allowed ≡ ok allowed'
      → mem id allowed' ≡ (mem id allowed || role_grants role id)
  unfolding allow_found allow_role
  allow_found_lem (err e) id allowed allowed' h = ground arith
  allow_found_lem (ok role) id allowed allowed' h =
      let (cs, listed, e) =
        >>=-ok (list_clusters role.match_labels empty_selector_matches_none) _ h in
      ground (
        arith,
        listed,
        e,
        mem-add_keys id (cluster_ids_of cs) (add_keys role.cluster_ids allowed),
        mem-add_keys id role.cluster_ids allowed,
      )

  allow_found-distinct :
      (role : Result Role) (allowed allowed' : List Str)
      → allow_found store role allowed ≡ ok allowed'
      → distinct allowed ≡ true
      → distinct allowed' ≡ true
  unfolding allow_found allow_role
  allow_found-distinct (err e) allowed allowed' h d = ground arith
  allow_found-distinct (ok role) allowed allowed' h d =
      let (cs, listed, e) =
        >>=-ok (list_clusters role.match_labels empty_selector_matches_none) _ h in
      ground (
        arith,
        e,
        distinct-add_keys (cluster_ids_of cs) (add_keys role.cluster_ids allowed)
            (distinct-add_keys role.cluster_ids allowed d),
      )

  allow_binding_lem :
      (subject id : Str) (rb : RoleBinding) (allowed allowed' : List Str)
      → allow_binding store subject rb allowed ≡ ok allowed'
      → mem id allowed' ≡ (mem id allowed || binding_grants subject id rb)
  unfolding allow_binding
  allow_binding_lem subject id rb allowed allowed' h =
      ground (arith, allow_found_lem (get_role rb.role_id) id allowed allowed')

  allow_binding-distinct :
      (subject : Str) (rb : RoleBinding) (allowed allowed' : List Str)
      → allow_binding store subject rb allowed ≡ ok allowed'
      → distinct allowed ≡ true
      → distinct allowed' ≡ true
  unfolding allow_binding
  allow_binding-distinct subject rb allowed allowed' h d =
      ground (arith, allow_found-distinct (get_role rb.role_id) allowed allowed')

  allow_bindings_lem :
      (subject : Str) (rbs : List RoleBinding) (allowed allowed' : List Str)
      → allow_bindings store subject rbs allowed ≡ ok allowed'
      → distinct allowed ≡ true
      → (distinct allowed' ≡ true)
        × ((id : Str) → mem id allowed' ≡ (mem id allowed || any (binding_grants subject id) rbs))
  unfolding allow_bindings
  allow_bindings_lem subject [] allowed allowed' h d = (ground arith, λ id. ground arith)
  allow_bindings_lem subject (rb ∷ rbs) allowed allowed' h d =
      let (mid, first, later) = >>=-ok (allow_binding store subject rb allowed) _ h in
      let (d', m) =
        allow_bindings_lem subject rbs mid allowed' later
          (allow_binding-distinct subject rb allowed mid first d) in
      (d', λ id. ground (arith, m id, allow_binding_lem subject id rb allowed mid first))

  -- If SubjectAccess succeeds, the listing of role bindings did, its result is in strictly
  -- ascending order, and it holds an id exactly when some binding that names the subject and has
  -- no taints refers to a role that is found and that names the id or lists such a cluster.
  pub subject_access_grants :
      (subject : Str) (ids : List Str)
      → subject_access store subject ≡ ok ids
      → (rbs : List RoleBinding) × (list_role_bindings ≡ ok rbs)
        × (ascending ids ≡ true)
        × ((id : Str) → mem id ids ≡ any (binding_grants subject id) rbs)
  unfolding subject_access
  subject_access_grants subject ids h =
      let (rbs, listed, rest) = >>=-ok list_role_bindings _ h in
      let (allowed, run, e) = >>=-ok (allow_bindings store subject rbs []) _ rest in
      let (d, m) = allow_bindings_lem subject rbs [] allowed run refl in
      (
        rbs,
        listed,
        ground (arith, e, ascending-sort allowed d),
        λ id. ground (arith, e, m id, any-sort (λ x. str_eq x id) allowed),
      )
