-- ===== src/Storage/Mutators/Laws.antt =====
-- What the capability mutators do to the set of capabilities that Has sees.
use opni_monitoring.Prelude.{
  ◌+◌, ◌%◌, ◌^◌, some, Bool, true, false, not, ◌&&◌, ◌||◌, List, [], ◌∷◌, ◌++◌, if◌then◌else◌,
  is_empty, str_eq_refl, any-append, ok, ◌>>=◌, ◌≡◌, refl, arith, ◌∙◌, Bool-cases, inl, inr,
}
use opni_monitoring.Core.Types.{
  BootstrapToken, BootstrapTokenMetadata, token_metadata, Cluster, ClusterCapability,
  TokenCapability, token_capabilities, cluster_capabilities, set_token_capabilities,
  set_cluster_capabilities, cluster_labels, token_labels,
}
use opni_monitoring.Core.Comparator.{token_capability_equal, cluster_capability_equal}
use opni_monitoring.Core.Comparator.Laws.{
  IsPartialEquivalence, cluster_capability_equal-IsPartialEquivalence,
  token_capability_equal-IsPartialEquivalence, cluster_capability_equal_lem,
}
use opni_monitoring.Storage.Mutators.{
  has_in, remove_from, token_has, cluster_has, add_token_capability, add_cluster_capability,
  remove_cluster_capability, increment_usage_count, composite_mutator,
}

module _ {ℓ} {A : Type ℓ} (equal : A → A → Bool) (e : IsPartialEquivalence equal) where
  -- Equal capabilities are had together.
  has_in_congruent :
      (cs : List A) (c d : A)
      → equal c d ≡ true
      → has_in equal cs c ≡ true
      → has_in equal cs d ≡ true
  unfolding has_in
  has_in_congruent [] c d h k = cc
  has_in_congruent (x ∷ cs) c d h k = ground (arith, has_in_congruent cs c d, e.transitive x c d)

  pub has_in-add :
      (cs : List A) (c d : A)
      → (if not (has_in equal cs c) then has_in equal (cs ++ (c ∷ [])) d else has_in equal cs d)
        ≡ (has_in equal cs d || equal c d)
  unfolding has_in
  has_in-add cs c d =
      ground (arith, any-append (λ x. equal x d) cs (c ∷ []), has_in_congruent cs c d)

  pub has_in-remove :
      (cs : List A) (c d : A)
      → has_in equal (remove_from equal c cs) d ≡ (has_in equal cs d && not (equal c d))
  unfolding has_in remove_from
  has_in-remove [] c d = refl
  has_in-remove (x ∷ cs) c d = ground (
    arith,
    has_in-remove cs c d,
    e.symmetric x c,
    e.symmetric x d,
    e.transitive c x d,
    e.transitive x d c,
    e.symmetric c d,
  )

-- Adding a capability to a cluster always succeeds and keeps its id and its labels; afterwards Has
-- holds of a capability exactly when it held before or the capability is equal to the added one.
pub cluster_has-add :
    (c d : ClusterCapability) (cl : Cluster)
    → (cl' : Cluster) × (add_cluster_capability c cl ≡ ok cl')
      × (cl'.id ≡ cl.id)
      × (cluster_labels cl' ≡ cluster_labels cl)
      × (cluster_has cl' d ≡ (cluster_has cl d || cluster_capability_equal c d))
unfolding add_cluster_capability cluster_has cluster_labels cluster_capabilities
    set_cluster_capabilities
cluster_has-add c d cl = elim (Bool-cases (cluster_has cl c)) [
  | inl old ↦ (
    cl,
    rw old,
    refl,
    refl,
    ground (
      arith,
      has_in-add cluster_capability_equal cluster_capability_equal-IsPartialEquivalence
          (cluster_capabilities cl) c d,
    ),
  )
  | inr new ↦ (
    set_cluster_capabilities (cluster_capabilities cl ++ (c ∷ [])) cl,
    rw new,
    refl,
    refl,
    ground (
      arith,
      has_in-add cluster_capability_equal cluster_capability_equal-IsPartialEquivalence
          (cluster_capabilities cl) c d,
    ),
  )
]

-- Removing a capability from a cluster leaves exactly the capabilities that are not equal to it,
-- as Has sees them, and keeps id and labels.
pub cluster_has-remove :
    (c d : ClusterCapability) (cl : Cluster)
    → (cl' : Cluster) × (remove_cluster_capability c cl ≡ ok cl')
      × (cl'.id ≡ cl.id)
      × (cluster_labels cl' ≡ cluster_labels cl)
      × (cluster_has cl' d ≡ (cluster_has cl d && not (cluster_capability_equal c d)))
unfolding remove_cluster_capability cluster_has cluster_labels cluster_capabilities
    set_cluster_capabilities
cluster_has-remove c d cl = (
  set_cluster_capabilities (remove_from cluster_capability_equal c (cluster_capabilities cl)) cl,
  refl,
  refl,
  refl,
  has_in-remove cluster_capability_equal cluster_capability_equal-IsPartialEquivalence
      (cluster_capabilities cl) c d,
)

add_cluster_capability_old :
    (c : ClusterCapability) (cl : Cluster)
    → cluster_has cl c ≡ true
    → add_cluster_capability c cl ≡ ok cl
unfolding add_cluster_capability
add_cluster_capability_old c cl h = rw h

-- Adding the same capability, with a name that is not empty, a second time changes nothing.
pub add_cluster_capability_idempotent :
    (c : ClusterCapability) (cl : Cluster)
    → is_empty c.name ≡ false
    → (add_cluster_capability c cl >>= add_cluster_capability c) ≡ add_cluster_capability c cl
add_cluster_capability_idempotent c cl h =
    let (cl', added, _, _, has) = cluster_has-add c c cl in
    rw added (
      add_cluster_capability_old c cl'
        (ground (arith, has, cluster_capability_equal_lem c c, str_eq_refl c.name)))

pub token_has-add :
    (c d : TokenCapability) (t : BootstrapToken)
    → (t' : BootstrapToken) × (add_token_capability c t ≡ ok t')
      × (t'.token_id ≡ t.token_id)
      × (t'.secret ≡ t.secret)
      × ((token_metadata t').lease_id ≡ (token_metadata t).lease_id)
      × ((token_metadata t').ttl ≡ (token_metadata t).ttl)
      × (token_labels t' ≡ token_labels t)
      × ((token_metadata t').usage_count ≡ (token_metadata t).usage_count)
      × (token_has t' d ≡ (token_has t d || token_capability_equal c d))
unfolding add_token_capability token_has token_labels token_capabilities set_token_capabilities
token_has-add c d t = elim (Bool-cases (token_has t c)) [
  | inl old ↦ (
    t,
    rw old,
    refl,
    refl,
    refl,
    refl,
    refl,
    refl,
    ground (
      arith,
      has_in-add token_capability_equal token_capability_equal-IsPartialEquivalence
          (token_capabilities t) c d,
    ),
  )
  | inr new ↦ (
    set_token_capabilities (token_capabilities t ++ (c ∷ [])) t,
    rw new,
    refl,
    refl,
    refl,
    refl,
    refl,
    refl,
    ground (
      arith,
      has_in-add token_capability_equal token_capability_equal-IsPartialEquivalence
          (token_capabilities t) c d,
    ),
  )
]

increment_usage_count_lem :
    (t : BootstrapToken) (m : BootstrapTokenMetadata)
    → t.metadata ≡ some m
    → increment_usage_count t
      ≡ ok (record t { metadata = some (record m { usage_count = (m.usage_count + 1) % 2 ^ 64 }) })
unfolding increment_usage_count
increment_usage_count_lem t m e = rw e

-- The mutator that a joining cluster's token goes through. On a token with metadata it succeeds,
-- keeps the token's id, secret, lease, ttl and labels, counts one more use modulo 2^64, and afterwards the token has a
-- capability exactly when it had it before or it is equal to the added one.
pub joined_token :
    (c d : TokenCapability) (t : BootstrapToken) (m : BootstrapTokenMetadata)
    → t.metadata ≡ some m
    → (t' : BootstrapToken) × (composite_mutator
          (increment_usage_count ∷ add_token_capability c ∷ [])
          t
        ≡ ok t')
      × (t'.token_id ≡ t.token_id)
      × (t'.secret ≡ t.secret)
      × ((token_metadata t').lease_id ≡ m.lease_id)
      × ((token_metadata t').ttl ≡ m.ttl)
      × (token_labels t' ≡ m.labels)
      × ((token_metadata t').usage_count ≡ (m.usage_count + 1) % 2 ^ 64)
      × (token_has t' d ≡ (token_has t d || token_capability_equal c d))
unfolding composite_mutator
joined_token c d t m e =
    let counted : BootstrapToken = record t {
      metadata = some (record m { usage_count = (m.usage_count + 1) % 2 ^ 64 });
    } in
    let (t', added, id, secret, lease, ttl, labels, uses, has) = token_has-add c d counted in
    (
      t',
      rw (increment_usage_count_lem t m e, added),
      id,
      secret,
      lease,
      ttl,
      unfold token_labels in labels,
      uses,
      has ∙ unfold token_has token_capabilities in rw e,
    )
