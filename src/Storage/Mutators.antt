-- ===== src/Storage/Mutators.antt =====
-- pkg/storage/mutators.go, and Has of pkg/capabilities/capabilities.go. A mutator changes the object
-- that it is given, so it is a function to the changed object; a nil dereference is a panic.
pub mod Laws
use opni_monitoring.Prelude.{
  ℕ, ◌+◌, ◌%◌, ◌^◌, Str, codes, Option, none, some, Bool, true, false, not, List, [], ◌∷◌, ◌++◌,
  if◌then◌else◌, any, keep, Result, ok, err, panicked, ◌>>=◌,
}
use opni_monitoring.Core.Types.{
  Reference, BootstrapToken, BootstrapTokenMetadata, TokenCapability, Cluster, ClusterCapability,
  token_capabilities, cluster_capabilities, set_token_capabilities, set_cluster_capabilities,
}
use opni_monitoring.Core.Comparator.{token_capability_equal, cluster_capability_equal}

-- func(T): it changes its argument in place, and fails only by a panic.
abbrev pub Mutator : Type 0 → Type 0
Mutator T = T → Result T

unfoldable pub composite_mutator : {T : Type 0} → List (Mutator T) → Mutator T
composite_mutator [] t = ok t
composite_mutator (m ∷ ms) t = do t' ← m t; composite_mutator ms t'

-- obj.Metadata.UsageCount++, on an int64
abbrev increment : Option BootstrapTokenMetadata → Result BootstrapTokenMetadata
increment none = err panicked
increment (some m) = ok (record m { usage_count = (m.usage_count + 1) % 2 ^ 64 })

unfoldable pub increment_usage_count : Mutator BootstrapToken
increment_usage_count t = do m ← increment t.metadata; ok (record t { metadata = some m })

-- The loops of Has and of RemoveCapability, over the capabilities' Equal.
unfoldable pub has_in {ℓ} : {A : Type ℓ} → (A → A → Bool) → List A → A → Bool
has_in equal cs c = any (λ x. equal x c) cs

unfoldable pub remove_from {ℓ} : {A : Type ℓ} → (A → A → Bool) → A → List A → List A
remove_from equal c cs = keep (λ x. not (equal x c)) cs

unfoldable pub token_has : BootstrapToken → TokenCapability → Bool
unfolding has_in
token_has t c = has_in token_capability_equal (token_capabilities t) c

unfoldable pub cluster_has : Cluster → ClusterCapability → Bool
unfolding has_in
cluster_has cl c = has_in cluster_capability_equal (cluster_capabilities cl) c

-- SetCapabilities is called only where the capability was not there.
unfoldable pub add_token_capability : TokenCapability → Mutator BootstrapToken
unfolding token_has
add_token_capability c t =
    if not (token_has t c)
    then ok (set_token_capabilities (token_capabilities t ++ (c ∷ [])) t)
    else ok t

unfoldable pub add_cluster_capability : ClusterCapability → Mutator Cluster
unfolding cluster_has
add_cluster_capability c cl =
    if not (cluster_has cl c)
    then ok (set_cluster_capabilities (cluster_capabilities cl ++ (c ∷ [])) cl)
    else ok cl

unfoldable pub remove_token_capability : TokenCapability → Mutator BootstrapToken
unfolding remove_from
remove_token_capability c t =
    ok (set_token_capabilities (remove_from token_capability_equal c (token_capabilities t)) t)

unfoldable pub remove_cluster_capability : ClusterCapability → Mutator Cluster
unfolding remove_from
remove_cluster_capability c cl =
    ok (
      set_cluster_capabilities (remove_from cluster_capability_equal c (cluster_capabilities cl))
        cl)

-- capabilities.JoinExistingCluster.For(ref) and capabilities.Cluster(name)
unfoldable pub join_existing_cluster_for : Reference → TokenCapability
join_existing_cluster_for ref = record {
  kind = codes "join_existing_cluster";
  reference = some ref;
}

unfoldable pub cluster_capability : Str → ClusterCapability
cluster_capability name = record { name = name }
