-- ===== src/Examples/Access.antt =====
-- Selectors, roles, bindings, mutators and pins.
use Prim.Native.Nat.{bit_and}
use opni_monitoring.Prelude.{
  ◌+◌, ◌%◌, ◌^◌, Str, str_eq, str_lt, codes, Assoc, lookup, some, true, not, ◌&&◌, ◌||◌, List, [],
  ◌∷◌, ◌==◌, is_empty, any, all, if◌then◌else◌, ok, err, is_ok, not_found, cert_validation_failed,
  ◌≡◌, refl,
}
use opni_monitoring.Core.Types.{
  TokenCapability, BootstrapToken, BootstrapTokenMetadata, empty_token_metadata, token_labels,
  token_metadata, Cluster, ClusterCapability, LabelSelector, LabelSelectorRequirement, Role,
  RoleBinding,
}
use opni_monitoring.Core.Comparator.{token_capability_equal}
use opni_monitoring.Core.Validate.{op_in, op_not_in}
use opni_monitoring.Storage.Selection.{
  ClusterSelector, selector_is_empty, label_selector_matches, predicate,
}
use opni_monitoring.Storage.Selection.Laws.{
  has_label, satisfies, selects, up_to_not_in, label_selector_matches_lem, predicate_lem,
}
use opni_monitoring.Storage.Mutators.{
  composite_mutator, increment_usage_count, add_token_capability, token_has, cluster_capability,
}
use opni_monitoring.Storage.Mutators.Laws.{joined_token}
use opni_monitoring.Storage.Rbac.{SubjectAccessStore, subject_access, apply_role_binding_taints}
use opni_monitoring.Storage.Rbac.Access.{ascending, mem, binding_grants, subject_access_grants}
use opni_monitoring.Storage.Rbac.Taints.{apply_role_binding_taints_lem}
use opni_monitoring.Pkp.{
  PublicKeyPin, Certificates, tls_config, validate_pins, verify_connection, alg_sha256,
}
use opni_monitoring.Pkp.Laws.{is_chain, is_pinned, verify_connection_lem}

abbrev labels : Assoc Str
labels = (codes "region", codes "eu") ∷ (codes "tier", codes "gold") ∷ []

abbrev asked : Assoc Str
asked = (codes "region", codes "eu") ∷ []

abbrev tier_not_in : Str → LabelSelectorRequirement
tier_not_in tier = record { key = codes "tier"; operator = op_not_in; values = tier ∷ [] }

abbrev tier_in : Str → LabelSelectorRequirement
tier_in tier = record { key = codes "tier"; operator = op_in; values = tier ∷ [] }

abbrev selector : LabelSelector
selector = record {
  match_labels = asked;
  match_expressions = tier_in (codes "gold") ∷ tier_not_in (codes "tin") ∷ [];
}

label_selector_matches_lem_example : label_selector_matches selector labels ≡ (
    all (has_label labels) selector.match_labels
    && all (satisfies labels) (up_to_not_in selector.match_expressions))
label_selector_matches_lem_example = label_selector_matches_lem selector labels

-- The requirement behind the NotIn does not hold of the labels, and they match all the same.
matches_in_spite :
    label_selector_matches
      (record {
        match_labels = asked;
        match_expressions = tier_not_in (codes "tin") ∷ tier_in (codes "tin") ∷ [];
      })
      labels
    ≡ true
unfolding str_eq lookup
matches_in_spite =
    label_selector_matches_lem
      (record {
        match_labels = asked;
        match_expressions = tier_not_in (codes "tin") ∷ tier_in (codes "tin") ∷ [];
      })
      labels

abbrev cluster : Cluster
cluster = record {
  id = codes "edge-1";
  metadata =
      some (record { labels = labels; capabilities = cluster_capability (codes "metrics") ∷ [] });
}

abbrev cluster_selector : ClusterSelector
cluster_selector = record {
  cluster_ids = codes "edge-2" ∷ [];
  label_selector = some selector;
  match_options = 0;
}

predicate_lem_example : predicate cluster_selector cluster ≡ (
    if selector_is_empty cluster_selector.label_selector && is_empty cluster_selector.cluster_ids
    then bit_and cluster_selector.match_options 1 == 0
    else any (λ id. str_eq id cluster.id) cluster_selector.cluster_ids
      || selects cluster_selector.label_selector cluster)
predicate_lem_example = predicate_lem cluster_selector cluster

abbrev role : Role
role = record {
  id = codes "viewer";
  cluster_ids = codes "edge-2" ∷ codes "edge-1" ∷ [];
  match_labels = some selector;
}

abbrev binding : RoleBinding
binding = record {
  id = codes "viewers";
  role_id = codes "viewer";
  subjects = codes "ann" ∷ [];
  taints = [];
}

abbrev pub access_store : SubjectAccessStore
access_store = record {
  list_role_bindings = ok (binding ∷ []);
  get_role = λ id. if str_eq id (codes "viewer") then ok role else err not_found;
  list_clusters = λ selector options. ok (cluster ∷ []);
}

subject_access_grants_example :
    (rbs : List RoleBinding) × (access_store.list_role_bindings ≡ ok rbs)
    × (ascending (codes "edge-1" ∷ codes "edge-2" ∷ []) ≡ true)
    × ((id : Str)
        → mem id (codes "edge-1" ∷ codes "edge-2" ∷ [])
          ≡ any (binding_grants access_store (codes "ann") id) rbs)
unfolding subject_access str_eq str_lt
subject_access_grants_example =
    subject_access_grants access_store (codes "ann") (codes "edge-1" ∷ codes "edge-2" ∷ []) refl

abbrev tainted : RoleBinding
tainted = record {
  id = codes "viewers";
  role_id = codes "gone";
  subjects = codes "ann" ∷ [];
  taints = codes "role not found" ∷ [];
}

apply_role_binding_taints_lem_example :
    (tainted.id ≡ tainted.id)
    × (codes "gone" ≡ codes "gone")
    × (tainted.subjects ≡ tainted.subjects)
    × (is_empty tainted.taints
        ≡ (true && is_ok (access_store.get_role (codes "gone")) && not (is_empty tainted.subjects)))
unfolding apply_role_binding_taints str_eq
apply_role_binding_taints_lem_example =
    apply_role_binding_taints_lem access_store (record tainted { taints = [] }) tainted refl

abbrev logs : ClusterCapability
logs = cluster_capability (codes "logs")

abbrev metrics : ClusterCapability
metrics = cluster_capability (codes "metrics")

abbrev join : TokenCapability
join = record {
  kind = codes "join_existing_cluster";
  reference = some (record { id = codes "edge-1" });
}

abbrev full_metadata : BootstrapTokenMetadata
full_metadata = record empty_token_metadata {
  lease_id = 7;
  ttl = 60;
  usage_count = 18446744073709551615;
}

abbrev token : BootstrapToken
token = record { token_id = codes "6162"; secret = codes "63"; metadata = some full_metadata }

joined_token_example :
    (t' : BootstrapToken) × (composite_mutator
        (increment_usage_count ∷ add_token_capability join ∷ [])
        token
      ≡ ok t')
    × (t'.token_id ≡ token.token_id)
    × (t'.secret ≡ token.secret)
    × ((token_metadata t').lease_id ≡ full_metadata.lease_id)
    × ((token_metadata t').ttl ≡ full_metadata.ttl)
    × (token_labels t' ≡ full_metadata.labels)
    × ((token_metadata t').usage_count ≡ (full_metadata.usage_count + 1) % 2 ^ 64)
    × (token_has t' join ≡ (token_has token join || token_capability_equal join join))
joined_token_example = joined_token join join token full_metadata refl

-- Certificates named by their public keys; each is signed by every other.
abbrev toy_certificates : Certificates
toy_certificates = record {
  Certificate = Str;
  sha256 = λ c. c;
  blake2b256 = λ c. [];
  check_signature_from = λ c parent. ok tt;
}

abbrev root : Str
root = codes "0123456789abcdef0123456789abcdef"

abbrev root_pin : PublicKeyPin
root_pin = record { algorithm = alg_sha256; fingerprint = root }

verify_connection_lem_example :
    verify_connection toy_certificates (root_pin ∷ []) (codes "leaf" ∷ root ∷ []) ≡ (
      if is_chain toy_certificates (codes "leaf" ∷ root ∷ [])
        && any
            (λ cert. any (λ p. is_pinned toy_certificates p cert) (root_pin ∷ []))
            (codes "leaf" ∷ root ∷ [])
      then ok tt
      else err cert_validation_failed)
unfolding tls_config validate_pins str_eq
verify_connection_lem_example =
    verify_connection_lem toy_certificates (root_pin ∷ []) (root_pin ∷ [])
      (codes "leaf" ∷ root ∷ []) refl
