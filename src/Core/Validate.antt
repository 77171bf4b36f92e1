-- ===== src/Core/Validate.antt =====
-- pkg/core/validation.go: each Validate method as the chain of its checks.
pub mod Laws
use opni_monitoring.Prelude.{
  ℕ, Str, str_eq, codes, Assoc, Option, none, some, Bool, true, false, not, ◌||◌, List, [], ◌∷◌,
  is_empty, ltb, Result, ok, err, Error, guard, ◌>>◌, ◌>>=◌, missing_required_field, invalid_value,
  if◌then◌else◌,
}
use opni_monitoring.Validation.{
  validate_id, validate_labels, validate_label_name, validate_label_value, validate_subject,
}
use opni_monitoring.Core.Types.{
  Reference, TokenCapability, ClusterCapability, Cluster, LabelSelectorRequirement, LabelSelector,
  Role, RoleBinding, cluster_labels,
}

-- for _, x := range xs { if err := check(x); err != nil { return err } }
unfoldable pub each {ℓ} : {A : Type ℓ} → (A → Result (Unit {0})) → List A → Result (Unit {0})
each check [] = ok tt
each check (x ∷ xs) = do check x; each check xs

-- if x == "" { return ErrMissingRequiredField }
abbrev pub required : Str → Result (Unit {0})
required s = guard (not (is_empty s)) missing_required_field

unfoldable pub validate_cluster : Cluster → Result (Unit {0})
validate_cluster c = do required c.id; validate_id c.id; validate_labels (cluster_labels c)

-- the operators of pkg/core/labels.go
abbrev pub op_in : Str
op_in = codes "In"

abbrev pub op_not_in : Str
op_not_in = codes "NotIn"

abbrev pub op_exists : Str
op_exists = codes "Exists"

abbrev pub op_does_not_exist : Str
op_does_not_exist = codes "DoesNotExist"

abbrev pub is_operator : Str → Bool
is_operator o =
    str_eq o op_in || str_eq o op_not_in || str_eq o op_exists || str_eq o op_does_not_exist

unfoldable pub validate_requirement : LabelSelectorRequirement → Result (Unit {0})
unfolding each
validate_requirement r = do
  required r.key
  required r.operator
  validate_label_name r.key
  guard (is_operator r.operator) invalid_value
  each validate_label_value r.values

unfoldable pub validate_selector : LabelSelector → Result (Unit {0})
unfolding each
validate_selector ls = do
  validate_labels ls.match_labels
  each validate_requirement ls.match_expressions

-- if r.MatchLabels != nil { ... }
unfoldable pub validate_optional {ℓ} :
    {A : Type ℓ} → (A → Result (Unit {0})) → Option A → Result (Unit {0})
validate_optional check none = ok tt
validate_optional check (some x) = check x

unfoldable pub validate_role : Role → Result (Unit {0})
unfolding each validate_optional
validate_role r = do
  required r.id
  validate_id r.id
  each validate_id r.cluster_ids
  validate_optional validate_selector r.match_labels

unfoldable pub validate_role_binding : RoleBinding → Result (Unit {0})
unfolding each
validate_role_binding rb = do
  required rb.id
  required rb.role_id
  validate_id rb.id
  validate_id rb.role_id
  each validate_subject rb.subjects

unfoldable pub validate_reference : Reference → Result (Unit {0})
validate_reference ref = do required ref.id; validate_id ref.id

unfoldable pub validate_subject_access_request : Str → Result (Unit {0})
validate_subject_access_request subject = do required subject; validate_subject subject

-- MatchOptions_name has the keys 0 and 1.
unfoldable pub validate_match_options : ℕ → Result (Unit {0})
validate_match_options o = guard (ltb o 2) invalid_value

unfoldable pub validate_token_capability : TokenCapability → Result (Unit {0})
unfolding validate_optional validate_reference
validate_token_capability tc = do
  required tc.kind
  validate_optional validate_reference tc.reference

unfoldable pub validate_cluster_capability : ClusterCapability → Result (Unit {0})
validate_cluster_capability cc' = required cc'.name
