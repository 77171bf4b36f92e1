-- ===== src/Core/Validate/Laws.antt =====
-- What the Validate methods accept, as one test for each message.
use opni_monitoring.Prelude.{
  Str, str_eq, Bool, true, false, ◌&&◌, Option, none, some, List, [], ◌∷◌, all, is_empty, Result,
  is_ok, ◌≡◌, refl, arith,
}
use opni_monitoring.Validation.{
  validate_id, validate_label_value, validate_subject, is_label_name_char, is_label_value_char,
}
use opni_monitoring.Validation.Laws.{
  is_label, is_label_pair, is_ok-validate_labels, is_ok-validate_label_name,
  is_ok-validate_label_value, validate_id_iff,
}
use opni_monitoring.Core.Types.{
  Reference, Cluster, LabelSelectorRequirement, LabelSelector, Role, RoleBinding, cluster_labels,
}
use opni_monitoring.Core.Validate.{
  each, is_operator, validate_optional, validate_cluster, validate_requirement, validate_selector,
  validate_role, validate_role_binding, validate_reference,
}

abbrev pub is_id : Str → Bool
is_id s = is_ok (validate_id s)

is_id_nonempty : (s : Str) → is_id s ≡ true → is_empty s ≡ false
is_id_nonempty [] h = ground (arith, validate_id_iff [])
is_id_nonempty (c ∷ s) h = refl

is_ok-each {ℓ} :
    {A : Type ℓ} (check : A → Result (Unit {0})) (p : A → Bool) (xs : List A)
    → ((x : A) → is_ok (check x) ≡ p x)
    → is_ok (each check xs) ≡ all p xs
unfolding each
is_ok-each check p [] h = refl
is_ok-each check p (x ∷ xs) h = ground (arith, h x, is_ok-each check p xs h)

abbrev pub is_requirement : LabelSelectorRequirement → Bool
is_requirement r =
    is_label is_label_name_char r.key
    && is_operator r.operator
    && all (is_label is_label_value_char) r.values

abbrev pub is_selector : LabelSelector → Bool
is_selector ls = all is_label_pair ls.match_labels && all is_requirement ls.match_expressions

abbrev pub is_optional_selector : Option LabelSelector → Bool
is_optional_selector none = true
is_optional_selector (some ls) = is_selector ls

label_nonempty : (s : Str) → is_label is_label_name_char s ≡ true → is_empty s ≡ false
label_nonempty [] h = cc
label_nonempty (c ∷ s) h = refl

operator_nonempty : (s : Str) → is_operator s ≡ true → is_empty s ≡ false
unfolding str_eq
operator_nonempty [] h = cc
operator_nonempty (c ∷ s) h = refl

pub is_ok-validate_requirement :
    (r : LabelSelectorRequirement) → is_ok (validate_requirement r) ≡ is_requirement r
unfolding validate_requirement
is_ok-validate_requirement r = ground (
  arith,
  is_ok-validate_label_name r.key,
  label_nonempty r.key,
  operator_nonempty r.operator,
  is_ok-each validate_label_value (is_label is_label_value_char) r.values
      is_ok-validate_label_value,
)

pub is_ok-validate_selector : (ls : LabelSelector) → is_ok (validate_selector ls) ≡ is_selector ls
unfolding validate_selector
is_ok-validate_selector ls = ground (
  arith,
  is_ok-validate_labels ls.match_labels,
  is_ok-each validate_requirement is_requirement ls.match_expressions is_ok-validate_requirement,
)

is_ok-validate_optional :
    (o : Option LabelSelector)
    → is_ok (validate_optional validate_selector o) ≡ is_optional_selector o
unfolding validate_optional
is_ok-validate_optional none = refl
is_ok-validate_optional (some ls) = is_ok-validate_selector ls

-- A cluster is accepted exactly when its id is an accepted id and its labels are accepted labels.
pub is_ok-validate_cluster :
    (c : Cluster)
    → is_ok (validate_cluster c) ≡ (is_id c.id && all is_label_pair (cluster_labels c))
unfolding validate_cluster
is_ok-validate_cluster c =
    ground (arith, is_id_nonempty c.id, is_ok-validate_labels (cluster_labels c))

-- A role is accepted exactly when its id and all its cluster ids are accepted ids and its label
-- selector, if it has one, has accepted labels, keys, operators and values throughout.
pub is_ok-validate_role :
    (r : Role)
    → is_ok (validate_role r)
      ≡ (is_id r.id && all is_id r.cluster_ids && is_optional_selector r.match_labels)
unfolding validate_role
is_ok-validate_role r = ground (
  arith,
  is_id_nonempty r.id,
  is_ok-each validate_id is_id r.cluster_ids (λ x. refl),
  is_ok-validate_optional r.match_labels,
)

-- A role binding is accepted exactly when its id and its role's id are accepted ids and all its
-- subjects are accepted subject names; the list of subjects may be empty.
pub is_ok-validate_role_binding :
    (rb : RoleBinding)
    → is_ok (validate_role_binding rb)
      ≡ (is_id rb.id && is_id rb.role_id && all (λ s. is_ok (validate_subject s)) rb.subjects)
unfolding validate_role_binding
is_ok-validate_role_binding rb = ground (
  arith,
  is_id_nonempty rb.id,
  is_id_nonempty rb.role_id,
  is_ok-each validate_subject (λ s. is_ok (validate_subject s)) rb.subjects (λ x. refl),
)

pub is_ok-validate_reference : (r : Reference) → is_ok (validate_reference r) ≡ is_id r.id
unfolding validate_reference
is_ok-validate_reference r = ground (arith, is_id_nonempty r.id)
