-- ===== src/Storage/Selection.antt =====
-- pkg/storage/selection.go.
pub mod Laws
use Prim.Native.Nat.{bit_and}
use opni_monitoring.Prelude.{
  ℕ, Str, str_eq, Assoc, lookup, has_key, Option, none, some, Bool, true, false, not, ◌&&◌, ◌||◌,
  List, [], ◌∷◌, ◌==◌, if◌then◌else◌, any, is_empty,
}
use opni_monitoring.Core.Types.{Cluster, LabelSelector, LabelSelectorRequirement, cluster_labels}
use opni_monitoring.Core.Validate.{op_in, op_not_in, op_exists, op_does_not_exist}

pub record ClusterSelector : Type 0 where
  pub cluster_ids : List Str
  pub label_selector : Option LabelSelector
  pub match_options : ℕ

-- (*LabelSelector).IsEmpty of pkg/core/labels.go
unfoldable pub selector_is_empty : Option LabelSelector → Bool
selector_is_empty none = true
selector_is_empty (some ls) = is_empty ls.match_labels && is_empty ls.match_expressions

-- labels[key], the empty string where the key is missing
abbrev pub label_or_empty : Str → Assoc Str → Str
label_or_empty k labels = elim (lookup k labels) [ none ↦ [] | some v ↦ v ]

-- The first loop of labelSelectorMatches.
unfoldable pub match_labels_loop : Assoc Str → Assoc Str → Bool
match_labels_loop labels [] = true
match_labels_loop labels ((k, v) ∷ rest) =
    let later = match_labels_loop labels rest in
    if not (str_eq (label_or_empty k labels) v) then false else later

-- The case NotIn, which returns from the whole function on each of its ways out.
abbrev pub not_in_case : Option Str → List Str → Bool
not_in_case none values = false
not_in_case (some v) values = not (any (λ value. str_eq v value) values)

-- The second loop of labelSelectorMatches.
unfoldable pub match_expressions_loop : Assoc Str → List LabelSelectorRequirement → Bool
match_expressions_loop labels [] = true
match_expressions_loop labels (req ∷ rest) =
    let later = match_expressions_loop labels rest in
    if str_eq req.operator op_in
    then (if any (λ value. str_eq (label_or_empty req.key labels) value) req.values
        then later
        else false)
    else if str_eq req.operator op_not_in
    then not_in_case (lookup req.key labels) req.values
    else if str_eq req.operator op_exists
    then (if has_key req.key labels then later else false)
    else if str_eq req.operator op_does_not_exist
    then (if has_key req.key labels then false else later)
    else later

unfoldable pub label_selector_matches : LabelSelector → Assoc Str → Bool
unfolding match_labels_loop match_expressions_loop
label_selector_matches ls labels =
    if match_labels_loop labels ls.match_labels
    then match_expressions_loop labels ls.match_expressions
    else false

abbrev pub empty_selector_matches_none : ℕ
empty_selector_matches_none = 1

abbrev matches_optional : Option LabelSelector → Assoc Str → Bool
matches_optional none labels = false
matches_optional (some ls) labels = label_selector_matches ls labels

-- (ClusterSelector).Predicate, applied to a cluster. A label selector that is not empty is not nil.
unfoldable pub predicate : ClusterSelector → Cluster → Bool
unfolding selector_is_empty
predicate p c =
    let empty_label_selector = selector_is_empty p.label_selector in
    if empty_label_selector && is_empty p.cluster_ids
    then (if not (bit_and p.match_options empty_selector_matches_none == 0) then false else true)
    else if any (λ id. str_eq id c.id) p.cluster_ids
    then true
    else if empty_label_selector
    then false
    else matches_optional p.label_selector (cluster_labels c)
