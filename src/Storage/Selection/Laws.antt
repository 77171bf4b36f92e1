-- ===== src/Storage/Selection/Laws.antt =====
-- Which clusters a selector picks, described one requirement at a time.
use Prim.Native.Nat.{bit_and}
use opni_monitoring.Prelude.{
  ℕ, Str, str_eq, str_eq_iff, Assoc, lookup, has_key, Option, none, some, Bool, true, false, not,
  ◌&&◌, ◌||◌, List, [], ◌∷◌, ◌++◌, ◌==◌, if◌then◌else◌, any, all, is_empty, ◌≡◌, refl, arith,
}
use opni_monitoring.Core.Types.{Cluster, LabelSelector, LabelSelectorRequirement, cluster_labels}
use opni_monitoring.Core.Validate.{op_in, op_not_in, op_exists, op_does_not_exist}
use opni_monitoring.Storage.Selection.{
  ClusterSelector, selector_is_empty, label_or_empty, match_labels_loop, match_expressions_loop,
  label_selector_matches, predicate, not_in_case,
}

-- What one requirement asks of the labels.
abbrev pub satisfies : Assoc Str → LabelSelectorRequirement → Bool
satisfies labels req =
    if str_eq req.operator op_in
    then any (λ value. str_eq (label_or_empty req.key labels) value) req.values
    else if str_eq req.operator op_not_in
    then not_in_case (lookup req.key labels) req.values
    else if str_eq req.operator op_exists
    then has_key req.key labels
    else if str_eq req.operator op_does_not_exist
    then not (has_key req.key labels)
    else true

abbrev pub is_not_in : LabelSelectorRequirement → Bool
is_not_in req = str_eq req.operator op_not_in

-- The requirements up to the first NotIn, with that one.
abbrev pub up_to_not_in : List LabelSelectorRequirement → List LabelSelectorRequirement
up_to_not_in [] = []
up_to_not_in (req ∷ rest) =
    let later = up_to_not_in rest in if is_not_in req then req ∷ [] else req ∷ later

not_in_is_not_in_op : str_eq op_not_in op_in ≡ false
unfolding str_eq
not_in_is_not_in_op = refl

expressions_up_to :
    (labels : Assoc Str) (reqs : List LabelSelectorRequirement)
    → match_expressions_loop labels reqs ≡ all (satisfies labels) (up_to_not_in reqs)
unfolding match_expressions_loop
expressions_up_to labels [] = refl
expressions_up_to labels (req ∷ rest) = ground (
  arith,
  expressions_up_to labels rest,
  str_eq_iff req.operator op_in,
  str_eq_iff req.operator op_not_in,
  not_in_is_not_in_op,
)

-- A label the selector asks for.
abbrev pub has_label : Assoc Str → Str × Str → Bool
has_label labels (k, v) = str_eq (label_or_empty k labels) v

labels_loop_all :
    (labels asked : Assoc Str) → match_labels_loop labels asked ≡ all (has_label labels) asked
unfolding match_labels_loop
labels_loop_all labels [] = refl
labels_loop_all labels ((k, v) ∷ rest) = ground (arith, labels_loop_all labels rest)

-- Labels match a selector exactly when they hold every label that it lists, a missing one read as
-- the empty text, and satisfy every requirement up to and including its first NotIn; what stands
-- behind that NotIn has no effect.
pub label_selector_matches_lem :
    (ls : LabelSelector) (labels : Assoc Str)
    → label_selector_matches ls labels ≡ (
        all (has_label labels) ls.match_labels
        && all (satisfies labels) (up_to_not_in ls.match_expressions))
unfolding label_selector_matches
label_selector_matches_lem ls labels =
    ground
      (arith, labels_loop_all labels ls.match_labels, expressions_up_to labels ls.match_expressions)

up_to_not_in_all :
    (reqs : List LabelSelectorRequirement) → any is_not_in reqs ≡ false → up_to_not_in reqs ≡ reqs
up_to_not_in_all [] h = refl
up_to_not_in_all (req ∷ rest) h = ground (arith, up_to_not_in_all rest)

up_to_not_in_cut :
    (before after : List LabelSelectorRequirement) (req : LabelSelectorRequirement)
    → is_not_in req ≡ true
    → up_to_not_in (before ++ (req ∷ after)) ≡ up_to_not_in (before ++ (req ∷ []))
up_to_not_in_cut [] after req h = ground arith
up_to_not_in_cut (b ∷ before) after req h = ground (arith, up_to_not_in_cut before after req)

-- A selector without a NotIn requirement is the conjunction of its labels and its requirements.
pub matches_without_not_in :
    (ls : LabelSelector) (labels : Assoc Str)
    → any is_not_in ls.match_expressions ≡ false
    → label_selector_matches ls labels
      ≡ (all (has_label labels) ls.match_labels && all (satisfies labels) ls.match_expressions)
matches_without_not_in ls labels h =
    rw (label_selector_matches_lem ls labels, up_to_not_in_all ls.match_expressions h)

-- Requirements that follow a NotIn are ignored: the match is the same as if they were not there.
pub ignores_after_not_in :
    (asked labels : Assoc Str) (before after : List LabelSelectorRequirement)
    (req : LabelSelectorRequirement)
    → is_not_in req ≡ true
    → label_selector_matches
        (record { match_labels = asked; match_expressions = before ++ (req ∷ after) })
        labels
      ≡ label_selector_matches
          (record { match_labels = asked; match_expressions = before ++ (req ∷ []) })
          labels
ignores_after_not_in asked labels before after req h = rw (
  label_selector_matches_lem
      (record { match_labels = asked; match_expressions = before ++ (req ∷ after) }) labels,
  label_selector_matches_lem
      (record { match_labels = asked; match_expressions = before ++ (req ∷ []) }) labels,
  up_to_not_in_cut before after req h,
)

abbrev pub selects : Option LabelSelector → Cluster → Bool
selects none c = false
selects (some ls) c =
    not (selector_is_empty (some ls)) && label_selector_matches ls (cluster_labels c)

-- A selector that names no ids and whose label selector is missing or empty picks every cluster,
-- or none under EmptySelectorMatchesNone; any other picks a cluster exactly when it names its id or
-- has a label selector that is not empty and matches its labels.
pub predicate_lem :
    (p : ClusterSelector) (c : Cluster)
    → predicate p c ≡ (
        if selector_is_empty p.label_selector && is_empty p.cluster_ids
        then bit_and p.match_options 1 == 0
        else any (λ id. str_eq id c.id) p.cluster_ids || selects p.label_selector c)
predicate_lem p c = predicate_at p.cluster_ids p.label_selector p.match_options c
  where
    predicate_at :
        (ids : List Str) (ls : Option LabelSelector) (options : ℕ) (c : Cluster)
        → predicate (record { cluster_ids = ids; label_selector = ls; match_options = options }) c
          ≡ (if selector_is_empty ls && is_empty ids
              then bit_and options 1 == 0
              else any (λ id. str_eq id c.id) ids || selects ls c)
    predicate_at ids none options c = unfold predicate in ground arith
    predicate_at ids (some ls) options c = unfold predicate in ground arith
