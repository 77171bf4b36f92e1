-- ===== src/Rules/Finder.antt =====
-- pkg/rules/prometheusrule.go. The Kubernetes client, model.ParseDuration, RuleNode.Validate and
-- the rendering of an expression are parameters. A yaml.Node is its text.
pub mod Laws
use opni_monitoring.Prelude.{
  ℕ, Str, Assoc, Option, none, some, Bool, true, false, List, [], ◌∷◌, is_empty, if◌then◌else◌,
  Result, ok, err, keep, not, collect, gather,
}

-- A rule and a group of a PrometheusRule.
pub record Rule (E : Type 0) : Type 0 where
  pub record_name : Str
  pub alert : Str
  pub expr : E
  pub rule_for : Str
  pub labels : Assoc Str
  pub annotations : Assoc Str

pub record Group (E : Type 0) : Type 0 where
  pub name : Str
  pub interval : Str
  pub rules : List (Rule E)

-- rulefmt.RuleNode and rulefmt.RuleGroup
pub record RuleNode : Type 0 where
  pub record_name : Str
  pub alert : Str
  pub expr : Str
  pub rule_for : ℕ
  pub labels : Assoc Str
  pub annotations : Assoc Str

pub record RuleGroup : Type 0 where
  pub name : Str
  pub interval : ℕ
  pub rules : List RuleNode

pub record Cluster (E : Type 0) : Type 0 where
  -- the groups of each PrometheusRule of a namespace; the empty name is all namespaces
  pub list : Str → Result (List (List (Group E)))
  pub parse_duration : Str → Result ℕ
  pub expr_string : E → Str
  -- the errors of Validate
  pub validate : RuleNode → List Str

-- Without a named namespace, all are searched.
unfoldable pub search_namespaces : List Str → List Str
search_namespaces namespaces =
    let named = keep (λ v. not (is_empty v)) namespaces in if is_empty named then [] ∷ [] else named

module _ {E : Type 0} (k : Cluster E) where
  open k use {list, parse_duration, expr_string, validate}

  -- An empty duration is zero; one that cannot be parsed is skipped with what it belongs to.
  unfoldable pub read_duration : Str → Option ℕ
  read_duration s =
      if is_empty s then some 0 else elim (parse_duration s) [ err e ↦ none | ok d ↦ some d ]

  unfoldable pub node_of : Rule E → ℕ → RuleNode
  node_of rule d = record {
    record_name = rule.record_name;
    alert = rule.alert;
    expr = expr_string rule.expr;
    rule_for = d;
    labels = rule.labels;
    annotations = rule.annotations;
  }

  -- The body of the loop over the rules of a group.
  unfoldable pub with_for : Rule E → Option ℕ → Option RuleNode
  with_for rule none = none
  with_for rule (some d) =
      if is_empty (validate (node_of rule d)) then some (node_of rule d) else none

  unfoldable pub convert_rule : Rule E → Option RuleNode
  unfolding with_for
  convert_rule rule = with_for rule (read_duration rule.rule_for)

  -- The body of the loop over the groups of a rule.
  unfoldable pub with_interval : Group E → Option ℕ → Option RuleGroup
  with_interval group none = none
  with_interval group (some d) =
      some (record { name = group.name; interval = d; rules = collect convert_rule group.rules })

  unfoldable pub convert_group : Group E → Option RuleGroup
  unfolding with_interval
  convert_group group = with_interval group (read_duration group.interval)

  -- findRulesInNamespace
  unfoldable pub convert_items : Result (List (List (Group E))) → Result (List RuleGroup)
  convert_items (err e) = err e
  convert_items (ok items) = ok (gather (collect convert_group) items)

  unfoldable pub find_rules_in_namespace : Str → Result (List RuleGroup)
  unfolding convert_items
  find_rules_in_namespace namespace = convert_items (list namespace)

  -- A namespace whose rules cannot be listed is skipped.
  unfoldable pub groups_of : Str → List RuleGroup
  groups_of namespace = elim (find_rules_in_namespace namespace) [ err e ↦ [] | ok groups ↦ groups ]

  -- FindGroups, for the namespaces of the finder's options. It returns no error.
  unfoldable pub find_groups : List Str → List RuleGroup
  unfolding groups_of search_namespaces
  find_groups namespaces = gather groups_of (search_namespaces namespaces)
