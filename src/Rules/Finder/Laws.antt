-- ===== src/Rules/Finder/Laws.antt =====
-- Which groups FindGroups returns, and with which rules.
use mathlib.Core.List.{Memᴰ}
use opni_monitoring.Prelude.{Str, some, List, is_empty, true, ok, ◌≡◌, collect}
use opni_monitoring.Rules.Finder.{
  Rule, Group, RuleNode, RuleGroup, Cluster, read_duration, node_of, convert_rule,
  search_namespaces,
}

module _ {E : Type 0} (k : Cluster E) where
  open k use {list, validate}

  -- How a group that FindGroups returns came about.
  pub record Found (namespaces : List Str) (g : RuleGroup) : Type 0 where
    pub namespace : Str
    pub items : List (List (Group E))
    pub item : List (Group E)
    pub group : Group E
    pub searched : Memᴰ namespace (search_namespaces namespaces)
    pub listed : list namespace ≡ ok items
    pub of_list : Memᴰ item items
    pub of_item : Memᴰ group item
    pub duration : read_duration k group.interval ≡ some g.interval
    pub named : g.name ≡ group.name
    pub rules : g.rules ≡ collect (convert_rule k) group.rules

  -- How a rule of such a group came about.
  pub record Valid (rules : List (Rule E)) (n : RuleNode) : Type 0 where
    pub rule : Rule E
    pub of_group : Memᴰ rule rules
    pub held : read_duration k rule.rule_for ≡ some n.rule_for
    pub made : node_of k rule n.rule_for ≡ n
    pub valid : is_empty (validate n) ≡ true
