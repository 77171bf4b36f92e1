-- ===== src/Examples/Finding.antt =====
-- One PrometheusRule with two groups, of which one has an interval that cannot be parsed.
use opni_monitoring.Prelude.{
  ℕ, Str, codes, List, [], ◌∷◌, str_eq, if◌then◌else◌, Result, ok, err, other, ◌≡◌, refl,
}
use opni_monitoring.Rules.Finder.{Rule, Group, RuleGroup, Cluster, find_groups}

abbrev rule : Str → Rule Str
rule duration = record {
  record_name = [];
  alert = codes "down";
  expr = codes "up == 0";
  rule_for = duration;
  labels = [];
  annotations = [];
}

abbrev cluster : Cluster Str
cluster = record {
  list = λ namespace. ok (
      (record {
        name = codes "nodes";
        interval = codes "1m";
        rules = rule (codes "?") ∷ rule [] ∷ [];
      }
        ∷ record { name = codes "pods"; interval = codes "?"; rules = [] }
        ∷ [])
      ∷ []);
  parse_duration = λ s. if str_eq s (codes "1m") then ok 60 else err other;
  expr_string = λ e. e;
  validate = λ n. [];
}

abbrev nodes : RuleGroup
nodes = record {
  name = codes "nodes";
  interval = 60;
  rules =
      record {
        record_name = [];
        alert = codes "down";
        expr = codes "up == 0";
        rule_for = 0;
        labels = [];
        annotations = [];
      }
      ∷ [];
}

find_groups_run : find_groups cluster (codes "default" ∷ []) ≡ nodes ∷ []
unfolding find_groups opni_monitoring.Prelude.gather
    opni_monitoring.Rules.Finder.find_rules_in_namespace opni_monitoring.Prelude.collect
    opni_monitoring.Rules.Finder.convert_group opni_monitoring.Rules.Finder.read_duration str_eq
    opni_monitoring.Rules.Finder.convert_rule opni_monitoring.Rules.Finder.node_of
find_groups_run = refl
