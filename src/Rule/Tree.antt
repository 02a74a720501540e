-- ===== src/Rule/Tree.antt =====
-- src/models/rule.rs: the rule tree, an OR of AND-groups.
use kick_channel_role.Prelude.{ℕ, Bool, List}
use kick_channel_role.Rule.Condition.{Condition}

abbrev pub max_groups : ℕ
max_groups = 8

abbrev pub max_conditions_per_group : ℕ
max_conditions_per_group = 12

pub record ConditionGroup : Type 0 where
  pub conditions : List Condition

pub record RuleTree : Type 0 where
  pub grant_on_any_relation : Bool
  pub groups : List ConditionGroup
