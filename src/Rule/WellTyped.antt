-- ===== src/Rule/WellTyped.antt =====
-- When a condition's value suits its target and operator: what src/services/rule_validator.rs
-- checks before a rule is saved.
use kick_channel_role.Prelude.{true, ◌≡◌, ◌≢◌, Option, none, some, [], All, length, false, ◌≤◌, ◌⊎◌}
use kick_channel_role.Prelude.Int.{in_i64}
use kick_channel_role.Json.{Value, boolean, number, string, array, integer, to_list}
use kick_channel_role.Rule.Condition.{
  TargetKind, bool, int, kind, ConditionOperator, eq, neq, between, contains, regex, in_list,
  not_in, valid_for, Condition,
}
use kick_channel_role.Rule.Tree.{ConditionGroup, RuleTree, max_groups, max_conditions_per_group}

abbrev pub ValueFits : TargetKind → ConditionOperator → Value → Type 0
ValueFits bool op (boolean b) = Unit
ValueFits int op (number (integer n)) = in_i64 n ≡ true
ValueFits TargetKind.string eq (string s) = Unit
ValueFits TargetKind.string neq (string s) = Unit
ValueFits TargetKind.string contains (string s) = Unit
ValueFits TargetKind.string regex (string s) = Unit
ValueFits TargetKind.string in_list (array xs) = to_list xs ≢ []
ValueFits TargetKind.string not_in (array xs) = to_list xs ≢ []
ValueFits _ _ _ = ⊥

-- Only `between` has a second value, which is a number.
abbrev pub EndFits : ConditionOperator → Option Value → Type 0
EndFits between (some (number (integer n))) = in_i64 n ≡ true
EndFits between _ = ⊥
EndFits _ end = end ≡ none

pub record IsWellTyped (c : Condition) : Type 0 where
  pub valid : valid_for c.operator (kind c.target) ≡ true
  pub value_fits : ValueFits (kind c.target) c.operator c.value
  pub end_fits : EndFits c.operator c.value_end

-- A group that is not empty nor over the limit, each of whose conditions satisfies `P`.
pub record IsGroup (P : Condition → Type 0) (g : ConditionGroup) : Type 0 where
  pub some_condition : g.conditions ≢ []
  pub few_conditions : length g.conditions ≤ max_conditions_per_group
  pub each : All P g.conditions

-- A tree that grants on any relation has no groups; any other has some, within the limit.
abbrev pub IsWellFormed : (Condition → Type 0) → RuleTree → Type 0
IsWellFormed P tree =
    ((tree.grant_on_any_relation ≡ true) × (tree.groups ≡ []))
    ⊎ ((tree.grant_on_any_relation ≡ false)
        × (tree.groups ≢ [])
        × (length tree.groups ≤ max_groups)
        × All (IsGroup P) tree.groups)
