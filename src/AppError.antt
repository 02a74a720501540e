-- ===== src/AppError.antt =====
-- `AppError` of src/error.rs. A message that the source formats is a constructor that carries what
-- is put into it.
use kick_channel_role.Prelude.{ℕ, List}
use kick_channel_role.Prelude.Text.{Text}
use kick_channel_role.Json.{Value}
use kick_channel_role.Rule.Condition.{ConditionTarget, ConditionOperator}

-- `Group #g, condition #c`.
pub record Where : Type 0 where
  pub group_num : ℕ
  pub cond_num : ℕ

-- The messages of src/services/rule_validator.rs.
pub data BadRule : Type 0 where
  no_groups too_many_groups : BadRule
  no_conditions too_many_conditions : ℕ → BadRule
  unknown_target unknown_operator : Where → Text → BadRule
  operator_not_valid : Where → ConditionOperator → ConditionTarget → BadRule
  between_needs_both regex_invalid number_blank list_empty value_required : Where → BadRule
  boolean_required integer_required : Where → Value → BadRule

-- `FieldError`.
pub record FieldError : Type 0 where
  pub in_field : Text
  pub message : Text

-- `bad_rule` is a `BadRequest` whose text the validator formats.
pub data AppError : Type 0 where
  database rolelogic kick_api kick_grant_revoked unauthorized_with forbidden not_found internal :
      Text → AppError
  role_link_not_found role_link_disabled removal_held unauthorized stale_version : AppError
  user_limit_reached rate_limited : ℕ → AppError
  bad_rule : BadRule → AppError
  bad_request : Text → AppError
  validation_failed : List FieldError → AppError
