-- ===== src/Rule/Condition.antt =====
-- src/models/condition.rs: condition targets, operators, and which operators suit which target.
pub mod Keys
use kick_channel_role.Prelude.{Bool, true, false, Option, List, [], ◌∷◌}
use kick_channel_role.Prelude.Text.{Text, codes, match_str}
use kick_channel_role.Json.{Value}

pub data TargetKind : Type 0 where
  bool int string : TargetKind

pub data ConditionTarget : Type 0 where
  is_follower follow_age_days is_subscriber sub_months_cumulative : ConditionTarget
  sub_streak_months is_gift_recipient gifted_subs_given is_vip : ConditionTarget
  is_moderator kicks_donated_to_channel chat_messages_30d is_og : ConditionTarget
  account_age_days country_code username : ConditionTarget

unfoldable pub kind : ConditionTarget → TargetKind
kind is_follower = bool
kind is_subscriber = bool
kind is_gift_recipient = bool
kind is_vip = bool
kind is_moderator = bool
kind is_og = bool
kind country_code = string
kind username = string
kind _ = int

unfoldable pub target_as_str : ConditionTarget → Text
target_as_str is_follower = codes "is_follower"
target_as_str follow_age_days = codes "follow_age_days"
target_as_str is_subscriber = codes "is_subscriber"
target_as_str sub_months_cumulative = codes "sub_months_cumulative"
target_as_str sub_streak_months = codes "sub_streak_months"
target_as_str is_gift_recipient = codes "is_gift_recipient"
target_as_str gifted_subs_given = codes "gifted_subs_given"
target_as_str is_vip = codes "is_vip"
target_as_str is_moderator = codes "is_moderator"
target_as_str kicks_donated_to_channel = codes "kicks_donated_to_channel"
target_as_str chat_messages_30d = codes "chat_messages_30d"
target_as_str is_og = codes "is_og"
target_as_str account_age_days = codes "account_age_days"
target_as_str country_code = codes "country_code"
target_as_str username = codes "username"

-- The arms of `from_key`.
abbrev pub target_arms : List (Text × ConditionTarget)
target_arms =
    (codes "is_follower", is_follower)
    ∷ (codes "follow_age_days", follow_age_days)
    ∷ (codes "is_subscriber", is_subscriber)
    ∷ (codes "sub_months_cumulative", sub_months_cumulative)
    ∷ (codes "sub_streak_months", sub_streak_months)
    ∷ (codes "is_gift_recipient", is_gift_recipient)
    ∷ (codes "gifted_subs_given", gifted_subs_given)
    ∷ (codes "is_vip", is_vip)
    ∷ (codes "is_moderator", is_moderator)
    ∷ (codes "kicks_donated_to_channel", kicks_donated_to_channel)
    ∷ (codes "chat_messages_30d", chat_messages_30d)
    ∷ (codes "is_og", is_og)
    ∷ (codes "account_age_days", account_age_days)
    ∷ (codes "country_code", country_code)
    ∷ (codes "username", username)
    ∷ []

unfoldable pub target_from_key : Text → Option ConditionTarget
unfolding match_str
target_from_key s = match_str s target_arms

-- `In` is `in_list`, since `in` is a reserved word.
pub data ConditionOperator : Type 0 where
  eq neq gt gte lt lte between contains regex in_list not_in : ConditionOperator

unfoldable pub operator_as_str : ConditionOperator → Text
operator_as_str eq = codes "eq"
operator_as_str neq = codes "neq"
operator_as_str gt = codes "gt"
operator_as_str gte = codes "gte"
operator_as_str lt = codes "lt"
operator_as_str lte = codes "lte"
operator_as_str between = codes "between"
operator_as_str contains = codes "contains"
operator_as_str regex = codes "regex"
operator_as_str in_list = codes "in"
operator_as_str not_in = codes "not_in"

-- The arms of `from_key`.
abbrev pub operator_arms : List (Text × ConditionOperator)
operator_arms =
    (codes "eq", eq)
    ∷ (codes "neq", neq)
    ∷ (codes "gt", gt)
    ∷ (codes "gte", gte)
    ∷ (codes "lt", lt)
    ∷ (codes "lte", lte)
    ∷ (codes "between", between)
    ∷ (codes "contains", contains)
    ∷ (codes "regex", regex)
    ∷ (codes "in", in_list)
    ∷ (codes "not_in", not_in)
    ∷ []

unfoldable pub operator_from_key : Text → Option ConditionOperator
unfolding match_str
operator_from_key s = match_str s operator_arms

-- The two `matches!` lists of `valid_for`.
suits_int : ConditionOperator → Bool
suits_int eq = true
suits_int neq = true
suits_int gt = true
suits_int gte = true
suits_int lt = true
suits_int lte = true
suits_int between = true
suits_int _ = false

suits_string : ConditionOperator → Bool
suits_string eq = true
suits_string neq = true
suits_string contains = true
suits_string regex = true
suits_string in_list = true
suits_string not_in = true
suits_string _ = false

is_eq : ConditionOperator → Bool
is_eq eq = true
is_eq _ = false

unfoldable pub valid_for : ConditionOperator → TargetKind → Bool
unfolding suits_int suits_string is_eq
valid_for op bool = is_eq op
valid_for op int = suits_int op
valid_for op string = suits_string op

-- A single condition row inside an AND-group.
pub record Condition : Type 0 where
  pub target : ConditionTarget
  pub operator : ConditionOperator
  pub value : Value
  pub value_end : Option Value
