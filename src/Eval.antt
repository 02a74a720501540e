-- ===== src/Eval.antt =====
-- src/services/condition_eval.rs: the evaluation of a rule tree against a viewer's facts.
pub mod Laws
use kick_channel_role.Prelude.{
  ℕ, suc, ◌+◌, ◌/◌, ◌*◌, Bool, true, false, not, ◌&&◌, ◌||◌, List, Option, none, some, all, any,
  is_empty, if◌then◌else◌, and_then,
}
use kick_channel_role.Prelude.Int.{ℤ, pos, negsuc, ◌-ℤ◌, leb_ℤ, ltb_ℤ, eqb_ℤ}
use kick_channel_role.Prelude.Text as Str
use kick_channel_role.Prelude.Text.{Text, text_eq}
use kick_channel_role.Json.{Value, as_bool, as_i64, as_str, as_array}
use kick_channel_role.Rule.Condition.{
  ConditionTarget, is_follower, follow_age_days, is_subscriber, sub_months_cumulative,
  sub_streak_months, is_gift_recipient, gifted_subs_given, is_vip, is_moderator,
  kicks_donated_to_channel, chat_messages_30d, is_og, account_age_days, country_code, username,
  ConditionOperator, eq, neq, gt, gte, lt, lte, between, contains, regex, in_list, not_in,
  Condition,
}
use kick_channel_role.Rule.Tree.{ConditionGroup, RuleTree}
use kick_channel_role.Rule.Facts.{DateTime, Facts}

-- The `regex` crate under the program's size limits: whether a pattern compiles, and whether a
-- compiled pattern matches somewhere in a text.
pub record Regex : Type 0 where
  pub compiles : Text → Bool
  pub is_match : Text → Text → Bool

abbrev pub day_micros : ℕ
day_micros = 86400 * 1000000

-- `TimeDelta::num_days`, which rounds towards zero.
unfoldable pub num_days : ℤ → ℤ
num_days (pos n) = pos (n / day_micros)
num_days (negsuc n) = let days = suc n / day_micros in pos 0 -ℤ pos days

unfoldable pub days_since : DateTime → Option DateTime → Option ℤ
unfolding num_days
days_since now none = none
days_since now (some t) = some (num_days (now -ℤ t))

is_eq : ConditionOperator → Bool
is_eq eq = true
is_eq _ = false

abbrev pub test {ℓ} : {A : Type ℓ} → Option A → (A → Bool) → Bool
test none p = false
test (some a) p = p a

-- `v == actual` on `bool`.
abbrev pub bool_eq : Bool → Bool → Bool
bool_eq true b = b
bool_eq false b = not b

unfoldable pub bool_match : Condition → Bool → Bool
unfolding is_eq
bool_match c actual =
    if not (is_eq c.operator) then false else test (as_bool c.value) (λ v. bool_eq v actual)

-- The `match` on the operator, of a value that is there.
int_test : ConditionOperator → ℤ → Option ℤ → Option ℤ → Bool
int_test eq a v end = test v (λ n. eqb_ℤ a n)
int_test neq a v end = test v (λ n. not (eqb_ℤ a n))
int_test gt a v end = test v (λ n. ltb_ℤ n a)
int_test gte a v end = test v (λ n. leb_ℤ n a)
int_test lt a v end = test v (λ n. ltb_ℤ a n)
int_test lte a v end = test v (λ n. leb_ℤ a n)
int_test between a v end = test v (λ lo. test end (λ hi. leb_ℤ lo a && leb_ℤ a hi))
int_test _ a v end = false

-- A missing value fails.
unfoldable pub int_match : Condition → Option ℤ → Bool
unfolding int_test
int_match c none = false
int_match c (some a) = int_test c.operator a (as_i64 c.value) (and_then c.value_end as_i64)

unfoldable pub list_contains : Value → Text → Bool
list_contains value needle =
    test (as_array value) (λ arr. any (λ v. test (as_str v) (λ s. text_eq s needle)) arr)

is_neq : ConditionOperator → Bool
is_neq neq = true
is_neq _ = false

module _ (re : Regex) where
  string_test : ConditionOperator → Value → Text → Bool
  string_test eq value a = test (as_str value) (λ s. text_eq a s)
  string_test neq value a = test (as_str value) (λ s. not (text_eq a s))
  string_test contains value a = test (as_str value) (λ s. Str.contains a s)
  string_test regex value a =
      test (as_str value) (λ pattern. if re.compiles pattern then re.is_match pattern a else false)
  string_test in_list value a = list_contains value a
  string_test not_in value a = not (list_contains value a)
  string_test _ value a = false

  -- Against a missing text only `neq` matches.
  unfoldable pub string_match : Condition → Option Text → Bool
  unfolding string_test is_neq
  string_match c none = is_neq c.operator
  string_match c (some a) = string_test c.operator c.value a

  module _ (now : DateTime) where
    -- The `match` on the target.
    match_target : ConditionTarget → Condition → Facts → Bool
    match_target is_follower c f = bool_match c f.is_follower
    match_target is_subscriber c f = bool_match c f.is_subscriber
    match_target is_gift_recipient c f = bool_match c f.sub_is_gift
    match_target is_vip c f = bool_match c f.is_vip
    match_target is_moderator c f = bool_match c f.is_moderator
    match_target is_og c f = bool_match c f.is_og
    match_target follow_age_days c f = int_match c (days_since now f.followed_at)
    match_target sub_months_cumulative c f = int_match c (some f.sub_months_cumulative)
    match_target sub_streak_months c f = int_match c (some f.sub_streak_months)
    match_target gifted_subs_given c f = int_match c (some f.gifted_subs_given)
    match_target kicks_donated_to_channel c f = int_match c (some f.kicks_donated)
    match_target chat_messages_30d c f = int_match c (some f.chat_messages_30d)
    match_target account_age_days c f = int_match c (days_since now f.kick_created_at)
    match_target country_code c f = string_match c f.country_code
    match_target username c f = string_match c (some f.username)

    unfoldable pub evaluate_single : Condition → Facts → Bool
    unfolding match_target
    evaluate_single c f = match_target c.target c f

    unfoldable pub evaluate : RuleTree → Facts → Bool
    evaluate tree facts =
        if tree.grant_on_any_relation
        then true
        else if is_empty tree.groups
        then false
        else any
            (λ (g : ConditionGroup).
              not (is_empty g.conditions) && all (λ c. evaluate_single c facts) g.conditions)
            tree.groups
