-- ===== src/Examples/Rules.antt =====
-- Rules at work: the validator, the evaluator and the bulk query on one rule and one viewer.
use mathlib.Core.Path.{subst}
use kick_channel_role.Prelude.{
  Option, Bool, if◌then◌else◌, ◌∙◌, get_elem?-append, ◌≡◌, ◌↔◌, ◌⊎◌, refl, true, false, none, some,
  List, [], ◌∷◌, ◌++◌, All, ok, arith,
}
use kick_channel_role.Prelude.Int.{◌≤ℤ◌, ◌-ℤ◌}
use kick_channel_role.Prelude.Text as Str
use kick_channel_role.Prelude.Text.{Text, codes, contains, text_eq, trim, to_ascii_lowercase, split}
use kick_channel_role.Json.{array, cons, nil, null, as_bool, as_i64, as_str, as_array}
use kick_channel_role.Rule.Condition.{
  username, country_code, not_in, target_from_key, target_as_str, operator_from_key,
  operator_as_str, in_list, Condition, valid_for, kind,
}
use kick_channel_role.Rule.Condition.Keys.{from_key_iff}
use kick_channel_role.Rule.WellTyped.{IsWellFormed}
use kick_channel_role.Rule.Tree.{ConditionGroup}
use kick_channel_role.Rule.Facts.{DateTime}
use kick_channel_role.Relation.{facts_of}
use kick_channel_role.Eval.{
  bool_match, int_match, days_since, string_match, list_contains, evaluate, evaluate_single,
}
use kick_channel_role.Eval.Laws.{evaluate_iff, Some, GroupHolds}
use kick_channel_role.Validator.{parse_rule_tree, validate_condition, normalize_value, parse_i64}
use kick_channel_role.Validator.Numbers.{IsSaturating}
use kick_channel_role.Validator.Laws.{IsSaved}
use kick_channel_role.Validator.Trees.{parse_rule_tree-IsWellFormed}
use kick_channel_role.RuleSql.{
  Bind, build_rule_where, escape_like, build_condition, str_array, texts, next, bool_bind,
  text_bind,
}
use kick_channel_role.RuleSql.Like.{like, like-escape_like}
use kick_channel_role.RuleSql.Render.{rule_text}
use kick_channel_role.RuleSql.Semantics.{selected, rule_truth, cond_truth}
use kick_channel_role.RuleSql.Binds.{Supplies}
use kick_channel_role.RuleSql.Equivalence.{IsPast}
use kick_channel_role.RuleSql.Saved.{HasText, HasSharedPattern, saved_rule_agrees}
use kick_channel_role.RuleSql.Divergence.{not_in_without_text_differs}
use kick_channel_role.Examples.{
  plain, plain_tilde, sample_host, days, sample_body, sample_tree, sample_parsed, sample_row,
}

pub sample_IsSaturating : IsSaturating sample_host
sample_IsSaturating = record { float_in_range = λ t. refl }

-- The validator reads the sample, with its spaces, its words and its number as a text.
pub sample-parses : parse_rule_tree sample_host sample_body ≡ ok sample_parsed
unfolding parse_rule_tree validate_condition target_from_key text_eq trim operator_from_key
    valid_for kind normalize_value to_ascii_lowercase parse_i64 split
sample-parses = refl

parse_rule_tree-IsWellFormed_example :
    (sample_parsed.kick_channel_id ≡ sample_body.kick_channel_id)
    × (sample_parsed.rule_tree.grant_on_any_relation ≡ sample_body.grant_on_any_relation)
    × IsWellFormed (IsSaved sample_host sample_IsSaturating) sample_parsed.rule_tree
parse_rule_tree-IsWellFormed_example =
    parse_rule_tree-IsWellFormed sample_host sample_IsSaturating sample_body sample_parsed
      sample-parses

abbrev pub now : DateTime
now = days 120

-- The viewer has followed for 80 days.
sample-holds : evaluate plain now sample_tree (facts_of sample_row) ≡ true
unfolding evaluate evaluate_single facts_of bool_match as_bool int_match days_since as_i64 ◌-ℤ◌
    string_match as_str list_contains as_array Str.contains
sample-holds = refl

-- The text of the bulk query's clause.
sample-text :
    rule_text (build_rule_where sample_tree 2).0
    ≡ codes
        "((COALESCE(cr.is_follower, false) = $3 AND (FLOOR(EXTRACT(EPOCH FROM (now() - cr.followed_at)) / 86400)) >= $4) OR (ku.kick_username LIKE $5 AND (ku.country_code IS NOT NULL AND ku.country_code <> ALL($6::text[]))))"
unfolding rule_text build_rule_where build_condition next as_bool as_i64 as_str str_array texts
    as_array
sample-text = refl

abbrev params : List Bind
params = (bool_bind true ∷ bool_bind true ∷ []) ++ (build_rule_where sample_tree 2).1

params-Supplies : Supplies 2 params (build_rule_where sample_tree 2).1
params-Supplies = λ i b e.
    get_elem?-append (bool_bind true ∷ bool_bind true ∷ []) (build_rule_where sample_tree 2).1 i ∙ e

pub sample-IsPast : IsPast now sample_row
sample-IsPast = record {
  followed = λ t e. (let same : days 40 ≡ t = cc e in subst (λ x. x ≤ℤ now) same (omega arith));
  created = omega arith;
}

pub sample-HasText : All (λ (g : ConditionGroup). All HasText g.conditions) sample_tree.groups
unfolding str_array texts as_str as_array
sample-HasText = (
  (λ e. absurd (cc e), (λ e. absurd (cc e), tt)),
  ((λ e. absurd (cc e), (λ e p. absurd (cc p), tt)), tt),
)

-- Every pattern means the same to the two engines of the examples.
plain-HasSharedPattern : (cs : List Condition) → All (HasSharedPattern plain plain_tilde) cs
plain-HasSharedPattern [] = tt
plain-HasSharedPattern (c ∷ cs) = (λ p a e q. refl, plain-HasSharedPattern cs)

pub groups-HasSharedPattern :
    (gs : List ConditionGroup)
    → All (λ (g : ConditionGroup). All (HasSharedPattern plain plain_tilde) g.conditions) gs
groups-HasSharedPattern [] = tt
groups-HasSharedPattern (g ∷ gs) = (plain-HasSharedPattern g.conditions, groups-HasSharedPattern gs)

pub sample-HasSharedPattern :
    All
      (λ (g : ConditionGroup). All (HasSharedPattern plain plain_tilde) g.conditions)
      sample_tree.groups
sample-HasSharedPattern = groups-HasSharedPattern sample_tree.groups

saved_rule_agrees_example :
    selected (rule_truth plain_tilde params now sample_row (build_rule_where sample_tree 2).0)
    ≡ some (evaluate plain now sample_tree (facts_of sample_row))
saved_rule_agrees_example =
    saved_rule_agrees sample_host sample_IsSaturating plain_tilde sample_body sample_parsed params
      now sample_row 2 sample-parses sample-HasText sample-HasSharedPattern sample-IsPast
      params-Supplies

evaluate_iff_example : (evaluate plain now sample_tree (facts_of sample_row) ≡ true) ↔ (
    (sample_tree.grant_on_any_relation ≡ true)
    ⊎ Some (GroupHolds plain now (facts_of sample_row)) sample_tree.groups)
evaluate_iff_example = evaluate_iff plain now (facts_of sample_row) sample_tree

from_key_iff_example :
    ((target_from_key (codes "username") ≡ some username)
      ↔ (codes "username" ≡ target_as_str username))
    × ((operator_from_key (codes "username") ≡ some in_list)
        ↔ (codes "username" ≡ operator_as_str in_list))
from_key_iff_example = from_key_iff (codes "username") username in_list

like-escape_like_example :
    like (37 ∷ (escape_like (codes "50%_") ++ 37 ∷ [])) (codes "now 50%_off")
    ≡ contains (codes "now 50%_off") (codes "50%_")
like-escape_like_example = like-escape_like (codes "50%_") (codes "now 50%_off")

abbrev nobody : Condition
nobody = record {
  target = country_code;
  operator = not_in;
  value = array (cons null nil);
  value_end = none;
}

not_in_without_text_differs_example :
    (selected (cond_truth plain_tilde [] now sample_row (build_condition nobody 2 []).0)
      ≡ some true)
    × (evaluate_single plain now nobody (facts_of sample_row) ≡ false)
not_in_without_text_differs_example =
    not_in_without_text_differs plain plain_tilde [] [] now sample_row (cons null nil) none 2
      no_text refl
  where
    no_text : texts (null ∷ []) ≡ []
    no_text = unfold texts as_str in refl

-- Postgres knows no named groups.
abbrev no_named_groups : Text → Text → Option Bool
no_named_groups p a = if Str.starts_with (codes "(?P<") p then none else some (contains a p)

abbrev with_group : List Bind
with_group = (bool_bind true ∷ bool_bind true ∷ []) ++ (text_bind (codes "(?P<x>a)") ∷ [])
