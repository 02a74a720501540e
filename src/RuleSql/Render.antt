-- ===== src/RuleSql/Render.antt =====
-- The text of a clause, as src/services/rule_sql.rs formats it.
use kick_channel_role.Prelude.{
  ℕ, zero, suc, ◌+◌, ◌/◌, ◌%◌, ◌==◌, List, [], ◌∷◌, ◌++◌, if◌then◌else◌, map,
}
use kick_channel_role.Prelude.Text.{Text, codes}
use kick_channel_role.RuleSql.{
  Column, cr_is_follower, cr_followed_at, cr_is_subscriber, cr_sub_months_cumulative,
  cr_sub_streak_months, cr_sub_is_gift, cr_gifted_subs_given, cr_is_vip, cr_is_moderator,
  cr_kicks_donated, cr_chat_messages_30d, cr_is_og, ku_kick_created_at, ku_country_code,
  ku_kick_username, Expr, coalesce_false, coalesce_zero, floor_days_since, column, CondClause,
  eq_param, ne_param, distinct_from_param, gt_param, gte_param, lt_param, lte_param, between_params,
  like_param, regex_param, eq_any_param, not_all_param, false_clause, true_clause, GroupClause,
  false_group, all_of, RuleClause, true_rule, false_rule, any_of,
}

-- Decimal digits, on fuel; a number has fewer digits than its successor's value.
show_from : ℕ → ℕ → Text → Text
show_from zero n acc = acc
show_from (suc fuel) n acc =
    let rest = show_from fuel (n / 10) ((48 + n % 10) ∷ acc) in
    if n / 10 == 0 then (48 + n % 10) ∷ acc else rest

show : ℕ → Text
unfolding show_from
show n = show_from (n + 1) n []

-- The parts of a text, one behind the other.
abbrev concat : List Text → Text
concat [] = []
concat (s ∷ parts) = s ++ concat parts

-- `parts.join(separator)`.
join : Text → List Text → Text
join separator [] = []
join separator (s ∷ []) = s
join separator (s ∷ t ∷ parts) = s ++ (separator ++ join separator (t ∷ parts))

column_text : Column → Text
column_text cr_is_follower = codes "cr.is_follower"
column_text cr_followed_at = codes "cr.followed_at"
column_text cr_is_subscriber = codes "cr.is_subscriber"
column_text cr_sub_months_cumulative = codes "cr.sub_months_cumulative"
column_text cr_sub_streak_months = codes "cr.sub_streak_months"
column_text cr_sub_is_gift = codes "cr.sub_is_gift"
column_text cr_gifted_subs_given = codes "cr.gifted_subs_given"
column_text cr_is_vip = codes "cr.is_vip"
column_text cr_is_moderator = codes "cr.is_moderator"
column_text cr_kicks_donated = codes "cr.kicks_donated"
column_text cr_chat_messages_30d = codes "cr.chat_messages_30d"
column_text cr_is_og = codes "cr.is_og"
column_text ku_kick_created_at = codes "ku.kick_created_at"
column_text ku_country_code = codes "ku.country_code"
column_text ku_kick_username = codes "ku.kick_username"

expr_text : Expr → Text
unfolding column_text
expr_text (coalesce_false c) = concat (codes "COALESCE(" ∷ column_text c ∷ codes ", false)" ∷ [])
expr_text (coalesce_zero c) = concat (codes "COALESCE(" ∷ column_text c ∷ codes ", 0)" ∷ [])
expr_text (floor_days_since c) =
    concat (codes "FLOOR(EXTRACT(EPOCH FROM (now() - " ∷ column_text c ∷ codes ")) / 86400)" ∷ [])
expr_text (column c) = column_text c

cond_text : CondClause → Text
unfolding expr_text show
cond_text (eq_param e i) = concat (expr_text e ∷ codes " = $" ∷ show i ∷ [])
cond_text (ne_param e i) = concat (expr_text e ∷ codes " <> $" ∷ show i ∷ [])
cond_text (distinct_from_param e i) =
    concat (expr_text e ∷ codes " IS DISTINCT FROM $" ∷ show i ∷ [])
cond_text (gt_param e i) = concat (codes "(" ∷ expr_text e ∷ codes ") > $" ∷ show i ∷ [])
cond_text (gte_param e i) = concat (codes "(" ∷ expr_text e ∷ codes ") >= $" ∷ show i ∷ [])
cond_text (lt_param e i) = concat (codes "(" ∷ expr_text e ∷ codes ") < $" ∷ show i ∷ [])
cond_text (lte_param e i) = concat (codes "(" ∷ expr_text e ∷ codes ") <= $" ∷ show i ∷ [])
cond_text (between_params e i j) = concat (
    codes "(("
    ∷ expr_text e
    ∷ codes ") >= $"
    ∷ show i
    ∷ codes " AND ("
    ∷ expr_text e
    ∷ codes ") <= $"
    ∷ show j
    ∷ codes ")"
    ∷ [])
cond_text (like_param e i) = concat (expr_text e ∷ codes " LIKE $" ∷ show i ∷ [])
cond_text (regex_param e i) = concat (expr_text e ∷ codes " ~ $" ∷ show i ∷ [])
cond_text (eq_any_param e i) =
    concat (expr_text e ∷ codes " = ANY($" ∷ show i ∷ codes "::text[])" ∷ [])
cond_text (not_all_param e i) = concat (
    codes "("
    ∷ expr_text e
    ∷ codes " IS NOT NULL AND "
    ∷ expr_text e
    ∷ codes " <> ALL($"
    ∷ show i
    ∷ codes "::text[]))"
    ∷ [])
cond_text false_clause = codes "FALSE"
cond_text true_clause = codes "TRUE"

group_text : GroupClause → Text
unfolding cond_text join
group_text false_group = codes "FALSE"
group_text (all_of cs) =
    concat (codes "(" ∷ join (codes " AND ") (map cond_text cs) ∷ codes ")" ∷ [])

unfoldable pub rule_text : RuleClause → Text
unfolding group_text join
rule_text true_rule = codes "TRUE"
rule_text false_rule = codes "FALSE"
rule_text (any_of gs) =
    concat (codes "(" ∷ join (codes " OR ") (map group_text gs) ∷ codes ")" ∷ [])
