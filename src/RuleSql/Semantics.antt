-- ===== src/RuleSql/Semantics.antt =====
-- What Postgres makes of a clause: SQL's logic with NULL, and a fault where the two sides of an
-- operator have different types or Postgres refuses a pattern: this fails the whole query. The
-- operator `~` of Postgres' regular expressions is a parameter, with `none` for a refused pattern.
use kick_channel_role.Prelude.{
  ℕ, zero, suc, ◌/◌, Bool, true, false, not, List, [], ◌∷◌, Option, none, some, get_elem?,
  if◌then◌else◌, any,
}
use kick_channel_role.Prelude.Int.{ℤ, pos, negsuc, ◌-ℤ◌, eqb_ℤ, ltb_ℤ, leb_ℤ}
use kick_channel_role.Prelude.Text.{Text, text_eq}
use kick_channel_role.Rule.Facts.{DateTime}
use kick_channel_role.Relation.{JoinedRow, nullable}
use kick_channel_role.Eval.{day_micros, bool_eq}
use kick_channel_role.RuleSql.Like.{like}
use kick_channel_role.RuleSql.{
  Bind, bool_bind, int_bind, text_bind, text_array_bind, Column, cr_is_follower, cr_followed_at,
  cr_is_subscriber, cr_sub_months_cumulative, cr_sub_streak_months, cr_sub_is_gift,
  cr_gifted_subs_given, cr_is_vip, cr_is_moderator, cr_kicks_donated, cr_chat_messages_30d,
  cr_is_og, ku_kick_created_at, ku_country_code, ku_kick_username, Expr, coalesce_false,
  coalesce_zero, floor_days_since, column, CondClause, eq_param, ne_param, distinct_from_param,
  gt_param, gte_param, lt_param, lte_param, between_params, like_param, regex_param, eq_any_param,
  not_all_param, false_clause, true_clause, GroupClause, false_group, all_of, RuleClause, true_rule,
  false_rule, any_of,
}

-- A value of a column type; `none` is NULL.
pub data SqlValue : Type 0 where
  sql_bool : Option Bool → SqlValue
  sql_int : Option ℤ → SqlValue
  sql_text : Option Text → SqlValue
  sql_time : Option DateTime → SqlValue

unfoldable pub column_value : JoinedRow → Column → SqlValue
column_value row cr_is_follower = sql_bool (nullable row.cr (λ r. some r.is_follower))
column_value row cr_followed_at = sql_time (nullable row.cr (λ r. r.followed_at))
column_value row cr_is_subscriber = sql_bool (nullable row.cr (λ r. some r.is_subscriber))
column_value row cr_sub_months_cumulative =
    sql_int (nullable row.cr (λ r. some r.sub_months_cumulative))
column_value row cr_sub_streak_months = sql_int (nullable row.cr (λ r. some r.sub_streak_months))
column_value row cr_sub_is_gift = sql_bool (nullable row.cr (λ r. some r.sub_is_gift))
column_value row cr_gifted_subs_given = sql_int (nullable row.cr (λ r. some r.gifted_subs_given))
column_value row cr_is_vip = sql_bool (nullable row.cr (λ r. some r.is_vip))
column_value row cr_is_moderator = sql_bool (nullable row.cr (λ r. some r.is_moderator))
column_value row cr_kicks_donated = sql_int (nullable row.cr (λ r. some r.kicks_donated))
column_value row cr_chat_messages_30d = sql_int (nullable row.cr (λ r. some r.chat_messages_30d))
column_value row cr_is_og = sql_bool (nullable row.cr (λ r. some r.is_og))
column_value row ku_kick_created_at = sql_time (some row.ku.kick_created_at)
column_value row ku_country_code = sql_text row.ku.country_code
column_value row ku_kick_username = sql_text (some row.ku.kick_username)

-- The whole days in a span of microseconds, rounded down.
unfoldable pub floor_days : ℤ → ℤ
floor_days (pos n) = pos (n / day_micros)
floor_days (negsuc n) = negsuc (n / day_micros)

-- The functions that a target's expression calls; `none` is a type error.
unfoldable pub false_for_null : SqlValue → Option SqlValue
false_for_null (sql_bool none) = some (sql_bool (some false))
false_for_null (sql_bool (some b)) = some (sql_bool (some b))
false_for_null _ = none

unfoldable pub zero_for_null : SqlValue → Option SqlValue
zero_for_null (sql_int none) = some (sql_int (some (pos 0)))
zero_for_null (sql_int (some n)) = some (sql_int (some n))
zero_for_null _ = none

unfoldable pub days_until : DateTime → SqlValue → Option SqlValue
days_until now (sql_time none) = some (sql_int none)
days_until now (sql_time (some t)) = some (sql_int (some (floor_days (now -ℤ t))))
days_until now _ = none

unfoldable pub expr_value : DateTime → JoinedRow → Expr → Option SqlValue
unfolding column_value false_for_null zero_for_null days_until
expr_value now row (coalesce_false c) = false_for_null (column_value row c)
expr_value now row (coalesce_zero c) = zero_for_null (column_value row c)
expr_value now row (floor_days_since c) = days_until now (column_value row c)
expr_value now row (column c) = some (column_value row c)

pub data Truth : Type 0 where
  truth falsity unknown fault : Truth

abbrev pub of_bool : Bool → Truth
of_bool true = truth
of_bool false = falsity

abbrev pub of_answer : Option Bool → Truth
of_answer none = fault
of_answer (some b) = of_bool b

abbrev pub and_truth : Truth → Truth → Truth
and_truth fault _ = fault
and_truth _ fault = fault
and_truth falsity _ = falsity
and_truth _ falsity = falsity
and_truth unknown _ = unknown
and_truth truth b = b

abbrev pub or_truth : Truth → Truth → Truth
or_truth fault _ = fault
or_truth _ fault = fault
or_truth truth _ = truth
or_truth _ truth = truth
or_truth unknown _ = unknown
or_truth falsity b = b

-- A test of a value that may be NULL.
abbrev pub known {ℓ} : {A : Type ℓ} → Option A → (A → Bool) → Truth
known none test = unknown
known (some a) test = of_bool (test a)

-- `e = $i`, and with `negate` set `e <> $i`.
equality : Bool → SqlValue → Bind → Truth
equality negate (sql_bool x) (bool_bind b) =
    known x (λ a. if negate then not (bool_eq a b) else bool_eq a b)
equality negate (sql_int x) (int_bind n) =
    known x (λ a. if negate then not (eqb_ℤ a n) else eqb_ℤ a n)
equality negate (sql_text x) (text_bind t) =
    known x (λ a. if negate then not (text_eq a t) else text_eq a t)
equality negate _ _ = fault

-- `e IS DISTINCT FROM $i`, of texts: NULL is distinct from every text.
distinct : SqlValue → Bind → Truth
distinct (sql_text none) (text_bind t) = truth
distinct (sql_text (some a)) (text_bind t) = of_bool (not (text_eq a t))
distinct _ _ = fault

-- The orders `>`, `>=`, `<` and `<=`, of integers.
order : (ℤ → ℤ → Bool) → SqlValue → Bind → Truth
order holds (sql_int x) (int_bind n) = known x (λ a. holds a n)
order holds _ _ = fault

-- `LIKE`.
matches : (Text → Text → Bool) → SqlValue → Bind → Truth
matches holds (sql_text x) (text_bind p) = known x (λ a. holds p a)
matches holds _ _ = fault

-- `e ~ $i`.
matches_regex : (Text → Text → Option Bool) → SqlValue → Bind → Truth
matches_regex tilde (sql_text none) (text_bind p) = unknown
matches_regex tilde (sql_text (some a)) (text_bind p) = of_answer (tilde p a)
matches_regex tilde _ _ = fault

-- `e = ANY($i)`.
equals_any : SqlValue → Bind → Truth
equals_any (sql_text x) (text_array_bind arr) = known x (λ a. any (λ t. text_eq t a) arr)
equals_any _ _ = fault

-- `e IS NOT NULL AND e <> ALL($i)`.
not_null_nor_any : SqlValue → Bind → Truth
not_null_nor_any (sql_text none) (text_array_bind arr) = falsity
not_null_nor_any (sql_text (some a)) (text_array_bind arr) =
    of_bool (not (any (λ t. text_eq t a) arr))
not_null_nor_any _ _ = fault

-- The value of placeholder `$i`: parameters count from 1.
unfoldable pub param : List Bind → ℕ → Option Bind
param params zero = none
param params (suc i) = get_elem? params i

-- An operator at two operands, either of which may be refused.
apply_op : (SqlValue → Bind → Truth) → Option SqlValue → Option Bind → Truth
apply_op op (some v) (some b) = op v b
apply_op op _ _ = fault

module _ (tilde : Text → Text → Option Bool) (params : List Bind) where
  module _ (now : DateTime) (row : JoinedRow) where
    operator_truth : (SqlValue → Bind → Truth) → Expr → ℕ → Truth
    operator_truth op e i = apply_op op (expr_value now row e) (param params i)

    unfoldable pub cond_truth : CondClause → Truth
    unfolding operator_truth apply_op equality distinct order matches matches_regex equals_any
        not_null_nor_any
    cond_truth (eq_param e i) = operator_truth (equality false) e i
    cond_truth (ne_param e i) = operator_truth (equality true) e i
    cond_truth (distinct_from_param e i) = operator_truth distinct e i
    cond_truth (gt_param e i) = operator_truth (order (λ a n. ltb_ℤ n a)) e i
    cond_truth (gte_param e i) = operator_truth (order (λ a n. leb_ℤ n a)) e i
    cond_truth (lt_param e i) = operator_truth (order (λ a n. ltb_ℤ a n)) e i
    cond_truth (lte_param e i) = operator_truth (order (λ a n. leb_ℤ a n)) e i
    cond_truth (between_params e i j) =
        and_truth (operator_truth (order (λ a n. leb_ℤ n a)) e i)
          (operator_truth (order (λ a n. leb_ℤ a n)) e j)
    cond_truth (like_param e i) = operator_truth (matches like) e i
    cond_truth (regex_param e i) = operator_truth (matches_regex tilde) e i
    cond_truth (eq_any_param e i) = operator_truth equals_any e i
    cond_truth (not_all_param e i) = operator_truth not_null_nor_any e i
    cond_truth false_clause = falsity
    cond_truth true_clause = truth

    unfoldable pub all_truth : List CondClause → Truth
    all_truth [] = truth
    all_truth (c ∷ cs) = and_truth (cond_truth c) (all_truth cs)

    unfoldable pub group_truth : GroupClause → Truth
    group_truth false_group = falsity
    group_truth (all_of cs) = all_truth cs

    unfoldable pub any_truth : List GroupClause → Truth
    any_truth [] = falsity
    any_truth (g ∷ gs) = or_truth (group_truth g) (any_truth gs)

    unfoldable pub rule_truth : RuleClause → Truth
    rule_truth true_rule = truth
    rule_truth false_rule = falsity
    rule_truth (any_of gs) = any_truth gs

-- Whether WHERE keeps the row; none if the query fails.
abbrev pub selected : Truth → Option Bool
selected truth = some true
selected falsity = some false
selected unknown = some false
selected fault = none
