-- ===== src/RuleSql.antt =====
-- src/services/rule_sql.rs: the SQL WHERE clause of a rule tree. A clause is the syntax tree of the
-- text that the source formats, and `RuleSql.Render` prints it as the source does.
pub mod Like
pub mod Render
pub mod Semantics
pub mod Binds
pub mod Conditions
pub mod Equivalence
pub mod Saved
pub mod Divergence
use kick_channel_role.Prelude.{
  ℕ, ◌+◌, Bool, List, [], ◌∷◌, ◌++◌, Option, none, some, length, is_empty, if◌then◌else◌, and_then,
  unwrap_or, ◌==◌,
}
use kick_channel_role.Prelude.Int.{ℤ, pos}
use kick_channel_role.Prelude.Text.{Text, codes}
use kick_channel_role.Json.{Value, as_bool, as_i64, as_str, as_array}
use kick_channel_role.Rule.Condition.{
  ConditionTarget, is_follower, follow_age_days, is_subscriber, sub_months_cumulative,
  sub_streak_months, is_gift_recipient, gifted_subs_given, is_vip, is_moderator,
  kicks_donated_to_channel, chat_messages_30d, is_og, account_age_days, country_code, username,
  ConditionOperator, eq, neq, gt, gte, lt, lte, between, contains, regex, in_list, not_in,
  Condition,
}
use kick_channel_role.Rule.Tree.{ConditionGroup, RuleTree}

pub data Bind : Type 0 where
  bool_bind : Bool → Bind
  int_bind : ℤ → Bind
  text_bind : Text → Bind
  text_array_bind : List Text → Bind

-- The columns that a clause may name, by their alias and name.
pub data Column : Type 0 where
  cr_is_follower cr_followed_at cr_is_subscriber cr_sub_months_cumulative : Column
  cr_sub_streak_months cr_sub_is_gift cr_gifted_subs_given cr_is_vip : Column
  cr_is_moderator cr_kicks_donated cr_chat_messages_30d cr_is_og : Column
  ku_kick_created_at ku_country_code ku_kick_username : Column

-- `COALESCE(c, false)`, `COALESCE(c, 0)`,
-- `FLOOR(EXTRACT(EPOCH FROM (now() - c)) / 86400)`, and a column itself.
pub data Expr : Type 0 where
  coalesce_false coalesce_zero floor_days_since column : Column → Expr

unfoldable pub target_expr : ConditionTarget → Expr
target_expr is_follower = coalesce_false cr_is_follower
target_expr follow_age_days = floor_days_since cr_followed_at
target_expr is_subscriber = coalesce_false cr_is_subscriber
target_expr sub_months_cumulative = coalesce_zero cr_sub_months_cumulative
target_expr sub_streak_months = coalesce_zero cr_sub_streak_months
target_expr is_gift_recipient = coalesce_false cr_sub_is_gift
target_expr gifted_subs_given = coalesce_zero cr_gifted_subs_given
target_expr is_vip = coalesce_false cr_is_vip
target_expr is_moderator = coalesce_false cr_is_moderator
target_expr kicks_donated_to_channel = coalesce_zero cr_kicks_donated
target_expr chat_messages_30d = coalesce_zero cr_chat_messages_30d
target_expr is_og = coalesce_false cr_is_og
target_expr account_age_days = floor_days_since ku_kick_created_at
target_expr country_code = column ku_country_code
target_expr username = column ku_kick_username

-- What `build_condition` formats; a number is a placeholder `$i`.
pub data CondClause : Type 0 where
  eq_param ne_param distinct_from_param : Expr → ℕ → CondClause
  gt_param gte_param lt_param lte_param : Expr → ℕ → CondClause
  between_params : Expr → ℕ → ℕ → CondClause
  like_param regex_param eq_any_param not_all_param : Expr → ℕ → CondClause
  false_clause true_clause : CondClause

-- `s.replace(c, r)`, for a character `c`.
unfoldable pub replace_char : ℕ → Text → Text → Text
replace_char c r [] = []
replace_char c r (x ∷ s) = (if x == c then r else x ∷ []) ++ replace_char c r s

unfoldable pub escape_like : Text → Text
unfolding replace_char
escape_like s =
    replace_char 95 (92 ∷ 95 ∷ [])
      (replace_char 37 (92 ∷ 37 ∷ []) (replace_char 92 (92 ∷ 92 ∷ []) s))

-- The texts among the elements of a list.
unfoldable pub texts : List Value → List Text
texts [] = []
texts (v ∷ vs) = elim (as_str v) [ none ↦ texts vs | some s ↦ s ∷ texts vs ]

unfoldable pub str_array : Condition → List Text
unfolding texts
str_array c = elim (as_array c.value) [ none ↦ [] | some a ↦ texts a ]

module _ (bind_offset : ℕ) (binds : List Bind) where
  unfoldable pub next : ℕ
  next = bind_offset + length binds + 1

  -- A clause on the next placeholder, and that placeholder's value.
  unfoldable pub push : (ℕ → CondClause) → Bind → CondClause × List Bind
  unfolding next
  push clause b = (clause next, binds ++ b ∷ [])

  -- The `if let` chains of `Eq` and `Neq`, on the value as a boolean, an integer and a text.
  unfoldable pub push_eq : Expr → Option Bool → Option ℤ → Option Text → CondClause × List Bind
  unfolding push
  push_eq expr (some b) n s = push (eq_param expr) (bool_bind b)
  push_eq expr none (some n) s = push (eq_param expr) (int_bind n)
  push_eq expr none none s = push (eq_param expr) (text_bind (unwrap_or s []))

  unfoldable pub push_neq : Expr → Option ℤ → Option Text → CondClause × List Bind
  unfolding push
  push_neq expr (some n) s = push (ne_param expr) (int_bind n)
  push_neq expr none s = push (distinct_from_param expr) (text_bind (unwrap_or s []))

  -- `In` and `NotIn`: a fixed clause for an empty list.
  unfoldable pub push_list : CondClause → (ℕ → CondClause) → List Text → CondClause × List Bind
  unfolding push
  push_list empty clause [] = (empty, binds)
  push_list empty clause (t ∷ arr) = push clause (text_array_bind (t ∷ arr))

  -- The `match` on the operator.
  unfoldable pub build_operator : ConditionOperator → Expr → Condition → CondClause × List Bind
  unfolding push push_eq push_neq push_list
  build_operator eq expr c = push_eq expr (as_bool c.value) (as_i64 c.value) (as_str c.value)
  build_operator neq expr c = push_neq expr (as_i64 c.value) (as_str c.value)
  build_operator gt expr c = push (gt_param expr) (int_bind (unwrap_or (as_i64 c.value) (pos 0)))
  build_operator gte expr c = push (gte_param expr) (int_bind (unwrap_or (as_i64 c.value) (pos 0)))
  build_operator lt expr c = push (lt_param expr) (int_bind (unwrap_or (as_i64 c.value) (pos 0)))
  build_operator lte expr c = push (lte_param expr) (int_bind (unwrap_or (as_i64 c.value) (pos 0)))
  build_operator between expr c =
      let lo = unwrap_or (as_i64 c.value) (pos 0) in
      let hi = unwrap_or (and_then c.value_end as_i64) lo in
      (between_params expr next (next + 1), (binds ++ int_bind lo ∷ []) ++ int_bind hi ∷ [])
  build_operator contains expr c =
      let v = unwrap_or (as_str c.value) [] in
      push (like_param expr) (text_bind (37 ∷ (escape_like v ++ 37 ∷ [])))
  build_operator regex expr c = push (regex_param expr) (text_bind (unwrap_or (as_str c.value) []))
  build_operator in_list expr c = push_list false_clause (eq_any_param expr) (str_array c)
  build_operator not_in expr c = push_list true_clause (not_all_param expr) (str_array c)

unfoldable pub build_condition : Condition → ℕ → List Bind → CondClause × List Bind
unfolding build_operator target_expr
build_condition c bind_offset binds =
    build_operator bind_offset binds c.operator (target_expr c.target) c

-- `FALSE`, or `(c₁ AND … AND cₙ)`.
pub data GroupClause : Type 0 where
  false_group : GroupClause
  all_of : List CondClause → GroupClause

-- `TRUE`, `FALSE`, or `(g₁ OR … OR gₙ)`.
pub data RuleClause : Type 0 where
  true_rule false_rule : RuleClause
  any_of : List GroupClause → RuleClause

-- The loop over the conditions of a group.
unfoldable pub build_conditions : List Condition → ℕ → List Bind → List CondClause × List Bind
build_conditions [] bind_offset binds = ([], binds)
build_conditions (c ∷ cs) bind_offset binds =
    let (clause, binds') = build_condition c bind_offset binds in
    let (clauses, binds'') = build_conditions cs bind_offset binds' in (clause ∷ clauses, binds'')

unfoldable pub build_group : ConditionGroup → ℕ → List Bind → GroupClause × List Bind
unfolding build_conditions
build_group group bind_offset binds =
    if is_empty group.conditions
    then (false_group, binds)
    else (let (clauses, binds') = build_conditions group.conditions bind_offset binds in
        (all_of clauses, binds'))

-- The loop over the groups.
unfoldable pub build_groups : List ConditionGroup → ℕ → List Bind → List GroupClause × List Bind
unfolding build_group
build_groups [] bind_offset binds = ([], binds)
build_groups (g ∷ gs) bind_offset binds =
    let (clause, binds') = build_group g bind_offset binds in
    let (clauses, binds'') = build_groups gs bind_offset binds' in (clause ∷ clauses, binds'')

unfoldable pub build_rule_where : RuleTree → ℕ → RuleClause × List Bind
unfolding build_groups build_group build_conditions
build_rule_where tree bind_offset =
    if tree.grant_on_any_relation
    then (true_rule, [])
    else if is_empty tree.groups
    then (false_rule, [])
    else (let (clauses, binds) = build_groups tree.groups bind_offset [] in (any_of clauses, binds))
