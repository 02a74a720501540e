-- ===== src/RuleSql/Equivalence.antt =====
-- The bulk query and the Rust evaluator decide alike.
use kick_channel_role.Prelude.{
  ℕ, Bool, true, false, not, ◌&&◌, ◌||◌, ◌≡◌, refl, List, [], ◌∷◌, Option, none, some, arith,
  is_empty, any, all, All,
}
use mathlib.Core.Path.{subst}
use kick_channel_role.Prelude.Int.{ℤ, pos, ◌-ℤ◌, ◌≤ℤ◌}
use kick_channel_role.Prelude.Text.{Text}
use kick_channel_role.Json.{Value}
use kick_channel_role.Rule.Condition.{
  ConditionTarget, is_follower, follow_age_days, is_subscriber, sub_months_cumulative,
  sub_streak_months, is_gift_recipient, gifted_subs_given, is_vip, is_moderator,
  kicks_donated_to_channel, chat_messages_30d, is_og, account_age_days, country_code, username,
  kind, ConditionOperator, valid_for, Condition,
}
use kick_channel_role.Rule.Tree.{ConditionGroup, RuleTree}
use kick_channel_role.Rule.Facts.{DateTime}
use kick_channel_role.Rule.WellTyped.{ValueFits, EndFits, IsWellTyped}
use kick_channel_role.Relation.{Relation, JoinedRow, coalesce, nullable, facts_of}
use kick_channel_role.Eval.{Regex, num_days, days_since, evaluate_single, evaluate}
use kick_channel_role.RuleSql.{
  Bind, target_expr, build_operator, build_condition, build_conditions, build_group, build_groups,
  build_rule_where,
}
use kick_channel_role.RuleSql.Semantics.{
  sql_bool, sql_int, sql_time, false_for_null, zero_for_null, days_until, floor_days, expr_value,
  Truth, and_truth, or_truth, cond_truth, all_truth, group_truth, any_truth, rule_truth, selected,
}
use kick_channel_role.RuleSql.Binds.{
  Supplies, Supplies-Grows, build_conditions-Grows, build_groups-Grows,
}
use kick_channel_role.RuleSql.Conditions.{IsPortable, bool_agrees, int_agrees, string_agrees}

false_for_null-nullable :
    (cr : Option Relation) (f : Relation → Bool)
    → false_for_null (sql_bool (nullable cr (λ r. some (f r))))
      ≡ some (sql_bool (some (coalesce cr f false)))
unfolding false_for_null
false_for_null-nullable none f = refl
false_for_null-nullable (some r) f = refl

zero_for_null-nullable :
    (cr : Option Relation) (f : Relation → ℤ)
    → zero_for_null (sql_int (nullable cr (λ r. some (f r))))
      ≡ some (sql_int (some (coalesce cr f (pos 0))))
unfolding zero_for_null
zero_for_null-nullable none f = refl
zero_for_null-nullable (some r) f = refl

-- Of a moment that is not in the future Rust and Postgres count the same days.
pub floor_days-eq-num_days :
    (now t : DateTime) → t ≤ℤ now → floor_days (now -ℤ t) ≡ num_days (now -ℤ t)
unfolding ◌-ℤ◌ floor_days num_days
floor_days-eq-num_days now t h = ground arith

days_until-days_since :
    (now : DateTime) (x : Option DateTime)
    → ((t : DateTime) → x ≡ some t → t ≤ℤ now)
    → days_until now (sql_time x) ≡ some (sql_int (days_since now x))
unfolding days_until days_since
days_until-days_since now none h = refl
days_until-days_since now (some t) h = rw (floor_days-eq-num_days now t (h t refl))

-- No moment that the row stores lies in the future.
pub record IsPast (now : DateTime) (row : JoinedRow) : Type 0 where
  pub followed : (t : DateTime) → nullable row.cr (λ r. r.followed_at) ≡ some t → t ≤ℤ now
  pub created : row.ku.kick_created_at ≤ℤ now

created_past :
    {now : DateTime} {row : JoinedRow}
    → IsPast now row
    → (t : DateTime) → some row.ku.kick_created_at ≡ some t
    → t ≤ℤ now
created_past {now} {row} past t e =
    let same : row.ku.kick_created_at ≡ t = cc e in subst (λ x. x ≤ℤ now) same past.created

selected-and :
    (a b : Truth) (x y : Bool)
    → selected a ≡ some x
    → selected b ≡ some y
    → selected (and_truth a b) ≡ some (x && y)
selected-and a b x y p q = ground arith

selected-or :
    (a b : Truth) (x y : Bool)
    → selected a ≡ some x
    → selected b ≡ some y
    → selected (or_truth a b) ≡ some (x || y)
selected-or a b x y p q = ground arith

module _ (re : Regex) (tilde : Text → Text → Option Bool) (params : List Bind) (now : DateTime)
    (row : JoinedRow) (past : IsPast now row) (o : ℕ) where
  -- A condition given by its parts, for a case split on the target.
  condition_agrees :
      (t : ConditionTarget) (op : ConditionOperator) (v : Value) (end : Option Value)
      (bs : List Bind)
      → valid_for op (kind t) ≡ true
      → ValueFits (kind t) op v
      → EndFits op end
      → IsPortable re tilde (record { target = t; operator = op; value = v; value_end = end })
      → Supplies o params
          (build_operator o bs op
            (target_expr t)
            (record { target = t; operator = op; value = v; value_end = end })).1
      → selected (
          cond_truth tilde params now row
            (build_operator o bs op
              (target_expr t)
              (record { target = t; operator = op; value = v; value_end = end })).0)
        ≡ some (
            evaluate_single re now
              (record { target = t; operator = op; value = v; value_end = end })
              (facts_of row))
  unfolding kind target_expr evaluate_single facts_of expr_value
  condition_agrees is_follower op v end bs valid fits fits_end portable h =
      bool_agrees tilde params now row o bs _ is_follower op v end _ valid fits
        (false_for_null-nullable row.cr (λ r. r.is_follower)) h
  condition_agrees is_subscriber op v end bs valid fits fits_end portable h =
      bool_agrees tilde params now row o bs _ is_subscriber op v end _ valid fits
        (false_for_null-nullable row.cr (λ r. r.is_subscriber)) h
  condition_agrees is_gift_recipient op v end bs valid fits fits_end portable h =
      bool_agrees tilde params now row o bs _ is_gift_recipient op v end _ valid fits
        (false_for_null-nullable row.cr (λ r. r.sub_is_gift)) h
  condition_agrees is_vip op v end bs valid fits fits_end portable h =
      bool_agrees tilde params now row o bs _ is_vip op v end _ valid fits
        (false_for_null-nullable row.cr (λ r. r.is_vip)) h
  condition_agrees is_moderator op v end bs valid fits fits_end portable h =
      bool_agrees tilde params now row o bs _ is_moderator op v end _ valid fits
        (false_for_null-nullable row.cr (λ r. r.is_moderator)) h
  condition_agrees is_og op v end bs valid fits fits_end portable h =
      bool_agrees tilde params now row o bs _ is_og op v end _ valid fits
        (false_for_null-nullable row.cr (λ r. r.is_og)) h
  condition_agrees sub_months_cumulative op v end bs valid fits fits_end portable h =
      int_agrees tilde params now row o bs _ sub_months_cumulative op v end _ valid fits fits_end
        (zero_for_null-nullable row.cr (λ r. r.sub_months_cumulative)) h
  condition_agrees sub_streak_months op v end bs valid fits fits_end portable h =
      int_agrees tilde params now row o bs _ sub_streak_months op v end _ valid fits fits_end
        (zero_for_null-nullable row.cr (λ r. r.sub_streak_months)) h
  condition_agrees gifted_subs_given op v end bs valid fits fits_end portable h =
      int_agrees tilde params now row o bs _ gifted_subs_given op v end _ valid fits fits_end
        (zero_for_null-nullable row.cr (λ r. r.gifted_subs_given)) h
  condition_agrees kicks_donated_to_channel op v end bs valid fits fits_end portable h =
      int_agrees tilde params now row o bs _ kicks_donated_to_channel op v end _ valid fits fits_end
        (zero_for_null-nullable row.cr (λ r. r.kicks_donated)) h
  condition_agrees chat_messages_30d op v end bs valid fits fits_end portable h =
      int_agrees tilde params now row o bs _ chat_messages_30d op v end _ valid fits fits_end
        (zero_for_null-nullable row.cr (λ r. r.chat_messages_30d)) h
  condition_agrees follow_age_days op v end bs valid fits fits_end portable h =
      int_agrees tilde params now row o bs _ follow_age_days op v end _ valid fits fits_end
        (days_until-days_since now _ past.followed) h
  condition_agrees account_age_days op v end bs valid fits fits_end portable h =
      int_agrees tilde params now row o bs _ account_age_days op v end _ valid fits fits_end
        (days_until-days_since now _ (created_past past)) h
  condition_agrees country_code op v end bs valid fits fits_end portable h =
      string_agrees tilde params now row o bs _ re country_code op v end _ valid fits portable refl
        h
  condition_agrees username op v end bs valid fits fits_end portable h =
      string_agrees tilde params now row o bs _ re username op v end _ valid fits portable refl h

  abbrev Portable : Condition → Type 0
  Portable c = IsWellTyped c × IsPortable re tilde c

  conditions_agree :
      (cs : List Condition) (bs : List Bind)
      → All Portable cs
      → Supplies o params (build_conditions cs o bs).1
      → selected (all_truth tilde params now row (build_conditions cs o bs).0)
        ≡ some (all (λ c. evaluate_single re now c (facts_of row)) cs)
  unfolding build_conditions all_truth build_condition
  conditions_agree [] bs p h = refl
  conditions_agree (c ∷ cs) bs ((typed, portable), p) h =
      let bs' = (build_condition c o bs).1 in
      selected-and _ _ _ _
        (condition_agrees c.target c.operator c.value c.value_end bs typed.valid typed.value_fits
          typed.end_fits portable
          (Supplies-Grows o params bs' _ (build_conditions-Grows o bs' cs) h))
        (conditions_agree cs bs' p h)

  group_agrees :
      (g : ConditionGroup) (bs : List Bind)
      → All Portable g.conditions
      → Supplies o params (build_group g o bs).1
      → selected (group_truth tilde params now row (build_group g o bs).0)
        ≡ some (
            not (is_empty g.conditions)
            && all (λ c. evaluate_single re now c (facts_of row)) g.conditions)
  unfolding build_group group_truth
  group_agrees g bs p h = by_conditions g.conditions p h
    where
      by_conditions :
          (cs : List Condition)
          → All Portable cs
          → Supplies o params (build_group (record { conditions = cs }) o bs).1
          → selected
              (group_truth tilde params now row (build_group (record { conditions = cs }) o bs).0)
            ≡ some (not (is_empty cs) && all (λ c. evaluate_single re now c (facts_of row)) cs)
      by_conditions [] p h = refl
      by_conditions (c ∷ cs) p h = conditions_agree (c ∷ cs) bs p h

  groups_agree :
      (gs : List ConditionGroup) (bs : List Bind)
      → All (λ (g : ConditionGroup). All Portable g.conditions) gs
      → Supplies o params (build_groups gs o bs).1
      → selected (any_truth tilde params now row (build_groups gs o bs).0)
        ≡ some (
            any
              (λ (g : ConditionGroup).
                not (is_empty g.conditions)
                && all (λ c. evaluate_single re now c (facts_of row)) g.conditions)
              gs)
  unfolding build_groups any_truth
  groups_agree [] bs p h = refl
  groups_agree (g ∷ gs) bs (p, q) h =
      let bs' = (build_group g o bs).1 in
      selected-or _ _ _ _
        (group_agrees g bs p (Supplies-Grows o params bs' _ (build_groups-Grows o bs' gs) h))
        (groups_agree gs bs' q h)

  -- The query never fails on a type error, and keeps the row exactly when the evaluator grants the
  -- role on the row's facts: for a tree of well-typed conditions, where the parameters from
  -- `bind_offset` on are the returned binds, the stored moments are past, the regular expression
  -- engines agree on the tree's patterns, and every `not_in` list holds a text.
  pub rule_agrees :
      (tree : RuleTree)
      → All (λ (g : ConditionGroup). All Portable g.conditions) tree.groups
      → Supplies o params (build_rule_where tree o).1
      → selected (rule_truth tilde params now row (build_rule_where tree o).0)
        ≡ some (evaluate re now tree (facts_of row))
  unfolding build_rule_where rule_truth evaluate
  rule_agrees tree p h = by_shape tree.grant_on_any_relation tree.groups p h
    where
      by_shape :
          (grant : Bool) (gs : List ConditionGroup)
          → All (λ (g : ConditionGroup). All Portable g.conditions) gs
          → Supplies o params
              (build_rule_where (record { grant_on_any_relation = grant; groups = gs }) o).1
          → selected (
              rule_truth tilde params now row
                (build_rule_where (record { grant_on_any_relation = grant; groups = gs }) o).0)
            ≡ some (
                evaluate re now
                  (record { grant_on_any_relation = grant; groups = gs })
                  (facts_of row))
      by_shape true gs p h = refl
      by_shape false [] p h = refl
      by_shape false (g ∷ gs) p h = groups_agree (g ∷ gs) [] p h
