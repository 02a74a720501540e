-- ===== src/RuleSql/Binds.antt =====
-- The binds of a clause: each step of the builder appends to those it was given.
use kick_channel_role.Prelude.{
  get_elem?, get_elem?-append_left, ℕ, ◌+◌, Bool, ◌≡◌, refl, sym, List, [], ◌∷◌, ◌++◌, Option, none,
  some, append-nil, append_assoc,
}
use kick_channel_role.Prelude.Int.{ℤ}
use kick_channel_role.Prelude.Text.{Text}
use kick_channel_role.Json.{as_bool, as_i64, as_str}
use kick_channel_role.Rule.Condition.{
  ConditionOperator, eq, neq, gt, between, in_list, not_in, Condition,
}
use kick_channel_role.Rule.Tree.{ConditionGroup}
use kick_channel_role.RuleSql.{
  Bind, Expr, target_expr, push_eq, push_neq, push_list, build_operator, build_condition,
  build_conditions, build_group, build_groups, str_array, CondClause, false_clause, true_clause,
  eq_any_param, not_all_param,
}

-- The parameters of the query hold the binds, behind the first `bind_offset`.
abbrev pub Supplies : ℕ → List Bind → List Bind → Type 0
Supplies bind_offset params binds =
    (i : ℕ) (b : Bind) → get_elem? binds i ≡ some b → get_elem? params (bind_offset + i) ≡ some b

pub Supplies-prefix :
    (bind_offset : ℕ) (params binds more : List Bind)
    → Supplies bind_offset params (binds ++ more)
    → Supplies bind_offset params binds
Supplies-prefix o ps bs more h = λ i b e. h i b (get_elem?-append_left bs more i e)

-- The binds that a step of the builder returns begin with those it was given.
abbrev pub Grows : List Bind → List Bind → Type 0
Grows bs bs' = (new : List Bind) × (bs' ≡ bs ++ new)

module _ (o : ℕ) (bs : List Bind) where
  push_eq-Grows :
      (e : Expr) (b : Option Bool) (n : Option ℤ) (s : Option Text)
      → Grows bs (push_eq o bs e b n s).1
  unfolding push_eq
  push_eq-Grows e (some b) n s = (_, refl)
  push_eq-Grows e none (some n) s = (_, refl)
  push_eq-Grows e none none s = (_, refl)

  push_neq-Grows : (e : Expr) (n : Option ℤ) (s : Option Text) → Grows bs (push_neq o bs e n s).1
  unfolding push_neq
  push_neq-Grows e (some n) s = (_, refl)
  push_neq-Grows e none s = (_, refl)

  push_list-Grows :
      (empty : CondClause) (clause : ℕ → CondClause) (arr : List Text)
      → Grows bs (push_list o bs empty clause arr).1
  unfolding push_list
  push_list-Grows empty clause [] = ([], sym (append-nil bs))
  push_list-Grows empty clause (t ∷ arr) = (_, refl)

  build_operator-Grows :
      (op : ConditionOperator) (e : Expr) (c : Condition) → Grows bs (build_operator o bs op e c).1
  unfolding build_operator
  build_operator-Grows eq e c = push_eq-Grows e (as_bool c.value) (as_i64 c.value) (as_str c.value)
  build_operator-Grows neq e c = push_neq-Grows e (as_i64 c.value) (as_str c.value)
  build_operator-Grows between e c = (_, append_assoc bs _ _)
  build_operator-Grows in_list e c = push_list-Grows false_clause (eq_any_param e) (str_array c)
  build_operator-Grows not_in e c = push_list-Grows true_clause (not_all_param e) (str_array c)
  build_operator-Grows gt e c = (_, refl)
  build_operator-Grows _ e c = (_, refl)

pub build_condition-Grows :
    (o : ℕ) (bs : List Bind) (c : Condition) → Grows bs (build_condition c o bs).1
unfolding build_condition
build_condition-Grows o bs c = build_operator-Grows o bs c.operator (target_expr c.target) c

Grows-trans : (xs ys zs : List Bind) → Grows xs ys → Grows ys zs → Grows xs zs
Grows-trans xs ys zs (x, p) (y, q) = (x ++ y, cc (p, q, append_assoc xs x y))

pub build_conditions-Grows :
    (o : ℕ) (bs : List Bind) (cs : List Condition) → Grows bs (build_conditions cs o bs).1
unfolding build_conditions
build_conditions-Grows o bs [] = ([], sym (append-nil bs))
build_conditions-Grows o bs (c ∷ cs) =
    Grows-trans bs (build_condition c o bs).1 _ (build_condition-Grows o bs c)
      (build_conditions-Grows o (build_condition c o bs).1 cs)

pub build_group-Grows :
    (o : ℕ) (bs : List Bind) (g : ConditionGroup) → Grows bs (build_group g o bs).1
unfolding build_group
build_group-Grows o bs g = by_conditions g.conditions
  where
    by_conditions :
        (cs : List Condition) → Grows bs (build_group (record { conditions = cs }) o bs).1
    by_conditions [] = ([], sym (append-nil bs))
    by_conditions (c ∷ cs) = build_conditions-Grows o bs (c ∷ cs)

pub build_groups-Grows :
    (o : ℕ) (bs : List Bind) (gs : List ConditionGroup) → Grows bs (build_groups gs o bs).1
unfolding build_groups
build_groups-Grows o bs [] = ([], sym (append-nil bs))
build_groups-Grows o bs (g ∷ gs) =
    Grows-trans bs (build_group g o bs).1 _ (build_group-Grows o bs g)
      (build_groups-Grows o (build_group g o bs).1 gs)

-- What supplies the binds of later steps supplies those of earlier ones.
pub Supplies-Grows :
    (o : ℕ) (params bs bs' : List Bind)
    → Grows bs bs'
    → Supplies o params bs'
    → Supplies o params bs
Supplies-Grows o params bs bs' (new, e) h = Supplies-prefix o params bs new (rw e at h)
