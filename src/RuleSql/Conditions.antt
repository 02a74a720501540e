-- ===== src/RuleSql/Conditions.antt =====
-- The clause of one condition keeps a row exactly when the Rust evaluator accepts its facts.
use kick_channel_role.Prelude.{
  if◌then◌else◌, ℕ, suc, ◌+◌, Bool, true, false, ◌≡◌, ◌≢◌, refl, List, [], ◌∷◌, ◌++◌, Option, none,
  some, length, get_elem?, length-append, arith, any,
}
use kick_channel_role.Prelude.Int.{ℤ, in_i64}
use kick_channel_role.Prelude.Text.{Text, text_eq}
use kick_channel_role.Json.{
  Value, boolean, number, string, array, integer, to_list, as_bool, as_i64, as_str, as_array,
}
use kick_channel_role.Rule.Condition.{
  TargetKind, ConditionTarget, bool, int, ConditionOperator, eq, neq, gt, gte, lt, lte, between,
  contains, regex, in_list, not_in, valid_for, Condition,
}
use kick_channel_role.Rule.Facts.{DateTime}
use kick_channel_role.Rule.WellTyped.{ValueFits, EndFits}
use kick_channel_role.Relation.{JoinedRow}
use kick_channel_role.Eval.{
  Regex, bool_eq, test, bool_match, int_match, string_match, list_contains,
}
use kick_channel_role.RuleSql.{
  Bind, bool_bind, int_bind, text_bind, text_array_bind, Expr, build_operator, texts, str_array,
}
use kick_channel_role.RuleSql.Binds.{Supplies, Supplies-prefix}
use kick_channel_role.RuleSql.Like.{like-escape_like}
use kick_channel_role.RuleSql.Semantics.{
  sql_bool, sql_int, sql_text, expr_value, of_bool, known, param, cond_truth, selected,
}

get_last : (bs : List Bind) (b : Bind) → get_elem? (bs ++ b ∷ []) (length bs) ≡ some b
get_last [] b = refl
get_last (x ∷ bs) b = get_last bs b

-- The placeholder of a bind that has just been pushed stands for it.
pub param-next :
    (bind_offset : ℕ) (params binds : List Bind) (b : Bind)
    → Supplies bind_offset params (binds ++ b ∷ [])
    → param params (bind_offset + length binds + 1) ≡ some b
unfolding param
param-next o ps bs b h =
    let e : o + length bs + 1 ≡ suc (o + length bs) = omega arith in
    rw e (h (length bs) b (get_last bs b))

-- The same for the second of two binds.
param-next_second :
    (bind_offset : ℕ) (params binds : List Bind) (b d : Bind)
    → Supplies bind_offset params ((binds ++ b ∷ []) ++ d ∷ [])
    → param params (bind_offset + length binds + 1 + 1) ≡ some d
param-next_second o ps bs b d h =
    let e : o + length bs + 1 ≡ o + length (bs ++ b ∷ []) =
      omega (arith, length-append bs (b ∷ [])) in
    rw e (param-next o ps (bs ++ b ∷ []) d h)

selected-of_bool : (b : Bool) → selected (of_bool b) ≡ some b
selected-of_bool true = refl
selected-of_bool false = refl

as_i64-number : (n : ℤ) → in_i64 n ≡ true → as_i64 (number (integer n)) ≡ some n
unfolding as_i64
as_i64-number n h = rw h

selected-bool_eq : (b x : Bool) → selected (of_bool (bool_eq x b)) ≡ some (bool_eq b x)
selected-bool_eq true true = refl
selected-bool_eq true false = refl
selected-bool_eq false true = refl
selected-bool_eq false false = refl

selected-known {ℓ} :
    {A : Type ℓ} (x : Option A) (p : A → Bool) → selected (known x p) ≡ some (test x p)
selected-known none p = refl
selected-known (some a) p = selected-of_bool (p a)

-- `filter_map(as_str).any(…)`, over the texts that `str_array` collects.
any-texts :
    (a : Text) (vs : List Value)
    → any (λ t. text_eq t a) (texts vs) ≡ any (λ v. test (as_str v) (λ s. text_eq s a)) vs
unfolding texts
any-texts a [] = refl
any-texts a (v ∷ vs) = ground (arith, any-texts a vs)

-- What the bulk query and the evaluator agree on only if it is given: that the two regular
-- expression engines read the pattern alike, and that a `not_in` list holds some text.
pub record IsPortable (re : Regex) (tilde : Text → Text → Option Bool) (c : Condition)
    : Type 0 where
  pub same_regex :
      (p a : Text)
      → c.operator ≡ regex
      → as_str c.value ≡ some p
      → tilde p a ≡ some (if re.compiles p then re.is_match p a else false)
  pub some_text : c.operator ≡ not_in → str_array c ≢ []

module _ (tilde : Text → Text → Option Bool) (params : List Bind) (now : DateTime) (row : JoinedRow)
    (bind_offset : ℕ) (binds : List Bind) (expr : Expr) where
  -- What the built clause of a condition evaluates to, in a query that supplies its binds.
  abbrev pub built : Condition → Option Bool
  built c =
      selected
        (cond_truth tilde params now row (build_operator bind_offset binds c.operator expr c).0)

  abbrev pub IsSupplied : Condition → Type 0
  IsSupplied c = Supplies bind_offset params (build_operator bind_offset binds c.operator expr c).1

  pub bool_agrees :
      (t : ConditionTarget) (op : ConditionOperator) (v : Value) (end : Option Value) (x : Bool)
      → valid_for op bool ≡ true
      → ValueFits bool op v
      → expr_value now row expr ≡ some (sql_bool (some x))
      → IsSupplied (record { target = t; operator = op; value = v; value_end = end })
      → built (record { target = t; operator = op; value = v; value_end = end })
        ≡ some (bool_match (record { target = t; operator = op; value = v; value_end = end }) x)
  unfolding valid_for build_operator cond_truth bool_match as_bool
  bool_agrees t eq (boolean b) end x valid fits value h =
      rw (value, param-next bind_offset params binds (bool_bind b) h) (selected-bool_eq b x)
  bool_agrees t eq _ end x valid fits value h = absurd fits
  bool_agrees t _ v end x valid fits value h = cc

  pub int_agrees :
      (t : ConditionTarget) (op : ConditionOperator) (v : Value) (end : Option Value) (x : Option ℤ)
      → valid_for op int ≡ true
      → ValueFits int op v
      → EndFits op end
      → expr_value now row expr ≡ some (sql_int x)
      → IsSupplied (record { target = t; operator = op; value = v; value_end = end })
      → built (record { target = t; operator = op; value = v; value_end = end })
        ≡ some (int_match (record { target = t; operator = op; value = v; value_end = end }) x)
  unfolding valid_for build_operator cond_truth int_match as_bool
  int_agrees t eq (number (integer n)) end x valid fits fits_end value h =
      ground (arith, as_i64-number n fits, value, param-next bind_offset params binds (int_bind n))
  int_agrees t neq (number (integer n)) end x valid fits fits_end value h =
      ground (arith, as_i64-number n fits, value, param-next bind_offset params binds (int_bind n))
  int_agrees t gt (number (integer n)) end x valid fits fits_end value h =
      ground (arith, as_i64-number n fits, value, param-next bind_offset params binds (int_bind n))
  int_agrees t gte (number (integer n)) end x valid fits fits_end value h =
      ground (arith, as_i64-number n fits, value, param-next bind_offset params binds (int_bind n))
  int_agrees t lt (number (integer n)) end x valid fits fits_end value h =
      ground (arith, as_i64-number n fits, value, param-next bind_offset params binds (int_bind n))
  int_agrees t lte (number (integer n)) end x valid fits fits_end value h =
      ground (arith, as_i64-number n fits, value, param-next bind_offset params binds (int_bind n))
  int_agrees t between (number (integer n)) (some (number (integer m))) x valid fits fits_end value
        h =
      ground (
        arith,
        as_i64-number n fits,
        as_i64-number m fits_end,
        value,
        param-next bind_offset params binds (int_bind n),
        param-next_second bind_offset params binds (int_bind n) (int_bind m)
            (rw (as_i64-number n fits, as_i64-number m fits_end) at h),
        Supplies-prefix bind_offset params (binds ++ int_bind n ∷ []) (int_bind m ∷ [])
            (rw (as_i64-number n fits, as_i64-number m fits_end) at h),
      )
  int_agrees t _ v end x valid fits fits_end value h = ground arith

  module _ (re : Regex) where
    pub string_agrees :
        (t : ConditionTarget) (op : ConditionOperator) (v : Value) (end : Option Value)
        (x : Option Text)
        → valid_for op TargetKind.string ≡ true
        → ValueFits TargetKind.string op v
        → IsPortable re tilde (record { target = t; operator = op; value = v; value_end = end })
        → expr_value now row expr ≡ some (sql_text x)
        → IsSupplied (record { target = t; operator = op; value = v; value_end = end })
        → built (record { target = t; operator = op; value = v; value_end = end })
          ≡ some
              (string_match re (record { target = t; operator = op; value = v; value_end = end }) x)
    unfolding valid_for build_operator cond_truth string_match as_bool as_i64 as_str as_array
        str_array list_contains
    string_agrees t eq (string s) end x valid fits portable value h =
        ground (arith, value, param-next bind_offset params binds (text_bind s))
    string_agrees t neq (string s) end x valid fits portable value h =
        ground (arith, value, param-next bind_offset params binds (text_bind s))
    string_agrees t contains (string s) end none valid fits portable value h =
        ground (arith, value, param-next bind_offset params binds _ h)
    string_agrees t contains (string s) end (some a) valid fits portable value h =
        ground (arith, value, like-escape_like s a, param-next bind_offset params binds _ h)
    string_agrees t regex (string s) end none valid fits portable value h =
        ground (arith, value, param-next bind_offset params binds (text_bind s))
    string_agrees t regex (string s) end (some a) valid fits portable value h = ground (
      arith,
      value,
      portable.same_regex s a refl refl,
      param-next bind_offset params binds (text_bind s),
    )
    string_agrees t in_list (array xs) end none valid fits portable value h =
        ground
          (arith, value, param-next bind_offset params binds (text_array_bind (texts (to_list xs))))
    string_agrees t in_list (array xs) end (some a) valid fits portable value h = ground (
      arith,
      value,
      any-texts a (to_list xs),
      param-next bind_offset params binds (text_array_bind (texts (to_list xs))),
    )
    string_agrees t not_in (array xs) end none valid fits portable value h = ground (
      arith,
      value,
      portable.some_text refl,
      param-next bind_offset params binds (text_array_bind (texts (to_list xs))),
    )
    string_agrees t not_in (array xs) end (some a) valid fits portable value h = ground (
      arith,
      value,
      any-texts a (to_list xs),
      portable.some_text refl,
      param-next bind_offset params binds (text_array_bind (texts (to_list xs))),
    )
    string_agrees t _ v end x valid fits portable value h = ground arith
