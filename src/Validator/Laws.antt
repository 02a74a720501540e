-- ===== src/Validator/Laws.antt =====
-- A rule that the validator accepts is well formed.
use mathlib.Core.Path.{subst}
use kick_channel_role.Prelude.{
  ℕ, ◌+◌, Bool, true, false, not, ◌≡◌, ◌≢◌, suc, ap, sym, ◌∙◌, refl, List, [], ◌∷◌, Option, none,
  some, if◌then◌else◌, Result, ok, err, ◌>>=◌, >>=-eq-ok, ok_or, All, length, is_empty, unwrap_or,
}
use kick_channel_role.Prelude.Text.{Text, trim, to_ascii_lowercase, match_str}
use kick_channel_role.Json.{
  integer, Value, null, boolean, number, string, array, from_list, to_list-from_list, as_str,
}
use kick_channel_role.Rule.Condition.{
  TargetKind, bool, int, ConditionTarget, kind, target_from_key, ConditionOperator, eq, neq,
  between, contains, regex, in_list, not_in, operator_from_key, valid_for, Condition,
}
use kick_channel_role.Rule.WellTyped.{ValueFits, EndFits, IsWellTyped}
use kick_channel_role.AppError.{
  Where, BadRule, boolean_required, regex_invalid, operator_not_valid, list_empty, value_required,
}
use kick_channel_role.Validator.{
  ConditionInput, Host, list_values, bool_words, normalize_bool, normalize_list, normalize_text,
  normalize_value, check_regex, check_values, normalize_end, validate_condition,
  validate_conditions, bool_to_string,
}
use kick_channel_role.Validator.Numbers.{IsSaturating, normalize_int-in_i64}

module _ (host : Host) where
  normalize_bool-Fits :
      (w : Where) (raw v : Value) → normalize_bool host w raw ≡ ok v → (b : Bool) × (v ≡ boolean b)
  unfolding normalize_bool
  normalize_bool-Fits w (boolean b) v h = (b, cc h)
  normalize_bool-Fits w (string s) v h =
      by_word (match_str (to_ascii_lowercase (trim s)) bool_words) h
    where
      by_word :
          (o : Option Bool)
          → elim o [ some b ↦ ok (boolean b) | none ↦ err (boolean_required w (string s)) ] ≡ ok v
          → (b : Bool) × (v ≡ boolean b)
      by_word (some b) h = (b, cc h)
      by_word none h = absurd (cc h)
  normalize_bool-Fits w null v h = absurd (cc h)
  normalize_bool-Fits w _ v h = absurd (cc h)

  normalize_list-Fits :
      (w : Where) (raw v : Value)
      → normalize_list host w raw ≡ ok v
      → (arr : List Value) × (v ≡ array (from_list arr)) × (arr ≢ [])
  unfolding normalize_list
  normalize_list-Fits w raw v h = by_list (list_values raw) h
    where
      by_list :
          (arr : List Value)
          → (if is_empty arr then err (list_empty w) else ok (array (from_list arr))) ≡ ok v
          → (arr : List Value) × (v ≡ array (from_list arr)) × (arr ≢ [])
      by_list [] h = absurd (cc h)
      by_list (x ∷ xs) h = (x ∷ xs, cc h, λ e. cc e)

  normalize_text-Fits :
      (w : Where) (raw v : Value) → normalize_text host w raw ≡ ok v → (s : Text) × (v ≡ string s)
  unfolding normalize_text
  normalize_text-Fits w (string s) v h = by_blank (is_empty (trim s)) h
    where
      by_blank :
          (b : Bool)
          → (if b then err (value_required w) else ok (string s)) ≡ ok v
          → (s : Text) × (v ≡ string s)
      by_blank true h = absurd (cc h)
      by_blank false h = (s, cc h)
  normalize_text-Fits w (number n) v h = (host.number_to_string n, cc h)
  normalize_text-Fits w (boolean b) v h = (bool_to_string b, cc h)
  normalize_text-Fits w null v h = absurd (cc h)
  normalize_text-Fits w _ v h = absurd (cc h)

  list_fits :
      (w : Where) (raw v : Value)
      → normalize_list host w raw ≡ ok v
      → ValueFits TargetKind.string in_list v
  list_fits w raw v h =
      let (arr, e, some_value) = normalize_list-Fits w raw v h in
      subst (ValueFits TargetKind.string in_list) (sym e)
        (λ p. some_value (sym (to_list-from_list arr) ∙ p))

  module _ (sat : IsSaturating host) where
    -- A value that is accepted fits its target and operator.
    normalize_value-ValueFits :
        (w : Where) (k : TargetKind) (op : ConditionOperator) (raw v : Value)
        → valid_for op k ≡ true
        → normalize_value host w k op raw ≡ ok v
        → ValueFits k op v
    unfolding normalize_value valid_for
    normalize_value-ValueFits w bool op raw v valid h =
        let (b, e) = normalize_bool-Fits w raw v h in subst (ValueFits bool op) (sym e) tt
    normalize_value-ValueFits w int op raw v valid h =
        let (n, e, in_range) = normalize_int-in_i64 host sat w raw v h in
        subst (ValueFits int op) (sym e) in_range
    normalize_value-ValueFits w TargetKind.string in_list raw v valid h = list_fits w raw v h
    normalize_value-ValueFits w TargetKind.string not_in raw v valid h = list_fits w raw v h
    normalize_value-ValueFits w TargetKind.string eq raw v valid h =
        let (s, e) = normalize_text-Fits w raw v h in
        subst (ValueFits TargetKind.string eq) (sym e) tt
    normalize_value-ValueFits w TargetKind.string neq raw v valid h =
        let (s, e) = normalize_text-Fits w raw v h in
        subst (ValueFits TargetKind.string neq) (sym e) tt
    normalize_value-ValueFits w TargetKind.string contains raw v valid h =
        let (s, e) = normalize_text-Fits w raw v h in
        subst (ValueFits TargetKind.string contains) (sym e) tt
    normalize_value-ValueFits w TargetKind.string regex raw v valid h =
        let (s, e) = normalize_text-Fits w raw v h in
        subst (ValueFits TargetKind.string regex) (sym e) tt
    normalize_value-ValueFits w TargetKind.string _ raw v valid h = absurd (cc valid)

    normalize_end-EndFits :
        (w : Where) (k : TargetKind) (op : ConditionOperator) (raw end : Option Value)
        → valid_for op k ≡ true
        → normalize_end host w k op raw ≡ ok end
        → EndFits op end
    unfolding normalize_end normalize_value valid_for
    normalize_end-EndFits w bool between raw end valid h = absurd (cc valid)
    normalize_end-EndFits w TargetKind.string between raw end valid h = absurd (cc valid)
    normalize_end-EndFits w int between none end valid h = absurd (cc h)
    normalize_end-EndFits w int between (some raw) end valid h =
        let (v, accepted, e) =
          >>=-eq-ok (normalize_value host w int between raw) (λ n. ok (some n)) h in
        let (n, is_n, in_range) = normalize_int-in_i64 host sat w raw v accepted in
        let e' : end ≡ some (number (integer n)) = cc (e, is_n) in
        subst (EndFits between) (sym e') in_range
    normalize_end-EndFits w k eq raw end valid h = cc h
    normalize_end-EndFits w k _ raw end valid h = cc h

    -- The pattern of a saved regular expression compiles.
    abbrev pub Compiles : Condition → Type 0
    Compiles c =
        (p : Text) → c.operator ≡ regex → as_str c.value ≡ some p → host.re.compiles p ≡ true

    -- What holds of every condition that is saved.
    abbrev pub IsSaved : Condition → Type 0
    IsSaved c = IsWellTyped c × Compiles c

    check_regex-ok :
        (w : Where) (op : ConditionOperator) (v v' : Value)
        → check_regex host w op v ≡ ok v'
        → (v ≡ v') × ((p : Text) → op ≡ regex → as_str v ≡ some p → host.re.compiles p ≡ true)
    unfolding check_regex
    check_regex-ok w regex v v' h = by_compiling (host.re.compiles (unwrap_or (as_str v) [])) refl h
      where
        by_compiling :
            (b : Bool)
            → host.re.compiles (unwrap_or (as_str v) []) ≡ b
            → (if b then ok v else err (regex_invalid w)) ≡ ok v'
            → (v ≡ v')
              × ((p : Text) → regex ≡ regex → as_str v ≡ some p → host.re.compiles p ≡ true)
        by_compiling true e h = (cc h, λ p _ q. rw q at e)
        by_compiling false e h = absurd (cc h)
    check_regex-ok w eq v v' h = (cc h, λ p e q. absurd (cc e))
    check_regex-ok w _ v v' h = (cc h, λ p e q. absurd (cc e))

    check_values-ok :
        (w : Where) (t : ConditionTarget) (op : ConditionOperator) (raw : ConditionInput)
        (c : Condition)
        → check_values host w t op raw ≡ ok c
        → IsSaved c
    unfolding check_values
    check_values-ok w t op raw c h =
        by_parts (valid_for op (kind t)) (normalize_value host w (kind t) op raw.value)
          (normalize_end host w (kind t) op raw.value_end) refl refl refl h
      where
        by_parts :
            (b : Bool) (value : Result BadRule Value) (end : Result BadRule (Option Value))
            → valid_for op (kind t) ≡ b
            → normalize_value host w (kind t) op raw.value ≡ value
            → normalize_end host w (kind t) op raw.value_end ≡ end
            → (if not b then err (operator_not_valid w op t) else (do
              v ← value
              e ← end
              checked ← check_regex host w op v
              ok (record { target = t; operator = op; value = checked; value_end = e })))
              ≡ ok c
            → IsSaved c
        by_parts false value end pb pv pe h = absurd (cc h)
        by_parts true (err x) end pb pv pe h = absurd (cc h)
        by_parts true (ok v) (err x) pb pv pe h = absurd (cc h)
        by_parts true (ok v) (ok e) pb pv pe h =
            let (v', checked, made) = >>=-eq-ok (check_regex host w op v) _ h in
            let (same, compiles) = check_regex-ok w op v v' checked in
            let made_of : Condition = record {
              target = t;
              operator = op;
              value = v;
              value_end = e;
            } in
            let built : made_of ≡ c = cc (same, made) in
            subst (λ c. IsSaved c) built
              (
                record {
                  valid = pb;
                  value_fits = normalize_value-ValueFits w (kind t) op raw.value v pb pv;
                  end_fits = normalize_end-EndFits w (kind t) op raw.value_end e pb pe;
                },
                compiles,
              )

    -- An accepted condition is well typed, and its pattern compiles.
    validate_condition-ok :
        (g n : ℕ) (raw : ConditionInput) (c : Condition)
        → validate_condition host g n raw ≡ ok c
        → IsSaved c
    unfolding validate_condition
    validate_condition-ok g n raw c h =
        let (t, _, h') = >>=-eq-ok (ok_or (target_from_key (trim raw.target)) _) _ h in
        let (op, _, h'') = >>=-eq-ok (ok_or (operator_from_key (trim raw.operator)) _) _ h' in
        check_values-ok _ t op raw c h''

    pub validate_conditions-ok :
        (g n : ℕ) (raws : List ConditionInput) (cs : List Condition)
        → validate_conditions host g n raws ≡ ok cs
        → (length cs ≡ length raws) × All (λ c. IsSaved c) cs
    unfolding validate_conditions
    validate_conditions-ok g n [] cs h =
        let e : [] ≡ cs = cc h in subst (λ l. (length l ≡ 0) × All (λ c. IsSaved c) l) e (refl, tt)
    validate_conditions-ok g n (raw ∷ raws) cs h =
        let (c, hc, h') = >>=-eq-ok (validate_condition host g n raw) _ h in
        let (rest, hr, made) = >>=-eq-ok (validate_conditions host g (n + 1) raws) _ h' in
        let (same_length, typed) = validate_conditions-ok g (n + 1) raws rest hr in
        let e : c ∷ rest ≡ cs = cc made in
        subst (λ l. (length l ≡ suc (length raws)) × All (λ c. IsSaved c) l) e
          (ap suc same_length, (validate_condition-ok g n raw c hc, typed))
