-- ===== src/Validator.antt =====
-- src/services/rule_validator.rs: a rule tree is parsed and checked before it is saved.
pub mod Numbers
pub mod Laws
pub mod Trees
use kick_channel_role.Prelude.{
  ℕ, ◌+◌, ◌*◌, ◌-◌, Bool, true, false, not, ◌&&◌, ◌||◌, List, [], ◌∷◌, Option, none, some, map, ltb,
  leb, ◌==◌, length, is_empty, if◌then◌else◌, Result, ok, err, ◌>>=◌, ok_or, or_else, and_then,
  unwrap_or,
}
use kick_channel_role.Prelude.Int.{ℤ, pos, negsuc, sub_ℕ, in_i64, i64_max, i64_min}
use kick_channel_role.Prelude.Text.{Text, codes, trim, to_ascii_lowercase, split, match_str}
use kick_channel_role.Json.{
  Number, integer, float, Value, null, boolean, number, string, array, object, to_list, from_list,
  number_as_i64, as_str,
}
use kick_channel_role.Rule.Condition.{
  TargetKind, bool, int, ConditionTarget, kind, target_from_key, ConditionOperator, between, regex,
  in_list, not_in, operator_from_key, valid_for, Condition,
}
use kick_channel_role.Rule.Tree.{ConditionGroup, RuleTree, max_groups, max_conditions_per_group}
use kick_channel_role.Eval.{Regex}
use kick_channel_role.AppError.{
  Where, BadRule, no_groups, too_many_groups, no_conditions, too_many_conditions, unknown_target,
  unknown_operator, operator_not_valid, between_needs_both, regex_invalid, number_blank, list_empty,
  value_required, boolean_required, integer_required,
}

pub record ConditionInput : Type 0 where
  pub target : Text
  pub operator : Text
  pub value : Value
  pub value_end : Option Value

pub record ConditionGroupInput : Type 0 where
  pub conditions : List ConditionInput

pub record RuleTreeBody : Type 0 where
  pub kick_channel_id : Option ℤ
  pub grant_on_any_relation : Bool
  pub groups : List ConditionGroupInput

pub record ParsedRule : Type 0 where
  pub kick_channel_id : Option ℤ
  pub rule_tree : RuleTree

-- `str::parse::<i64>`: a sign, then one digit or more, within range.
digits : ℕ → Text → Option ℕ
digits n [] = some n
digits n (c ∷ s) =
    let rest = digits (n * 10 + (c - 48)) s in if leb 48 c && leb c 57 then rest else none

magnitude : Text → Option ℕ
unfolding digits
magnitude [] = none
magnitude (c ∷ s) = digits 0 (c ∷ s)

signed : Text → Option ℤ
unfolding magnitude
signed [] = none
signed (c ∷ s) =
    if c == 45
    then and_then (magnitude s) (λ n. some (sub_ℕ 0 n))
    else if c == 43
    then and_then (magnitude s) (λ n. some (pos n))
    else and_then (magnitude (c ∷ s)) (λ n. some (pos n))

unfoldable pub parse_i64 : Text → Option ℤ
unfolding signed
parse_i64 s = and_then (signed s) (λ n. if in_i64 n then some n else none)

-- The saturating cast of an integer to an `i64`.
unfoldable pub saturate : ℤ → ℤ
saturate (pos n) = if in_i64 (pos n) then pos n else i64_max
saturate (negsuc n) = if in_i64 (negsuc n) then negsuc n else i64_min

-- What the program takes from outside: `f64 as i64` for the float that prints as a text, the text of
-- a number, and the `regex` crate.
pub record Host : Type 0 where
  pub float_as_i64 : Text → ℤ
  pub number_to_string : Number → Text
  pub re : Regex

is_blank : Value → Bool
is_blank null = true
is_blank (string s) = is_empty (trim s)
is_blank _ = false

is_list_op : ConditionOperator → Bool
is_list_op in_list = true
is_list_op not_in = true
is_list_op _ = false

-- The elements that are neither null nor an empty text.
kept : Value → Bool
kept null = false
kept (string []) = false
kept _ = true

unfoldable pub filter {ℓ} : {A : Type ℓ} → (A → Bool) → List A → List A
filter p [] = []
filter p (x ∷ xs) = if p x then x ∷ filter p xs else filter p xs

non_empty : Text → Bool
non_empty s = not (is_empty s)

list_values : Value → List Value
unfolding kept non_empty filter
list_values (array a) = filter kept (to_list a)
list_values (string s) = map string (filter non_empty (map trim (split 44 s)))
list_values null = []
list_values other = other ∷ []

bool_to_string : Bool → Text
bool_to_string true = codes "true"
bool_to_string false = codes "false"

abbrev bool_words : List (Text × Bool)
bool_words =
    (codes "true", true)
    ∷ (codes "1", true)
    ∷ (codes "yes", true)
    ∷ (codes "false", false)
    ∷ (codes "0", false)
    ∷ (codes "no", false)
    ∷ []

module _ (host : Host) where
  number_value : Number → Option ℤ
  number_value (integer n) = or_else (number_as_i64 (integer n)) (some (saturate n))
  number_value (float t) = some (host.float_as_i64 t)

  int_value : Value → Option ℤ
  unfolding number_value
  int_value (number n) = number_value n
  int_value (string s) = parse_i64 (trim s)
  int_value _ = none

  pub normalize_bool : Where → Value → Result BadRule Value
  normalize_bool w (boolean b) = ok (boolean b)
  normalize_bool w (string s) = elim (match_str (to_ascii_lowercase (trim s)) bool_words) [
    | some b ↦ ok (boolean b)
    | none ↦ err (boolean_required w (string s))
  ]
  normalize_bool w raw = err (boolean_required w raw)

  pub normalize_int : Where → Value → Result BadRule Value
  unfolding is_blank int_value
  normalize_int w raw =
      if is_blank raw
      then err (number_blank w)
      else (do n ← ok_or (int_value raw) (integer_required w raw); ok (number (integer n)))

  pub normalize_list : Where → Value → Result BadRule Value
  unfolding list_values
  normalize_list w raw =
      let arr = list_values raw in
      if is_empty arr then err (list_empty w) else ok (array (from_list arr))

  pub normalize_text : Where → Value → Result BadRule Value
  unfolding bool_to_string
  normalize_text w (string s) = if is_empty (trim s) then err (value_required w) else ok (string s)
  normalize_text w (number n) = ok (string (host.number_to_string n))
  normalize_text w (boolean b) = ok (string (bool_to_string b))
  normalize_text w _ = err (value_required w)

  unfoldable pub normalize_value :
      Where → TargetKind → ConditionOperator → Value → Result BadRule Value
  unfolding normalize_bool normalize_int normalize_list normalize_text is_list_op
  normalize_value w bool op raw = normalize_bool w raw
  normalize_value w int op raw = normalize_int w raw
  normalize_value w TargetKind.string op raw =
      if is_list_op op then normalize_list w raw else normalize_text w raw

  -- The pattern of a regular expression is compiled when the rule is saved.
  pub check_regex : Where → ConditionOperator → Value → Result BadRule Value
  check_regex w regex value =
      if host.re.compiles (unwrap_or (as_str value) []) then ok value else err (regex_invalid w)
  check_regex w _ value = ok value

  -- The second value: required by `between`, and dropped for any other operator.
  pub normalize_end :
      Where → TargetKind → ConditionOperator → Option Value → Result BadRule (Option Value)
  normalize_end w k between (some end) = do n ← normalize_value w k between end; ok (some n)
  normalize_end w k between none = err (between_needs_both w)
  normalize_end w k _ end = ok none

  -- The checks that follow once target and operator are known.
  pub check_values :
      Where → ConditionTarget → ConditionOperator → ConditionInput → Result BadRule Condition
  check_values w target operator raw =
      if not (valid_for operator (kind target))
      then err (operator_not_valid w operator target)
      else (do
        value ← normalize_value w (kind target) operator raw.value
        value_end ← normalize_end w (kind target) operator raw.value_end
        checked ← check_regex w operator value
        ok (record {
          target = target;
          operator = operator;
          value = checked;
          value_end = value_end;
        }))

  unfoldable pub validate_condition : ℕ → ℕ → ConditionInput → Result BadRule Condition
  unfolding normalize_end check_regex check_values
  validate_condition group_num cond_num raw = do
    let w : Where = record { group_num = group_num; cond_num = cond_num }
    target ← ok_or (target_from_key (trim raw.target)) (unknown_target w raw.target)
    operator ← ok_or (operator_from_key (trim raw.operator)) (unknown_operator w raw.operator)
    check_values w target operator raw

  -- The loop over the conditions of a group; the first has number `cond_num`.
  pub validate_conditions : ℕ → ℕ → List ConditionInput → Result BadRule (List Condition)
  validate_conditions group_num cond_num [] = ok []
  validate_conditions group_num cond_num (raw ∷ raws) = do
    c ← validate_condition group_num cond_num raw
    cs ← validate_conditions group_num (cond_num + 1) raws
    ok (c ∷ cs)

  pub validate_group : ℕ → ConditionGroupInput → Result BadRule ConditionGroup
  validate_group group_num raw =
      if is_empty raw.conditions
      then err (no_conditions group_num)
      else if ltb max_conditions_per_group (length raw.conditions)
      then err (too_many_conditions group_num)
      else (do
        conditions ← validate_conditions group_num 1 raw.conditions
        ok (record { conditions = conditions }))

  -- The loop over the groups; the first has number `group_num`.
  pub validate_groups : ℕ → List ConditionGroupInput → Result BadRule (List ConditionGroup)
  validate_groups group_num [] = ok []
  validate_groups group_num (raw ∷ raws) = do
    g ← validate_group group_num raw
    gs ← validate_groups (group_num + 1) raws
    ok (g ∷ gs)

  -- The checks on the number of groups.
  pub check_group_count : RuleTreeBody → Result BadRule (Unit {0})
  check_group_count body =
      if body.grant_on_any_relation
      then ok tt
      else if is_empty body.groups
      then err no_groups
      else if ltb max_groups (length body.groups)
      then err too_many_groups
      else ok tt

  unfoldable pub parse_rule_tree : RuleTreeBody → Result BadRule ParsedRule
  unfolding check_group_count validate_groups validate_group validate_conditions
  parse_rule_tree body = do
    checked ← check_group_count body
    groups ← (if body.grant_on_any_relation then ok [] else validate_groups 1 body.groups)
    ok (record {
      kick_channel_id = body.kick_channel_id;
      rule_tree = record { grant_on_any_relation = body.grant_on_any_relation; groups = groups };
    })
