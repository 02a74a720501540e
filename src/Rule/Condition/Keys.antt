-- ===== src/Rule/Condition/Keys.antt =====
-- The names of targets and operators: `as_str` and `from_key` are inverse to one another.
use kick_channel_role.Prelude.{
  ◌≡◌, refl, ◌↔◌, some, List, [], ◌∷◌, inl, inr, Bool-cases, All, arith,
}
use kick_channel_role.Prelude.Text.{Text, text_eq, text_eq_iff, match_str}
use kick_channel_role.Rule.Condition.{
  ConditionTarget, is_follower, target_as_str, target_from_key, target_arms, operator_arms,
  ConditionOperator, eq, operator_as_str, operator_from_key,
}

module _ {A : Type 0} (name : A → Text) where
  -- If the text of each arm is the name of the arm's result, a text that is matched is the name of
  -- what it is matched to.
  match_str-eq-some :
      (s : Text) (arms : List (Text × A)) (a : A)
      → All (λ (arm : Text × A). arm.0 ≡ name arm.1) arms
      → match_str s arms ≡ some a
      → s ≡ name a
  unfolding match_str
  match_str-eq-some s [] a h e = cc
  match_str-eq-some s ((k, b) ∷ arms) a (p, h) e = elim (Bool-cases (text_eq s k)) [
    | inl same ↦
        let found : some b ≡ some a = rw (same, match_str) at e in
        cc ((text_eq_iff s k).0 same, p, found)
    | inr other ↦ match_str-eq-some s arms a h (rw (other, match_str) at e)
  ]

target_from_key-target_as_str : (t : ConditionTarget) → target_from_key (target_as_str t) ≡ some t
unfolding target_from_key target_as_str text_eq
target_from_key-target_as_str is_follower = refl
target_from_key-target_as_str _ = refl

operator_from_key-operator_as_str :
    (op : ConditionOperator) → operator_from_key (operator_as_str op) ≡ some op
unfolding operator_from_key operator_as_str text_eq
operator_from_key-operator_as_str eq = refl
operator_from_key-operator_as_str _ = refl

target_of_key : (s : Text) (t : ConditionTarget) → target_from_key s ≡ some t → s ≡ target_as_str t
unfolding target_from_key
target_of_key s t e = match_str-eq-some target_as_str s target_arms t named e
  where
    named : All (λ (arm : Text × ConditionTarget). arm.0 ≡ target_as_str arm.1) target_arms
    named = unfold target_as_str in ground arith

operator_of_key :
    (s : Text) (op : ConditionOperator) → operator_from_key s ≡ some op → s ≡ operator_as_str op
unfolding operator_from_key
operator_of_key s op e = match_str-eq-some operator_as_str s operator_arms op named e
  where
    named : All (λ (arm : Text × ConditionOperator). arm.0 ≡ operator_as_str arm.1) operator_arms
    named = unfold operator_as_str in ground arith

-- A key is read as a target exactly when it is the target's name, and as an operator exactly when
-- it is the operator's name.
pub from_key_iff :
    (s : Text) (t : ConditionTarget) (op : ConditionOperator)
    → ((target_from_key s ≡ some t) ↔ (s ≡ target_as_str t))
      × ((operator_from_key s ≡ some op) ↔ (s ≡ operator_as_str op))
from_key_iff s t op = (
  (target_of_key s t, λ e. rw e (target_from_key-target_as_str t)),
  (operator_of_key s op, λ e. rw e (operator_from_key-operator_as_str op)),
)
