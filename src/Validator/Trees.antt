-- ===== src/Validator/Trees.antt =====
-- A rule tree that the validator accepts is well formed, and what it refuses.
use mathlib.Core.Path.{subst}
use kick_channel_role.Prelude.{
  ℕ, suc, ◌+◌, ◌≤◌, Bool, true, false, ◌≡◌, ◌≢◌, inl, inr, refl, ap, List, [], ◌∷◌, arith,
  if◌then◌else◌, Result, ok, err, ◌>>=◌, >>=-eq-ok, All, length, is_empty, ltb,
}
use kick_channel_role.Rule.Tree.{ConditionGroup, max_groups, max_conditions_per_group}
use kick_channel_role.Rule.WellTyped.{IsGroup, IsWellFormed}
use kick_channel_role.AppError.{
  BadRule, no_groups, too_many_groups, no_conditions, too_many_conditions,
}
use kick_channel_role.Validator.{
  ConditionInput, ConditionGroupInput, RuleTreeBody, ParsedRule, Host, validate_conditions,
  validate_group, validate_groups, check_group_count, parse_rule_tree,
}
use kick_channel_role.Validator.Numbers.{IsSaturating}
use kick_channel_role.Validator.Laws.{IsSaved, validate_conditions-ok}

-- Lists of the same length are empty together, and within the same bound.
nonempty_of_length :
    {A B : Type 0} (xs : List A) (y : B) (ys : List B) → length xs ≡ length (y ∷ ys) → xs ≢ []
nonempty_of_length [] y ys h = λ _. absurd (omega (arith, h))
nonempty_of_length (x ∷ xs) y ys h = λ e. cc e

within_bound : (m n bound : ℕ) → m ≡ n → ltb bound n ≡ false → m ≤ bound
within_bound m n bound e h = ground arith

module _ (host : Host) (sat : IsSaturating host) where
  validate_group-ok :
      (n : ℕ) (raw : ConditionGroupInput) (g : ConditionGroup)
      → validate_group host n raw ≡ ok g
      → IsGroup (IsSaved host sat) g
  unfolding validate_group
  validate_group-ok n raw g h =
      by_parts raw.conditions (ltb max_conditions_per_group (length raw.conditions)) refl h
    where
      by_parts :
          (raws : List ConditionInput) (b : Bool)
          → ltb max_conditions_per_group (length raws) ≡ b
          → (if is_empty raws
              then err (no_conditions n)
              else if b
              then err (too_many_conditions n)
              else (do
                conditions ← validate_conditions host n 1 raws
                ok (record { conditions = conditions })))
            ≡ ok g
          → IsGroup (IsSaved host sat) g
      by_parts [] b e h = absurd (cc h)
      by_parts (r ∷ raws) true e h = absurd (cc h)
      by_parts (r ∷ raws) false e h =
          let (cs, hc, made) = >>=-eq-ok (validate_conditions host n 1 (r ∷ raws)) _ h in
          let (same_length, saved) = validate_conditions-ok host sat n 1 (r ∷ raws) cs hc in
          let g' : ConditionGroup = record { conditions = cs } in
          let e' : g' ≡ g = cc made in
          subst (IsGroup (IsSaved host sat)) e' (record {
            some_condition = nonempty_of_length cs r raws same_length;
            few_conditions =
                within_bound (length cs) (length (r ∷ raws)) max_conditions_per_group same_length e;
            each = saved;
          })

  validate_groups-ok :
      (n : ℕ) (raws : List ConditionGroupInput) (gs : List ConditionGroup)
      → validate_groups host n raws ≡ ok gs
      → (length gs ≡ length raws) × All (IsGroup (IsSaved host sat)) gs
  unfolding validate_groups
  validate_groups-ok n [] gs h =
      let e : [] ≡ gs = cc h in
      subst (λ l. (length l ≡ 0) × All (IsGroup (IsSaved host sat)) l) e (refl, tt)
  validate_groups-ok n (raw ∷ raws) gs h =
      let (g, hg, h') = >>=-eq-ok (validate_group host n raw) _ h in
      let (rest, hr, made) = >>=-eq-ok (validate_groups host (n + 1) raws) _ h' in
      let (same_length, each) = validate_groups-ok (n + 1) raws rest hr in
      let e : g ∷ rest ≡ gs = cc made in
      subst (λ l. (length l ≡ suc (length raws)) × All (IsGroup (IsSaved host sat)) l) e
        (ap suc same_length, (validate_group-ok n raw g hg, each))

  -- A body that is accepted keeps its channel and its `grant_on_any_relation`. If that is set there
  -- are no groups; if not, there are 1 to 8 groups of 1 to 12 conditions, each with an operator that
  -- is valid for its target, a value of the kind that these two need, a second value exactly for
  -- `between`, and a pattern that compiles for `regex`.
  pub parse_rule_tree-IsWellFormed :
      (body : RuleTreeBody) (parsed : ParsedRule)
      → parse_rule_tree host body ≡ ok parsed
      → (parsed.kick_channel_id ≡ body.kick_channel_id)
        × (parsed.rule_tree.grant_on_any_relation ≡ body.grant_on_any_relation)
        × IsWellFormed (IsSaved host sat) parsed.rule_tree
  unfolding parse_rule_tree check_group_count
  parse_rule_tree-IsWellFormed body parsed h =
      by_parts body.grant_on_any_relation body.groups (ltb max_groups (length body.groups)) refl h
    where
      Accepted : (grant : Bool) → Type 0
      Accepted grant =
          (parsed.kick_channel_id ≡ body.kick_channel_id)
          × (parsed.rule_tree.grant_on_any_relation ≡ grant)
          × IsWellFormed (IsSaved host sat) parsed.rule_tree

      made_of : Bool → List ConditionGroup → ParsedRule
      made_of grant gs = record {
        kick_channel_id = body.kick_channel_id;
        rule_tree = record { grant_on_any_relation = grant; groups = gs };
      }

      counted : Bool → List ConditionGroupInput → Bool → Result BadRule (Unit {0})
      counted grant raws b =
          if grant
          then ok tt
          else if is_empty raws
          then err no_groups
          else if b
          then err too_many_groups
          else ok tt

      by_parts :
          (grant : Bool) (raws : List ConditionGroupInput) (b : Bool)
          → ltb max_groups (length raws) ≡ b
          → (do
            checked ← counted grant raws b
            groups ← (if grant then ok [] else validate_groups host 1 raws)
            ok (made_of grant groups))
            ≡ ok parsed
          → Accepted grant
      by_parts true raws b e h =
          let e' : made_of true [] ≡ parsed = cc h in
          subst
            (λ (p : ParsedRule).
              (p.kick_channel_id ≡ body.kick_channel_id)
              × (p.rule_tree.grant_on_any_relation ≡ true)
              × IsWellFormed (IsSaved host sat) p.rule_tree)
            e' (refl, refl, inl (refl, refl))
      by_parts false [] b e h = absurd (cc h)
      by_parts false (r ∷ raws) true e h = absurd (cc h)
      by_parts false (r ∷ raws) false e h =
          let (gs, hg, made) = >>=-eq-ok (validate_groups host 1 (r ∷ raws)) _ h in
          let (same_length, each) = validate_groups-ok 1 (r ∷ raws) gs hg in
          let e' : made_of false gs ≡ parsed = cc made in
          subst
            (λ (p : ParsedRule).
              (p.kick_channel_id ≡ body.kick_channel_id)
              × (p.rule_tree.grant_on_any_relation ≡ false)
              × IsWellFormed (IsSaved host sat) p.rule_tree)
            e'
            (
              refl,
              refl,
              inr (
                refl,
                nonempty_of_length gs r raws same_length,
                within_bound (length gs) (length (r ∷ raws)) max_groups same_length e,
                each,
              ),
            )
