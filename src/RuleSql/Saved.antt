-- ===== src/RuleSql/Saved.antt =====
-- The two evaluation paths on rules that were saved, and where they differ.
use mathlib.Core.Path.{subst}
use kick_channel_role.Prelude.{
  ℕ, Bool, Option, ◌≡◌, ◌≢◌, inl, inr, sym, List, [], ◌∷◌, some, ok, All,
}
use kick_channel_role.Prelude.Text.{Text}
use kick_channel_role.Json.{as_str}
use kick_channel_role.Rule.Condition.{not_in, regex, Condition}
use kick_channel_role.Rule.Tree.{ConditionGroup, RuleTree}
use kick_channel_role.Rule.Facts.{DateTime}
use kick_channel_role.Rule.WellTyped.{IsWellTyped, IsGroup, IsWellFormed}
use kick_channel_role.Relation.{JoinedRow, facts_of}
use kick_channel_role.Eval.{Regex, evaluate}
use kick_channel_role.Validator.{Host, RuleTreeBody, ParsedRule, parse_rule_tree}
use kick_channel_role.Validator.Numbers.{IsSaturating}
use kick_channel_role.Validator.Laws.{IsSaved}
use kick_channel_role.Validator.Trees.{parse_rule_tree-IsWellFormed}
use kick_channel_role.RuleSql.{Bind, str_array, build_rule_where}
use kick_channel_role.RuleSql.Semantics.{rule_truth, selected}
use kick_channel_role.RuleSql.Binds.{Supplies}
use kick_channel_role.RuleSql.Conditions.{IsPortable}
use kick_channel_role.RuleSql.Equivalence.{IsPast, rule_agrees}

-- A `not_in` list holds some text.
abbrev pub HasText : Condition → Type 0
HasText c = c.operator ≡ not_in → str_array c ≢ []

-- The pattern of a regex condition means the same to Postgres and to the regex crate.
abbrev pub HasSharedPattern : Regex → (Text → Text → Option Bool) → Condition → Type 0
HasSharedPattern re tilde c =
    (p a : Text) → c.operator ≡ regex → as_str c.value ≡ some p → tilde p a ≡ some (re.is_match p a)

module _ (host : Host) (sat : IsSaturating host) (tilde : Text → Text → Option Bool) where
  saved-IsPortable :
      (c : Condition)
      → IsSaved host sat c
      → HasText c
      → HasSharedPattern host.re tilde c
      → IsPortable host.re tilde c
  saved-IsPortable c (typed, compiles) text shared = record {
    same_regex = λ p a e q. rw (compiles p e q) (shared p a e q);
    some_text = text;
  }

  abbrev Portable : Condition → Type 0
  Portable c = IsWellTyped c × IsPortable host.re tilde c

  conditions-Portable :
      (cs : List Condition)
      → All (IsSaved host sat) cs
      → All HasText cs
      → All (HasSharedPattern host.re tilde) cs
      → All Portable cs
  conditions-Portable [] s t p = tt
  conditions-Portable (c ∷ cs) (s, ss) (t, ts) (p, ps) =
      ((s.0, saved-IsPortable c s t p), conditions-Portable cs ss ts ps)

  groups-Portable :
      (gs : List ConditionGroup)
      → All (IsGroup (IsSaved host sat)) gs
      → All (λ (g : ConditionGroup). All HasText g.conditions) gs
      → All (λ (g : ConditionGroup). All (HasSharedPattern host.re tilde) g.conditions) gs
      → All (λ (g : ConditionGroup). All Portable g.conditions) gs
  groups-Portable [] s t p = tt
  groups-Portable (g ∷ gs) (s, ss) (t, ts) (p, ps) =
      (conditions-Portable g.conditions s.each t p, groups-Portable gs ss ts ps)

  tree-Portable :
      (tree : RuleTree)
      → IsWellFormed (IsSaved host sat) tree
      → All (λ (g : ConditionGroup). All HasText g.conditions) tree.groups
      → All (λ (g : ConditionGroup). All (HasSharedPattern host.re tilde) g.conditions) tree.groups
      → All (λ (g : ConditionGroup). All Portable g.conditions) tree.groups
  tree-Portable tree (inl (grant, none_left)) t p =
      subst (λ gs. All (λ (g : ConditionGroup). All Portable g.conditions) gs) (sym none_left) tt
  tree-Portable tree (inr (grant, some_group, few, groups)) t p =
      groups-Portable tree.groups groups t p

  -- For a rule that the validator accepts, the bulk query does not fail, and keeps a row exactly
  -- when the evaluator grants the role on the row's facts; provided that Postgres reads the
  -- patterns of this rule's regex conditions as the regex crate does, every `not_in` list holds a
  -- text, the row's moments are past, and the query's parameters from `bind_offset` on are the
  -- binds.
  pub saved_rule_agrees :
      (body : RuleTreeBody) (parsed : ParsedRule) (params : List Bind) (now : DateTime)
      (row : JoinedRow) (bind_offset : ℕ)
      → parse_rule_tree host body ≡ ok parsed
      → All (λ (g : ConditionGroup). All HasText g.conditions) parsed.rule_tree.groups
      → All
          (λ (g : ConditionGroup). All (HasSharedPattern host.re tilde) g.conditions)
          parsed.rule_tree.groups
      → IsPast now row
      → Supplies bind_offset params (build_rule_where parsed.rule_tree bind_offset).1
      → selected (rule_truth tilde params now row (build_rule_where parsed.rule_tree bind_offset).0)
        ≡ some (evaluate host.re now parsed.rule_tree (facts_of row))
  saved_rule_agrees body parsed params now row o accepted text shared past supplied =
      let (_, _, formed) = parse_rule_tree-IsWellFormed host sat body parsed accepted in
      rule_agrees host.re tilde params now row past o parsed.rule_tree
        (tree-Portable parsed.rule_tree formed text shared) supplied
