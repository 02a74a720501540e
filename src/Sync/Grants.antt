-- ===== src/Sync/Grants.antt =====
-- src/services/sync.rs: the bulk sync of a link grants its role to the members that the evaluator
-- accepts.
use kick_channel_role.Prelude.{
  ℕ, ◌≡◌, refl, sym, ap, ◌∙◌, Bool, true, false, Option, some, List, [], ◌∷◌, ◌++◌, map, any, All,
  if◌then◌else◌, unwrap_or, ok, get_elem?-append, get_elem?-append_left,
}
use kick_channel_role.Prelude.Int.{ℤ, pos}
use kick_channel_role.Prelude.Text.{Text, text_eq}
use kick_channel_role.Rule.Facts.{DateTime}
use kick_channel_role.Rule.Tree.{ConditionGroup}
use kick_channel_role.Relation.{Relation, KickUser, JoinedRow, facts_of}
use kick_channel_role.Eval.{evaluate}
use kick_channel_role.Validator.{Host, RuleTreeBody, ParsedRule, parse_rule_tree, filter}
use kick_channel_role.Validator.Numbers.{IsSaturating}
use kick_channel_role.RuleSql.{Bind, int_bind, text_array_bind, build_rule_where}
use kick_channel_role.RuleSql.Semantics.{selected, rule_truth}
use kick_channel_role.RuleSql.Binds.{Supplies}
use kick_channel_role.RuleSql.Equivalence.{IsPast}
use kick_channel_role.RuleSql.Saved.{HasText, HasSharedPattern, saved_rule_agrees}
use kick_channel_role.Sync.{Store, where_true, join_channel, ordered, qualifying}

if_true : (b : Bool) (x y z : Option (List Text)) → b ≡ true → x ≡ z → (if b then x else y) ≡ z
if_true b x y z e q = rw e q

if_false : (b : Bool) (x y z : Option (List Text)) → b ≡ false → y ≡ z → (if b then x else y) ≡ z
if_false b x y z e q = rw e q

module _ (P : KickUser → Type 0) (p : KickUser → Bool) where
  filter-All : (xs : List KickUser) → All P xs → All P (filter p xs)
  unfolding filter
  filter-All [] h = tt
  filter-All (x ∷ xs) h = by_case (p x) refl (filter-All xs h.1)
    where
      by_case : (b : Bool) → p x ≡ b → All P (filter p xs) → All P (filter p (x ∷ xs))
      by_case true e r = rw e (h.0, r)
      by_case false e r = rw e r

filter_all :
    (p : KickUser → Bool) (xs : List KickUser) → ((x : KickUser) → p x ≡ true) → filter p xs ≡ xs
unfolding filter
filter_all p [] h = refl
filter_all p (x ∷ xs) h = rw (h x) (ap (λ l. x ∷ l) (filter_all p xs h))

-- A query whose test never fails keeps what the test accepts.
where_true-eq :
    (test : JoinedRow → Option Bool) (keeps : KickUser → Bool) (join : KickUser → JoinedRow)
    (users : List KickUser)
    → ((ku : KickUser) → (join ku).ku ≡ ku)
    → All (λ ku. test (join ku) ≡ some (keeps ku)) users
    → where_true test (map join users)
      ≡ some (map (λ (ku : KickUser). ku.discord_id) (filter keeps users))
unfolding where_true filter
where_true-eq test keeps join [] same h = refl
where_true-eq test keeps join (u ∷ users) same h =
    rw (h.0, where_true-eq test keeps join users same h.1, same u) (by_case (keeps u) refl)
  where
    by_case :
        (b : Bool)
        → keeps u ≡ b
        → some (
            if keeps u
            then u.discord_id ∷ map (λ (ku : KickUser). ku.discord_id) (filter keeps users)
            else map (λ (ku : KickUser). ku.discord_id) (filter keeps users))
          ≡ some (map (λ (ku : KickUser). ku.discord_id) (filter keeps (u ∷ users)))
    by_case true e = rw e refl
    by_case false e = rw e refl

module _ (host : Host) (sat : IsSaturating host) (tilde : Text → Text → Option Bool)
    (body : RuleTreeBody) (parsed : ParsedRule) (accepted : parse_rule_tree host body ≡ ok parsed)
    (text : All (λ (g : ConditionGroup). All HasText g.conditions) parsed.rule_tree.groups)
    (shared : All
      (λ (g : ConditionGroup). All (HasSharedPattern host.re tilde) g.conditions)
      parsed.rule_tree.groups)
    (now : DateTime) where
  -- The members whom the evaluator grants the role.
  abbrev pub granted : Option ℤ → List Text → Store → List KickUser
  granted channel_id member_ids s =
      filter
        (λ ku.
          evaluate host.re now parsed.rule_tree
            (facts_of (join_channel (unwrap_or channel_id (pos 0)) s.channel_relations ku)))
        (filter (λ (ku : KickUser). any (λ id. text_eq id ku.discord_id) member_ids) s.kick_users)

  supplied :
      (a b c : Bind) (binds : List Bind) → Supplies 2 ((a ∷ b ∷ []) ++ (binds ++ c ∷ [])) binds
  supplied a b c binds = λ i x e.
      get_elem?-append (a ∷ b ∷ []) (binds ++ c ∷ []) i ∙ get_elem?-append_left binds (c ∷ []) i e

  each_agrees :
      (limit : ℕ) (channel_id : Option ℤ) (member_ids : List Text) (relations : List Relation)
      (users : List KickUser)
      → All (λ ku. IsPast now (join_channel (unwrap_or channel_id (pos 0)) relations ku)) users
      → All
          (λ ku.
            selected (
              rule_truth tilde
                ((int_bind (unwrap_or channel_id (pos 0)) ∷ text_array_bind member_ids ∷ [])
                  ++ ((build_rule_where parsed.rule_tree 2).1 ++ int_bind (pos limit) ∷ []))
                now
                (join_channel (unwrap_or channel_id (pos 0)) relations ku)
                (build_rule_where parsed.rule_tree 2).0)
            ≡ some (
                evaluate host.re now parsed.rule_tree
                  (facts_of (join_channel (unwrap_or channel_id (pos 0)) relations ku))))
          users
  each_agrees limit channel_id member_ids relations [] h = tt
  each_agrees limit channel_id member_ids relations (u ∷ users) h = (
    saved_rule_agrees host sat tilde body parsed _ now _ 2 accepted text shared h.0
        (supplied _ _ _ (build_rule_where parsed.rule_tree 2).1),
    each_agrees limit channel_id member_ids relations users h.1,
  )

  -- For a rule that the validator accepts, the users that a bulk sync uploads are those members of
  -- the guild, linked to a Kick account, whom the evaluator grants the role on their facts about the
  -- channel: put in order, and cut off at the limit. It is supposed that Postgres reads the patterns
  -- of this rule's regex conditions as the regex crate does, every `not_in` list holds a text, and
  -- no stored moment lies in the future.
  pub qualifying-granted :
      (collate : Text → Text → Bool) (channel_id : Option ℤ) (member_ids : List Text) (limit : ℕ)
      (s : Store)
      → All
          (λ ku. IsPast now (join_channel (unwrap_or channel_id (pos 0)) s.channel_relations ku))
          s.kick_users
      → qualifying collate tilde now parsed.rule_tree channel_id member_ids limit s
        ≡ ordered collate limit
            (some (map (λ (ku : KickUser). ku.discord_id) (granted channel_id member_ids s)))
  unfolding qualifying
  qualifying-granted collate channel_id member_ids limit s past =
      by_case parsed.rule_tree.grant_on_any_relation refl
    where
      is_member : KickUser → Bool
      is_member ku = any (λ id. text_eq id ku.discord_id) member_ids

      by_case :
          (b : Bool)
          → parsed.rule_tree.grant_on_any_relation ≡ b
          → qualifying collate tilde now parsed.rule_tree channel_id member_ids limit s
            ≡ ordered collate limit
                (some (map (λ (ku : KickUser). ku.discord_id) (granted channel_id member_ids s)))
      by_case true e =
          let all_of_them : granted channel_id member_ids s ≡ filter is_member s.kick_users =
            filter_all _ _ (λ ku. unfold evaluate in rw e refl) in
          ap (ordered collate limit) (
            if_true parsed.rule_tree.grant_on_any_relation _ _ _ e (
              ap (λ (users : List KickUser). some (map (λ (ku : KickUser). ku.discord_id) users))
                (sym all_of_them)))
      by_case false e = ap (ordered collate limit) (
          if_false parsed.rule_tree.grant_on_any_relation _ _ _ e (
            where_true-eq _ _ (join_channel (unwrap_or channel_id (pos 0)) s.channel_relations)
              (filter is_member s.kick_users) (λ ku. unfold join_channel in refl)
              (each_agrees limit channel_id member_ids s.channel_relations _
                (filter-All _ is_member s.kick_users past))))
