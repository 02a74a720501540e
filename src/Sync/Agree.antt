-- ===== src/Sync/Agree.antt =====
-- src/services/sync.rs: the sync of a link and the sync of a member decide alike.
use kick_channel_role.Prelude.{
  ℕ, zero, suc, ◌≤◌, ◌≡◌, ◌≢◌, refl, sym, ap, ◌∙◌, Bool, true, false, ◌&&◌, ◌||◌, Option, none,
  some, List, [], ◌∷◌, map, any, All, length, unwrap_or, ok, arith,
}
use kick_channel_role.Prelude.Int.{ℤ}
use kick_channel_role.Prelude.Text.{Text, text_eq, text_eq_sound}
use kick_channel_role.Json.{Value}
use kick_channel_role.Rule.Facts.{DateTime}
use kick_channel_role.Rule.Tree.{ConditionGroup, RuleTree}
use kick_channel_role.Relation.{KickUser, facts_of}
use kick_channel_role.Eval.{evaluate}
use kick_channel_role.Validator.{Host, RuleTreeBody, ParsedRule, parse_rule_tree, filter}
use kick_channel_role.Validator.Numbers.{IsSaturating}
use kick_channel_role.RuleSql.Equivalence.{IsPast}
use kick_channel_role.RuleSql.Saved.{HasText, HasSharedPattern}
use kick_channel_role.Sync.{
  RoleLink, Store, find, take, insert, order_by, ordered, join_channel, qualifying,
}
use kick_channel_role.Sync.Grants.{granted, qualifying-granted}
use kick_channel_role.Sync.Players.{facts_row, is_linked, qualifies_by, qualifies}

-- `discord_id` is the primary key of kick_users.
abbrev pub AreDistinctUsers : List KickUser → Type 0
AreDistinctUsers [] = Unit
AreDistinctUsers (u ∷ us) =
    All (λ (v : KickUser). u.discord_id ≢ v.discord_id) us × AreDistinctUsers us

module _ (collate : Text → Text → Bool) (t : Text → Bool) where
  any-insert : (x : Text) (ys : List Text) → any t (insert collate x ys) ≡ (t x || any t ys)
  unfolding insert
  any-insert x [] = refl
  any-insert x (y ∷ ys) = by_case (collate x y) refl (any-insert x ys)
    where
      by_case :
          (b : Bool)
          → collate x y ≡ b
          → any t (insert collate x ys) ≡ (t x || any t ys)
          → any t (insert collate x (y ∷ ys)) ≡ (t x || any t (y ∷ ys))
      by_case true e h = rw e refl
      by_case false e h = rw (e, h) (ground arith)

  any-order_by : (xs : List Text) → any t (order_by collate xs) ≡ any t xs
  unfolding order_by
  any-order_by [] = refl
  any-order_by (x ∷ xs) = any-insert x (order_by collate xs) ∙ ap (λ b. t x || b) (any-order_by xs)

module _ (collate : Text → Text → Bool) where
  length-insert : (x : Text) (ys : List Text) → length (insert collate x ys) ≡ suc (length ys)
  unfolding insert
  length-insert x [] = refl
  length-insert x (y ∷ ys) = by_case (collate x y) refl (length-insert x ys)
    where
      by_case :
          (b : Bool)
          → collate x y ≡ b
          → length (insert collate x ys) ≡ suc (length ys)
          → length (insert collate x (y ∷ ys)) ≡ suc (length (y ∷ ys))
      by_case true e h = rw e refl
      by_case false e h = rw e (ap suc h)

  length-order_by : (xs : List Text) → length (order_by collate xs) ≡ length xs
  unfolding order_by
  length-order_by [] = refl
  length-order_by (x ∷ xs) = length-insert x (order_by collate xs) ∙ ap suc (length-order_by xs)

take_all : (n : ℕ) (xs : List Text) → length xs ≤ n → take n xs ≡ xs
take_all zero [] h = refl
take_all zero (x ∷ xs) h = absurd (omega (arith, h))
take_all (suc n) [] h = refl
take_all (suc n) (x ∷ xs) h = ap (λ l. x ∷ l) (take_all n xs (omega (arith, h)))

length-filter : (p : KickUser → Bool) (us : List KickUser) → length (filter p us) ≤ length us
unfolding filter
length-filter p [] = omega arith
length-filter p (u ∷ us) = by_case (p u) refl (length-filter p us)
  where
    by_case :
        (b : Bool)
        → p u ≡ b
        → length (filter p us) ≤ length us
        → length (filter p (u ∷ us)) ≤ length (u ∷ us)
    by_case true e h = rw e (omega (arith, h))
    by_case false e h = rw e (omega (arith, h))

abbrev ids : List KickUser → List Text
ids us = map (λ (u : KickUser). u.discord_id) us

length-ids : (us : List KickUser) → length (ids us) ≡ length us
length-ids [] = refl
length-ids (u ∷ us) = ap suc (length-ids us)

module _ (discord_id : Text) where
  abbrev is_it : KickUser → Bool
  is_it u = text_eq u.discord_id discord_id

  any-ids :
      (f g : KickUser → Bool) (us : List KickUser)
      → any (λ id. text_eq id discord_id) (ids (filter g (filter f us)))
        ≡ any (λ u. f u && (g u && is_it u)) us
  unfolding filter
  any-ids f g [] = refl
  any-ids f g (u ∷ us) = by_case (f u) (g u) refl refl (any-ids f g us)
    where
      by_case :
          (a b : Bool)
          → f u ≡ a
          → g u ≡ b
          → any (λ id. text_eq id discord_id) (ids (filter g (filter f us)))
            ≡ any (λ u. f u && (g u && is_it u)) us
          → any (λ id. text_eq id discord_id) (ids (filter g (filter f (u ∷ us))))
            ≡ any (λ u. f u && (g u && is_it u)) (u ∷ us)
      by_case true true p q h = rw (p, q) (ap (λ b. is_it u || b) h)
      by_case true false p q h = rw (p, q) h
      by_case false b p q h = rw p h

  -- What holds of the user that is found.
  abbrev holds_of : (KickUser → Bool) → Option KickUser → Bool
  holds_of g none = false
  holds_of g (some u) = g u

  none_other :
      (f g : KickUser → Bool) (u : KickUser) (us : List KickUser)
      → is_it u ≡ true
      → All (λ (v : KickUser). u.discord_id ≢ v.discord_id) us
      → any (λ v. f v && (g v && is_it v)) us ≡ false
  none_other f g u [] e h = refl
  none_other f g u (v ∷ us) e h = by_case (is_it v) refl (none_other f g u us e h.1)
    where
      by_case :
          (b : Bool)
          → is_it v ≡ b
          → any (λ v. f v && (g v && is_it v)) us ≡ false
          → any (λ v. f v && (g v && is_it v)) (v ∷ us) ≡ false
      by_case true q r = absurd (h.0 (text_eq_sound _ _ e ∙ sym (text_eq_sound _ _ q)))
      by_case false q r = rw (q, r) (ground arith)

  any-find :
      (f g : KickUser → Bool) (us : List KickUser)
      → ((u : KickUser) → is_it u ≡ true → f u ≡ true)
      → AreDistinctUsers us
      → any (λ u. f u && (g u && is_it u)) us ≡ holds_of g (find is_it us)
  any-find f g [] m d = refl
  any-find f g (u ∷ us) m d = by_case (is_it u) refl (any-find f g us m d.1)
    where
      by_case :
          (b : Bool)
          → is_it u ≡ b
          → any (λ u. f u && (g u && is_it u)) us ≡ holds_of g (find is_it us)
          → any (λ u. f u && (g u && is_it u)) (u ∷ us) ≡ holds_of g (find is_it (u ∷ us))
      by_case true e h = rw (e, m u e, none_other f g u us e d.0) (ground arith)
      by_case false e h = rw (e, h) (ground arith)

  any-found : (us : List KickUser) → any is_it us ≡ holds_of (λ u. true) (find is_it us)
  any-found [] = refl
  any-found (u ∷ us) = by_case (is_it u) refl (any-found us)
    where
      by_case :
          (b : Bool)
          → is_it u ≡ b
          → any is_it us ≡ holds_of (λ u. true) (find is_it us)
          → any is_it (u ∷ us) ≡ holds_of (λ u. true) (find is_it (u ∷ us))
      by_case true e h = rw e refl
      by_case false e h = rw e h

module _ (host : Host) (sat : IsSaturating host) (tilde : Text → Text → Option Bool)
    (body : RuleTreeBody) (parsed : ParsedRule) (accepted : parse_rule_tree host body ≡ ok parsed)
    (text : All (λ (g : ConditionGroup). All HasText g.conditions) parsed.rule_tree.groups)
    (shared : All
      (λ (g : ConditionGroup). All (HasSharedPattern host.re tilde) g.conditions)
      parsed.rule_tree.groups)
    (now : DateTime) (read_tree : Value → Option RuleTree) (link : RoleLink) (channel_id : ℤ)
    (stored : read_tree link.rule_tree ≡ some parsed.rule_tree)
    (bound : link.kick_channel_id ≡ some channel_id) (s : Store) where
  -- The evaluation on the row that the bulk query joins for a user.
  abbrev keeps : KickUser → Bool
  keeps ku =
      evaluate host.re now parsed.rule_tree
        (facts_of (join_channel channel_id s.channel_relations ku))

  -- The member's own decision, by the user that is found.
  qualifies-found :
      (discord_id : Text)
      → qualifies host.re now read_tree link discord_id s
        ≡ holds_of discord_id keeps (find (is_it discord_id) s.kick_users)
  unfolding qualifies qualifies_by
  qualifies-found d = rw (stored, bound) (by_grant parsed.rule_tree.grant_on_any_relation refl)
    where
      by_grant :
          (b : Bool)
          → parsed.rule_tree.grant_on_any_relation ≡ b
          → qualifies_by host.re now parsed.rule_tree (some channel_id) d s
            ≡ holds_of d keeps (find (is_it d) s.kick_users)
      by_grant true e =
          let left : qualifies_by host.re now parsed.rule_tree (some channel_id) d s
              ≡ is_linked d s =
            rw e refl in
          let linked : is_linked d s ≡ holds_of d (λ u. true) (find (is_it d) s.kick_users) =
            unfold is_linked in any-found d s.kick_users in
          left ∙ linked ∙ by_found (find (is_it d) s.kick_users)
        where
          by_found : (o : Option KickUser) → holds_of d (λ u. true) o ≡ holds_of d keeps o
          by_found none = refl
          by_found (some u) = unfold evaluate in rw e refl
      by_grant false e = by_found (find (is_it d) s.kick_users) refl
        where
          by_found :
              (o : Option KickUser)
              → find (is_it d) s.kick_users ≡ o
              → qualifies_by host.re now parsed.rule_tree (some channel_id) d s ≡ holds_of d keeps o
          by_found none q = unfold facts_row in rw (q, e) refl
          by_found (some u) q = unfold facts_row in rw (q, e) refl

  granted-qualifies :
      (discord_id : Text) (member_ids : List Text)
      → any (λ id. text_eq id discord_id) member_ids ≡ true
      → AreDistinctUsers s.kick_users
      → any
          (λ id. text_eq id discord_id)
          (ids (
            granted host sat tilde body parsed accepted text shared now
              (some channel_id)
              member_ids
              s))
        ≡ qualifies host.re now read_tree link discord_id s
  granted-qualifies d member_ids m u =
      any-ids d (λ ku. any (λ id. text_eq id ku.discord_id) member_ids) keeps s.kick_users
      ∙ any-find d _ keeps s.kick_users (λ ku e. rw (text_eq_sound ku.discord_id d e) m) u
      ∙ sym (qualifies-found d)

  -- Suppose that a link has a channel and a rule that the validator accepted, with `not_in` lists
  -- that hold a text and patterns that Postgres reads as the regex crate does; that the ids of the
  -- linked users are distinct and no stored moment lies in the future. Then the sync of the link and
  -- the sync of a member of its guild decide alike: where the limit is no less than the number of
  -- linked users, the list that the first uploads holds the member exactly if the second says that
  -- the member qualifies.
  pub qualifying-qualifies :
      (collate : Text → Text → Bool) (discord_id : Text) (member_ids users : List Text) (limit : ℕ)
      → any (λ id. text_eq id discord_id) member_ids ≡ true
      → AreDistinctUsers s.kick_users
      → All (λ ku. IsPast now (join_channel channel_id s.channel_relations ku)) s.kick_users
      → length s.kick_users ≤ limit
      → qualifying collate tilde now parsed.rule_tree (some channel_id) member_ids limit s
        ≡ some users
      → any (λ id. text_eq id discord_id) users ≡ qualifies host.re now read_tree link discord_id s
  unfolding ordered
  qualifying-qualifies collate d member_ids users limit m u past roomy found =
      let xs : List Text = ids (
        granted host sat tilde body parsed accepted text shared now (some channel_id) member_ids
          s) in
      let listed : some users ≡ some (take limit (order_by collate xs)) =
        sym found
        ∙ qualifying-granted host sat tilde body parsed accepted text shared now collate
            (some channel_id) member_ids limit s past in
      let few : length (order_by collate xs) ≤ limit = omega (
        arith,
        roomy,
        length-order_by collate xs,
        length-ids (
            granted host sat tilde body parsed accepted text shared now (some channel_id) member_ids
              s),
        length-filter keeps (
            filter (λ (ku : KickUser). any (λ id. text_eq id ku.discord_id) member_ids)
              s.kick_users),
        length-filter (λ (ku : KickUser). any (λ id. text_eq id ku.discord_id) member_ids)
            s.kick_users,
      ) in
      let same : users ≡ order_by collate xs =
        ap (λ (o : Option (List Text)). unwrap_or o []) listed ∙ take_all limit _ few in
      rw same (any-order_by collate (λ id. text_eq id d) xs ∙ granted-qualifies d member_ids m u)
