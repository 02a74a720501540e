-- ===== src/Sync.antt =====
-- src/services/sync.rs: the assignments of a role are brought in line with its rule, here and on
-- RoleLogic. The state is the tables that the sync reads and writes; what RoleLogic and the
-- authentication gateway answer is an argument, and so are Postgres' order of texts, `collate`, and
-- its operator `~`.
pub mod Order
pub mod Mirror
pub mod Outcomes
pub mod Grants
pub mod Players
pub mod Roles
pub mod Agree
use kick_channel_role.Prelude.{
  ℕ, zero, suc, Bool, true, false, not, ◌&&◌, ◌||◌, Option, none, some, List, [], ◌∷◌, ◌++◌, map,
  any, is_empty, if◌then◌else◌, Result, ok, err, unwrap_or,
}
use kick_channel_role.Prelude.Int.{ℤ, pos, eqb_ℤ}
use kick_channel_role.Prelude.Text.{Text, text_eq}
use kick_channel_role.Json.{Value}
use kick_channel_role.Rule.Tree.{RuleTree}
use kick_channel_role.Rule.Facts.{DateTime}
use kick_channel_role.Relation.{Relation, KickUser, JoinedRow}
use kick_channel_role.AppError.{
  AppError, role_link_not_found, role_link_disabled, removal_held, database,
}
use kick_channel_role.Validator.{filter}
use kick_channel_role.RuleSql.{Bind, int_bind, text_array_bind, build_rule_where}
use kick_channel_role.RuleSql.Semantics.{selected, rule_truth}
use kick_channel_role.Jobs.{Queue, enqueue_config_sync, enqueue_config_sync_unless_queued}

pub record RoleLink : Type 0 where
  pub guild_id : Text
  pub role_id : Text
  pub api_token : Text
  pub kick_channel_id : Option ℤ
  pub rule_tree : Value

pub record Assignment : Type 0 where
  pub guild_id : Text
  pub role_id : Text
  pub discord_id : Text

-- The tables.
pub record Store : Type 0 where
  pub role_links : List RoleLink
  pub role_assignments : List Assignment
  pub kick_users : List KickUser
  pub channel_relations : List Relation
  pub jobs : Queue

-- What the gateway and RoleLogic answer; `user_info` gives the limit on users.
pub record Upstream : Type 0 where
  pub guild_member_ids : Text → Result AppError (List Text)
  pub user_info : Text → Text → Text → Result AppError ℕ
  pub upload_users : Text → Text → List Text → Text → Result AppError (Unit {0})

abbrev pub find {ℓ} : {A : Type ℓ} → (A → Bool) → List A → Option A
find p [] = none
find p (x ∷ xs) = if p x then some x else find p xs

-- `LIMIT n`.
abbrev pub take {ℓ} : {A : Type ℓ} → ℕ → List A → List A
take zero xs = []
take (suc n) [] = []
take (suc n) (x ∷ xs) = x ∷ take n xs

unfoldable pub is_link : Text → Text → RoleLink → Bool
is_link guild_id role_id l = text_eq l.guild_id guild_id && text_eq l.role_id role_id

unfoldable pub is_assigned : Text → Text → Assignment → Bool
is_assigned guild_id role_id a = text_eq a.guild_id guild_id && text_eq a.role_id role_id

abbrev pub same_texts : List Text → List Text → Bool
same_texts [] [] = true
same_texts (x ∷ xs) (y ∷ ys) = text_eq x y && same_texts xs ys
same_texts _ _ = false

-- Deletes the link, and its assignments by the cascade.
unfoldable pub delete_orphan_role_link : Text → Text → Store → Store
delete_orphan_role_link guild_id role_id s = record s {
  role_links = filter (λ l. not (is_link guild_id role_id l)) s.role_links;
  role_assignments = filter (λ a. not (is_assigned guild_id role_id a)) s.role_assignments;
}

-- The DELETE and the INSERT of one transaction.
unfoldable pub replace_assignments : Text → Text → List Text → Store → Store
replace_assignments guild_id role_id users s = record s {
  role_assignments =
      filter (λ a. not (is_assigned guild_id role_id a)) s.role_assignments
      ++ map (λ user. record { guild_id = guild_id; role_id = role_id; discord_id = user }) users;
}

-- The users of a query's rows, or none where some row raises a type error.
unfoldable pub where_true : (JoinedRow → Option Bool) → List JoinedRow → Option (List Text)
where_true test [] = some []
where_true test (row ∷ rows) =
    let rest = where_true test rows in
    elim (test row) [
      | none ↦ none
      | some keep ↦ elim rest [
        | none ↦ none
        | some users ↦ some (if keep then row.ku.discord_id ∷ users else users)
      ]
    ]

-- `kick_users ku LEFT JOIN channel_relations cr` on one channel.
unfoldable pub join_channel : ℤ → List Relation → KickUser → JoinedRow
join_channel channel_id relations ku = record {
  ku = ku;
  cr =
      find
        (λ (r : Relation).
          eqb_ℤ r.kick_user_id ku.kick_user_id && eqb_ℤ r.kick_channel_id channel_id)
        relations;
}

unfoldable pub held_recheck_secs : ℕ
held_recheck_secs = 1200

-- A rule that reads facts and has no channel, or has no groups.
unfoldable pub grants_nobody : RuleTree → Option ℤ → Bool
grants_nobody tree none = not tree.grant_on_any_relation
grants_nobody tree (some c) = not tree.grant_on_any_relation && is_empty tree.groups

abbrev pub default_tree : RuleTree
default_tree = record { grant_on_any_relation = false; groups = [] }

module _ (collate : Text → Text → Bool) where
  -- `ORDER BY`.
  unfoldable pub insert : Text → List Text → List Text
  insert x [] = x ∷ []
  insert x (y ∷ ys) = let rest = insert x ys in if collate x y then x ∷ y ∷ ys else y ∷ rest

  unfoldable pub order_by : List Text → List Text
  order_by [] = []
  order_by (x ∷ xs) = insert x (order_by xs)

  -- The mirror of a link's users.
  unfoldable pub current : Text → Text → Store → List Text
  unfolding order_by
  current guild_id role_id s = order_by (
      map (λ (a : Assignment). a.discord_id)
        (filter (is_assigned guild_id role_id) s.role_assignments))

unfoldable pub ordered : (Text → Text → Bool) → ℕ → Option (List Text) → Option (List Text)
unfolding order_by
ordered collate n none = none
ordered collate n (some users) = some (take n (order_by collate users))

module _ (collate : Text → Text → Bool) (tilde : Text → Text → Option Bool) (now : DateTime) where
  -- The members whom the rule grants the role, of whom the query keeps `user_limit`.
  unfoldable pub qualifying : RuleTree → Option ℤ → List Text → ℕ → Store → Option (List Text)
  qualifying tree channel_id member_ids user_limit s =
      let members =
        filter (λ (ku : KickUser). any (λ id. text_eq id ku.discord_id) member_ids) s.kick_users in
      let channel = unwrap_or channel_id (pos 0) in
      let (clause, binds) = build_rule_where tree 2 in
      let params =
        (int_bind channel ∷ text_array_bind member_ids ∷ [])
        ++ (binds ++ int_bind (pos user_limit) ∷ []) in
      let found =
        where_true (λ row. selected (rule_truth tilde params now row clause))
          (map (join_channel channel s.channel_relations) members) in
      ordered collate user_limit (
        if tree.grant_on_any_relation
        then some (map (λ (ku : KickUser). ku.discord_id) members)
        else found)

module _ (json_eq : Value → Value → Bool) (now : DateTime) where
  unfoldable pub recheck_held : Text → Text → Store → Store
  recheck_held guild_id role_id s = record s {
    jobs = enqueue_config_sync_unless_queued json_eq now guild_id role_id held_recheck_secs s.jobs;
  }

  -- What follows an upload, by RoleLogic's answer.
  unfoldable pub after_upload :
      Text
      → Text
      → List Text
      → Store
      → Result AppError (Unit {0})
      → Store × Result AppError (Unit {0})
  unfolding recheck_held
  after_upload guild_id role_id users s (ok u) =
      (replace_assignments guild_id role_id users s, ok tt)
  after_upload guild_id role_id users s (err role_link_not_found) =
      (delete_orphan_role_link guild_id role_id s, ok tt)
  after_upload guild_id role_id users s (err role_link_disabled) = (s, ok tt)
  after_upload guild_id role_id users s (err removal_held) =
      (recheck_held guild_id role_id s, ok tt)
  after_upload guild_id role_id users s (err e) = (s, err e)

module _ (json_eq : Value → Value → Bool) (read_tree : Value → Option RuleTree)
    (collate : Text → Text → Bool) (tilde : Text → Text → Option Bool) (up : Upstream)
    (now : DateTime) where
  unfoldable pub drain_to_empty : Text → Text → Text → Store → Store × Result AppError (Unit {0})
  unfolding after_upload
  drain_to_empty guild_id role_id api_token s =
      if any (is_assigned guild_id role_id) s.role_assignments
      then after_upload json_eq now guild_id role_id [] s
          (up.upload_users guild_id role_id [] api_token)
      else (s, ok tt)

  -- The steps once the limit is known.
  unfoldable pub put_users :
      Text → Text → Text → Option (List Text) → Store → Store × Result AppError (Unit {0})
  unfolding after_upload current
  put_users guild_id role_id api_token none s = (s, err (database []))
  put_users guild_id role_id api_token (some users) s =
      if same_texts (current collate guild_id role_id s) users
      then (s, ok tt)
      else after_upload json_eq now guild_id role_id users s
          (up.upload_users guild_id role_id users api_token)

  unfoldable pub after_info :
      RoleLink
      → RuleTree
      → List Text
      → Store
      → Result AppError ℕ
      → Store × Result AppError (Unit {0})
  unfolding put_users qualifying
  after_info link tree member_ids s (ok user_limit) =
      put_users link.guild_id link.role_id link.api_token
        (qualifying collate tilde now tree link.kick_channel_id member_ids user_limit s) s
  after_info link tree member_ids s (err role_link_not_found) =
      (delete_orphan_role_link link.guild_id link.role_id s, ok tt)
  after_info link tree member_ids s (err role_link_disabled) = (s, ok tt)
  after_info link tree member_ids s (err e) = (s, err e)

  unfoldable pub after_members :
      RoleLink → RuleTree → Store → Result AppError (List Text) → Store × Result AppError (Unit {0})
  unfolding after_info drain_to_empty
  after_members link tree s (err e) = (s, err e)
  after_members link tree s (ok member_ids) =
      if is_empty member_ids
      then drain_to_empty link.guild_id link.role_id link.api_token s
      else after_info link tree member_ids s
          (up.user_info link.guild_id link.role_id link.api_token)

  unfoldable pub sync_link : RoleLink → Store → Store × Result AppError (Unit {0})
  unfolding after_members drain_to_empty grants_nobody
  sync_link link s =
      let tree = unwrap_or (read_tree link.rule_tree) default_tree in
      if grants_nobody tree link.kick_channel_id
      then drain_to_empty link.guild_id link.role_id link.api_token s
      else after_members link tree s (up.guild_member_ids link.guild_id)

  unfoldable pub sync_for_role_link : Text → Text → Store → Store × Result AppError (Unit {0})
  unfolding sync_link
  sync_for_role_link guild_id role_id s = elim (find (is_link guild_id role_id) s.role_links) [
    | none ↦ (s, ok tt)
    | some link ↦ sync_link (record link { guild_id = guild_id; role_id = role_id }) s
  ]

-- Each link on the channel gets a config sync.
unfoldable pub enqueue_links : DateTime → ℤ → List RoleLink → Queue → Queue
enqueue_links now kick_channel_id [] q = q
enqueue_links now kick_channel_id (l ∷ links) q =
    let on_channel : Bool = elim l.kick_channel_id [
      | none ↦ false
      | some c ↦ eqb_ℤ c kick_channel_id
    ] in
    enqueue_links now kick_channel_id links
      (if on_channel then (enqueue_config_sync now l.guild_id l.role_id q).0 else q)

unfoldable pub sync_for_channel : DateTime → ℤ → Store → Store
unfolding enqueue_links
sync_for_channel now kick_channel_id s = record s {
  jobs = enqueue_links now kick_channel_id s.role_links s.jobs;
}
