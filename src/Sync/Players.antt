-- ===== src/Sync/Players.antt =====
-- src/services/sync.rs, `sync_for_player`: the decision and the action for one member and one link,
-- of which a member's sync runs one for each link of the member's guilds. What RoleLogic answers to
-- `add_user` and `remove_user` is an argument.
use kick_channel_role.Prelude.{
  Bool, true, false, not, ◌&&◌, Option, none, some, [], ◌∷◌, ◌++◌, any, if◌then◌else◌, Result, ok,
  err, unwrap_or,
}
use kick_channel_role.Prelude.Int.{ℤ}
use kick_channel_role.Prelude.Text.{Text, text_eq}
use kick_channel_role.Json.{Value}
use kick_channel_role.Rule.Tree.{RuleTree}
use kick_channel_role.Rule.Facts.{DateTime}
use kick_channel_role.Relation.{KickUser, JoinedRow, facts_of}
use kick_channel_role.AppError.{AppError, role_link_not_found}
use kick_channel_role.Eval.{Regex, evaluate}
use kick_channel_role.Validator.{filter}
use kick_channel_role.Sync.{
  RoleLink, Assignment, Store, find, is_assigned, join_channel, delete_orphan_role_link,
  default_tree,
}

-- `FACTS_SELECT`.
unfoldable pub facts_row : Text → ℤ → Store → Option JoinedRow
facts_row discord_id channel_id s =
    elim (find (λ (ku : KickUser). text_eq ku.discord_id discord_id) s.kick_users) [
      | none ↦ none
      | some ku ↦ some (join_channel channel_id s.channel_relations ku)
    ]

unfoldable pub is_linked : Text → Store → Bool
is_linked discord_id s = any (λ (ku : KickUser). text_eq ku.discord_id discord_id) s.kick_users

-- The assignment of one user.
unfoldable pub is_user : Text → Text → Text → Assignment → Bool
is_user guild_id role_id discord_id a =
    is_assigned guild_id role_id a && text_eq a.discord_id discord_id

unfoldable pub has_role : Text → Text → Text → Store → Bool
has_role guild_id role_id discord_id s =
    any (is_user guild_id role_id discord_id) s.role_assignments

-- `INSERT … ON CONFLICT DO NOTHING`.
unfoldable pub assign : Text → Text → Text → Store → Store
unfolding has_role
assign guild_id role_id discord_id s =
    if has_role guild_id role_id discord_id s then s else record s {
      role_assignments =
          s.role_assignments
          ++ record { guild_id = guild_id; role_id = role_id; discord_id = discord_id } ∷ [];
    }

unfoldable pub unassign : Text → Text → Text → Store → Store
unassign guild_id role_id discord_id s = record s {
  role_assignments = filter (λ a. not (is_user guild_id role_id discord_id a)) s.role_assignments;
}

module _ (re : Regex) (now : DateTime) where
  unfoldable pub qualifies_by : RuleTree → Option ℤ → Text → Store → Bool
  qualifies_by tree none discord_id s = tree.grant_on_any_relation && is_linked discord_id s
  qualifies_by tree (some channel_id) discord_id s =
      if tree.grant_on_any_relation
      then is_linked discord_id s
      else elim (facts_row discord_id channel_id s) [
        | none ↦ false
        | some row ↦ evaluate re now tree (facts_of row)
      ]

  module _ (read_tree : Value → Option RuleTree) where
    unfoldable pub qualifies : RoleLink → Text → Store → Bool
    unfolding qualifies_by
    qualifies link discord_id s =
        qualifies_by (unwrap_or (read_tree link.rule_tree) default_tree) link.kick_channel_id
          discord_id s

    module _ (add_user remove_user : Text → Text → Text → Text → Result AppError (Unit {0})) where
      -- After RoleLogic's answer; any other error is logged.
      unfoldable pub after_add : RoleLink → Text → Store → Result AppError (Unit {0}) → Store
      after_add link discord_id s (ok u) = assign link.guild_id link.role_id discord_id s
      after_add link discord_id s (err role_link_not_found) =
          delete_orphan_role_link link.guild_id link.role_id s
      after_add link discord_id s (err e) = s

      unfoldable pub after_remove : RoleLink → Text → Store → Result AppError (Unit {0}) → Store
      after_remove link discord_id s (ok u) = unassign link.guild_id link.role_id discord_id s
      after_remove link discord_id s (err role_link_not_found) =
          delete_orphan_role_link link.guild_id link.role_id s
      after_remove link discord_id s (err e) = s

      -- The `match` on whether the member qualifies and has the role.
      unfoldable pub act : RoleLink → Text → Store → Bool → Bool → Store
      unfolding after_add after_remove
      act link discord_id s true false =
          after_add link discord_id s
            (add_user link.guild_id link.role_id discord_id link.api_token)
      act link discord_id s false true =
          after_remove link discord_id s
            (remove_user link.guild_id link.role_id discord_id link.api_token)
      act link discord_id s _ _ = s

      unfoldable pub sync_player_link : RoleLink → Text → Store → Store
      unfolding act
      sync_player_link link discord_id s =
          act link discord_id s (qualifies link discord_id s)
            (has_role link.guild_id link.role_id discord_id s)
