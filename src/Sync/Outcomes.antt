-- ===== src/Sync/Outcomes.antt =====
-- src/services/sync.rs: what the sync of a link may do to the tables, on every answer.
use kick_channel_role.Prelude.{
  ℕ, ◌≡◌, refl, Bool, true, false, Option, none, some, List, [], ◌∷◌, any, Result, ok, err,
  unwrap_or,
}
use kick_channel_role.Prelude.Text.{Text}
use kick_channel_role.Json.{Value}
use kick_channel_role.Rule.Tree.{RuleTree}
use kick_channel_role.Rule.Facts.{DateTime}
use kick_channel_role.AppError.{AppError, role_link_not_found, role_link_disabled, removal_held}
use kick_channel_role.Sync.{
  RoleLink, Store, Upstream, delete_orphan_role_link, replace_assignments, is_assigned, same_texts,
  current, recheck_held, after_upload, drain_to_empty, put_users, after_info, after_members,
  grants_nobody, default_tree, sync_link,
}

module _ (json_eq : Value → Value → Bool) (read_tree : Value → Option RuleTree)
    (collate : Text → Text → Bool) (tilde : Text → Text → Option Bool) (up : Upstream)
    (now : DateTime) (link : RoleLink) (s : Store) where
  -- What a sync may leave: the assignments are replaced only by a list that RoleLogic accepted, a
  -- look later is booked only if it holds the list, and the link goes only if it knows none.
  pub data IsOutcome : Store × Result AppError (Unit {0}) → Type 0 where
    unchanged : IsOutcome (s, ok tt)
    failed : (e : AppError) → IsOutcome (s, err e)
    mirrored :
        (users : List Text)
        → up.upload_users link.guild_id link.role_id users link.api_token ≡ ok tt
        → IsOutcome (replace_assignments link.guild_id link.role_id users s, ok tt)
    held :
        (users : List Text)
        → up.upload_users link.guild_id link.role_id users link.api_token ≡ err removal_held
        → IsOutcome (recheck_held json_eq now link.guild_id link.role_id s, ok tt)
    gone_on_upload :
        (users : List Text)
        → up.upload_users link.guild_id link.role_id users link.api_token ≡ err role_link_not_found
        → IsOutcome (delete_orphan_role_link link.guild_id link.role_id s, ok tt)
    gone_on_info :
        up.user_info link.guild_id link.role_id link.api_token ≡ err role_link_not_found
        → IsOutcome (delete_orphan_role_link link.guild_id link.role_id s, ok tt)

  upload-IsOutcome :
      (users : List Text) (answer : Result AppError (Unit {0}))
      → up.upload_users link.guild_id link.role_id users link.api_token ≡ answer
      → IsOutcome (after_upload json_eq now link.guild_id link.role_id users s answer)
  unfolding after_upload
  upload-IsOutcome users (ok u) e = mirrored users e
  upload-IsOutcome users (err role_link_not_found) e = gone_on_upload users e
  upload-IsOutcome users (err role_link_disabled) e = unchanged
  upload-IsOutcome users (err removal_held) e = held users e
  upload-IsOutcome users (err other) e = failed other

  drain-IsOutcome : IsOutcome (
      drain_to_empty json_eq read_tree collate tilde up now link.guild_id link.role_id
        link.api_token s)
  unfolding drain_to_empty
  drain-IsOutcome = by_case (any (is_assigned link.guild_id link.role_id) s.role_assignments) refl
    where
      by_case :
          (b : Bool)
          → any (is_assigned link.guild_id link.role_id) s.role_assignments ≡ b
          → IsOutcome (
              drain_to_empty json_eq read_tree collate tilde up now link.guild_id link.role_id
                link.api_token s)
      by_case true e = rw e (upload-IsOutcome [] _ refl)
      by_case false e = rw e unchanged

  put-IsOutcome :
      (found : Option (List Text))
      → IsOutcome (
          put_users json_eq read_tree collate tilde up now link.guild_id link.role_id link.api_token
            found s)
  unfolding put_users
  put-IsOutcome none = failed _
  put-IsOutcome (some users) =
      by_case (same_texts (current collate link.guild_id link.role_id s) users) refl
    where
      by_case :
          (b : Bool)
          → same_texts (current collate link.guild_id link.role_id s) users ≡ b
          → IsOutcome (
              put_users json_eq read_tree collate tilde up now link.guild_id link.role_id
                link.api_token
                (some users)
                s)
      by_case true e = rw e unchanged
      by_case false e = rw e (upload-IsOutcome users _ refl)

  info-IsOutcome :
      (tree : RuleTree) (members : List Text) (answer : Result AppError ℕ)
      → up.user_info link.guild_id link.role_id link.api_token ≡ answer
      → IsOutcome (after_info json_eq read_tree collate tilde up now link tree members s answer)
  unfolding after_info
  info-IsOutcome tree members (ok n) e = put-IsOutcome _
  info-IsOutcome tree members (err role_link_not_found) e = gone_on_info e
  info-IsOutcome tree members (err role_link_disabled) e = unchanged
  info-IsOutcome tree members (err other) e = failed other

  members-IsOutcome :
      (tree : RuleTree) (answer : Result AppError (List Text))
      → IsOutcome (after_members json_eq read_tree collate tilde up now link tree s answer)
  unfolding after_members
  members-IsOutcome tree (err e) = failed e
  members-IsOutcome tree (ok []) = drain-IsOutcome
  members-IsOutcome tree (ok (m ∷ ms)) = info-IsOutcome tree (m ∷ ms) _ refl

  -- Whatever the gateway and RoleLogic answer, a sync of a link either leaves all tables as they are,
  -- or replaces the link's assignments by a list of users that RoleLogic accepted, or books a later
  -- look where RoleLogic holds the list, or deletes the link where RoleLogic does not know it.
  pub sync_link-IsOutcome : IsOutcome (sync_link json_eq read_tree collate tilde up now link s)
  unfolding sync_link drain_to_empty
  sync_link-IsOutcome =
      by_case
        (grants_nobody (unwrap_or (read_tree link.rule_tree) default_tree) link.kick_channel_id)
        refl
    where
      by_case :
          (b : Bool)
          → grants_nobody (unwrap_or (read_tree link.rule_tree) default_tree) link.kick_channel_id
            ≡ b
          → IsOutcome (sync_link json_eq read_tree collate tilde up now link s)
      by_case true e = rw e drain-IsOutcome
      by_case false e = rw e (
          members-IsOutcome (unwrap_or (read_tree link.rule_tree) default_tree)
            (up.guild_member_ids link.guild_id))
