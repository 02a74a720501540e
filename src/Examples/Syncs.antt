-- ===== src/Examples/Syncs.antt =====
-- The sync of a link at work: one member, who qualifies and has no role yet.
use kick_channel_role.Prelude.{
  ◌≡◌, refl, Bool, true, any, some, [], ◌∷◌, map, ok, err, Result, inl, arith,
}
use kick_channel_role.Prelude.Int.{pos, ◌-ℤ◌}
use kick_channel_role.Prelude.Text.{Text, codes, text_eq}
use kick_channel_role.Prelude.Text as Str
use kick_channel_role.Json.{null, as_bool, as_i64, as_str, as_array}
use kick_channel_role.Relation.{KickUser, facts_of}
use kick_channel_role.Eval.{
  evaluate, evaluate_single, bool_match, int_match, days_since, string_match, list_contains,
}
use kick_channel_role.Validator.{filter}
use kick_channel_role.AppError.{AppError, role_link_not_found}
use kick_channel_role.Sync.{
  RoleLink, Store, Upstream, join_channel, ordered, order_by, insert, qualifying, sync_link,
}
use kick_channel_role.Sync.Outcomes.{IsOutcome, sync_link-IsOutcome}
use kick_channel_role.Sync.Mirror.{sync_link-sync_link}
use kick_channel_role.Sync.Grants.{granted, qualifying-granted}
use kick_channel_role.Sync.Players.{has_role, qualifies, sync_player_link}
use kick_channel_role.Sync.Agree.{qualifying-qualifies}
use kick_channel_role.Sync.Roles.{sync_player_link-has_role}
use kick_channel_role.Examples.{
  plain, plain_tilde, sample_host, sample_body, sample_tree, sample_parsed, sample_user, follower,
}
use kick_channel_role.Examples.Rules.{
  now, sample_IsSaturating, sample-parses, sample-IsPast, sample-HasText, sample-HasSharedPattern,
}

abbrev pub collate : Text → Text → Bool
collate x y = true

abbrev upstream : Upstream
upstream = record {
  guild_member_ids = λ g. ok (codes "100" ∷ []);
  user_info = λ g r t. ok 10;
  upload_users = λ g r users t. ok tt;
}

abbrev pub link : RoleLink
link = record {
  guild_id = codes "5";
  role_id = codes "6";
  api_token = codes "t";
  kick_channel_id = some (pos 7);
  rule_tree = null;
}

abbrev pub store : Store
store = record {
  role_links = link ∷ [];
  role_assignments = [];
  kick_users = sample_user ∷ [];
  channel_relations = follower ∷ [];
  jobs = record { rows = []; next_id = 1 };
}

abbrev synced : Store × Result AppError (Unit {0})
synced = sync_link (λ v w. true) (λ v. some sample_tree) collate plain_tilde upstream now link store

sync_link-IsOutcome_example :
    IsOutcome
      (λ v w. true)
      (λ v. some sample_tree)
      collate
      plain_tilde
      upstream
      now
      link
      store
      synced
sync_link-IsOutcome_example =
    sync_link-IsOutcome (λ v w. true) (λ v. some sample_tree) collate plain_tilde upstream now link
      store

sync_link-sync_link_example :
    sync_link
      (λ v w. true)
      (λ v. some sample_tree)
      collate
      plain_tilde
      (record upstream { upload_users = λ g r users t. err role_link_not_found })
      now
      link
      synced.0
    ≡ synced
sync_link-sync_link_example =
    sync_link-sync_link (λ v w. true) (λ v. some sample_tree) collate plain_tilde upstream now
      (λ x y. inl refl) link (λ users. refl) (λ g r users t. err role_link_not_found) 10 refl store

qualifying-granted_example :
    qualifying collate plain_tilde now sample_tree (some (pos 7)) (codes "100" ∷ []) 10 store
    ≡ ordered collate 10 (
        some (
          map
            (λ (ku : KickUser). ku.discord_id)
            (granted sample_host sample_IsSaturating plain_tilde sample_body sample_parsed
              sample-parses sample-HasText sample-HasSharedPattern now
              (some (pos 7))
              (codes "100" ∷ [])
              store)))
qualifying-granted_example =
    qualifying-granted sample_host sample_IsSaturating plain_tilde sample_body sample_parsed
      sample-parses sample-HasText sample-HasSharedPattern now collate (some (pos 7))
      (codes "100" ∷ []) 10 store (unfold join_channel in (sample-IsPast, tt))

sync_player_link-has_role_example :
    has_role link.guild_id link.role_id (codes "100") (
      sync_player_link plain now
        (λ v. some sample_tree)
        (λ g r d t. ok tt)
        (λ g r d t. ok tt)
        link
        (codes "100")
        store)
    ≡ qualifies plain now (λ v. some sample_tree) link (codes "100") store
sync_player_link-has_role_example =
    sync_player_link-has_role plain now (λ v. some sample_tree) (λ g r d t. ok tt)
      (λ g r d t. ok tt) link (codes "100") store refl refl

-- The list of the bulk sync holds the member, who qualifies.
found :
    qualifying collate plain_tilde now sample_tree (some (pos 7)) (codes "100" ∷ []) 10 store
    ≡ some (codes "100" ∷ [])
unfolding ordered order_by insert filter text_eq join_channel evaluate evaluate_single facts_of
    bool_match as_bool int_match days_since as_i64 ◌-ℤ◌ string_match as_str list_contains as_array
    Str.contains
found =
    qualifying-granted sample_host sample_IsSaturating plain_tilde sample_body sample_parsed
      sample-parses sample-HasText sample-HasSharedPattern now collate (some (pos 7))
      (codes "100" ∷ []) 10 store (sample-IsPast, tt)

qualifying-qualifies_example :
    any (λ id. text_eq id (codes "100")) (codes "100" ∷ [])
    ≡ qualifies plain now (λ v. some sample_tree) link (codes "100") store
qualifying-qualifies_example =
    qualifying-qualifies sample_host sample_IsSaturating plain_tilde sample_body sample_parsed
      sample-parses sample-HasText sample-HasSharedPattern now (λ v. some sample_tree) link (pos 7)
      refl refl store collate (codes "100") (codes "100" ∷ []) (codes "100" ∷ []) 10
      (unfold text_eq in refl) (tt, tt) (unfold join_channel in (sample-IsPast, tt)) (omega arith)
      found
