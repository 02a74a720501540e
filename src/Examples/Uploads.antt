-- ===== src/Examples/Uploads.antt =====
-- The client of RoleLogic at work: a short list, and a link that is gone.
use kick_channel_role.Prelude.{◌≡◌, ◌⊎◌, true, some, List, [], ◌∷◌, Result, ok}
use kick_channel_role.Prelude.Text.{Text, codes}
use kick_channel_role.Json.{null}
use kick_channel_role.AppError.{AppError}
use kick_channel_role.Sync.{sync_link}
use kick_channel_role.RoleLogic.{Wire, run}
use kick_channel_role.RoleLogic.Upload.{upload_users, get_user_info, add_user, remove_user}
use kick_channel_role.RoleLogic.Trace.{IsUpload, upload_users-IsUpload}
use kick_channel_role.RoleLogic.Founded.{IsFounded}
use kick_channel_role.RoleLogic.Errors.{client-IsFounded}
use kick_channel_role.RoleLogic.Links.{upstream_of, IsGone, sync_link-link_gone}
use kick_channel_role.Examples.{plain_tilde, sample_tree}
use kick_channel_role.Examples.Rules.{now}
use kick_channel_role.Examples.Syncs.{collate, link, store}

-- Every request is answered by 403.
abbrev wire : Wire
wire = record {
  answer = λ sent q. ok (record { status = 403; body = codes "Invalid or revoked token" });
  show_status = λ n. codes "403 Forbidden";
  parse_json = λ t. some null;
  json_error = λ t. codes "no JSON";
}

abbrev users : List Text
users = codes "100" ∷ codes "101" ∷ []

abbrev members : Text → Result AppError (List Text)
members g = ok users

upload_users-IsUpload_example :
    IsUpload wire
      (codes "5")
      (codes "6")
      (codes "t")
      users
      []
      (run (upload_users wire (codes "5") (codes "6") (codes "t") users) [])
upload_users-IsUpload_example =
    upload_users-IsUpload wire (codes "5") (codes "6") (codes "t") users []

client-IsFounded_example :
    IsFounded wire [] (run (get_user_info wire (codes "5") (codes "6") (codes "t")) [])
    × IsFounded wire [] (run (add_user wire (codes "5") (codes "6") (codes "t") (codes "100")) [])
    × IsFounded wire []
        (run (remove_user wire (codes "5") (codes "6") (codes "t") (codes "100")) [])
    × IsFounded wire [] (run (upload_users wire (codes "5") (codes "6") (codes "t") users) [])
client-IsFounded_example =
    client-IsFounded wire (codes "5") (codes "6") (codes "t") (codes "100") users []

sync_link-link_gone_example :
    ((sync_link
        (λ v w. true)
        (λ v. some sample_tree)
        collate
        plain_tilde
        (upstream_of wire [] [] members)
        now
        link
        store).0.role_links
      ≡ store.role_links)
    ⊎ IsGone
        (λ v w. true)
        (λ v. some sample_tree)
        collate
        plain_tilde
        wire
        []
        []
        members
        now
        link
        store
sync_link-link_gone_example =
    sync_link-link_gone (λ v w. true) (λ v. some sample_tree) collate plain_tilde wire [] [] members
      now link store
