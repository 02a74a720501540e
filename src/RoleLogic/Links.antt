-- ===== src/RoleLogic/Links.antt =====
-- src/services/sync.rs and src/services/rolelogic.rs together: the sync of a link with the client
-- that calls RoleLogic.
use kick_channel_role.Prelude.{ℕ, ◌≡◌, refl, ◌⊎◌, inl, inr, Bool, Option, List, [], Result, ok, err}
use kick_channel_role.Prelude.Text.{Text}
use kick_channel_role.Json.{Value}
use kick_channel_role.Rule.Tree.{RuleTree}
use kick_channel_role.Rule.Facts.{DateTime}
use kick_channel_role.AppError.{AppError, role_link_not_found}
use kick_channel_role.Sync.{RoleLink, Store, Upstream, sync_link, replace_assignments, recheck_held}
use kick_channel_role.Sync.Outcomes.{
  IsOutcome, sync_link-IsOutcome, unchanged, failed, mirrored, held, gone_on_upload, gone_on_info,
}
use kick_channel_role.RoleLogic.{Request, Wire, run}
use kick_channel_role.RoleLogic.Upload.{get_user_info, upload_users}
use kick_channel_role.RoleLogic.Founded.{SaysGone, WasAnswered, IsFounded}
use kick_channel_role.RoleLogic.Errors.{client-IsFounded}

abbrev map_ok {ℓ κ} : {A : Type ℓ} {B : Type κ} → (A → B) → Result AppError A → Result AppError B
map_ok f (ok a) = ok (f a)
map_ok f (err e) = err e

-- What the sync calls, by the client: after the requests `sent` and `sent'`.
unfoldable pub upstream_of :
    Wire → List Request → List Request → (Text → Result AppError (List Text)) → Upstream
upstream_of wire sent sent' members = record {
  guild_member_ids = members;
  user_info = λ g r t. map_ok (λ (c : ℕ × ℕ). c.1) (run (get_user_info wire g r t) sent).1;
  upload_users = λ g r users t. map_ok (λ n. tt) (run (upload_users wire g r t users) sent').1;
}

map_ok-gone {ℓ κ} :
    (wire : Wire) {A : Type ℓ} {B : Type κ} (f : A → B) (before : List Request)
    (o : List Request × Result AppError A)
    → IsFounded wire before o
    → map_ok f o.1 ≡ err role_link_not_found
    → WasAnswered wire SaysGone before o.0
map_ok-gone wire f before (s, ok a) h e = absurd (cc e)
map_ok-gone wire f before (s, err c) h e =
    let same : c ≡ role_link_not_found = cc e in rw same at h.1

module _ (json_eq : Value → Value → Bool) (read_tree : Value → Option RuleTree)
    (collate : Text → Text → Bool) (tilde : Text → Text → Option Bool) (wire : Wire)
    (sent sent' : List Request) (members : Text → Result AppError (List Text)) (now : DateTime)
    (link : RoleLink) (s : Store) where
  abbrev up : Upstream
  up = upstream_of wire sent sent' members

  -- The call for the number of the link's users, or an upload of users of the link, sent a request
  -- that RoleLogic answered by 403 with `Invalid or revoked token`.
  abbrev pub IsGone : Type 0
  IsGone =
      WasAnswered wire SaysGone sent
        (run (get_user_info wire link.guild_id link.role_id link.api_token) sent).0
      ⊎ ((users : List Text) × WasAnswered wire SaysGone sent'
            (run (upload_users wire link.guild_id link.role_id link.api_token users) sent').0)

  outcome-links :
      (o : Store × Result AppError (Unit {0}))
      → IsOutcome json_eq read_tree collate tilde up now link s o
      → (o.0.role_links ≡ s.role_links) ⊎ IsGone
  unfolding upstream_of replace_assignments recheck_held
  outcome-links _ unchanged = inl refl
  outcome-links _ (failed e) = inl refl
  outcome-links _ (mirrored users h) = inl refl
  outcome-links _ (held users h) = inl refl
  outcome-links _ (gone_on_upload users h) = inr (
      inr (
        users,
        map_ok-gone wire (λ n. tt) sent' _
            (client-IsFounded wire link.guild_id link.role_id link.api_token [] users sent').3 h,
      ))
  outcome-links _ (gone_on_info h) = inr (
      inl (
        map_ok-gone wire (λ (c : ℕ × ℕ). c.1) sent _
          (client-IsFounded wire link.guild_id link.role_id link.api_token [] [] sent).0 h))

  -- A sync that runs on the client of RoleLogic keeps all the links, unless RoleLogic answers by 403
  -- with `Invalid or revoked token` in the body: a request of the call that reads the number of the
  -- link's users, or one of an upload of some users to the link.
  pub sync_link-link_gone :
      ((sync_link json_eq read_tree collate tilde up now link s).0.role_links ≡ s.role_links)
      ⊎ IsGone
  sync_link-link_gone =
      outcome-links _ (sync_link-IsOutcome json_eq read_tree collate tilde up now link s)
