-- ===== src/Webhook/Apply.antt =====
-- src/routes/webhooks.rs, `apply_event`: the arms of the match on the event's type.
use kick_channel_role.Prelude.{
  true, false, Option, some, if◌then◌else◌, and_then, or_else, unwrap_or,
}
use kick_channel_role.Prelude.Int.{ℤ, pos, eqb_ℤ, ltb_ℤ}
use kick_channel_role.Prelude.Text.{Text, codes}
use kick_channel_role.Json.{Value, get, as_bool, as_i64, as_str}
use kick_channel_role.Rule.Facts.{DateTime}
use kick_channel_role.Identity.{user_id_of, note_identities, update_broadcasters}
use kick_channel_role.Database.{Broadcaster, Sql, ◌>>◌, when, when_some, statement}
use kick_channel_role.Webhook.{
  Event, live_status, live_metadata, followed, sub_new, sub_renewal, sub_gifts, chat_message,
  kicks_gifted, event_of, get_in, ts_of, first_of, fact, follow_row, subscribe_row, renew_row,
  donate_row, apply_gifts, giftees_of, amount_of,
}
use kick_channel_role.Webhook.Chat.{badges_of, apply_chat}

unfoldable pub category_of : Value → Option Text
category_of p =
    or_else
      (and_then (and_then (get_in (codes "metadata") (codes "category") p) (get (codes "name")))
        as_str)
      (and_then (get_in (codes "category") (codes "name") p) as_str)

module _ (lower : Text → Text) (show : ℤ → Text) (parse_rfc3339 : Text → Option DateTime)
    (now : DateTime) (today : ℤ) where
  -- An UPDATE of the channel's own row.
  unfoldable pub update_channel : ℤ → (Broadcaster → Broadcaster) → Sql (Unit {0})
  update_channel cid f =
      statement (update_broadcasters lower show (λ b. eqb_ℤ b.kick_channel_id cid) f)

  unfoldable pub live_channel : Option DateTime → Broadcaster → Broadcaster
  live_channel started_at b = record b {
    is_live = true;
    live_started_at = first_of started_at now;
    updated_at = now;
  }

  unfoldable pub offline_channel : Broadcaster → Broadcaster
  offline_channel b = record b {
    is_live = false;
    last_live_at = some now;
    viewer_count = pos 0;
    updated_at = now;
  }

  unfoldable pub category_channel : Text → Broadcaster → Broadcaster
  category_channel category b = record b { current_category = some category; updated_at = now }

  unfoldable pub apply_live : ℤ → Value → Sql (Unit {0})
  apply_live cid p =
      if unwrap_or (and_then (get (codes "is_live") p) as_bool) false
      then update_channel cid (live_channel (ts_of parse_rfc3339 p (codes "started_at")))
      else update_channel cid offline_channel

  unfoldable pub apply_kicks : ℤ → ℤ → ℤ → Sql (Unit {0})
  apply_kicks cid uid amount =
      when (ltb_ℤ (pos 0) amount) (fact now cid uid (donate_row now amount))

  -- An event without the user it needs is skipped.
  unfoldable pub apply_arm : Event → ℤ → Value → Sql (Unit {0})
  unfolding apply_live apply_kicks
  apply_arm live_status cid p = apply_live cid p
  apply_arm live_metadata cid p =
      when_some (category_of p) (λ category. update_channel cid (category_channel category))
  apply_arm followed cid p =
      when_some (user_id_of p (codes "follower")) (λ uid. fact now cid uid (follow_row now))
  apply_arm sub_new cid p = when_some (user_id_of p (codes "subscriber")) (λ uid. fact now cid uid (
      subscribe_row now (ts_of parse_rfc3339 p (codes "created_at"))
        (ts_of parse_rfc3339 p (codes "expires_at")) (and_then (get (codes "duration") p) as_i64)))
  apply_arm sub_renewal cid p = when_some (user_id_of p (codes "subscriber")) (λ uid.
      fact now cid uid (
        renew_row now (ts_of parse_rfc3339 p (codes "expires_at"))
          (and_then (get (codes "duration") p) as_i64)))
  apply_arm sub_gifts cid p =
      apply_gifts now cid (user_id_of p (codes "gifter")) (giftees_of p)
        (ts_of parse_rfc3339 p (codes "expires_at"))
  apply_arm chat_message cid p =
      when_some (user_id_of p (codes "sender")) (λ uid. apply_chat now today cid uid (badges_of p))
  apply_arm kicks_gifted cid p =
      when_some (or_else (user_id_of p (codes "sender")) (user_id_of p (codes "gifter")))
        (λ uid. apply_kicks cid uid (amount_of p))

  unfoldable pub apply_event : Text → Value → Sql (Unit {0})
  unfolding apply_arm
  apply_event event_type p = when_some (user_id_of p (codes "broadcaster")) (λ cid.
      note_identities lower show now cid p
      >> when_some (event_of event_type) (λ event. apply_arm event cid p))
