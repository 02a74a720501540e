-- ===== src/Webhook.antt =====
-- src/routes/webhooks.rs, `apply_event`: what a verified event does to the tables. `now` is the
-- database's clock, `today` the number of its day in UTC; an RFC 3339 text is read by an argument.
pub mod Chat
pub mod Apply
pub mod Evolves
pub mod Rows
pub mod Events
pub mod Delivery
pub mod Recorded
pub mod Once
pub mod Retry
use kick_channel_role.Prelude.{
  ℕ, ◌*◌, Bool, true, false, not, ◌&&◌, ◌||◌, Option, none, some, List, [], ◌∷◌, ◌++◌, map, any,
  all, length, if◌then◌else◌, Result, ok, err, update_rows, and_then, or_else, unwrap_or, max,
}
use kick_channel_role.Prelude.Int.{ℤ, pos, negsuc, ◌+ℤ◌, eqb_ℤ, leb_ℤ, ltb_ℤ, max_ℤ}
use kick_channel_role.Prelude.Text.{Text, codes, text_eq, to_ascii_lowercase, match_str}
use kick_channel_role.Json.{Value, get, as_bool, as_i64, as_str, as_array}
use kick_channel_role.Rule.Facts.{DateTime}
use kick_channel_role.Relation.{Relation, KickUser}
use kick_channel_role.Jobs.{enqueue_player_sync}
use kick_channel_role.Sync.{find}
use kick_channel_role.Identity.{keep_if, user_id_of, note_identities, update_broadcasters}
use kick_channel_role.Database.{
  Broadcaster, ChatDay, Tables, DbError, out_of_range, Sql, return, ◌>>=◌, ◌>>◌, when, when_some,
  for_each, statement, query, in_i32, if_allowed, update_relations,
}

-- The arms of the `match` on the event's type.
pub data Event : Type 0 where
  live_status live_metadata followed sub_new sub_renewal sub_gifts chat_message kicks_gifted : Event

abbrev pub event_arms : List (Text × Event)
event_arms =
    (codes "livestream.status.updated", live_status)
    ∷ (codes "livestream.metadata.updated", live_metadata)
    ∷ (codes "channel.followed", followed)
    ∷ (codes "channel.subscription.new", sub_new)
    ∷ (codes "channel.subscription.renewal", sub_renewal)
    ∷ (codes "channel.subscription.gifts", sub_gifts)
    ∷ (codes "chat.message.sent", chat_message)
    ∷ (codes "kicks.gifted", kicks_gifted)
    ∷ []

unfoldable pub event_of : Text → Option Event
event_of event_type = match_str (to_ascii_lowercase event_type) event_arms

abbrev pub get_in : Text → Text → Value → Option Value
get_in obj key p = and_then (get obj p) (get key)

abbrev pub filter_map {ℓ κ} : {A : Type ℓ} {B : Type κ} → (A → Option B) → List A → List B
filter_map f [] = []
filter_map f (x ∷ xs) = elim (f x) [ none ↦ filter_map f xs | some y ↦ y ∷ filter_map f xs ]

-- The rows of a viewer on a channel.
unfoldable pub is_row : ℤ → ℤ → Relation → Bool
is_row cid uid r = eqb_ℤ r.kick_channel_id cid && eqb_ℤ r.kick_user_id uid

-- The row that an INSERT of the two keys adds, with the table's defaults.
unfoldable pub new_relation : DateTime → ℤ → ℤ → Relation
new_relation now cid uid = record {
  kick_channel_id = cid;
  kick_user_id = uid;
  is_follower = false;
  followed_at = none;
  is_subscriber = false;
  subscribed_at = none;
  sub_expires_at = none;
  sub_months_cumulative = pos 0;
  sub_streak_months = pos 0;
  sub_is_gift = false;
  gifted_subs_given = pos 0;
  is_vip = false;
  is_moderator = false;
  is_og = false;
  kicks_donated = pos 0;
  chat_messages_30d = pos 0;
  last_seen_at = none;
  last_synced_at = now;
  follow_probe_misses = pos 0;
  follow_missed_at = none;
  follow_confirmed_at = none;
  follow_probed_at = none;
  follow_probe_attempted_at = none;
}

-- Kick's timestamps.
abbrev pub ts_of : (Text → Option DateTime) → Value → Text → Option DateTime
ts_of parse_rfc3339 p key = and_then (and_then (get key p) as_str) parse_rfc3339

-- `COALESCE(column, other)`.
abbrev pub first_of : Option DateTime → DateTime → Option DateTime
first_of none other = some other
first_of (some t) other = some t

unfoldable pub giftees_of : Value → List ℤ
giftees_of p = elim (and_then (get (codes "giftees") p) as_array) [
  | none ↦ []
  | some a ↦ filter_map (λ g. and_then (get (codes "user_id") g) as_i64) a
]

unfoldable pub amount_of : Value → ℤ
amount_of p =
    unwrap_or
      (or_else (and_then (get_in (codes "gift") (codes "amount") p) as_i64)
        (and_then (get (codes "amount") p) as_i64))
      (pos 0)

module _ (now : DateTime) where
  -- The INSERT … ON CONFLICT DO NOTHING.
  unfoldable pub add_relation : ℤ → ℤ → Tables → Result DbError (Tables × Unit {0})
  add_relation cid uid t =
      if any (is_row cid uid) t.relations
      then ok (t, tt)
      else ok (record t { relations = t.relations ++ new_relation now cid uid ∷ [] }, tt)

  unfoldable pub ensure_relation : ℤ → ℤ → Sql (Unit {0})
  unfolding add_relation
  ensure_relation cid uid = statement (add_relation cid uid)

  -- An UPDATE of a viewer's row on a channel where `guard` holds, and whether it affected one.
  unfoldable pub update_where_row : ℤ → ℤ → (Relation → Bool) → (Relation → Relation) → Sql Bool
  update_where_row cid uid guard f =
      statement (update_relations (λ r. is_row cid uid r && guard r) f)

  unfoldable pub update_row : ℤ → ℤ → (Relation → Relation) → Sql (Unit {0})
  unfolding update_where_row
  update_row cid uid f = do affected ← update_where_row cid uid (λ r. true) f; return tt

  unfoldable pub enqueue_for_kick_user : ℤ → Sql (Unit {0})
  enqueue_for_kick_user uid = do
    user ← query (λ t. find (λ (u : KickUser). eqb_ℤ u.kick_user_id uid) t.kick_users)
    when_some user (λ u.
        statement
          (λ t. ok (record t { jobs = (enqueue_player_sync now u.discord_id t.jobs).0 }, tt)))

  -- What each event writes to a row.
  unfoldable pub follow_row : Relation → Relation
  follow_row r = record r {
    is_follower = true;
    followed_at = first_of r.followed_at now;
    last_synced_at = now;
  }

  unfoldable pub subscribe_row : Option DateTime → Option DateTime → Option ℤ → Relation → Relation
  subscribe_row created_at expires_at duration r = record r {
    is_subscriber = true;
    subscribed_at = first_of r.subscribed_at (unwrap_or created_at now);
    sub_expires_at = or_else expires_at r.sub_expires_at;
    sub_months_cumulative = max_ℤ r.sub_months_cumulative (unwrap_or duration (pos 1));
    sub_streak_months = max_ℤ r.sub_streak_months (pos 1);
    last_synced_at = now;
  }

  unfoldable pub renew_row : Option DateTime → Option ℤ → Relation → Relation
  renew_row expires_at duration r = record r {
    is_subscriber = true;
    sub_expires_at = or_else expires_at r.sub_expires_at;
    sub_months_cumulative = max_ℤ (r.sub_months_cumulative +ℤ pos 1) (unwrap_or duration (pos 0));
    sub_streak_months = r.sub_streak_months +ℤ pos 1;
    last_synced_at = now;
  }

  unfoldable pub gave_row : ℕ → Relation → Relation
  gave_row count r = record r {
    gifted_subs_given = r.gifted_subs_given +ℤ pos count;
    last_synced_at = now;
  }

  unfoldable pub gifted_row : Option DateTime → Relation → Relation
  gifted_row expires_at r = record r {
    is_subscriber = true;
    sub_is_gift = true;
    subscribed_at = first_of r.subscribed_at now;
    sub_expires_at = or_else expires_at r.sub_expires_at;
    sub_months_cumulative = max_ℤ r.sub_months_cumulative (pos 1);
    sub_streak_months = max_ℤ r.sub_streak_months (pos 1);
    last_synced_at = now;
  }

  unfoldable pub donate_row : ℤ → Relation → Relation
  donate_row amount r = record r { kicks_donated = r.kicks_donated +ℤ amount; last_synced_at = now }

  -- A fact of one viewer: the row is there, it is written, and the viewer is synced.
  unfoldable pub fact : ℤ → ℤ → (Relation → Relation) → Sql (Unit {0})
  unfolding ensure_relation update_row enqueue_for_kick_user
  fact cid uid f = ensure_relation cid uid >> update_row cid uid f >> enqueue_for_kick_user uid

  unfoldable pub apply_gifts : ℤ → Option ℤ → List ℤ → Option DateTime → Sql (Unit {0})
  unfolding fact
  apply_gifts cid gifter giftees expires_at =
      when_some gifter
        (λ g. when (ltb_ℤ (pos 0) g) (fact cid g (gave_row (max (length giftees) 1))))
      >> for_each giftees (λ uid. fact cid uid (gifted_row expires_at))
