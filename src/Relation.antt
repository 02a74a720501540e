-- ===== src/Relation.antt =====
-- The rows of `channel_relations` (migrations 004, 011 and 013) and `kick_users` (migration 003)
-- that the program reads and writes, and the facts that src/services/sync.rs selects from them.
-- An INTEGER or BIGINT column is an integer, a TIMESTAMPTZ column a number of microseconds.
use kick_channel_role.Prelude.{Bool, false, Option, none, some}
use kick_channel_role.Prelude.Int.{ℤ, pos}
use kick_channel_role.Prelude.Text.{Text}
use kick_channel_role.Rule.Facts.{DateTime, Facts}

pub record Relation : Type 0 where
  pub kick_channel_id : ℤ
  pub kick_user_id : ℤ
  pub is_follower : Bool
  pub followed_at : Option DateTime
  pub is_subscriber : Bool
  pub subscribed_at : Option DateTime
  pub sub_expires_at : Option DateTime
  pub sub_months_cumulative : ℤ
  pub sub_streak_months : ℤ
  pub sub_is_gift : Bool
  pub gifted_subs_given : ℤ
  pub is_vip : Bool
  pub is_moderator : Bool
  pub is_og : Bool
  pub kicks_donated : ℤ
  pub chat_messages_30d : ℤ
  pub last_seen_at : Option DateTime
  pub last_synced_at : DateTime
  pub follow_probe_misses : ℤ
  pub follow_missed_at : Option DateTime
  pub follow_confirmed_at : Option DateTime
  pub follow_probed_at : Option DateTime
  pub follow_probe_attempted_at : Option DateTime

pub record KickUser : Type 0 where
  pub discord_id : Text
  pub kick_user_id : ℤ
  pub kick_username : Text
  pub kick_created_at : DateTime
  pub country_code : Option Text

-- A row of `kick_users ku LEFT JOIN channel_relations cr`.
pub record JoinedRow : Type 0 where
  pub ku : KickUser
  pub cr : Option Relation

-- `COALESCE(cr.column, default)`.
abbrev pub coalesce {ℓ} : {A : Type ℓ} → Option Relation → (Relation → A) → A → A
coalesce none column default = default
coalesce (some r) column default = column r

-- `cr.column`, for a column that may itself be NULL.
abbrev pub nullable {ℓ} : {A : Type ℓ} → Option Relation → (Relation → Option A) → Option A
nullable none column = none
nullable (some r) column = column r

-- `FACTS_SELECT` and `From<FactsRow> for Facts`.
unfoldable pub facts_of : JoinedRow → Facts
facts_of row = record {
  is_follower = coalesce row.cr (λ r. r.is_follower) false;
  followed_at = nullable row.cr (λ r. r.followed_at);
  is_subscriber = coalesce row.cr (λ r. r.is_subscriber) false;
  sub_months_cumulative = coalesce row.cr (λ r. r.sub_months_cumulative) (pos 0);
  sub_streak_months = coalesce row.cr (λ r. r.sub_streak_months) (pos 0);
  sub_is_gift = coalesce row.cr (λ r. r.sub_is_gift) false;
  gifted_subs_given = coalesce row.cr (λ r. r.gifted_subs_given) (pos 0);
  is_vip = coalesce row.cr (λ r. r.is_vip) false;
  is_moderator = coalesce row.cr (λ r. r.is_moderator) false;
  kicks_donated = coalesce row.cr (λ r. r.kicks_donated) (pos 0);
  chat_messages_30d = coalesce row.cr (λ r. r.chat_messages_30d) (pos 0);
  is_og = coalesce row.cr (λ r. r.is_og) false;
  kick_created_at = some row.ku.kick_created_at;
  country_code = row.ku.country_code;
  username = row.ku.kick_username;
}
