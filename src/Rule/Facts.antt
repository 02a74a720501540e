-- ===== src/Rule/Facts.antt =====
-- src/models/facts.rs: the facts about a viewer and a channel. A `DateTime<Utc>` is the number of
-- microseconds since the epoch, Postgres' precision; an `i64` is an integer.
use kick_channel_role.Prelude.{Bool, Option}
use kick_channel_role.Prelude.Int.{ℤ}
use kick_channel_role.Prelude.Text.{Text}

abbrev pub DateTime : Type 0
DateTime = ℤ

pub record Facts : Type 0 where
  pub is_follower : Bool
  pub followed_at : Option DateTime
  pub is_subscriber : Bool
  pub sub_months_cumulative : ℤ
  pub sub_streak_months : ℤ
  pub sub_is_gift : Bool
  pub gifted_subs_given : ℤ
  pub is_vip : Bool
  pub is_moderator : Bool
  pub kicks_donated : ℤ
  pub chat_messages_30d : ℤ
  pub is_og : Bool
  pub kick_created_at : Option DateTime
  pub country_code : Option Text
  pub username : Text
