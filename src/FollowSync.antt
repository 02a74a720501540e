-- ===== src/FollowSync.antt =====
-- src/services/follow_sync.rs: what a follow probe does to the stored relation of a viewer and a
-- channel; and the result types of src/services/kick_probe.rs. A miss counter is an `i16`.
pub mod Decisions
pub mod Facts
pub mod History
pub mod Players
pub mod Pointwise
use kick_channel_role.Prelude.{
  ℕ, ◌*◌, ◌-◌, ◌^◌, Bool, true, false, not, ◌&&◌, ◌||◌, Option, none, some, if◌then◌else◌, ◌==◌,
  ltb, or_else,
}
use kick_channel_role.Prelude.Int.{ℤ, pos, ◌+ℤ◌, ◌-ℤ◌, leb_ℤ, ltb_ℤ, max_ℤ}
use kick_channel_role.Prelude.Text.{Text}
use kick_channel_role.Rule.Facts.{DateTime}
use kick_channel_role.Relation.{Relation}

pub record CardFacts : Type 0 where
  pub is_following : Bool
  pub following_since : Option DateTime
  pub subscribed_for_months : ℤ
  pub is_subscriber : Bool
  pub is_vip : Bool
  pub is_moderator : Bool
  pub is_og : Bool

-- A usable card, or a reason why there is none.
pub data ProbeOutcome : Type 0 where
  usable : CardFacts → ProbeOutcome
  unavailable : Text → ProbeOutcome

abbrev pub second_micros : ℕ
second_micros = 1000000

-- 6 hours, in microseconds.
abbrev pub miss_spacing : ℤ
miss_spacing = pos (6 * 3600 * second_micros)

abbrev pub i16_max : ℤ
i16_max = pos 32767

abbrev pub i32_max : ℤ
i32_max = pos 2147483647

pub record Decision : Type 0 where
  pub is_follower : Bool
  pub misses : ℤ
  pub counted_miss : Bool
  pub removes_follow : Bool
  pub changed_facts : Bool

unfoldable pub gained_extras : Relation → CardFacts → Bool
gained_extras row facts =
    (facts.is_subscriber && not row.is_subscriber)
    || (facts.is_vip && not row.is_vip)
    || (facts.is_moderator && not row.is_moderator)
    || (facts.is_og && not row.is_og)
    || ltb_ℤ row.sub_months_cumulative facts.subscribed_for_months

-- Whether a negative answer at `now` is an observation apart from the last one.
unfoldable pub miss_counts : DateTime → Option DateTime → Bool
miss_counts now none = true
miss_counts now (some last) = leb_ℤ miss_spacing (now -ℤ last)

-- `saturating_add(1)`.
unfoldable pub next_misses : ℤ → ℤ
next_misses n = if ltb_ℤ n i16_max then n +ℤ pos 1 else i16_max

unfoldable pub decide : DateTime → Relation → CardFacts → ℤ → Decision
decide now row facts confirmations =
    if facts.is_following
    then record {
      is_follower = true;
      misses = pos 0;
      counted_miss = false;
      removes_follow = false;
      changed_facts = not row.is_follower || gained_extras row facts;
    }
    else if not row.is_follower
    then record {
      is_follower = false;
      misses = pos 0;
      counted_miss = false;
      removes_follow = false;
      changed_facts = gained_extras row facts;
    }
    else if not (miss_counts now row.follow_missed_at)
    then record {
      is_follower = true;
      misses = row.follow_probe_misses;
      counted_miss = false;
      removes_follow = false;
      changed_facts = gained_extras row facts;
    }
    else if leb_ℤ confirmations (next_misses row.follow_probe_misses)
    then record {
      is_follower = false;
      misses = pos 0;
      counted_miss = true;
      removes_follow = true;
      changed_facts = true;
    }
    else record {
      is_follower = true;
      misses = next_misses row.follow_probe_misses;
      counted_miss = true;
      removes_follow = false;
      changed_facts = gained_extras row facts;
    }

-- `clamp(0, i32::MAX)`.
abbrev pub clamp_i32 : ℤ → ℤ
clamp_i32 n = if ltb_ℤ n (pos 0) then pos 0 else if ltb_ℤ i32_max n then i32_max else n

abbrev pub three_days : ℤ
three_days = pos (3 * 86400 * second_micros)

-- `GREATEST(COALESCE(sub_expires_at, now()), now() + interval '3 days')`.
later_expiry : DateTime → Option DateTime → DateTime
later_expiry now none = max_ℤ now (now +ℤ three_days)
later_expiry now (some t) = max_ℤ t (now +ℤ three_days)

-- The UPDATE of `apply`; `now` is the database's.
unfoldable pub apply : DateTime → Relation → CardFacts → Decision → Relation
unfolding later_expiry
apply now row facts decision = record row {
  is_follower = decision.is_follower;
  followed_at =
      if decision.is_follower
      then or_else row.followed_at (or_else facts.following_since (some now))
      else none;
  follow_confirmed_at = if decision.is_follower then some now else row.follow_confirmed_at;
  follow_probed_at = some now;
  follow_probe_attempted_at = some now;
  follow_missed_at = if decision.counted_miss then some now else row.follow_missed_at;
  follow_probe_misses = decision.misses;
  is_subscriber = row.is_subscriber || facts.is_subscriber;
  sub_expires_at =
      if facts.is_subscriber
      then some (later_expiry now row.sub_expires_at)
      else row.sub_expires_at;
  sub_months_cumulative = max_ℤ row.sub_months_cumulative (clamp_i32 facts.subscribed_for_months);
  is_vip = row.is_vip || facts.is_vip;
  is_moderator = row.is_moderator || facts.is_moderator;
  is_og = row.is_og || facts.is_og;
  last_synced_at = now;
}

-- One round of the loop of `probe_and_apply_for_player`: an unavailable card stamps the attempt.
unfoldable pub probe_row : ℤ → DateTime → ProbeOutcome → Relation → Relation
probe_row confirmations now (unavailable reason) row = record row {
  follow_probe_attempted_at = some now;
}
probe_row confirmations now (usable facts) row =
    apply now row facts (decide now row facts confirmations)
