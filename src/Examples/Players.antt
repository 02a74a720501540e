-- ===== src/Examples/Players.antt =====
-- A viewer's channels probed: a follower whom Kick does not show as one.
use kick_channel_role.Prelude.{◌≡◌, refl, false, none, some, [], ◌∷◌, map}
use kick_channel_role.Prelude.Int.{pos}
use kick_channel_role.Prelude.Text.{Text, codes, text_eq}
use kick_channel_role.Database.{Broadcaster, Tables}
use kick_channel_role.FollowSync.{CardFacts, ProbeOutcome, usable}
use kick_channel_role.FollowSync.Players.{probe_and_apply_for_player}
use kick_channel_role.FollowSync.Pointwise.{probed, probe_and_apply-probed}
use kick_channel_role.Examples.{sample_user, follower, days}

abbrev channel : Broadcaster
channel = record {
  kick_channel_id = pos 7;
  kick_slug = codes "c";
  display_name = codes "C";
  is_live = false;
  current_category = none;
  viewer_count = pos 0;
  live_started_at = none;
  last_live_at = none;
  updated_at = days 1;
}

abbrev tables : Tables
tables = record {
  broadcasters = channel ∷ [];
  relations = follower ∷ [];
  kick_users = sample_user ∷ [];
  chat_days = [];
  deliveries = [];
  jobs = record { rows = []; next_id = 1 };
}

abbrev card : CardFacts
card = record {
  is_following = false;
  following_since = none;
  subscribed_for_months = pos 0;
  is_subscriber = false;
  is_vip = false;
  is_moderator = false;
  is_og = false;
}

abbrev probe : Text → Text → ProbeOutcome
probe slug name = usable card

probe_and_apply-probed_example :
    (probe_and_apply_for_player (pos 2) (days 160) (some probe) (codes "100") tables).0.relations
    ≡ map (probed (pos 2) (days 160) (pos 3) probe (codes "a_b") (channel ∷ [])) (follower ∷ [])
unfolding text_eq
probe_and_apply-probed_example =
    probe_and_apply-probed (pos 2) (days 160) probe (codes "100") sample_user tables refl (tt, tt)
