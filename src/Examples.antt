-- ===== src/Examples.antt =====
-- Data that the examples share: a rule as the editor sends it, and a linked viewer.
pub mod Rules
pub mod Probes
pub mod Queues
pub mod Syncs
pub mod Webhooks
pub mod Uploads
pub mod Keys
pub mod Players
pub mod Tokens
pub mod Listings
use kick_channel_role.Prelude.{ℕ, Bool, true, false, Option, none, some, List, [], ◌∷◌, ◌*◌}
use kick_channel_role.Prelude.Int.{ℤ, pos}
use kick_channel_role.Prelude.Text.{Text, codes}
use kick_channel_role.Json.{Value, Items, boolean, string, number, integer, array, cons, nil}
use kick_channel_role.Rule.Condition.{
  is_follower, follow_age_days, username, country_code, eq, gte, contains, not_in,
}
use kick_channel_role.Rule.Facts.{DateTime}
use kick_channel_role.Rule.Tree.{RuleTree}
use kick_channel_role.Relation.{Relation, KickUser, JoinedRow}
use kick_channel_role.Eval.{Regex, day_micros}
use kick_channel_role.Validator.{Host, RuleTreeBody, ParsedRule}
use kick_channel_role.Prelude.Text as Str

-- A regular expression engine for patterns without special characters.
abbrev pub plain : Regex
plain = record { compiles = λ p. true; is_match = λ p a. Str.contains a p }

abbrev pub plain_tilde : Text → Text → Option Bool
plain_tilde p a = some (Str.contains a p)

abbrev pub sample_host : Host
sample_host = record { float_as_i64 = λ t. pos 0; number_to_string = λ n. codes "0"; re = plain }

abbrev pub days : ℕ → DateTime
days n = pos (n * day_micros)

abbrev pub sample_body : RuleTreeBody
sample_body = record {
  kick_channel_id = some (pos 7);
  grant_on_any_relation = false;
  groups =
      record {
        conditions =
            record {
              target = codes "is_follower";
              operator = codes "eq";
              value = string (codes "Yes");
              value_end = none;
            }
            ∷ record {
              target = codes "follow_age_days";
              operator = codes " gte ";
              value = string (codes "30");
              value_end = some (boolean true);
            }
            ∷ [];
      }
      ∷ record {
        conditions =
            record {
              target = codes "username";
              operator = codes "contains";
              value = string (codes "a_b");
              value_end = none;
            }
            ∷ record {
              target = codes "country_code";
              operator = codes "not_in";
              value = string (codes "US, CA");
              value_end = none;
            }
            ∷ [];
      }
      ∷ [];
}

abbrev pub sample_tree : RuleTree
sample_tree = record {
  grant_on_any_relation = false;
  groups =
      record {
        conditions =
            record { target = is_follower; operator = eq; value = boolean true; value_end = none }
            ∷ record {
              target = follow_age_days;
              operator = gte;
              value = number (integer (pos 30));
              value_end = none;
            }
            ∷ [];
      }
      ∷ record {
        conditions =
            record {
              target = username;
              operator = contains;
              value = string (codes "a_b");
              value_end = none;
            }
            ∷ record {
              target = country_code;
              operator = not_in;
              value = array (cons (string (codes "US")) (cons (string (codes "CA")) nil));
              value_end = none;
            }
            ∷ [];
      }
      ∷ [];
}

abbrev pub sample_parsed : ParsedRule
sample_parsed = record { kick_channel_id = some (pos 7); rule_tree = sample_tree }

abbrev pub sample_user : KickUser
sample_user = record {
  discord_id = codes "100";
  kick_user_id = pos 3;
  kick_username = codes "a_b";
  kick_created_at = days 10;
  country_code = none;
}

abbrev pub follower : Relation
follower = record {
  kick_channel_id = pos 7;
  kick_user_id = pos 3;
  is_follower = true;
  followed_at = some (days 40);
  is_subscriber = false;
  subscribed_at = none;
  sub_expires_at = none;
  sub_months_cumulative = pos 2;
  sub_streak_months = pos 0;
  sub_is_gift = false;
  gifted_subs_given = pos 0;
  is_vip = false;
  is_moderator = false;
  is_og = false;
  kicks_donated = pos 0;
  chat_messages_30d = pos 0;
  last_seen_at = none;
  last_synced_at = days 150;
  follow_probe_misses = pos 0;
  follow_missed_at = none;
  follow_confirmed_at = none;
  follow_probed_at = none;
  follow_probe_attempted_at = none;
}

abbrev pub sample_row : JoinedRow
sample_row = record { ku = sample_user; cr = some follower }
