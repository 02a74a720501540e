-- ===== src/Examples/Webhooks.antt =====
-- Webhooks at work: a follow is delivered, delivered again, and fails once.
use kick_channel_role.Prelude.{
  ◌≡◌, ◌≢◌, refl, Bool, true, false, Option, none, some, [], ◌∷◌, if◌then◌else◌,
}
use kick_channel_role.Prelude.Int.{ℤ, pos}
use kick_channel_role.Prelude.Text.{Text, codes, text_eq, match_str, to_ascii_lowercase}
use kick_channel_role.Json.{as_i64, Value, number, integer, object, field, end}
use kick_channel_role.Rule.Facts.{DateTime}
use kick_channel_role.Database.{Tables, World, run}
use kick_channel_role.Webhook.Apply.{apply_event, apply_arm}
use kick_channel_role.Webhook.Evolves.{Evolves}
use kick_channel_role.Webhook.Events.{apply_event-Evolves}
use kick_channel_role.Webhook.Delivery.{
  with_key, recheck, forced_key, is_recent, cached_key, store_key, after_check, after_insert,
  apply_body, after_event, delete_delivery, is_recorded, is_delivery, event_type_of, Request,
  KeyCache, Answer, duplicate, db_error, status, deliver, insert_delivery, kick_webhook,
}
use kick_channel_role.Webhook.Once.{
  Call, serve, serve_all, kick_webhook-once, kick_webhook-verified,
}
use kick_channel_role.Webhook.Retry.{deliver-reopens, next_fails}
use kick_channel_role.Database.{
  ◌>>◌, ◌>>=◌, return, for_each, best_effort, when, when_some, statement, query, update_relations,
  fits,
}
use kick_channel_role.Identity.{user_id_of, note_identities, note_actor, identifier_of}
use kick_channel_role.Webhook.{
  event_of, fact, ensure_relation, add_relation, update_row, update_where_row,
  enqueue_for_kick_user, is_row, new_relation, follow_row,
}
use kick_channel_role.Jobs.{enqueue_player_sync}
use kick_channel_role.Examples.{sample_user, days}

abbrev payload : Value
payload = object (
    field (codes "broadcaster") (object (field (codes "user_id") (number (integer (pos 7))) end)) (
      field (codes "follower") (object (field (codes "user_id") (number (integer (pos 3))) end))
        end))

abbrev lower : Text → Text
lower t = t

abbrev show : ℤ → Text
show n = codes "7"

abbrev no_date : Text → Option DateTime
no_date t = none

abbrev parse : Text → Option Value
parse t = if text_eq t (codes "payload") then some payload else none

-- A signature is the one key's text.
abbrev verify : Text → Request → Bool
verify k q = text_eq k q.signature

abbrev deny : Text → Request → Bool
deny k q = false

abbrev request : Request
request = record {
  message_id = codes "m1";
  timestamp = codes "t";
  signature = codes "key";
  header_event_type = codes "channel.followed";
  body = codes "payload";
}

abbrev tables : Tables
tables = record {
  broadcasters = [];
  relations = [];
  kick_users = sample_user ∷ [];
  chat_days = [];
  deliveries = [];
  jobs = record { rows = []; next_id = 1 };
}

abbrev no_key : KeyCache Text
no_key = record { cached = none; refetched_at = none }

abbrev call : Call Text
call = record {
  now = days 100;
  today = pos 100;
  fetched = some (codes "old");
  refetched = some (codes "key");
  request = request;
  faults = [];
}

-- The third statement of the event fails.
abbrev failing : World
failing = record { tables = tables; faults = false ∷ false ∷ true ∷ [] }

apply_event-Evolves_example :
    Evolves tables
      (run
        (apply_event lower show no_date (days 100) (pos 100) (codes "channel.followed") payload)
        failing).0.tables
apply_event-Evolves_example =
    apply_event-Evolves lower show no_date (days 100) (pos 100) (codes "channel.followed") payload
      failing

kick_webhook-verified_example :
    ((kick_webhook lower show no_date parse deny
        (days 100)
        (pos 100)
        (some (codes "old"))
        none
        request
        no_key
        failing).0.0
      ≡ failing)
    × (status
          (kick_webhook lower show no_date parse deny
            (days 100)
            (pos 100)
            (some (codes "old"))
            none
            request
            no_key
            failing).1
        ≢ 200)
kick_webhook-verified_example =
    kick_webhook-verified lower show no_date parse deny (days 100) (pos 100) (some (codes "old"))
      none request no_key failing (λ k. refl)

abbrev served : (World × KeyCache Text) × Answer
served = serve lower show no_date parse verify call tables no_key

abbrev after_more : Tables × KeyCache Text
after_more = serve_all lower show no_date parse verify (call ∷ []) served.0.0.tables served.0.1

kick_webhook-once_example :
    (serve lower show no_date parse verify call after_more.0 after_more.1).0.0.tables ≡ after_more.0
unfolding kick_webhook with_key recheck forced_key is_recent cached_key store_key after_check
    text_eq status deliver after_insert apply_body after_event insert_delivery delete_delivery
    is_recorded is_delivery event_type_of apply_event apply_arm when_some when user_id_of as_i64
    ◌>>◌ ◌>>=◌ note_identities note_actor identifier_of best_effort return for_each event_of
    match_str to_ascii_lowercase fact ensure_relation add_relation update_row update_where_row
    update_relations enqueue_for_kick_user statement query next_fails serve_all fits is_row
    new_relation follow_row enqueue_player_sync
kick_webhook-once_example =
    kick_webhook-once lower show no_date parse verify call (call ∷ []) call tables no_key refl refl

abbrev failed : World
failed = record {
  tables = (deliver lower show no_date parse (days 100) (pos 100) request failing).0.tables;
  faults = [];
}

deliver-reopens_example :
    ((deliver lower show no_date parse (days 100) (pos 100) request failed).1 ≢ duplicate)
    × ((deliver lower show no_date parse (days 100) (pos 100) request failed).1 ≢ db_error)
unfolding kick_webhook with_key recheck forced_key is_recent cached_key store_key after_check
    text_eq status deliver after_insert apply_body after_event insert_delivery delete_delivery
    is_recorded is_delivery event_type_of apply_event apply_arm when_some when user_id_of as_i64
    ◌>>◌ ◌>>=◌ note_identities note_actor identifier_of best_effort return for_each event_of
    match_str to_ascii_lowercase fact ensure_relation add_relation update_row update_where_row
    update_relations enqueue_for_kick_user statement query next_fails serve_all fits is_row
    new_relation follow_row enqueue_player_sync
deliver-reopens_example =
    deliver-reopens lower show no_date parse (days 100) (pos 100) request payload failing refl refl
      refl (days 100) (pos 100) request [] refl refl
