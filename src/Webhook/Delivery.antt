-- ===== src/Webhook/Delivery.antt =====
-- src/routes/webhooks.rs, `kick_webhook`: a delivery is checked, recorded and applied. The key that
-- Kick publishes is fetched, a signature is checked, and a body is parsed by arguments.
use kick_channel_role.Prelude.{
  ℕ, ◌*◌, Bool, true, false, not, ◌||◌, Option, none, some, [], ◌∷◌, any, is_empty, if◌then◌else◌,
  Result, ok, err, and_then, or_else, unwrap_or,
}
use kick_channel_role.Prelude.Int.{ℤ, pos, ◌-ℤ◌, ltb_ℤ}
use kick_channel_role.Prelude.Text.{Text, codes, text_eq}
use kick_channel_role.Json.{Value, get, as_str}
use kick_channel_role.Rule.Facts.{DateTime}
use kick_channel_role.Validator.{filter}
use kick_channel_role.Database.{Tables, World, DbError, Delivery, run, execute}
use kick_channel_role.Webhook.Apply.{apply_event}

-- The status codes and bodies of the answers.
pub data Answer : Type 0 where
  missing_headers no_signing_key bad_signature duplicate db_error bad_json apply_failed done :
      Answer

unfoldable pub status : Answer → ℕ
status missing_headers = 400
status no_signing_key = 500
status bad_signature = 401
status duplicate = 200
status db_error = 500
status bad_json = 400
status apply_failed = 500
status done = 200

-- The four headers that are read, empty where absent, and the body.
pub record Request : Type 0 where
  pub message_id : Text
  pub timestamp : Text
  pub signature : Text
  pub header_event_type : Text
  pub body : Text

-- The cached key, and when a refetch was last forced.
pub record KeyCache (Key : Type 0) : Type 0 where
  pub cached : Option Key
  pub refetched_at : Option DateTime

-- One minute.
abbrev pub forced_refetch_interval : ℤ
forced_refetch_interval = pos (60 * 1000000)

unfoldable pub is_recent : DateTime → Option DateTime → Bool
is_recent now none = false
is_recent now (some at) = ltb_ℤ (now -ℤ at) forced_refetch_interval

module _ {Key : Type 0} where
  -- A fetched key is kept.
  unfoldable pub store_key : KeyCache Key → Option Key → KeyCache Key × Option Key
  store_key cache none = (cache, none)
  store_key cache (some k) = (record cache { cached = some k }, some k)

  -- From the cache, or fetched on first use.
  unfoldable pub cached_key : Option Key → KeyCache Key → KeyCache Key × Option Key
  unfolding store_key
  cached_key fetched cache = elim cache.cached [
    | none ↦ store_key cache fetched
    | some k ↦ (cache, some k)
  ]

  -- Past the cache, at most once in the interval.
  unfoldable pub forced_key : DateTime → Option Key → KeyCache Key → KeyCache Key × Option Key
  unfolding store_key is_recent
  forced_key now fetched cache =
      if is_recent now cache.refetched_at
      then (cache, none)
      else store_key (record cache { refetched_at = some now }) fetched

  module _ (verify : Key → Request → Bool) where
    -- The first check, and the second one with a fresh key.
    unfoldable pub recheck :
        DateTime → Option Key → Request → Bool → KeyCache Key → KeyCache Key × Bool
    unfolding forced_key
    recheck now fetched q true cache = (cache, true)
    recheck now fetched q false cache =
        let (cache', fresh) = forced_key now fetched cache in
        (cache', elim fresh [ none ↦ false | some k ↦ verify k q ])

-- The INSERT … ON CONFLICT DO NOTHING, and whether it added a row.
unfoldable pub is_delivery : Text → Delivery → Bool
is_delivery message_id d = text_eq d.message_id message_id

unfoldable pub is_recorded : Text → Tables → Bool
is_recorded message_id t = any (is_delivery message_id) t.deliveries

unfoldable pub insert_delivery : Text → Text → Tables → Result DbError (Tables × Bool)
unfolding is_recorded
insert_delivery message_id event_type t =
    if is_recorded message_id t
    then ok (t, false)
    else ok (
      record t {
        deliveries = record { message_id = message_id; event_type = event_type } ∷ t.deliveries;
      },
      true,
    )

unfoldable pub delete_delivery : Text → Tables → Result DbError (Tables × Unit {0})
delete_delivery message_id t =
    ok (record t { deliveries = filter (λ d. not (is_delivery message_id d)) t.deliveries }, tt)

unfoldable pub event_type_of : Text → Value → Text
event_type_of [] p =
    unwrap_or
      (or_else (and_then (get (codes "event") p) as_str) (and_then (get (codes "type") p) as_str))
      []
event_type_of (c ∷ header) p = c ∷ header

-- After `apply_event`: an error opens the delivery again, by a statement that may fail as well.
unfoldable pub after_event : Text → World × Result DbError (Unit {0}) → World × Answer
after_event message_id (w, ok u) = (w, done)
after_event message_id (w, err e) =
    ((execute (delete_delivery message_id) w.tables w.faults).0, apply_failed)

module _ (lower : Text → Text) (show : ℤ → Text) (parse_rfc3339 : Text → Option DateTime)
    (parse_json : Text → Option Value) where
  unfoldable pub apply_body : DateTime → ℤ → Request → Option Value → World → World × Answer
  unfolding after_event
  apply_body now today q none w = (w, bad_json)
  apply_body now today q (some p) w = after_event q.message_id (
      run (apply_event lower show parse_rfc3339 now today (event_type_of q.header_event_type p) p)
        w)

  unfoldable pub after_insert :
      DateTime → ℤ → Request → World × Result DbError Bool → World × Answer
  unfolding apply_body
  after_insert now today q (w, ok false) = (w, duplicate)
  after_insert now today q (w, ok true) = apply_body now today q (parse_json q.body) w
  after_insert now today q (w, err e) = (w, db_error)

  -- A verified request.
  unfoldable pub deliver : DateTime → ℤ → Request → World → World × Answer
  unfolding after_insert
  deliver now today q w =
      after_insert now today q
        (execute (insert_delivery q.message_id q.header_event_type) w.tables w.faults)

  module _ {Key : Type 0} (verify : Key → Request → Bool) where
    unfoldable pub after_check :
        DateTime → ℤ → Request → KeyCache Key × Bool → World → (World × KeyCache Key) × Answer
    unfolding deliver
    after_check now today q (cache, false) w = ((w, cache), bad_signature)
    after_check now today q (cache, true) w =
        (((deliver now today q w).0, cache), (deliver now today q w).1)

    unfoldable pub with_key :
        DateTime
        → ℤ
        → Option Key
        → Request
        → KeyCache Key × Option Key
        → World
        → (World × KeyCache Key) × Answer
    unfolding after_check recheck
    with_key now today refetched q (cache, none) w = ((w, cache), no_signing_key)
    with_key now today refetched q (cache, some k) w =
        after_check now today q (recheck verify now refetched q (verify k q) cache) w

    -- `fetched` and `refetched` are what Kick answers to the two requests for its key, if made.
    unfoldable pub kick_webhook :
        DateTime
        → ℤ
        → Option Key
        → Option Key
        → Request
        → KeyCache Key
        → World
        → (World × KeyCache Key) × Answer
    unfolding with_key cached_key
    kick_webhook now today fetched refetched q cache w =
        if is_empty q.message_id || is_empty q.timestamp || is_empty q.signature
        then ((w, cache), missing_headers)
        else with_key now today refetched q (cached_key fetched cache) w
