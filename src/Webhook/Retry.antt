-- ===== src/Webhook/Retry.antt =====
-- src/routes/webhooks.rs, `kick_webhook`: a failed event is open again.
use kick_channel_role.Prelude.{
  ◌≡◌, ◌≢◌, refl, Bool, true, false, Option, none, some, List, [], ◌∷◌, Result, ok, err,
}
use kick_channel_role.Prelude.Int.{ℤ}
use kick_channel_role.Prelude.Text.{Text}
use kick_channel_role.Json.{Value}
use kick_channel_role.Rule.Facts.{DateTime}
use kick_channel_role.Database.{Tables, World, DbError, execute, run}
use kick_channel_role.Webhook.Apply.{apply_event}
use kick_channel_role.Webhook.Delivery.{
  duplicate, db_error, apply_failed, Request, is_recorded, insert_delivery, delete_delivery,
  event_type_of, after_event, apply_body, after_insert, deliver,
}
use kick_channel_role.Webhook.Recorded.{any-filter-gone}

-- Whether the next statement fails by a fault.
unfoldable pub next_fails : List Bool → Bool
next_fails [] = false
next_fails (b ∷ faults) = b

delete-gone :
    (m : Text) (t : Tables) (faults : List Bool)
    → next_fails faults ≡ false
    → is_recorded m (execute (delete_delivery m) t faults).0.tables ≡ false
unfolding next_fails is_recorded delete_delivery
delete-gone m t [] h = any-filter-gone m t.deliveries
delete-gone m t (true ∷ faults) h = absurd (cc h)
delete-gone m t (false ∷ faults) h = any-filter-gone m t.deliveries

-- The INSERT of a new identifier succeeds where no fault stops it.
insert-new :
    (m e : Text) (t : Tables) (faults : List Bool)
    → next_fails faults ≡ false
    → is_recorded m t ≡ false
    → (execute (insert_delivery m e) t faults).1 ≡ ok true
unfolding next_fails insert_delivery
insert-new m e t [] h r = rw r refl
insert-new m e t (true ∷ faults) h r = absurd (cc h)
insert-new m e t (false ∷ faults) h r = rw r refl

event-fresh :
    (m : Text) (o : World × Result DbError (Unit {0}))
    → (after_event m o).1 ≡ apply_failed
    → next_fails o.0.faults ≡ false
    → is_recorded m (after_event m o).0.tables ≡ false
unfolding after_event
event-fresh m (w, ok u) h n = absurd (cc h)
event-fresh m (w, err e) h n = delete-gone m w.tables w.faults n

module _ (lower : Text → Text) (show : ℤ → Text) (parse_rfc3339 : Text → Option DateTime)
    (parse_json : Text → Option Value) where
  -- The event of a request.
  abbrev pub event_run : DateTime → ℤ → Request → Value → World → World × Result DbError (Unit {0})
  event_run now today q p w =
      run (apply_event lower show parse_rfc3339 now today (event_type_of q.header_event_type p) p) w

  inserted-fresh :
      (now : DateTime) (today : ℤ) (q : Request) (p : Value) (o : World × Result DbError Bool)
      → parse_json q.body ≡ some p
      → (after_insert lower show parse_rfc3339 parse_json now today q o).1 ≡ apply_failed
      → next_fails (event_run now today q p o.0).0.faults ≡ false
      → is_recorded q.message_id
          (after_insert lower show parse_rfc3339 parse_json now today q o).0.tables
        ≡ false
  unfolding after_insert apply_body
  inserted-fresh now today q p (w, ok false) e h n = absurd (cc h)
  inserted-fresh now today q p (w, ok true) e h n =
      rw e (event-fresh q.message_id (event_run now today q p w) (rw e at h) n)
  inserted-fresh now today q p (w, err _) e h n = absurd (cc h)

  event-answer :
      (m : Text) (o : World × Result DbError (Unit {0}))
      → ((after_event m o).1 ≢ duplicate) × ((after_event m o).1 ≢ db_error)
  unfolding after_event
  event-answer m (w, ok u) = (λ e. cc, λ e. cc)
  event-answer m (w, err e) = (λ e. cc, λ e. cc)

  inserted-answer :
      (now : DateTime) (today : ℤ) (q : Request) (o : World × Result DbError Bool)
      → o.1 ≡ ok true
      → ((after_insert lower show parse_rfc3339 parse_json now today q o).1 ≢ duplicate)
        × ((after_insert lower show parse_rfc3339 parse_json now today q o).1 ≢ db_error)
  unfolding after_insert apply_body
  inserted-answer now today q (w, ok false) h = absurd (cc h)
  inserted-answer now today q (w, ok true) h = by_body (parse_json q.body)
    where
      by_body :
          (p : Option Value)
          → ((apply_body lower show parse_rfc3339 parse_json now today q p w).1 ≢ duplicate)
            × ((apply_body lower show parse_rfc3339 parse_json now today q p w).1 ≢ db_error)
      by_body none = (λ e. cc, λ e. cc)
      by_body (some p) = event-answer q.message_id (event_run now today q p w)
  inserted-answer now today q (w, err e) h = absurd (cc h)

  -- Where the event of a verified request fails, and the DELETE after it does not, the identifier is
  -- not recorded, so that a verified request that brings it again, and whose INSERT does not fail, is
  -- not ignored as a duplicate.
  pub deliver-reopens :
      (now : DateTime) (today : ℤ) (q : Request) (p : Value) (w : World)
      → parse_json q.body ≡ some p
      → (deliver lower show parse_rfc3339 parse_json now today q w).1 ≡ apply_failed
      → next_fails
          (event_run now today q p
            (execute
              (insert_delivery q.message_id q.header_event_type)
              w.tables
              w.faults).0).0.faults
        ≡ false
      → (later : DateTime) (day : ℤ) (retry : Request) (faults : List Bool)
      → retry.message_id ≡ q.message_id
      → next_fails faults ≡ false
      → let v : World = record {
        tables = (deliver lower show parse_rfc3339 parse_json now today q w).0.tables;
        faults = faults;
      } in
        let answer = (deliver lower show parse_rfc3339 parse_json later day retry v).1 in
        (answer ≢ duplicate) × (answer ≢ db_error)
  unfolding deliver
  deliver-reopens now today q p w e h n later day retry faults same ready =
      inserted-answer later day retry _ (
        insert-new retry.message_id retry.header_event_type _ faults ready
          (rw same (inserted-fresh now today q p _ e h n)))
