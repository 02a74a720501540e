-- ===== src/Webhook/Recorded.antt =====
-- src/routes/webhooks.rs, `kick_webhook`: which deliveries are recorded after each of its steps.
use kick_channel_role.Prelude.{
  ◌≡◌, refl, ap, ◌∙◌, Bool, true, false, not, Option, none, some, List, [], ◌∷◌, any, Result, ok,
  err, arith,
}
use kick_channel_role.Prelude.Int.{ℤ}
use kick_channel_role.Prelude.Text.{Text, text_eq, text_eq_sound, text_eq_refl}
use kick_channel_role.Json.{Value}
use kick_channel_role.Rule.Facts.{DateTime}
use kick_channel_role.Validator.{filter}
use kick_channel_role.Database.{Tables, World, DbError, Delivery, run, execute, outcome}
use kick_channel_role.Database.Respects.{IsPreorder, execute-Respects}
use kick_channel_role.Webhook.Apply.{apply_event}
use kick_channel_role.Webhook.Events.{apply_event-Evolves}
use kick_channel_role.Webhook.Delivery.{
  Answer, status, Request, is_delivery, is_recorded, insert_delivery, delete_delivery,
  event_type_of, after_event, apply_body, after_insert,
}

-- What the INSERT of an identifier leaves.
abbrev pub HasInserted : Text → Tables → World × Result DbError Bool → Type 0
HasInserted m t (w, ok false) = (w.tables ≡ t) × (is_recorded m t ≡ true)
HasInserted m t (w, ok true) =
    (is_recorded m t ≡ false)
    × (is_recorded m w.tables ≡ true)
    × ((other : Text) → is_recorded other t ≡ true → is_recorded other w.tables ≡ true)
HasInserted m t (w, err e) = w.tables ≡ t

outcome-HasInserted :
    (m e : Text) (t : Tables) (faults : List Bool)
    → HasInserted m t (outcome t faults (insert_delivery m e t))
unfolding insert_delivery
outcome-HasInserted m e t faults = by_case (is_recorded m t) refl
  where
    by_case :
        (b : Bool)
        → is_recorded m t ≡ b
        → HasInserted m t (outcome t faults (insert_delivery m e t))
    by_case true h = rw h (refl, h)
    by_case false h = rw h (
      h,
      (unfold is_recorded is_delivery in rw (text_eq_refl m) refl),
      (λ other r. unfold is_recorded in ground (arith, r)),
    )

pub execute-HasInserted :
    (m e : Text) (t : Tables) (faults : List Bool)
    → HasInserted m t (execute (insert_delivery m e) t faults)
execute-HasInserted m e t [] = outcome-HasInserted m e t []
execute-HasInserted m e t (true ∷ faults) = refl
execute-HasInserted m e t (false ∷ faults) = outcome-HasInserted m e t faults

any-filter :
    (m m' : Text) (ds : List Delivery)
    → text_eq m m' ≡ false
    → any (is_delivery m') ds ≡ true
    → any (is_delivery m') (filter (λ d. not (is_delivery m d)) ds) ≡ true
unfolding is_delivery filter
any-filter m m' [] h r = r
any-filter m m' (d ∷ ds) h r = by_case (text_eq d.message_id m) refl (any-filter m m' ds h)
  where
    by_case :
        (b : Bool)
        → text_eq d.message_id m ≡ b
        → (any (is_delivery m') ds ≡ true
            → any (is_delivery m') (filter (λ d. not (is_delivery m d)) ds) ≡ true)
        → any (is_delivery m') (filter (λ d. not (is_delivery m d)) (d ∷ ds)) ≡ true
    by_case true e k =
        rw e (k (ground (arith, r, ap (λ x. text_eq x m') (text_eq_sound d.message_id m e) ∙ h)))
    by_case false e k = rw e (ground (arith, r, k))

pub any-filter-gone :
    (m : Text) (ds : List Delivery)
    → any (is_delivery m) (filter (λ d. not (is_delivery m d)) ds) ≡ false
unfolding filter
any-filter-gone m [] = refl
any-filter-gone m (d ∷ ds) = by_case (is_delivery m d) refl (any-filter-gone m ds)
  where
    by_case :
        (b : Bool)
        → is_delivery m d ≡ b
        → any (is_delivery m) (filter (λ d. not (is_delivery m d)) ds) ≡ false
        → any (is_delivery m) (filter (λ d. not (is_delivery m d)) (d ∷ ds)) ≡ false
    by_case true e k = rw e k
    by_case false e k = ground (arith, e, k)

-- A delivery that is recorded stays so.
abbrev pub Keeps : Text → Tables → Tables → Type 0
Keeps m t u = is_recorded m t ≡ true → is_recorded m u ≡ true

Keeps-IsPreorder : (m : Text) → IsPreorder (Keeps m)
Keeps-IsPreorder m = record { same = λ t h. h; along = λ t u v p q h. q (p h) }

-- What is left of the records of deliveries after the event.
after_event-Keeps :
    (m other : Text) (o : World × Result DbError (Unit {0}))
    → text_eq m other ≡ false
    → Keeps other o.0.tables (after_event m o).0.tables
unfolding after_event
after_event-Keeps m other (w, ok u) h r = r
after_event-Keeps m other (w, err e) h r =
    execute-Respects (Keeps-IsPreorder other) (delete_delivery m) w.tables w.faults
      (unfold delete_delivery is_recorded in any-filter m other w.tables.deliveries h) r

after_event-status :
    (m : Text) (o : World × Result DbError (Unit {0}))
    → status (after_event m o).1 ≡ 200
    → is_recorded m o.0.tables ≡ true
    → is_recorded m (after_event m o).0.tables ≡ true
unfolding after_event status
after_event-status m (w, ok u) h r = r
after_event-status m (w, err e) h r = absurd (ground arith)

module _ (lower : Text → Text) (show : ℤ → Text) (parse_rfc3339 : Text → Option DateTime)
    (parse_json : Text → Option Value) (now : DateTime) (today : ℤ) (q : Request) where
  unfoldable pub event : Value → World → World × Result DbError (Unit {0})
  event p w =
      run (apply_event lower show parse_rfc3339 now today (event_type_of q.header_event_type p) p) w

  event-Keeps : (m : Text) (p : Value) (w : World) → Keeps m w.tables (event p w).0.tables
  unfolding event is_recorded
  event-Keeps m p w h =
      let s =
        apply_event-Evolves lower show parse_rfc3339 now today (event_type_of q.header_event_type p)
          p w in
      ap (any (is_delivery m)) s.deliveries ∙ h

  abbrev body : Option Value → World → World × Answer
  body p w = apply_body lower show parse_rfc3339 parse_json now today q p w

  body-Keeps :
      (other : Text) (p : Option Value) (w : World)
      → text_eq q.message_id other ≡ false
      → Keeps other w.tables (body p w).0.tables
  unfolding apply_body event
  body-Keeps other none w h r = r
  body-Keeps other (some p) w h r =
      after_event-Keeps q.message_id other (event p w) h (event-Keeps other p w r)

  body-status :
      (p : Option Value) (w : World)
      → status (body p w).1 ≡ 200
      → is_recorded q.message_id w.tables ≡ true
      → is_recorded q.message_id (body p w).0.tables ≡ true
  unfolding apply_body event status
  body-status none w h r = r
  body-status (some p) w h r =
      after_event-status q.message_id (event p w) h (event-Keeps q.message_id p w r)

  abbrev inserted : World × Result DbError Bool → World × Answer
  inserted o = after_insert lower show parse_rfc3339 parse_json now today q o

  pub inserted-same :
      (t : Tables) (o : World × Result DbError Bool)
      → HasInserted q.message_id t o
      → is_recorded q.message_id t ≡ true
      → (inserted o).0.tables ≡ t
  unfolding after_insert
  inserted-same t (w, ok false) h r = h.0
  inserted-same t (w, ok true) h r = absurd (cc (h.0, r))
  inserted-same t (w, err e) h r = h

  pub inserted-Keeps :
      (t : Tables) (o : World × Result DbError Bool) (other : Text)
      → HasInserted q.message_id t o
      → text_eq q.message_id other ≡ false
      → Keeps other t (inserted o).0.tables
  unfolding after_insert
  inserted-Keeps t (w, ok false) other h d r = rw h.0 r
  inserted-Keeps t (w, ok true) other h d r = body-Keeps other (parse_json q.body) w d (h.2 other r)
  inserted-Keeps t (w, err e) other h d r = rw h r

  pub inserted-status :
      (t : Tables) (o : World × Result DbError Bool)
      → HasInserted q.message_id t o
      → status (inserted o).1 ≡ 200
      → is_recorded q.message_id (inserted o).0.tables ≡ true
  unfolding after_insert status
  inserted-status t (w, ok false) h s = rw h.0 h.1
  inserted-status t (w, ok true) h s = body-status (parse_json q.body) w s h.1
  inserted-status t (w, err e) h s = absurd (ground arith)
