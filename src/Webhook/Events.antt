-- ===== src/Webhook/Events.antt =====
-- src/routes/webhooks.rs: what `apply_event` may do to the tables, whatever fails.
use kick_channel_role.Prelude.{
  ◌≡◌, refl, Bool, true, false, Option, none, some, List, if◌then◌else◌, Result, ok, err, and-true,
  arith,
}
use kick_channel_role.Prelude.Int.{ℤ, pos, ltb_ℤ}
use kick_channel_role.Prelude.Text.{Text, codes}
use kick_channel_role.Json.{Value}
use kick_channel_role.Rule.Facts.{DateTime}
use kick_channel_role.Relation.{Relation}
use kick_channel_role.Jobs.{enqueue_player_sync, player_sync}
use kick_channel_role.Jobs.Locks.{Steps, start, after, enqueued}
use kick_channel_role.Identity.{
  note_identities, update_broadcasters, store_channel_name, on_violation, park_others, write_names,
  rename_user, note_actor, actors,
}
use kick_channel_role.Database.{
  Tables, World, DbError, fault, out_of_range, unique_violation, Broadcaster, ChatDay, Sql, run,
  if_allowed, statement, when, ◌>>◌,
}
use kick_channel_role.Database.Respects.{
  Respects, IsRelated, Respects-bind, Respects-statement, Respects-query, Respects-when,
  Respects-when_some, Respects-for_each, Respects-best_effort, Respects-return, Respects-then,
}
use kick_channel_role.Webhook.{
  Event, live_status, live_metadata, followed, sub_new, sub_renewal, sub_gifts, chat_message,
  kicks_gifted, ensure_relation, update_where_row, update_row, enqueue_for_kick_user, is_row, fact,
  apply_gifts,
}
use kick_channel_role.Webhook.Chat.{
  Badge, sync_badges, sync_subscriber, sync_gifter, count_day, apply_chat, has,
}
use kick_channel_role.Webhook.Apply.{
  update_channel, apply_live, apply_kicks, apply_arm, apply_event,
}
use kick_channel_role.Webhook.Rows.{
  follow-IsRaised, subscribe-IsRaised, renew-IsRaised, gave-IsRaised, gifted-IsRaised,
  donate-IsRaised, seen-IsRaised, badge-IsRaised, sub_badge-IsRaised, hold-IsRaised,
  gave_badge-IsRaised,
}
use kick_channel_role.Webhook.Evolves.{
  IsRaised, Evolves, Evolves-IsPreorder, update_relations-Evolves, add_relation-Evolves,
  Advances-same,
}

abbrev Safe {ℓ} : {A : Type ℓ} → Sql A → Type 0
Safe m = Respects Evolves m

-- A change of the other tables only.
others-Evolves :
    (t t' : Tables)
    → t'.relations ≡ t.relations
    → Steps t.jobs t'.jobs
    → t'.deliveries ≡ t.deliveries
    → Evolves t t'
others-Evolves t t' e s d = record {
  rows = rw e (Advances-same t.relations);
  distinct = λ h. rw e h;
  in_range = λ h. rw e h;
  steps = s;
  deliveries = d;
}

module _ (now : DateTime) where
  ensure-Safe : (cid uid : ℤ) → Safe (ensure_relation now cid uid)
  unfolding ensure_relation
  ensure-Safe cid uid =
      Respects-statement Evolves-IsPreorder _ (λ t. add_relation-Evolves now cid uid t)

  where_row-Safe :
      (cid uid : ℤ) (guard : Relation → Bool) (f : Relation → Relation)
      → ((r : Relation) → guard r ≡ true → IsRaised r (f r))
      → Safe (update_where_row now cid uid guard f)
  unfolding update_where_row
  where_row-Safe cid uid guard f h =
      Respects-statement Evolves-IsPreorder _ (λ t.
        update_relations-Evolves _ f t (λ r e. h r (and-true (is_row cid uid r) (guard r) e).1))

  row-Safe :
      (cid uid : ℤ) (f : Relation → Relation)
      → ((r : Relation) → IsRaised r (f r))
      → Safe (update_row now cid uid f)
  unfolding update_row
  row-Safe cid uid f h =
      Respects-bind Evolves-IsPreorder _ _ (where_row-Safe cid uid (λ r. true) f (λ r e. h r))
        (λ b. Respects-return Evolves-IsPreorder tt)

  user-Safe : (uid : ℤ) → Safe (enqueue_for_kick_user now uid)
  unfolding enqueue_for_kick_user enqueue_player_sync
  user-Safe uid =
      Respects-bind Evolves-IsPreorder _ _ (Respects-query Evolves-IsPreorder _) (λ user.
        Respects-when_some Evolves-IsPreorder user _ (λ u.
          Respects-statement Evolves-IsPreorder _
            (λ t. others-Evolves t _ refl (after start (enqueued now player_sync _ 0)) refl)))

  fact-Safe :
      (cid uid : ℤ) (f : Relation → Relation)
      → ((r : Relation) → IsRaised r (f r))
      → Safe (fact now cid uid f)
  unfolding fact
  fact-Safe cid uid f h =
      Respects-then Evolves-IsPreorder _ _
        (Respects-then Evolves-IsPreorder _ _ (ensure-Safe cid uid) (row-Safe cid uid f h))
        (user-Safe uid)

  gifts-Safe :
      (cid : ℤ) (gifter : Option ℤ) (giftees : List ℤ) (expires_at : Option DateTime)
      → Safe (apply_gifts now cid gifter giftees expires_at)
  unfolding apply_gifts
  gifts-Safe cid gifter giftees expires_at =
      Respects-then Evolves-IsPreorder _ _
        (Respects-when_some Evolves-IsPreorder gifter _
          (λ g. Respects-when Evolves-IsPreorder _ _ (fact-Safe cid g _ (gave-IsRaised now _))))
        (Respects-for_each Evolves-IsPreorder giftees _
          (λ uid. fact-Safe cid uid _ (gifted-IsRaised now expires_at)))

  day-Safe : (cid uid today : ℤ) → Safe (statement (count_day cid uid today))
  unfolding count_day
  day-Safe cid uid today = Respects-statement Evolves-IsPreorder _ (λ t. by_case t _ _)
    where
      by_case :
          (t : Tables) (b : Bool) (days : List ChatDay)
          → IsRelated Evolves-IsPreorder t
              (if_allowed b out_of_range (record t { chat_days = days }, tt {0}))
      by_case t true days = others-Evolves t _ refl start refl
      by_case t false days = tt

  badges-Safe : (cid uid : ℤ) (badges : List Badge) → Safe (sync_badges now cid uid badges)
  unfolding sync_badges
  badges-Safe cid uid badges = where_row-Safe cid uid _ _ (λ r e. badge-IsRaised now _ _ _ r)

  subscriber-Safe : (cid uid : ℤ) (badges : List Badge) → Safe (sync_subscriber now cid uid badges)
  unfolding sync_subscriber
  subscriber-Safe cid uid badges = by_case (has badges (codes "subscriber")) refl
    where
      by_case :
          (b : Bool)
          → has badges (codes "subscriber") ≡ b
          → Safe (sync_subscriber now cid uid badges)
      by_case false e = rw e (Respects-return Evolves-IsPreorder false)
      by_case true e = rw e (
          Respects-bind Evolves-IsPreorder _ _
            (where_row-Safe cid uid _ _ (λ r _. sub_badge-IsRaised now _ r))
            (λ raised.
              Respects-bind Evolves-IsPreorder _ _
                (where_row-Safe cid uid _ _ (λ r _. hold-IsRaised now r))
                (λ held. Respects-return Evolves-IsPreorder raised)))

  gifter-Safe : (cid uid : ℤ) (gifted : Option ℤ) → Safe (sync_gifter now cid uid gifted)
  unfolding sync_gifter
  gifter-Safe cid uid none = Respects-return Evolves-IsPreorder false
  gifter-Safe cid uid (some n) = where_row-Safe cid uid _ _ (λ r e. gave_badge-IsRaised now n r e)

  chat-Safe : (today cid uid : ℤ) (badges : List Badge) → Safe (apply_chat now today cid uid badges)
  unfolding apply_chat
  chat-Safe today cid uid badges =
      Respects-then Evolves-IsPreorder _ _
        (Respects-then Evolves-IsPreorder _ _
          (Respects-then Evolves-IsPreorder _ _ (ensure-Safe cid uid)
            (row-Safe cid uid _ (seen-IsRaised now)))
          (day-Safe cid uid today))
        (Respects-bind Evolves-IsPreorder _ _ (badges-Safe cid uid badges) (λ a.
          Respects-bind Evolves-IsPreorder _ _ (subscriber-Safe cid uid badges) (λ b.
            Respects-bind Evolves-IsPreorder _ _ (gifter-Safe cid uid _)
              (λ c. Respects-when Evolves-IsPreorder _ _ (user-Safe uid)))))

rename-Safe : (uid : ℤ) (name : Text) → Safe (rename_user uid name)
unfolding rename_user
rename-Safe uid name =
    Respects-statement Evolves-IsPreorder _ (λ t. others-Evolves t _ refl start refl)

module _ (lower : Text → Text) (show : ℤ → Text) (parse_rfc3339 : Text → Option DateTime)
    (now : DateTime) (today : ℤ) where
  broadcasters-Safe :
      (p : Broadcaster → Bool) (f : Broadcaster → Broadcaster)
      → Safe (statement (update_broadcasters lower show p f))
  unfolding update_broadcasters
  broadcasters-Safe p f = Respects-statement Evolves-IsPreorder _ (λ t. by_case t _ _)
    where
      by_case :
          (t : Tables) (b : Bool) (bs : List Broadcaster)
          → IsRelated Evolves-IsPreorder t
              (if_allowed b unique_violation (record t { broadcasters = bs }, tt {0}))
      by_case t true bs = others-Evolves t _ refl start refl
      by_case t false bs = tt

  again-Safe :
      (cid : ℤ) (slug : Text) (name : Option Text)
      → Safe (park_others lower show cid slug >> write_names lower show now cid slug name)
  unfolding park_others write_names
  again-Safe cid slug name =
      Respects-then Evolves-IsPreorder _ _ (broadcasters-Safe _ _) (broadcasters-Safe _ _)

  violation-Evolves :
      (cid : ℤ) (slug : Text) (name : Option Text) (t : Tables) (w : World)
      (r : Result DbError (Unit {0}))
      → Evolves t w.tables
      → Evolves t (on_violation lower show now cid slug name (w, r)).0.tables
  unfolding on_violation
  violation-Evolves cid slug name t w (ok u) h = h
  violation-Evolves cid slug name t w (err fault) h = h
  violation-Evolves cid slug name t w (err out_of_range) h = h
  violation-Evolves cid slug name t w (err unique_violation) h =
      Evolves-IsPreorder.along t w.tables _ h ((again-Safe cid slug name).respects w)

  store-Safe :
      (cid : ℤ) (slug : Text) (name : Option Text)
      → Safe (store_channel_name lower show now cid slug name)
  unfolding store_channel_name write_names
  store-Safe cid slug name = record {
    respects =
        λ w. violation-Evolves cid slug name w.tables _ _ ((broadcasters-Safe _ _).respects w);
  }

  identities-Safe : (cid : ℤ) (p : Value) → Safe (note_identities lower show now cid p)
  unfolding note_identities note_actor
  identities-Safe cid p =
      Respects-then Evolves-IsPreorder _ _
        (Respects-when_some Evolves-IsPreorder _ _
          (λ slug. Respects-best_effort Evolves-IsPreorder _ (store-Safe cid slug _)))
        (Respects-for_each Evolves-IsPreorder actors _ (λ actor.
          Respects-when_some Evolves-IsPreorder _ _ (λ uid.
            Respects-when_some Evolves-IsPreorder _ _
              (λ name. Respects-best_effort Evolves-IsPreorder _ (rename-Safe uid name)))))

  channel-Safe :
      (cid : ℤ) (f : Broadcaster → Broadcaster)
      → Safe (update_channel lower show parse_rfc3339 now today cid f)
  unfolding update_channel
  channel-Safe cid f = broadcasters-Safe _ f

  live-Safe : (cid : ℤ) (p : Value) → Safe (apply_live lower show parse_rfc3339 now today cid p)
  unfolding apply_live
  live-Safe cid p = by_case _ (channel-Safe cid _) (channel-Safe cid _)
    where
      by_case : (b : Bool) {m n : Sql (Unit {0})} → Safe m → Safe n → Safe (if b then m else n)
      by_case true h k = h
      by_case false h k = k

  kicks-Safe :
      (cid uid amount : ℤ) → Safe (apply_kicks lower show parse_rfc3339 now today cid uid amount)
  unfolding apply_kicks
  kicks-Safe cid uid amount = by_case (ltb_ℤ (pos 0) amount) refl
    where
      by_case :
          (b : Bool)
          → ltb_ℤ (pos 0) amount ≡ b
          → Safe (apply_kicks lower show parse_rfc3339 now today cid uid amount)
      by_case true e =
          Respects-when Evolves-IsPreorder _ _
            (fact-Safe now cid uid _ (λ r. donate-IsRaised now amount r (ground arith)))
      by_case false e = rw e (unfold when in Respects-return Evolves-IsPreorder tt)

  arm-Safe :
      (event : Event) (cid : ℤ) (p : Value)
      → Safe (apply_arm lower show parse_rfc3339 now today event cid p)
  unfolding apply_arm
  arm-Safe live_status cid p = live-Safe cid p
  arm-Safe live_metadata cid p =
      Respects-when_some Evolves-IsPreorder _ _ (λ category. channel-Safe cid _)
  arm-Safe followed cid p =
      Respects-when_some Evolves-IsPreorder _ _
        (λ uid. fact-Safe now cid uid _ (follow-IsRaised now))
  arm-Safe sub_new cid p =
      Respects-when_some Evolves-IsPreorder _ _
        (λ uid. fact-Safe now cid uid _ (subscribe-IsRaised now _ _ _))
  arm-Safe sub_renewal cid p =
      Respects-when_some Evolves-IsPreorder _ _
        (λ uid. fact-Safe now cid uid _ (renew-IsRaised now _ _))
  arm-Safe sub_gifts cid p = gifts-Safe now cid _ _ _
  arm-Safe chat_message cid p =
      Respects-when_some Evolves-IsPreorder _ _ (λ uid. chat-Safe now today cid uid _)
  arm-Safe kicks_gifted cid p =
      Respects-when_some Evolves-IsPreorder _ _ (λ uid. kicks-Safe cid uid _)

  -- Whatever an event holds, and whichever of its statements fail: rows of relations keep their
  -- place, their keys and their counters of follow probes, no fact but the three badges is taken
  -- away or lowered, and new rows come behind them; keys that are distinct stay distinct, and INTEGER
  -- columns in range stay in range; the jobs change by the queue's own statements, and the record of
  -- deliveries stays.
  pub apply_event-Evolves :
      (event_type : Text) (p : Value) (w : World)
      → Evolves w.tables
          (run (apply_event lower show parse_rfc3339 now today event_type p) w).0.tables
  unfolding apply_event
  apply_event-Evolves event_type p w =
      (Respects-when_some Evolves-IsPreorder _ _ (λ cid.
          Respects-then Evolves-IsPreorder _ _ (identities-Safe cid p)
            (Respects-when_some Evolves-IsPreorder _ _ (λ event. arm-Safe event cid p)))).respects
        w
