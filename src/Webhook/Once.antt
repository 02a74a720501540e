-- ===== src/Webhook/Once.antt =====
-- src/routes/webhooks.rs, `kick_webhook`: an event takes effect once, and a failed one is not lost.
use kick_channel_role.Prelude.{
  ◌≡◌, ◌≢◌, refl, Bool, true, false, ◌||◌, Option, none, some, List, [], ◌∷◌, is_empty,
  if◌then◌else◌, arith,
}
use kick_channel_role.Prelude.Int.{ℤ}
use kick_channel_role.Prelude.Text.{Text, text_eq, text_eq_sound}
use kick_channel_role.Json.{Value}
use kick_channel_role.Rule.Facts.{DateTime}
use kick_channel_role.Database.{Tables, World}
use kick_channel_role.Webhook.Delivery.{
  Answer, missing_headers, no_signing_key, bad_signature, status, Request, KeyCache, is_recorded,
  deliver, recheck, forced_key, cached_key, after_check, with_key, kick_webhook,
}
use kick_channel_role.Webhook.Recorded.{
  execute-HasInserted, Keeps, inserted-same, inserted-Keeps, inserted-status,
}

-- A delivery as it arrives: the clock, what Kick answers if asked for its key, and which statements
-- of the handler fail.
pub record Call (Key : Type 0) : Type 0 where
  pub now : DateTime
  pub today : ℤ
  pub fetched : Option Key
  pub refetched : Option Key
  pub request : Request
  pub faults : List Bool

module _ (lower : Text → Text) (show : ℤ → Text) (parse_rfc3339 : Text → Option DateTime)
    (parse_json : Text → Option Value) where
  deliver-same :
      (now : DateTime) (today : ℤ) (q : Request) (w : World)
      → is_recorded q.message_id w.tables ≡ true
      → (deliver lower show parse_rfc3339 parse_json now today q w).0.tables ≡ w.tables
  unfolding deliver
  deliver-same now today q w r =
      inserted-same lower show parse_rfc3339 parse_json now today q w.tables _
        (execute-HasInserted q.message_id q.header_event_type w.tables w.faults) r

  deliver-Keeps :
      (now : DateTime) (today : ℤ) (q : Request) (w : World) (other : Text)
      → Keeps other w.tables (deliver lower show parse_rfc3339 parse_json now today q w).0.tables
  unfolding deliver
  deliver-Keeps now today q w other = by_case (text_eq q.message_id other) refl
    where
      by_case :
          (b : Bool)
          → text_eq q.message_id other ≡ b
          → Keeps other w.tables
              (deliver lower show parse_rfc3339 parse_json now today q w).0.tables
      by_case true e r =
          let same = text_eq_sound q.message_id other e in
          rw (deliver-same now today q w (rw same r)) r
      by_case false e r =
          inserted-Keeps lower show parse_rfc3339 parse_json now today q w.tables _ other
            (execute-HasInserted q.message_id q.header_event_type w.tables w.faults) e r

  deliver-status :
      (now : DateTime) (today : ℤ) (q : Request) (w : World)
      → status (deliver lower show parse_rfc3339 parse_json now today q w).1 ≡ 200
      → is_recorded q.message_id
          (deliver lower show parse_rfc3339 parse_json now today q w).0.tables
        ≡ true
  unfolding deliver
  deliver-status now today q w s =
      inserted-status lower show parse_rfc3339 parse_json now today q w.tables _
        (execute-HasInserted q.message_id q.header_event_type w.tables w.faults) s

  module _ {Key : Type 0} (verify : Key → Request → Bool) where
    -- What a request leaves: the database untouched, or a delivery that some key verified.
    data IsServed (now : DateTime) (today : ℤ) (q : Request) (w : World)
        : (World × KeyCache Key) × Answer → Type 0 where
      refused :
          (cache : KeyCache Key) (answer : Answer)
          → status answer ≢ 200
          → IsServed now today q w ((w, cache), answer)
      delivered :
          (k : Key) (cache : KeyCache Key)
          → verify k q ≡ true
          → IsServed now today q w (
            ((deliver lower show parse_rfc3339 parse_json now today q w).0, cache),
            (deliver lower show parse_rfc3339 parse_json now today q w).1,
          )

    after_check-IsServed :
        (now : DateTime) (today : ℤ) (q : Request) (w : World) (k : Key) (o : KeyCache Key × Bool)
        → (o.1 ≡ true → verify k q ≡ true)
        → IsServed now today q w
            (after_check lower show parse_rfc3339 parse_json verify now today q o w)
    unfolding after_check
    after_check-IsServed now today q w k (cache, true) h = delivered k cache (h refl)
    after_check-IsServed now today q w k (cache, false) h =
        refused cache bad_signature (unfold status in λ e. absurd (omega (arith, e)))

    -- With a key that was fetched again, if there is one.
    fresh-IsServed :
        (now : DateTime) (today : ℤ) (q : Request) (w : World) (k : Key) (cache : KeyCache Key)
        (fresh : Option Key)
        → IsServed now today q w (
            after_check lower show parse_rfc3339 parse_json verify now today q
              (cache, elim fresh [ none ↦ false | some k' ↦ verify k' q ])
              w)
    fresh-IsServed now today q w k cache none =
        after_check-IsServed now today q w k (cache, false) (λ e. cc)
    fresh-IsServed now today q w k cache (some k') =
        after_check-IsServed now today q w k' (cache, verify k' q) (λ e. e)

    recheck-IsServed :
        (now : DateTime) (today : ℤ) (refetched : Option Key) (q : Request) (w : World) (k : Key)
        (cache : KeyCache Key) (b : Bool)
        → verify k q ≡ b
        → IsServed now today q w (
            after_check lower show parse_rfc3339 parse_json verify now today q
              (recheck verify now refetched q b cache)
              w)
    unfolding recheck
    recheck-IsServed now today refetched q w k cache true e =
        after_check-IsServed now today q w k (cache, true) (λ _. e)
    recheck-IsServed now today refetched q w k cache false e =
        let o = forced_key now refetched cache in fresh-IsServed now today q w k o.0 o.1

    with_key-IsServed :
        (now : DateTime) (today : ℤ) (refetched : Option Key) (q : Request) (w : World)
        (o : KeyCache Key × Option Key)
        → IsServed now today q w
            (with_key lower show parse_rfc3339 parse_json verify now today refetched q o w)
    unfolding with_key
    with_key-IsServed now today refetched q w (cache, none) =
        refused cache no_signing_key (unfold status in λ e. absurd (omega (arith, e)))
    with_key-IsServed now today refetched q w (cache, some k) =
        recheck-IsServed now today refetched q w k cache (verify k q) refl

    webhook-IsServed :
        (now : DateTime) (today : ℤ) (fetched refetched : Option Key) (q : Request)
        (cache : KeyCache Key) (w : World)
        → IsServed now today q w (
            kick_webhook lower show parse_rfc3339 parse_json verify now today fetched refetched q
              cache w)
    unfolding kick_webhook
    webhook-IsServed now today fetched refetched q cache w =
        by_headers (is_empty q.message_id || is_empty q.timestamp || is_empty q.signature)
          (refused cache missing_headers (unfold status in λ e. absurd (omega (arith, e))))
          (with_key-IsServed now today refetched q w (cached_key fetched cache))
      where
        by_headers :
            (b : Bool) {x y : (World × KeyCache Key) × Answer}
            → IsServed now today q w x
            → IsServed now today q w y
            → IsServed now today q w (if b then x else y)
        by_headers true h k = h
        by_headers false h k = k

    -- A request that no key verifies leaves the database as it is, and is not answered 200.
    pub kick_webhook-verified :
        (now : DateTime) (today : ℤ) (fetched refetched : Option Key) (q : Request)
        (cache : KeyCache Key) (w : World)
        → ((k : Key) → verify k q ≡ false)
        → ((kick_webhook lower show parse_rfc3339 parse_json verify now today fetched refetched q
              cache w).0.0
            ≡ w)
          × (status
                (kick_webhook lower show parse_rfc3339 parse_json verify now today fetched refetched
                  q cache w).1
              ≢ 200)
    kick_webhook-verified now today fetched refetched q cache w h =
        by_served _ (webhook-IsServed now today fetched refetched q cache w)
      where
        by_served :
            (o : (World × KeyCache Key) × Answer)
            → IsServed now today q w o
            → (o.0.0 ≡ w) × (status o.1 ≢ 200)
        by_served _ (refused c a n) = (refl, n)
        by_served _ (delivered k c e) = absurd (cc (e, h k))

    abbrev pub serve : Call Key → Tables → KeyCache Key → (World × KeyCache Key) × Answer
    serve c t cache =
        kick_webhook lower show parse_rfc3339 parse_json verify c.now c.today c.fetched c.refetched
          c.request cache (record { tables = t; faults = c.faults })

    -- Requests one after the other.
    unfoldable pub serve_all : List (Call Key) → Tables → KeyCache Key → Tables × KeyCache Key
    serve_all [] t cache = (t, cache)
    serve_all (c ∷ cs) t cache =
        let ((w, cache'), answer) = serve c t cache in serve_all cs w.tables cache'

    served-same :
        (c : Call Key) (w : World) (o : (World × KeyCache Key) × Answer)
        → IsServed c.now c.today c.request w o
        → is_recorded c.request.message_id w.tables ≡ true
        → o.0.0.tables ≡ w.tables
    served-same c w _ (refused _ _ _) r = refl
    served-same c w _ (delivered k _ _) r = deliver-same c.now c.today c.request w r

    served-Keeps :
        (c : Call Key) (w : World) (o : (World × KeyCache Key) × Answer) (m : Text)
        → IsServed c.now c.today c.request w o
        → Keeps m w.tables o.0.0.tables
    served-Keeps c w _ m (refused _ _ _) r = r
    served-Keeps c w _ m (delivered k _ _) r = deliver-Keeps c.now c.today c.request w m r

    served-status :
        (c : Call Key) (w : World) (o : (World × KeyCache Key) × Answer)
        → IsServed c.now c.today c.request w o
        → status o.1 ≡ 200
        → is_recorded c.request.message_id o.0.0.tables ≡ true
    served-status c w _ (refused _ _ n) s = absurd (n s)
    served-status c w _ (delivered k _ _) s = deliver-status c.now c.today c.request w s

    serve-IsServed :
        (c : Call Key) (t : Tables) (cache : KeyCache Key)
        → IsServed c.now c.today c.request
            (record { tables = t; faults = c.faults })
            (serve c t cache)
    serve-IsServed c t cache =
        webhook-IsServed c.now c.today c.fetched c.refetched c.request cache _

    serve_all-Keeps :
        (cs : List (Call Key)) (t : Tables) (cache : KeyCache Key) (m : Text)
        → Keeps m t (serve_all cs t cache).0
    unfolding serve_all
    serve_all-Keeps [] t cache m r = r
    serve_all-Keeps (c ∷ cs) t cache m r =
        let o = serve c t cache in
        serve_all-Keeps cs o.0.0.tables o.0.1 m (served-Keeps c _ o m (serve-IsServed c t cache) r)

    -- Once a request was answered 200, and whatever requests come after it, one with the same
    -- message identifier leaves the tables as they are.
    pub kick_webhook-once :
        (first : Call Key) (between : List (Call Key)) (again : Call Key) (t : Tables)
        (cache : KeyCache Key)
        → status (serve first t cache).1 ≡ 200
        → again.request.message_id ≡ first.request.message_id
        → let ((w, c), answer) = serve first t cache in
          let (u, c') = serve_all between w.tables c in (serve again u c').0.0.tables ≡ u
    kick_webhook-once first between again t cache s same =
        let o = serve first t cache in
        let u = serve_all between o.0.0.tables o.0.1 in
        served-same again _ (serve again u.0 u.1) (serve-IsServed again u.0 u.1) (
          rw same (
            serve_all-Keeps between o.0.0.tables o.0.1 first.request.message_id
              (served-status first _ o (serve-IsServed first t cache) s)))
