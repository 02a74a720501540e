-- ===== src/Webhook/Evolves.antt =====
-- How the statements of an event may change the tables.
use kick_channel_role.Prelude.{
  ◌≡◌, ◌≢◌, refl, ap, ◌∙◌, Bool, true, false, none, List, [], ◌∷◌, ◌++◌, any, all, All, update_rows,
  and-true, arith,
}
use kick_channel_role.Prelude.Int.{ℤ, ◌≤ℤ◌, eqb_ℤ_iff}
use kick_channel_role.Rule.Facts.{DateTime}
use kick_channel_role.Relation.{Relation}
use kick_channel_role.Jobs.Locks.{Steps, start, Steps-trans}
use kick_channel_role.Database.{Tables, out_of_range, fits, update_relations, if_allowed}
use kick_channel_role.Database.Respects.{IsPreorder, IsRelated}
use kick_channel_role.Webhook.{is_row, new_relation, add_relation}

-- No fact but the badges is taken away or lowered, and the counters of follow probes stay.
pub record IsRaised (r r' : Relation) : Type 0 where
  pub same_channel : r'.kick_channel_id ≡ r.kick_channel_id
  pub same_user : r'.kick_user_id ≡ r.kick_user_id
  pub follows : r.is_follower ≡ true → r'.is_follower ≡ true
  pub dated : r.followed_at ≢ none → r'.followed_at ≡ r.followed_at
  pub subscribes : r.is_subscriber ≡ true → r'.is_subscriber ≡ true
  pub gifted : r.sub_is_gift ≡ true → r'.sub_is_gift ≡ true
  pub months : r.sub_months_cumulative ≤ℤ r'.sub_months_cumulative
  pub streak : r.sub_streak_months ≤ℤ r'.sub_streak_months
  pub gave : r.gifted_subs_given ≤ℤ r'.gifted_subs_given
  pub donated : r.kicks_donated ≤ℤ r'.kicks_donated
  pub chatted : r.chat_messages_30d ≤ℤ r'.chat_messages_30d
  pub misses : r'.follow_probe_misses ≡ r.follow_probe_misses
  pub missed_at : r'.follow_missed_at ≡ r.follow_missed_at

pub IsRaised-same : (r : Relation) → IsRaised r r
IsRaised-same r = record {
  same_channel = refl;
  same_user = refl;
  follows = λ e. e;
  dated = λ e. refl;
  subscribes = λ e. e;
  gifted = λ e. e;
  months = omega arith;
  streak = omega arith;
  gave = omega arith;
  donated = omega arith;
  chatted = omega arith;
  misses = refl;
  missed_at = refl;
}

IsRaised-along : (a b c : Relation) → IsRaised a b → IsRaised b c → IsRaised a c
IsRaised-along a b c p q = record {
  same_channel = q.same_channel ∙ p.same_channel;
  same_user = q.same_user ∙ p.same_user;
  follows = λ e. q.follows (p.follows e);
  dated = λ e. q.dated (rw (p.dated e) e) ∙ p.dated e;
  subscribes = λ e. q.subscribes (p.subscribes e);
  gifted = λ e. q.gifted (p.gifted e);
  months = omega (arith, p.months, q.months);
  streak = omega (arith, p.streak, q.streak);
  gave = omega (arith, p.gave, q.gave);
  donated = omega (arith, p.donated, q.donated);
  chatted = omega (arith, p.chatted, q.chatted);
  misses = q.misses ∙ p.misses;
  missed_at = q.missed_at ∙ p.missed_at;
}

-- The rows stay where they are, raised at most, and new rows come behind them.
pub data Advances : List Relation → List Relation → Type 0 where
  added : (rows : List Relation) → Advances [] rows
  raised :
      {r r' : Relation} {rows rows' : List Relation}
      → IsRaised r r'
      → Advances rows rows'
      → Advances (r ∷ rows) (r' ∷ rows')

pub Advances-same : (rows : List Relation) → Advances rows rows
Advances-same [] = added []
Advances-same (r ∷ rows) = raised (IsRaised-same r) (Advances-same rows)

pub Advances-along : {a b c : List Relation} → Advances a b → Advances b c → Advances a c
Advances-along (added rows) q = added _
Advances-along (raised h p) (raised k q) = raised (IsRaised-along _ _ _ h k) (Advances-along p q)

pub Advances-append : (rows more : List Relation) → Advances rows (rows ++ more)
Advances-append [] more = added more
Advances-append (r ∷ rows) more = raised (IsRaised-same r) (Advances-append rows more)

pub Advances-update :
    (p : Relation → Bool) (f : Relation → Relation) (rows : List Relation)
    → ((r : Relation) → p r ≡ true → IsRaised r (f r))
    → Advances rows (update_rows p f rows)
Advances-update p f [] h = added []
Advances-update p f (r ∷ rows) h = by_case (p r) refl (Advances-update p f rows h)
  where
    by_case :
        (b : Bool)
        → p r ≡ b
        → Advances rows (update_rows p f rows)
        → Advances (r ∷ rows) (update_rows p f (r ∷ rows))
    by_case true e a = rw e (raised (h r e) a)
    by_case false e a = rw e (raised (IsRaised-same r) a)

-- The keys of the rows.
abbrev pub keys : List Relation → List (ℤ × ℤ)
keys [] = []
keys (r ∷ rows) = (r.kick_channel_id, r.kick_user_id) ∷ keys rows

abbrev pub AreDistinct : List (ℤ × ℤ) → Type 0
AreDistinct [] = Unit
AreDistinct (k ∷ ks) = All (λ other. k ≢ other) ks × AreDistinct ks

All-last {ℓ} :
    {A : Type 0} (P : A → Type ℓ) (xs : List A) (x : A) → All P xs → P x → All P (xs ++ x ∷ [])
All-last P [] x h p = (p, tt)
All-last P (y ∷ xs) x h p = (h.0, All-last P xs x h.1 p)

AreDistinct-last :
    (ks : List (ℤ × ℤ)) (k : ℤ × ℤ)
    → AreDistinct ks
    → All (λ other. other ≢ k) ks
    → AreDistinct (ks ++ k ∷ [])
AreDistinct-last [] k d h = (tt, tt)
AreDistinct-last (x ∷ ks) k d h = (All-last _ ks k d.0 h.0, AreDistinct-last ks k d.1 h.1)

keys-append : (rows more : List Relation) → keys (rows ++ more) ≡ keys rows ++ keys more
keys-append [] more = refl
keys-append (r ∷ rows) more =
    ap (λ l. (r.kick_channel_id, r.kick_user_id) ∷ l) (keys-append rows more)

keys-update :
    (p : Relation → Bool) (f : Relation → Relation) (rows : List Relation)
    → ((r : Relation) → p r ≡ true → IsRaised r (f r))
    → keys (update_rows p f rows) ≡ keys rows
keys-update p f [] h = refl
keys-update p f (r ∷ rows) h = by_case (p r) refl (keys-update p f rows h)
  where
    by_case :
        (b : Bool)
        → p r ≡ b
        → keys (update_rows p f rows) ≡ keys rows
        → keys (update_rows p f (r ∷ rows)) ≡ keys (r ∷ rows)
    by_case true e q = rw (e, q, (h r e).same_channel, (h r e).same_user) refl
    by_case false e q = rw (e, q) refl

absent_key :
    (cid uid : ℤ) (rows : List Relation)
    → any (is_row cid uid) rows ≡ false
    → All (λ other. other ≢ (cid, uid)) (keys rows)
absent_key cid uid [] h = tt
absent_key cid uid (r ∷ rows) h = by_case (is_row cid uid r) refl (absent_key cid uid rows)
  where
    by_case :
        (b : Bool)
        → is_row cid uid r ≡ b
        → (any (is_row cid uid) rows ≡ false → All (λ other. other ≢ (cid, uid)) (keys rows))
        → All (λ other. other ≢ (cid, uid)) (keys (r ∷ rows))
    by_case true e k = absurd (cc (rw e at h))
    by_case false e k = (
      λ q.
          (let here : is_row cid uid r ≡ true =
              unfold is_row in
              rw
                (
                  (eqb_ℤ_iff r.kick_channel_id cid).1 (ap (λ (k : ℤ × ℤ). k.0) q),
                  (eqb_ℤ_iff r.kick_user_id uid).1 (ap (λ (k : ℤ × ℤ). k.1) q),
                )
                refl in
            absurd (cc (here, e))),
      k (rw e at h),
    )

-- What an event may do: relations advance with distinct keys and INTEGER columns in range, jobs
-- change by the queue's own statements, and the record of deliveries stays.
pub record Evolves (t t' : Tables) : Type 0 where
  pub rows : Advances t.relations t'.relations
  pub distinct : AreDistinct (keys t.relations) → AreDistinct (keys t'.relations)
  pub in_range : all fits t.relations ≡ true → all fits t'.relations ≡ true
  pub steps : Steps t.jobs t'.jobs
  pub deliveries : t'.deliveries ≡ t.deliveries

pub Evolves-IsPreorder : IsPreorder Evolves
Evolves-IsPreorder = record {
  same = λ t. record {
    rows = Advances-same t.relations;
    distinct = λ d. d;
    in_range = λ e. e;
    steps = start;
    deliveries = refl;
  };
  along = λ t u v p q. record {
    rows = Advances-along p.rows q.rows;
    distinct = λ d. q.distinct (p.distinct d);
    in_range = λ e. q.in_range (p.in_range e);
    steps = Steps-trans p.steps q.steps;
    deliveries = q.deliveries ∙ p.deliveries;
  };
}

-- An UPDATE that raises rows.
pub update_relations-Evolves :
    (p : Relation → Bool) (f : Relation → Relation) (t : Tables)
    → ((r : Relation) → p r ≡ true → IsRaised r (f r))
    → IsRelated Evolves-IsPreorder t (update_relations p f t)
unfolding update_relations
update_relations-Evolves p f t h = by_case (all fits (update_rows p f t.relations)) refl
  where
    by_case :
        (b : Bool)
        → all fits (update_rows p f t.relations) ≡ b
        → IsRelated Evolves-IsPreorder t (
            if_allowed b out_of_range
              (record t { relations = update_rows p f t.relations }, any p t.relations))
    by_case false e = tt
    by_case true e = record {
      rows = Advances-update p f t.relations h;
      distinct = λ d. rw (keys-update p f t.relations h) d;
      in_range = λ _. e;
      steps = start;
      deliveries = refl;
    }

all_last :
    (p : Relation → Bool) (xs : List Relation) (x : Relation)
    → all p xs ≡ true
    → p x ≡ true
    → all p (xs ++ x ∷ []) ≡ true
all_last p [] x h e = rw e refl
all_last p (y ∷ xs) x h e = let (q, r) = and-true (p y) (all p xs) h in rw q (all_last p xs x r e)

pub add_relation-Evolves :
    (now : DateTime) (cid uid : ℤ) (t : Tables)
    → IsRelated Evolves-IsPreorder t (add_relation now cid uid t)
unfolding add_relation new_relation
add_relation-Evolves now cid uid t = by_case (any (is_row cid uid) t.relations) refl
  where
    by_case :
        (b : Bool)
        → any (is_row cid uid) t.relations ≡ b
        → IsRelated Evolves-IsPreorder t (add_relation now cid uid t)
    by_case true e = rw e (Evolves-IsPreorder.same t)
    by_case false e = rw e (record {
      rows = Advances-append t.relations (new_relation now cid uid ∷ []);
      distinct = λ d.
          (rw (keys-append t.relations (new_relation now cid uid ∷ []))
            (AreDistinct-last (keys t.relations) (cid, uid) d (absent_key cid uid t.relations e)));
      in_range = λ h. all_last fits t.relations (new_relation now cid uid) h (unfold fits in refl);
      steps = start;
      deliveries = refl;
    })
