-- ===== src/FollowSync/Players.antt =====
-- src/services/follow_sync.rs, `probe_and_apply_for_player`: every channel of one viewer is probed.
-- What the probe answers for a slug and a name is an argument.
use kick_channel_role.Prelude.{
  ℕ, suc, ◌+◌, ◌*◌, Bool, false, ◌&&◌, ◌||◌, Option, none, some, List, [], ◌∷◌, any, ltb, ◌==◌,
  if◌then◌else◌, update_rows,
}
use kick_channel_role.Prelude.Int.{ℤ, pos, eqb_ℤ, ltb_ℤ}
use kick_channel_role.Prelude.Text.{Text, codes, text_eq}
use kick_channel_role.Json.{Value, get, as_str}
use kick_channel_role.Rule.Facts.{DateTime}
use kick_channel_role.Relation.{Relation, KickUser}
use kick_channel_role.Jobs.{
  Job, Queue, is_pending, follow_probe, enqueue_follow_probe_after, enqueue_player_sync,
}
use kick_channel_role.Jobs as Jobs
use kick_channel_role.Sync.{find}
use kick_channel_role.Webhook.{is_row}
use kick_channel_role.Database.{Broadcaster, Tables}
use kick_channel_role.FollowSync.{
  CardFacts, ProbeOutcome, usable, unavailable, Decision, decide, apply,
}

pub record ProbeReport : Type 0 where
  pub attempted : ℕ
  pub usable_count : ℕ
  pub following : ℕ
  pub removed : ℕ
  pub changed : Bool

abbrev pub no_report : ProbeReport
no_report = record { attempted = 0; usable_count = 0; following = 0; removed = 0; changed = false }

unfoldable pub all_unavailable : ProbeReport → Bool
all_unavailable report = ltb 0 report.attempted && report.usable_count == 0

-- What the loop has so far: the rows, the report, and whether a denial awaits another.
pub record Progress : Type 0 where
  pub relations : List Relation
  pub report : ProbeReport
  pub awaiting_confirmation : Bool

abbrev pub slug_of : List Broadcaster → ℤ → Option Text
slug_of [] cid = none
slug_of (b ∷ bs) cid = if eqb_ℤ b.kick_channel_id cid then some b.kick_slug else slug_of bs cid

-- The JOIN: the viewer's rows, each with the slug of its channel.
abbrev pub with_slug : Relation → Option Text → List (Relation × Text) → List (Relation × Text)
with_slug r none rest = rest
with_slug r (some slug) rest = (r, slug) ∷ rest

unfoldable pub select_rows : List Broadcaster → ℤ → List Relation → List (Relation × Text)
select_rows bs uid [] = []
select_rows bs uid (r ∷ rs) =
    let rest = select_rows bs uid rs in
    if eqb_ℤ r.kick_user_id uid then with_slug r (slug_of bs r.kick_channel_id) rest else rest

abbrev pub count_if : Bool → ℕ → ℕ
count_if b n = if b then suc n else n

unfoldable pub note_decision : CardFacts → Decision → ProbeReport → ProbeReport
note_decision facts decision report = record {
  attempted = suc report.attempted;
  usable_count = suc report.usable_count;
  following = count_if facts.is_following report.following;
  removed = count_if decision.removes_follow report.removed;
  changed = report.changed || decision.changed_facts;
}

module _ (confirmations : ℤ) (now : DateTime) (uid : ℤ) where
  -- A usable card: the decision is taken on the row that was read, and written to the stored one.
  unfoldable pub on_card : Relation → CardFacts → Decision → Progress → Progress
  unfolding note_decision
  on_card row facts decision p = record {
    relations =
        update_rows (is_row row.kick_channel_id uid) (λ r. apply now r facts decision) p.relations;
    report = note_decision facts decision p.report;
    awaiting_confirmation =
        p.awaiting_confirmation || (decision.is_follower && ltb_ℤ (pos 0) decision.misses);
  }

  -- No answer: the attempt is stamped.
  unfoldable pub on_outcome : Relation → ProbeOutcome → Progress → Progress
  unfolding on_card
  on_outcome row (usable facts) p = on_card row facts (decide now row facts confirmations) p
  on_outcome row (unavailable reason) p = record p {
    relations =
        update_rows (is_row row.kick_channel_id uid)
          (λ r. record r { follow_probe_attempted_at = some now }) p.relations;
    report = record p.report { attempted = suc p.report.attempted };
  }

  unfoldable pub probe_rows :
      (Text → Text → ProbeOutcome) → Text → List (Relation × Text) → Progress → Progress
  unfolding on_outcome
  probe_rows probe name [] p = p
  probe_rows probe name ((row, slug) ∷ rows) p =
      probe_rows probe name rows (on_outcome row (probe slug name) p)

-- A pending probe of the same member, by `payload->>'discord_id'`.
abbrev pub same_text : Option Text → Text → Bool
same_text none s = false
same_text (some t) s = text_eq t s

abbrev pub text_of : Option Value → Option Text
text_of none = none
text_of (some v) = as_str v

unfoldable pub is_probe_queued : Text → Job → Bool
is_probe_queued discord_id j =
    text_eq j.kind (Jobs.as_str follow_probe)
    && is_pending j.status
    && same_text (text_of (get (codes "discord_id") j.payload)) discord_id

-- The spacing of misses and a few minutes, in seconds.
abbrev pub confirmation_delay : ℕ
confirmation_delay = 6 * 3600 + 300

unfoldable pub book_confirmation : DateTime → Text → Queue → Queue
unfolding is_probe_queued
book_confirmation now discord_id q =
    if any (is_probe_queued discord_id) q.rows
    then q
    else (enqueue_follow_probe_after now discord_id confirmation_delay q).0

unfoldable pub after_probes : DateTime → Text → Tables → Progress → Tables × ProbeReport
unfolding book_confirmation
after_probes now discord_id t p =
    let booked =
      if p.awaiting_confirmation then book_confirmation now discord_id t.jobs else t.jobs in
    (
      record t {
        relations = p.relations;
        jobs = if p.report.changed then (enqueue_player_sync now discord_id booked).0 else booked;
      },
      p.report,
    )

unfoldable pub probe_user :
    ℤ
    → DateTime
    → (Text → Text → ProbeOutcome)
    → Text
    → Option KickUser
    → Tables
    → Tables × ProbeReport
unfolding after_probes probe_rows select_rows
probe_user confirmations now probe discord_id none t = (t, no_report)
probe_user confirmations now probe discord_id (some u) t = after_probes now discord_id t (
    probe_rows confirmations now u.kick_user_id probe u.kick_username
      (select_rows t.broadcasters u.kick_user_id t.relations)
      (record { relations = t.relations; report = no_report; awaiting_confirmation = false }))

-- Without a configured probe nothing happens.
unfoldable pub probe_and_apply_for_player :
    ℤ → DateTime → Option (Text → Text → ProbeOutcome) → Text → Tables → Tables × ProbeReport
unfolding probe_user
probe_and_apply_for_player confirmations now none discord_id t = (t, no_report)
probe_and_apply_for_player confirmations now (some probe) discord_id t =
    probe_user confirmations now probe discord_id
      (find (λ (u : KickUser). text_eq u.discord_id discord_id) t.kick_users) t
