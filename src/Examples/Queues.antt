-- ===== src/Examples/Queues.antt =====
-- The job queue at work: two jobs and two workers.
use kick_channel_role.Prelude.{
  Result, ok, ◌+◌, ◌*◌, Bool, false, All, if◌then◌else◌, ◌≤◌, ◌<◌, ◌≡◌, refl, max, true, none, some,
  [], ◌∷◌, map, length, arith,
}
use kick_channel_role.Prelude.Int.{pos, eqb_ℤ, ◌+ℤ◌}
use kick_channel_role.Prelude.Text.{codes}
use kick_channel_role.Json.{Value}
use kick_channel_role.AppError.{AppError}
use kick_channel_role.Rule.Facts.{DateTime}
use kick_channel_role.Jobs.{
  Job, Queue, player_sync, config_sync, as_str, in_progress, enqueue_player_sync,
  enqueue_follow_probe, enqueue_follow_probe_after, enqueue_config_sync, enqueue_channel_sync,
  enqueue_channel_refresh, new_job, member_payload, link_payload, enqueue,
  enqueue_config_sync_unless_queued, is_queued, is_runnable, claimed, claim_rows, claim_batch,
  update_where, fail_dead, backoff_delay, pending, dead,
}
use kick_channel_role.Jobs.Backoff.{backoff_delay_bounds}
use kick_channel_role.Jobs.Claims.{
  AreAfter, AreApart, where_rows, limit, is_runnable_iff, claim_batch-selects, claims-AreApart,
}
use kick_channel_role.Jobs.Locks.{Steps, start, after, enqueued, IsTable, Steps-IsTable}
use kick_channel_role.Jobs.Worker.{
  Task, sync_player, sync_link, sync_channel, refresh_channel, probe_follow, link_gone, settle,
  round,
}
use kick_channel_role.Jobs.Rounds.{HasNewJob, task_of-enqueue}
use kick_channel_role.Jobs.Retries.{among, fail_once, unfailed, failed, HasSpent, Failures-end}
use kick_channel_role.Jobs.Settled.{IsAccounted, Enqueues, nothing, one_more, round-IsAccounted}
use kick_channel_role.Sync.{enqueue_links}
use kick_channel_role.Examples.Syncs.{link}
use kick_channel_role.Jobs.Dedup.{unless_queued-one}

abbrev now : DateTime
now = pos 1000000

abbrev empty : Queue
empty = record { rows = []; next_id = 1 }

empty-IsTable : IsTable empty
empty-IsTable = (tt, tt, omega arith)

abbrev payload : Value
payload = member_payload (codes "100")

abbrev queue : Queue
queue = record {
  rows =
      new_job now 1 (codes "player_sync") payload 0
      ∷ new_job now 2 (codes "follow_probe") payload 0
      ∷ [];
  next_id = 3;
}

queue-AreAfter : AreAfter 0 queue.rows
unfolding new_job
queue-AreAfter = (omega arith, (omega arith, tt))

claims-AreApart_example :
    AreApart
      (claim_batch now (codes "a") 1 queue).1
      (claim_batch now (codes "b") 8 (claim_batch now (codes "a") 1 queue).0).1
claims-AreApart_example = claims-AreApart now now (codes "a") (codes "b") 0 1 8 queue queue-AreAfter

claim_batch-selects_example :
    ((claim_batch now (codes "a") 1 queue).1
      ≡ map
          (λ (j : Job). record j {
            status = in_progress;
            locked_by = some (codes "a");
            locked_at = some now;
            attempts = j.attempts + 1;
          })
          (limit 1 (where_rows (is_runnable now) queue.rows)))
    × AreAfter 0 (claim_batch now (codes "a") 1 queue).1
claim_batch-selects_example =
    claim_batch-selects now (codes "a") 0 1 queue (is_runnable now) queue-AreAfter
      (is_runnable_iff now)

-- The rows of a claim of both.
both-claimed : length (claim_batch now (codes "a") 8 queue).1 ≡ 2
unfolding claim_batch claim_rows is_runnable new_job ◌+ℤ◌
both-claimed = refl

enqueued_queue : Steps empty (enqueue now player_sync payload 0 empty).0
enqueued_queue = after start (enqueued now player_sync payload 0)

Steps-IsTable_example : IsTable (enqueue now player_sync payload 0 empty).0
Steps-IsTable_example = Steps-IsTable empty-IsTable enqueued_queue

task_of-enqueue_example :
    HasNewJob queue
      (enqueue_player_sync now (codes "100") queue).0
      (now +ℤ pos 0)
      (sync_player (codes "100"))
    × HasNewJob queue
        (enqueue_follow_probe now (codes "100") queue).0
        (now +ℤ pos 0)
        (probe_follow (codes "100"))
    × HasNewJob queue
        (enqueue_follow_probe_after now (codes "100") 30 queue).0
        (now +ℤ pos (30 * 1000000))
        (probe_follow (codes "100"))
    × HasNewJob queue
        (enqueue_config_sync now (codes "5") (codes "6") queue).0
        (now +ℤ pos 5000000)
        (sync_link (codes "5") (codes "6"))
    × HasNewJob queue
        (enqueue_channel_sync now (pos 7) queue).0
        (now +ℤ pos 0)
        (sync_channel (pos 7))
    × HasNewJob queue
        (enqueue_channel_refresh now (pos 7) queue).0
        (now +ℤ pos 0)
        (refresh_channel (pos 7))
task_of-enqueue_example =
    task_of-enqueue now 30 (codes "100") (codes "5") (codes "6") (pos 7) queue refl

-- A job of which 7 of 8 attempts are spent.
abbrev worn : Job
worn = record {
  id = 1;
  kind = codes "player_sync";
  payload = payload;
  status = pending;
  attempts = 7;
  max_attempts = 8;
  next_run_at = now;
  last_error = none;
  locked_by = none;
  locked_at = none;
  completed_at = none;
}

abbrev died : Job
died = record worn {
  status = dead;
  attempts = 8;
  last_error = some (codes "failed");
  completed_at = some now;
}

-- Another job in the table.
abbrev other : Job
other = record worn { id = 2 }

worn-dies :
    fail_once (λ m. codes "failed") now now (codes "a") 0 link_gone [] (other ∷ []) 3 worn
    ≡ among [] (other ∷ []) 3 died
unfolding fail_once settle claimed update_where fail_dead
worn-dies = refl

Failures-end_example :
    (1 + 7 ≤ 8)
    × HasSpent
        (λ m. codes "failed")
        worn.id
        (1 + 7)
        8
        []
        (other ∷ [])
        (fail_once (λ m. codes "failed") now now (codes "a") 0 link_gone [] (other ∷ []) 3 worn)
Failures-end_example =
    let due : is_runnable now worn ≡ true = unfold is_runnable in refl in
    Failures-end (λ m. codes "failed") 7 8 worn 1 [] (other ∷ []) _ refl refl refl (omega arith)
      (failed worn 3 now now (codes "a") 0 link_gone
        (unfailed [] (other ∷ []) 3 tt (λ e. absurd (omega (arith, e)), tt)) refl due)

backoff_delay_bounds_example :
    (2000 ≤ backoff_delay 3 250)
    × (backoff_delay 3 250 < 257000)
    × (backoff_delay 3 250 ≤ backoff_delay 5 250)
backoff_delay_bounds_example = backoff_delay_bounds 3 5 250 (omega arith) (omega arith)

unless_queued-one_example :
    length (
      where_rows
        (is_queued (λ v w. true) (as_str config_sync) (link_payload (codes "5") (codes "6")))
        (enqueue_config_sync_unless_queued
          (λ v w. true)
          now
          (codes "5")
          (codes "6")
          1200
          queue).rows)
    ≡ max 1 (
        length (
          where_rows
            (is_queued (λ v w. true) (as_str config_sync) (link_payload (codes "5") (codes "6")))
            queue.rows))
unless_queued-one_example =
    unless_queued-one (λ v w. true) now (codes "5") (codes "6") 1200 queue (λ v. refl)

-- The work of a channel's sync is that of the repository: it enqueues a sync of each link on the
-- channel. The other work of this example adds nothing.
abbrev channel_work : Task → Queue → Queue × Result AppError (Unit {0})
channel_work (sync_channel c) q = (enqueue_links now c (link ∷ []) q, ok tt)
channel_work _ q = (q, ok tt)

channel_work-Enqueues : (task : Task) (q : Queue) → Enqueues q (channel_work task q).0
unfolding enqueue_links enqueue_config_sync
channel_work-Enqueues (sync_channel c) q = by_case (eqb_ℤ (pos 7) c)
  where
    by_case :
        (b : Bool)
        → Enqueues q (if b then (enqueue_config_sync now link.guild_id link.role_id q).0 else q)
    by_case true = one_more now config_sync (link_payload link.guild_id link.role_id) 5 nothing
    by_case false = nothing
channel_work-Enqueues (sync_player d) q = nothing
channel_work-Enqueues (sync_link g r) q = nothing
channel_work-Enqueues (refresh_channel c) q = nothing
channel_work-Enqueues (probe_follow d) q = nothing

round-IsAccounted_example :
    All
      (IsAccounted [])
      (round
        (λ m. codes "failed")
        true
        channel_work
        (λ id. now)
        (λ id. 0)
        (λ id. false)
        now
        true
        (codes "a")
        queue).rows
round-IsAccounted_example =
    round-IsAccounted (λ m. codes "failed") true channel_work channel_work-Enqueues (λ id. now)
      (λ id. 0) (λ id. false) now true (codes "a") [] queue
      (unfold new_job in (λ p. absurd (cc p), (λ p. absurd (cc p), tt)))
