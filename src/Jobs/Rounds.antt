-- ===== src/Jobs/Rounds.antt =====
-- src/tasks/job_worker.rs: that a worker reads back what a producer enqueues.
use kick_channel_role.Prelude.{ℕ, ◌≡◌, refl, true, [], ◌∷◌, ok, ◌++◌, ◌*◌}
use kick_channel_role.Prelude.Int.{ℤ, pos, ◌+ℤ◌, in_i64}
use kick_channel_role.Prelude.Text.{Text, text_eq}
use kick_channel_role.Rule.Facts.{DateTime}
use kick_channel_role.Json.{as_i64}
use kick_channel_role.Json
use kick_channel_role.Jobs.{
  Job, Queue, as_str, from_db, new_job, pending, enqueue, enqueue_player_sync, enqueue_follow_probe,
  enqueue_follow_probe_after, enqueue_config_sync, enqueue_channel_sync, enqueue_channel_refresh,
}
use kick_channel_role.Jobs.Worker.{
  Task, sync_player, sync_link, sync_channel, refresh_channel, probe_follow, player_sync_payload,
  text_field, int_field, task_of_kind, task_of,
}

-- The queue has one more job, at the end: pending, to be run at `run_at`, and read back as `task`.
pub record HasNewJob (before after : Queue) (run_at : DateTime) (task : Task) : Type 0 where
  job : Job
  added : after.rows ≡ before.rows ++ job ∷ []
  waits : job.status ≡ pending
  due : job.next_run_at ≡ run_at
  read : task_of job ≡ ok task

-- What the typed helpers enqueue is read back by the worker as what they were called with: a
-- player's sync and probe with the user, a config sync with the guild and the role, and, for an id
-- within an `i64`, a channel's sync and refresh with the channel. The new job is the last row of
-- the table, pending, and due at once, for a config sync in 5 seconds, and for a delayed probe
-- after its delay.
pub task_of-enqueue :
    (now : DateTime) (delay_secs : ℕ) (discord_id guild_id role_id : Text) (channel_id : ℤ)
    (q : Queue)
    → in_i64 channel_id ≡ true
    → HasNewJob q (enqueue_player_sync now discord_id q).0 (now +ℤ pos 0) (sync_player discord_id)
      × HasNewJob q
          (enqueue_follow_probe now discord_id q).0
          (now +ℤ pos 0)
          (probe_follow discord_id)
      × HasNewJob q
          (enqueue_follow_probe_after now discord_id delay_secs q).0
          (now +ℤ pos (delay_secs * 1000000))
          (probe_follow discord_id)
      × HasNewJob q
          (enqueue_config_sync now guild_id role_id q).0
          (now +ℤ pos 5000000)
          (sync_link guild_id role_id)
      × HasNewJob q
          (enqueue_channel_sync now channel_id q).0
          (now +ℤ pos 0)
          (sync_channel channel_id)
      × HasNewJob q
          (enqueue_channel_refresh now channel_id q).0
          (now +ℤ pos 0)
          (refresh_channel channel_id)
unfolding task_of new_job as_str from_db task_of_kind player_sync_payload text_field int_field
    as_i64 Json.as_str text_eq enqueue enqueue_player_sync enqueue_follow_probe
    enqueue_follow_probe_after enqueue_config_sync enqueue_channel_sync enqueue_channel_refresh
task_of-enqueue now delay_secs discord_id guild_id role_id channel_id q h = (
  record { job = _; added = refl; waits = refl; due = refl; read = refl },
  record { job = _; added = refl; waits = refl; due = refl; read = refl },
  record { job = _; added = refl; waits = refl; due = refl; read = refl },
  record { job = _; added = refl; waits = refl; due = refl; read = refl },
  record { job = _; added = refl; waits = refl; due = refl; read = rw h refl },
  record { job = _; added = refl; waits = refl; due = refl; read = rw h refl },
)
