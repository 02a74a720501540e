-- ===== src/Jobs/Worker.antt =====
-- src/tasks/job_worker.rs: a worker's round, which reaps, claims a batch, and processes its jobs.
-- The work of a job is the argument `run`: it acts on the queue, where it may enqueue, and its
-- effect on the other tables is no part of this state. `print` is the text of a message.
use kick_channel_role.Prelude.{
  ℕ, ◌*◌, Bool, Option, none, List, [], ◌∷◌, if◌then◌else◌, leb, Result, ok, err, ◌>>=◌, and_then,
  ok_or,
}
use kick_channel_role.Prelude.Int.{ℤ}
use kick_channel_role.Prelude.Text.{Text, codes}
use kick_channel_role.Json.{
  find_field, get, Value, Items, Fields, object, array, nil, cons, field, end, as_i64,
}
use kick_channel_role.AppError.{AppError, role_link_not_found, user_limit_reached}
use kick_channel_role.Rule.Facts.{DateTime}
use kick_channel_role.Jobs.{
  Job, JobKind, player_sync, config_sync, channel_sync, channel_refresh, follow_probe, from_db,
  Queue, claim_batch, complete, fail_retry, fail_dead, reap_stuck,
}
use kick_channel_role.Json

abbrev pub stuck_lock_secs : ℕ
stuck_lock_secs = 60 * 45

abbrev pub job_batch_size : ℕ
job_batch_size = 8

-- What a job asks for.
pub data Task : Type 0 where
  sync_player : Text → Task
  sync_link : Text → Text → Task
  sync_channel refresh_channel : ℤ → Task
  probe_follow : Text → Task

pub data Message : Type 0 where
  link_gone shutting_down : Message
  limit_reached : ℕ → Message
  app_error : AppError → Message
  unknown_kind : Text → Message
  invalid_payload : Message
  missing : Text → Message

pub data JobError : Type 0 where
  terminal retry : Message → JobError

-- `From<AppError> for JobError`.
unfoldable pub of_app_error : AppError → JobError
of_app_error role_link_not_found = terminal link_gone
of_app_error (user_limit_reached n) = terminal (limit_reached n)
of_app_error other = retry (app_error other)

-- `serde_json::from_value` into PlayerSyncPayload, a struct of one string, which serde also reads
-- from a list of one element.
unfoldable pub player_sync_payload : Value → Option Text
player_sync_payload (object fields) = and_then (find_field (codes "discord_id") fields) Json.as_str
player_sync_payload (array (cons v nil)) = Json.as_str v
player_sync_payload _ = none

unfoldable pub text_field : Text → Value → Result JobError Text
text_field key payload = ok_or (and_then (get key payload) Json.as_str) (terminal (missing key))

unfoldable pub int_field : Text → Value → Result JobError ℤ
int_field key payload = ok_or (and_then (get key payload) as_i64) (terminal (missing key))

-- The first part of `dispatch`: the kind, and the payload it needs.
unfoldable pub task_of_kind : JobKind → Value → Result JobError Task
unfolding player_sync_payload text_field int_field
task_of_kind player_sync payload = do
  discord_id ← ok_or (player_sync_payload payload) (terminal invalid_payload)
  ok (sync_player discord_id)
task_of_kind config_sync payload = do
  guild_id ← text_field (codes "guild_id") payload
  role_id ← text_field (codes "role_id") payload
  ok (sync_link guild_id role_id)
task_of_kind channel_sync payload = do
  channel_id ← int_field (codes "kick_channel_id") payload
  ok (sync_channel channel_id)
task_of_kind channel_refresh payload = do
  channel_id ← int_field (codes "kick_channel_id") payload
  ok (refresh_channel channel_id)
task_of_kind follow_probe payload = do
  discord_id ← text_field (codes "discord_id") payload
  ok (probe_follow discord_id)

unfoldable pub task_of : Job → Result JobError Task
unfolding task_of_kind
task_of job = do
  kind ← ok_or (from_db job.kind) (terminal (unknown_kind job.kind))
  task_of_kind kind job.payload

module _ (print : Message → Text) where
  -- What the outcome of a job does to its row.
  unfoldable pub settle : DateTime → ℕ → Job → Result JobError (Unit {0}) → Queue → Queue
  settle now jitter_ms job (ok u) q = complete now job.id q
  settle now jitter_ms job (err (terminal m)) q = fail_dead now job.id (print m) q
  settle now jitter_ms job (err (retry m)) q =
      if leb job.max_attempts job.attempts
      then fail_dead now job.id (print m) q
      else fail_retry now job (print m) jitter_ms q

module _ (print : Message → Text) (kick_configured : Bool)
    (run : Task → Queue → Queue × Result AppError (Unit {0})) where
  -- A refresh without a Kick client is done at once.
  unfoldable pub perform : Task → Queue → Queue × Result AppError (Unit {0})
  perform (refresh_channel id) q =
      if kick_configured then run (refresh_channel id) q else (q, ok tt)
  perform task q = run task q

  -- The `?` on what the work returns.
  abbrev pub as_outcome : Result AppError (Unit {0}) → Result JobError (Unit {0})
  as_outcome (ok u) = ok u
  as_outcome (err e) = err (of_app_error e)

  abbrev pub dispatch_task : Result JobError Task → Queue → Queue × Result JobError (Unit {0})
  dispatch_task (ok task) q = ((perform task q).0, as_outcome (perform task q).1)
  dispatch_task (err e) q = (q, err e)

  unfoldable pub dispatch : Job → Queue → Queue × Result JobError (Unit {0})
  dispatch job q = dispatch_task (task_of job) q

  -- One claimed job; `stops` tells whether a shutdown is under way.
  unfoldable pub process_job : DateTime → ℕ → Bool → Job → Queue → Queue
  unfolding dispatch settle
  process_job now jitter_ms stops job q =
      if stops
      then fail_retry now job (print shutting_down) jitter_ms q
      else settle print now jitter_ms job (dispatch job q).1 (dispatch job q).0

  -- The clock, the jitter and the shutdown flag when the job of an id is at hand.
  module _ (clock : ℕ → DateTime) (jitter : ℕ → ℕ) (stops : ℕ → Bool) where
    unfoldable pub process_all : List Job → Queue → Queue
    unfolding process_job
    process_all [] q = q
    process_all (job ∷ jobs) q =
        process_all jobs (process_job (clock job.id) (jitter job.id) (stops job.id) job q)

    -- One turn of the loop; `reap_due` tells whether two minutes have passed since the last reap.
    unfoldable pub round : DateTime → Bool → Text → Queue → Queue
    unfolding process_all
    round now reap_due worker_id q =
        let reaped = if reap_due then reap_stuck now stuck_lock_secs q else q in
        let (left, batch) = claim_batch now worker_id job_batch_size reaped in
        process_all batch left
