-- ===== src/Jobs.antt =====
-- src/services/jobs.rs: the job queue in the table `jobs` (migration 006). Each SQL statement is one
-- step on the table, whose rows stand in the order of their ids; `now` is the database's clock in
-- microseconds.
pub mod Backoff
pub mod Claims
pub mod Locks
pub mod Worker
pub mod Rounds
pub mod Settled
pub mod Retries
pub mod Dedup
use kick_channel_role.Prelude.{
  ℕ, zero, suc, ◌+◌, ◌*◌, ◌^◌, ◌==◌, Bool, true, false, not, ◌&&◌, Option, none, some, List, [],
  ◌∷◌, ◌++◌, map, any, leb, ltb, if◌then◌else◌,
}
use kick_channel_role.Prelude.Int.{ℤ, pos, ◌+ℤ◌, ◌-ℤ◌, leb_ℤ, ltb_ℤ}
use kick_channel_role.Prelude.Text.{Text, codes, text_eq, match_str}
use kick_channel_role.Json.{Value, string, number, integer, object, field, end}
use kick_channel_role.Rule.Facts.{DateTime}

pub data JobKind : Type 0 where
  player_sync config_sync channel_sync channel_refresh follow_probe : JobKind

unfoldable pub as_str : JobKind → Text
as_str player_sync = codes "player_sync"
as_str config_sync = codes "config_sync"
as_str channel_sync = codes "channel_sync"
as_str channel_refresh = codes "channel_refresh"
as_str follow_probe = codes "follow_probe"

abbrev pub kind_arms : List (Text × JobKind)
kind_arms =
    (codes "player_sync", player_sync)
    ∷ (codes "config_sync", config_sync)
    ∷ (codes "channel_sync", channel_sync)
    ∷ (codes "channel_refresh", channel_refresh)
    ∷ (codes "follow_probe", follow_probe)
    ∷ []

unfoldable pub from_db : Text → Option JobKind
unfolding match_str
from_db s = match_str s kind_arms

pub data Status : Type 0 where
  pending in_progress completed dead : Status

-- A row of `jobs`.
pub record Job : Type 0 where
  pub id : ℕ
  pub kind : Text
  pub payload : Value
  pub status : Status
  pub attempts : ℕ
  pub max_attempts : ℕ
  pub next_run_at : DateTime
  pub last_error : Option Text
  pub locked_by : Option Text
  pub locked_at : Option DateTime
  pub completed_at : Option DateTime

-- The table, and its id sequence.
pub record Queue : Type 0 where
  pub rows : List Job
  pub next_id : ℕ

abbrev pub is_pending : Status → Bool
is_pending pending = true
is_pending _ = false

abbrev pub is_in_progress : Status → Bool
is_in_progress in_progress = true
is_in_progress _ = false

-- `UPDATE jobs SET … WHERE …`.
unfoldable pub update_where : (Job → Bool) → (Job → Job) → List Job → List Job
update_where p f [] = []
update_where p f (j ∷ rows) = (if p j then f j else j) ∷ update_where p f rows

abbrev pub seconds : ℕ → ℤ
seconds n = pos (n * 1000000)

-- The row that an INSERT adds, with the table's defaults.
unfoldable pub new_job : DateTime → ℕ → Text → Value → ℕ → Job
new_job now id kind payload delay_secs = record {
  id = id;
  kind = kind;
  payload = payload;
  status = pending;
  attempts = 0;
  max_attempts = 8;
  next_run_at = now +ℤ seconds delay_secs;
  last_error = none;
  locked_by = none;
  locked_at = none;
  completed_at = none;
}

-- The new table, and whether listeners are notified.
unfoldable pub enqueue : DateTime → JobKind → Value → ℕ → Queue → Queue × Bool
unfolding as_str new_job
enqueue now kind payload delay_secs q =
    let job = new_job now q.next_id (as_str kind) payload delay_secs in
    (record { rows = q.rows ++ job ∷ []; next_id = q.next_id + 1 }, leb_ℤ job.next_run_at now)

-- `status = 'pending' AND next_run_at <= now()`.
unfoldable pub is_runnable : DateTime → Job → Bool
is_runnable now j = is_pending j.status && leb_ℤ j.next_run_at now

unfoldable pub claimed : DateTime → Text → Job → Job
claimed now worker_id j = record j {
  status = in_progress;
  locked_by = some worker_id;
  locked_at = some now;
  attempts = j.attempts + 1;
}

-- The first `batch_size` runnable rows, by id; the rows after, and the claimed ones.
unfoldable pub claim_rows : DateTime → Text → ℕ → List Job → List Job × List Job
claim_rows now worker_id batch_size [] = ([], [])
claim_rows now worker_id zero (j ∷ rows) = (j ∷ rows, [])
claim_rows now worker_id (suc n) (j ∷ rows) =
    let (taken, batch) = claim_rows now worker_id n rows in
    let (left, others) = claim_rows now worker_id (suc n) rows in
    if is_runnable now j
    then (claimed now worker_id j ∷ taken, claimed now worker_id j ∷ batch)
    else (j ∷ left, others)

unfoldable pub claim_batch : DateTime → Text → ℕ → Queue → Queue × List Job
claim_batch now worker_id batch_size q =
    let (rows, batch) = claim_rows now worker_id batch_size q.rows in
    (record q { rows = rows }, batch)

unfoldable pub complete : DateTime → ℕ → Queue → Queue
complete now id q = record q {
  rows =
      update_where (λ j. j.id == id)
        (λ j. record j {
          status = completed;
          completed_at = some now;
          locked_by = none;
          locked_at = none;
        })
        q.rows;
}

-- `attempt.clamp(1, 8)`.
unfoldable pub capped : ℕ → ℕ
capped attempt = if ltb attempt 1 then 1 else if ltb 8 attempt then 8 else attempt

-- In milliseconds; the jitter is a random number below 1000.
unfoldable pub backoff_delay : ℕ → ℕ → ℕ
unfolding capped
backoff_delay attempt jitter_ms = 2 ^ capped attempt * 1000 + jitter_ms

unfoldable pub fail_retry : DateTime → Job → Text → ℕ → Queue → Queue
fail_retry now job error jitter_ms q = record q {
  rows =
      update_where (λ j. j.id == job.id)
        (λ j. record j {
          status = pending;
          next_run_at = now +ℤ pos (backoff_delay job.attempts jitter_ms * 1000);
          last_error = some error;
          locked_by = none;
          locked_at = none;
        })
        q.rows;
}

unfoldable pub fail_dead : DateTime → ℕ → Text → Queue → Queue
fail_dead now id error q = record q {
  rows =
      update_where (λ j. j.id == id)
        (λ j. record j {
          status = dead;
          completed_at = some now;
          last_error = some error;
          locked_by = none;
          locked_at = none;
        })
        q.rows;
}

-- `locked_at < now() - make_interval(secs => max_lock_secs)`, false where `locked_at` is NULL.
abbrev pub lock_is_older : DateTime → ℕ → Option DateTime → Bool
lock_is_older now max_lock_secs none = false
lock_is_older now max_lock_secs (some t) = ltb_ℤ t (now -ℤ seconds max_lock_secs)

unfoldable pub is_stuck : DateTime → ℕ → Job → Bool
is_stuck now max_lock_secs j =
    is_in_progress j.status && lock_is_older now max_lock_secs j.locked_at

unfoldable pub released : DateTime → Job → Job
released now j = record j {
  status = pending;
  next_run_at = now;
  locked_by = none;
  locked_at = none;
}

unfoldable pub reap_stuck : DateTime → ℕ → Queue → Queue
reap_stuck now max_lock_secs q = record q {
  rows = update_where (is_stuck now max_lock_secs) (released now) q.rows;
}

-- The payloads of the typed helpers.
abbrev pub link_payload : Text → Text → Value
link_payload guild_id role_id =
    object
      (field (codes "guild_id") (string guild_id) (field (codes "role_id") (string role_id) end))

abbrev pub member_payload : Text → Value
member_payload discord_id = object (field (codes "discord_id") (string discord_id) end)

abbrev pub channel_payload : ℤ → Value
channel_payload kick_channel_id =
    object (field (codes "kick_channel_id") (number (integer kick_channel_id)) end)

unfoldable pub enqueue_player_sync : DateTime → Text → Queue → Queue × Bool
enqueue_player_sync now discord_id = enqueue now player_sync (member_payload discord_id) 0

-- Debounced by 5 seconds.
unfoldable pub enqueue_config_sync : DateTime → Text → Text → Queue → Queue × Bool
enqueue_config_sync now guild_id role_id = enqueue now config_sync (link_payload guild_id role_id) 5

unfoldable pub enqueue_channel_sync : DateTime → ℤ → Queue → Queue × Bool
enqueue_channel_sync now kick_channel_id =
    enqueue now channel_sync (channel_payload kick_channel_id) 0

unfoldable pub enqueue_channel_refresh : DateTime → ℤ → Queue → Queue × Bool
enqueue_channel_refresh now kick_channel_id =
    enqueue now channel_refresh (channel_payload kick_channel_id) 0

unfoldable pub enqueue_follow_probe_after : DateTime → Text → ℕ → Queue → Queue × Bool
enqueue_follow_probe_after now discord_id delay_secs =
    enqueue now follow_probe (member_payload discord_id) delay_secs

unfoldable pub enqueue_follow_probe : DateTime → Text → Queue → Queue × Bool
unfolding enqueue_follow_probe_after
enqueue_follow_probe now discord_id = enqueue_follow_probe_after now discord_id 0

-- Postgres' equality of JSON values.
module _ (json_eq : Value → Value → Bool) where
  -- A pending row of the same kind and payload.
  unfoldable pub is_queued : Text → Value → Job → Bool
  is_queued kind payload j = text_eq j.kind kind && is_pending j.status && json_eq j.payload payload

  -- The INSERT … WHERE NOT EXISTS; it notifies nobody.
  unfoldable pub enqueue_config_sync_unless_queued : DateTime → Text → Text → ℕ → Queue → Queue
  enqueue_config_sync_unless_queued now guild_id role_id delay_secs q =
      let payload = link_payload guild_id role_id in
      if any (is_queued (as_str config_sync) payload) q.rows
      then q
      else (enqueue now config_sync payload delay_secs q).0
