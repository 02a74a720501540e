-- ===== src/Jobs/Settled.antt =====
-- src/tasks/job_worker.rs: a worker's round leaves no job that it claimed in progress.
use kick_channel_role.Prelude.{
  ℕ, zero, suc, ◌≡◌, refl, Bool, true, false, List, [], ◌∷◌, ◌++◌, map, any, All, All-append, ◌==◌,
  ==_iff, if◌then◌else◌, Result, ok, err, leb, arith,
}
use kick_channel_role.Prelude.Text.{Text}
use kick_channel_role.AppError.{AppError}
use kick_channel_role.Json.{Value}
use kick_channel_role.Rule.Facts.{DateTime}
use kick_channel_role.Jobs.{
  Job, JobKind, Queue, is_in_progress, update_where, new_job, enqueue, is_runnable, claimed,
  claim_rows, claim_batch, complete, fail_retry, fail_dead, reap_stuck, is_stuck, released,
}
use kick_channel_role.Jobs.Locks.{update_where-All}
use kick_channel_role.Jobs.Worker.{
  Task, sync_player, sync_link, sync_channel, refresh_channel, probe_follow, Message, JobError,
  terminal, retry, task_of, perform, dispatch, dispatch_task, settle, process_job, process_all,
  round, stuck_lock_secs, job_batch_size,
}

-- A job that is in progress has one of these ids.
abbrev pub IsAccounted : List ℕ → Job → Type 0
IsAccounted ids j = is_in_progress j.status ≡ true → any (λ i. i == j.id) ids ≡ true

-- Work that adds jobs to the queue, and does nothing else to it.
pub data Enqueues (p : Queue) : Queue → Type 0 where
  nothing : Enqueues p p
  one_more :
      {q : Queue} (now : DateTime) (kind : JobKind) (payload : Value) (delay_secs : ℕ)
      → Enqueues p q
      → Enqueues p (enqueue now kind payload delay_secs q).0

Enqueues-IsAccounted :
    (ids : List ℕ) {p q : Queue}
    → Enqueues p q
    → All (IsAccounted ids) p.rows
    → All (IsAccounted ids) q.rows
unfolding enqueue new_job
Enqueues-IsAccounted ids nothing h = h
Enqueues-IsAccounted ids (one_more {q = q} now kind payload delay_secs e) h =
    All-append (IsAccounted ids) q.rows _ (Enqueues-IsAccounted ids e h) (λ p. absurd (cc p), tt)

-- An UPDATE of the row of an id that ends its progress.
ended-IsAccounted :
    (id : ℕ) (ids : List ℕ) (f : Job → Job) (rows : List Job)
    → ((j : Job) → is_in_progress (f j).status ≡ false)
    → All (IsAccounted (id ∷ ids)) rows
    → All (IsAccounted ids) (update_where (λ j. j.id == id) f rows)
unfolding update_where
ended-IsAccounted id ids f [] ends h = tt
ended-IsAccounted id ids f (j ∷ rows) ends h =
    (by_case (j.id == id) refl, ended-IsAccounted id ids f rows ends h.1)
  where
    by_case : (b : Bool) → (j.id == id) ≡ b → IsAccounted ids (if b then f j else j)
    by_case true e = λ p. absurd (cc (p, ends j))
    by_case false e = λ p.
        (let other : (id == j.id) ≡ false = ground (arith, e) in
          let found = h.0 p in rw other at found)

module _ (print : Message → Text) where
  settle-IsAccounted :
      (now : DateTime) (jitter_ms : ℕ) (job : Job) (outcome : Result JobError (Unit {0}))
      (ids : List ℕ) (q : Queue)
      → All (IsAccounted (job.id ∷ ids)) q.rows
      → All (IsAccounted ids) (settle print now jitter_ms job outcome q).rows
  unfolding settle complete fail_dead fail_retry
  settle-IsAccounted now jitter job (ok u) ids q h =
      ended-IsAccounted job.id ids _ q.rows (λ j. refl) h
  settle-IsAccounted now jitter job (err (terminal m)) ids q h =
      ended-IsAccounted job.id ids _ q.rows (λ j. refl) h
  settle-IsAccounted now jitter job (err (retry m)) ids q h =
      by_case (leb job.max_attempts job.attempts) refl
    where
      by_case :
          (b : Bool)
          → leb job.max_attempts job.attempts ≡ b
          → All (IsAccounted ids) (settle print now jitter job (err (retry m)) q).rows
      by_case true e = rw e (ended-IsAccounted job.id ids _ q.rows (λ j. refl) h)
      by_case false e = rw e (ended-IsAccounted job.id ids _ q.rows (λ j. refl) h)

-- A claim accounts for the jobs that it takes.
claimed-IsAccounted :
    (now : DateTime) (worker_id : Text) (n : ℕ) (others : List ℕ) (rows : List Job)
    → All (IsAccounted others) rows
    → All
        (IsAccounted (map (λ (j : Job). j.id) (claim_rows now worker_id n rows).1 ++ others))
        (claim_rows now worker_id n rows).0
unfolding claim_rows claimed
claimed-IsAccounted now w n others [] h = tt
claimed-IsAccounted now w zero others (j ∷ rows) h = h
claimed-IsAccounted now w (suc n) others (j ∷ rows) h =
    by_case (is_runnable now j) refl (claimed-IsAccounted now w n others rows h.1)
      (claimed-IsAccounted now w (suc n) others rows h.1)
  where
    more :
        (i : ℕ) (ids : List ℕ) (rs : List Job)
        → All (IsAccounted ids) rs
        → All (IsAccounted (i ∷ ids)) rs
    more i ids [] h = tt
    more i ids (r ∷ rs) h = (λ p. rw (h.0 p) (ground arith), more i ids rs h.1)

    behind : (ids : List ℕ) → IsAccounted others j → IsAccounted (ids ++ others) j
    behind [] h = h
    behind (i ∷ ids) h = λ p. rw (behind ids h p) (ground arith)

    by_case :
        (b : Bool)
        → is_runnable now j ≡ b
        → All
            (IsAccounted (map (λ (j : Job). j.id) (claim_rows now w n rows).1 ++ others))
            (claim_rows now w n rows).0
        → All
            (IsAccounted (map (λ (j : Job). j.id) (claim_rows now w (suc n) rows).1 ++ others))
            (claim_rows now w (suc n) rows).0
        → All
            (IsAccounted
              (map (λ (j : Job). j.id) (claim_rows now w (suc n) (j ∷ rows)).1 ++ others))
            (claim_rows now w (suc n) (j ∷ rows)).0
    by_case true e p q = rw e (λ a. rw ((==_iff j.id j.id).1 refl) refl, more j.id _ _ p)
    by_case false e p q =
        rw e (behind (map (λ (j : Job). j.id) (claim_rows now w (suc n) rows).1) h.0, q)

module _ (print : Message → Text) (kick_configured : Bool)
    (run : Task → Queue → Queue × Result AppError (Unit {0}))
    (run-Enqueues : (task : Task) (q : Queue) → Enqueues q (run task q).0) where
  perform-Enqueues :
      (task : Task) (q : Queue) → Enqueues q (perform print kick_configured run task q).0
  unfolding perform
  perform-Enqueues (sync_player d) q = run-Enqueues _ q
  perform-Enqueues (sync_link g r) q = run-Enqueues _ q
  perform-Enqueues (sync_channel c) q = run-Enqueues _ q
  perform-Enqueues (probe_follow d) q = run-Enqueues _ q
  perform-Enqueues (refresh_channel c) q = by_case kick_configured
    where
      by_case :
          (b : Bool)
          → Enqueues q
              (if◌then◌else◌ {A = Queue × Result AppError (Unit {0})} b
                (run (refresh_channel c) q)
                (q, ok tt)).0
      by_case true = run-Enqueues _ q
      by_case false = nothing

  dispatch-Enqueues :
      (job : Job) (q : Queue) → Enqueues q (dispatch print kick_configured run job q).0
  unfolding dispatch
  dispatch-Enqueues job q = by_case (task_of job)
    where
      by_case :
          (t : Result JobError Task) → Enqueues q (dispatch_task print kick_configured run t q).0
      by_case (ok task) = perform-Enqueues task q
      by_case (err e) = nothing

  process_job-IsAccounted :
      (now : DateTime) (jitter_ms : ℕ) (stops : Bool) (job : Job) (ids : List ℕ) (q : Queue)
      → All (IsAccounted (job.id ∷ ids)) q.rows
      → All (IsAccounted ids) (process_job print kick_configured run now jitter_ms stops job q).rows
  unfolding process_job fail_retry
  process_job-IsAccounted now jitter true job ids q h =
      ended-IsAccounted job.id ids _ q.rows (λ j. refl) h
  process_job-IsAccounted now jitter false job ids q h =
      settle-IsAccounted print now jitter job _ ids _
        (Enqueues-IsAccounted (job.id ∷ ids) (dispatch-Enqueues job q) h)

  module _ (clock : ℕ → DateTime) (jitter : ℕ → ℕ) (stops : ℕ → Bool) where
    process_all-IsAccounted :
        (jobs : List Job) (others : List ℕ) (q : Queue)
        → All (IsAccounted (map (λ (j : Job). j.id) jobs ++ others)) q.rows
        → All
            (IsAccounted others)
            (process_all print kick_configured run clock jitter stops jobs q).rows
    unfolding process_all
    process_all-IsAccounted [] others q h = h
    process_all-IsAccounted (job ∷ jobs) others q h =
        process_all-IsAccounted jobs others _
          (process_job-IsAccounted (clock job.id) (jitter job.id) (stops job.id) job _ q h)

    -- Suppose that the work of a job does nothing to the queue but to add jobs. Then a worker's
    -- round (a reap if one is due, a claim, and the processing of each claimed job, whatever its
    -- payload, the outcome of its work, and the shutdown flag) leaves none of its claimed jobs in
    -- progress: a job that is in progress after the round has one of the ids that the jobs in
    -- progress before it had.
    pub round-IsAccounted :
        (now : DateTime) (reap_due : Bool) (worker_id : Text) (others : List ℕ) (q : Queue)
        → All (IsAccounted others) q.rows
        → All
            (IsAccounted others)
            (round print kick_configured run clock jitter stops now reap_due worker_id q).rows
    unfolding round claim_batch reap_stuck
    round-IsAccounted now reap_due worker_id others q h =
        by_case reap_due
          (process_all-IsAccounted _ others _ (
            claimed-IsAccounted now worker_id job_batch_size others _ (
              update_where-All (is_stuck now stuck_lock_secs) (released now) (IsAccounted others)
                (λ j k. unfold released in λ p. absurd (cc p)) q.rows h)))
          (process_all-IsAccounted _ others _
            (claimed-IsAccounted now worker_id job_batch_size others q.rows h))
      where
        by_case :
            (b : Bool)
            → All
                (IsAccounted others)
                (round print kick_configured run clock jitter stops now true worker_id q).rows
            → All
                (IsAccounted others)
                (round print kick_configured run clock jitter stops now false worker_id q).rows
            → All
                (IsAccounted others)
                (round print kick_configured run clock jitter stops now b worker_id q).rows
        by_case true h k = h
        by_case false h k = k
