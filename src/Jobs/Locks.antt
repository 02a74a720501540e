-- ===== src/Jobs/Locks.antt =====
-- src/services/jobs.rs: the steps of the queue, and what holds of the table after any of them.
use kick_channel_role.Prelude.{
  ℕ, zero, suc, ◌+◌, ◌<◌, ◌≡◌, refl, List, [], ◌∷◌, ◌++◌, Bool, true, false, if◌then◌else◌, Option,
  none, some, All, All-append, arith,
}
use kick_channel_role.Prelude.Text.{Text}
use kick_channel_role.Json.{Value}
use kick_channel_role.Rule.Facts.{DateTime}
use kick_channel_role.Jobs.{
  Job, JobKind, Queue, is_in_progress, update_where, new_job, enqueue, is_runnable, claimed,
  claim_rows, claim_batch, complete, fail_retry, fail_dead, reap_stuck, released,
}
use kick_channel_role.Jobs.Claims.{AreAfter, claimed-AreAfter}

abbrev pub is_some {ℓ} : {A : Type ℓ} → Option A → Bool
is_some none = false
is_some (some a) = true

-- A row has a lock exactly when it is in progress.
abbrev pub IsLocked : Job → Type 0
IsLocked j =
    (is_some j.locked_by ≡ is_in_progress j.status)
    × (is_some j.locked_at ≡ is_in_progress j.status)

abbrev pub IsRow : ℕ → Job → Type 0
IsRow next_id j = IsLocked j × (j.id < next_id)

-- The table is in the order of its ids, which are above 0 and below the sequence's next, and every
-- row has a lock exactly when it is in progress.
abbrev pub IsTable : Queue → Type 0
IsTable q = AreAfter 0 q.rows × All (IsRow q.next_id) q.rows × (0 < q.next_id)

-- One statement of any process, at any time and with any arguments.
pub data Step : Queue → Queue → Type 0 where
  enqueued :
      {q : Queue} (now : DateTime) (kind : JobKind) (payload : Value) (delay_secs : ℕ)
      → Step q (enqueue now kind payload delay_secs q).0
  claims :
      {q : Queue} (now : DateTime) (worker_id : Text) (batch_size : ℕ)
      → Step q (claim_batch now worker_id batch_size q).0
  completes : {q : Queue} (now : DateTime) (id : ℕ) → Step q (complete now id q)
  retries :
      {q : Queue} (now : DateTime) (job : Job) (error : Text) (jitter_ms : ℕ)
      → Step q (fail_retry now job error jitter_ms q)
  dies : {q : Queue} (now : DateTime) (id : ℕ) (error : Text) → Step q (fail_dead now id error q)
  reaps : {q : Queue} (now : DateTime) (max_lock_secs : ℕ) → Step q (reap_stuck now max_lock_secs q)

pub data Steps : Queue → Queue → Type 0 where
  start : {q : Queue} → Steps q q
  after : {p q r : Queue} → Steps p q → Step q r → Steps p r

pub Steps-trans : {p q r : Queue} → Steps p q → Steps q r → Steps p r
Steps-trans f start = f
Steps-trans f (after g step) = after (Steps-trans f g) step

module _ (p : Job → Bool) (f : Job → Job) where
  pub update_where-AreAfter :
      ((j : Job) → (f j).id ≡ j.id)
      → (k : ℕ) (rows : List Job) → AreAfter k rows
      → AreAfter k (update_where p f rows)
  unfolding update_where
  update_where-AreAfter same k [] h = tt
  update_where-AreAfter same k (j ∷ rows) h =
      by_case (p j) (update_where-AreAfter same j.id rows h.1)
    where
      by_case :
          (b : Bool)
          → AreAfter j.id (update_where p f rows)
          → AreAfter k ((if b then f j else j) ∷ update_where p f rows)
      by_case true q = rw (same j) (h.0, q)
      by_case false q = (h.0, q)

  pub update_where-All {ℓ} :
      (P : Job → Type ℓ)
      → ((j : Job) → P j → P (f j))
      → (rows : List Job) → All P rows
      → All P (update_where p f rows)
  unfolding update_where
  update_where-All P keeps [] h = tt
  update_where-All P keeps (j ∷ rows) h = (by_case (p j), update_where-All P keeps rows h.1)
    where
      by_case : (b : Bool) → P (if b then f j else j)
      by_case true = keeps j h.0
      by_case false = h.0

  update_where-IsTable :
      (next : ℕ) (rows : List Job)
      → ((j : Job) → (f j).id ≡ j.id)
      → ((j : Job) → IsLocked j → IsLocked (f j))
      → IsTable (record { rows = rows; next_id = next })
      → IsTable (record { rows = update_where p f rows; next_id = next })
  update_where-IsTable next rows same keeps h = (
    update_where-AreAfter same 0 rows h.0,
    update_where-All (IsRow next) (λ j r. (keeps j r.0, rw (same j) r.1)) rows h.1,
    h.2,
  )

claim_rows-All :
    (now : DateTime) (worker_id : Text) (next n : ℕ) (rows : List Job)
    → All (IsRow next) rows
    → All (IsRow next) (claim_rows now worker_id n rows).0
unfolding claim_rows claimed
claim_rows-All now w next n [] h = tt
claim_rows-All now w next zero (j ∷ rows) h = h
claim_rows-All now w next (suc n) (j ∷ rows) h =
    by_case (is_runnable now j) refl (claim_rows-All now w next n rows h.1)
      (claim_rows-All now w next (suc n) rows h.1)
  where
    by_case :
        (b : Bool)
        → is_runnable now j ≡ b
        → All (IsRow next) (claim_rows now w n rows).0
        → All (IsRow next) (claim_rows now w (suc n) rows).0
        → All (IsRow next) (claim_rows now w (suc n) (j ∷ rows)).0
    by_case true e p q = rw e (((refl, refl), h.0.1), p)
    by_case false e p q = rw e (h.0, q)

-- The row that is added comes last.
append-AreAfter :
    (k next : ℕ) (rows : List Job) (j : Job)
    → AreAfter k rows
    → All (IsRow next) rows
    → k < next
    → j.id ≡ next
    → AreAfter k (rows ++ j ∷ [])
append-AreAfter k next [] j h a l e = (omega arith, tt)
append-AreAfter k next (r ∷ rows) j h a l e =
    (h.0, append-AreAfter r.id next rows j h.1 a.1 a.0.1 e)

more_ids : (next : ℕ) (rows : List Job) → All (IsRow next) rows → All (IsRow (next + 1)) rows
more_ids next [] h = tt
more_ids next (r ∷ rows) h = ((h.0.0, omega (arith, h.0.1)), more_ids next rows h.1)

-- Whatever one statement of any worker or producer does, a table that is in the order of its ids
-- and whose rows have a lock exactly when they are in progress stays so.
pub Step-IsTable : {q r : Queue} → IsTable q → Step q r → IsTable r
unfolding enqueue new_job claim_batch complete fail_retry fail_dead reap_stuck released
Step-IsTable {q} h (enqueued now kind payload delay) = (
  append-AreAfter 0 q.next_id q.rows _ h.0 h.1 h.2 refl,
  All-append (IsRow (q.next_id + 1)) q.rows _ (more_ids q.next_id q.rows h.1)
      (((refl, refl), omega arith), tt),
  omega arith,
)
Step-IsTable {q} h (claims now worker_id n) = (
  claimed-AreAfter now worker_id 0 n q.rows h.0,
  claim_rows-All now worker_id q.next_id n q.rows h.1,
  h.2,
)
Step-IsTable {q} h (completes now id) =
    update_where-IsTable _ _ q.next_id q.rows (λ j. refl) (λ j l. (refl, refl)) h
Step-IsTable {q} h (retries now job error jitter_ms) =
    update_where-IsTable _ _ q.next_id q.rows (λ j. refl) (λ j l. (refl, refl)) h
Step-IsTable {q} h (dies now id error) =
    update_where-IsTable _ _ q.next_id q.rows (λ j. refl) (λ j l. (refl, refl)) h
Step-IsTable {q} h (reaps now secs) =
    update_where-IsTable _ _ q.next_id q.rows (λ j. refl) (λ j l. (refl, refl)) h

-- In every table that steps reach from one that is in the order of its ids and whose rows have a
-- lock exactly when they are in progress, the same holds.
pub Steps-IsTable : {q r : Queue} → IsTable q → Steps q r → IsTable r
Steps-IsTable h start = h
Steps-IsTable h (after steps step) = Step-IsTable (Steps-IsTable h steps) step
