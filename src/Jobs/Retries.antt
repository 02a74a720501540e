-- ===== src/Jobs/Retries.antt =====
-- src/tasks/job_worker.rs: the budget of attempts of a job whose work keeps failing.
use kick_channel_role.Prelude.{
  ℕ, suc, ◌+◌, ◌≤◌, ◌<◌, ◌≡◌, ◌≢◌, refl, sym, ap, ◌∙◌, Bool, true, false, List, [], ◌∷◌, ◌++◌,
  if◌then◌else◌, ◌==◌, ==_iff, leb, and-true, err, All, arith,
}
use kick_channel_role.Prelude.Int.{leb_ℤ}
use kick_channel_role.Prelude.Text.{Text}
use mathlib.Core.Path.{subst}
use kick_channel_role.Rule.Facts.{DateTime}
use kick_channel_role.Jobs.{
  Job, Queue, pending, dead, is_pending, is_runnable, claimed, update_where, fail_retry, fail_dead,
}
use kick_channel_role.Jobs.Worker.{Message, retry, settle}

-- A table with the row `j` among others.
abbrev pub among : List Job → List Job → ℕ → Job → Queue
among before after next j = record { rows = before ++ j ∷ after; next_id = next }

-- No row has this id.
abbrev pub AreOthers : ℕ → List Job → Type 0
AreOthers id = All (λ j. j.id ≢ id)

same_id : (i : ℕ) → (i == i) ≡ true
same_id i = (==_iff i i).1 refl

other_id : (i k : ℕ) → i ≢ k → (i == k) ≡ false
other_id i k h = ground (arith, h)

-- An UPDATE of the row of an id leaves the other rows.
update_others :
    (id : ℕ) (f : Job → Job) (rows : List Job)
    → AreOthers id rows
    → update_where (λ j. j.id == id) f rows ≡ rows
unfolding update_where
update_others id f [] h = refl
update_others id f (j ∷ rows) h =
    rw (other_id j.id id h.0) (ap (λ l. j ∷ l) (update_others id f rows h.1))

update_among :
    (f : Job → Job) (before after : List Job) (j : Job)
    → AreOthers j.id before
    → AreOthers j.id after
    → update_where (λ i. i.id == j.id) f (before ++ j ∷ after) ≡ before ++ f j ∷ after
unfolding update_where
update_among f [] after j hb ha =
    rw (same_id j.id) (ap (λ l. f j ∷ l) (update_others j.id f after ha))
update_among f (b ∷ before) after j hb ha =
    rw (other_id b.id j.id hb.0) (ap (λ l. b ∷ l) (update_among f before after j hb.1 ha))

-- The row behind `before`.
abbrev row_behind : List Job → List Job → Job → Job
row_behind [] [] j = j
row_behind [] (r ∷ rows) j = r
row_behind (b ∷ before) [] j = j
row_behind (b ∷ before) (r ∷ rows) j = row_behind before rows j

row_behind-among :
    (before after : List Job) (i j : Job) → row_behind before (before ++ i ∷ after) j ≡ i
row_behind-among [] after i j = refl
row_behind-among (b ∷ before) after i j = row_behind-among before after i j

module _ (print : Message → Text) where
  -- The outcome of a job whose row was claimed at `now`: a failure that may be retried.
  unfoldable pub fail_once :
      DateTime → DateTime → Text → ℕ → Message → List Job → List Job → ℕ → Job → Queue
  unfolding settle claimed
  fail_once now later worker_id jitter_ms m before after next j =
      settle print later jitter_ms (claimed now worker_id j) (err (retry m))
        (among before after next (claimed now worker_id j))

  -- `k` such failures of the job of an id, up to a table where its row stands between `before` and
  -- `after`. From one to the next the other rows may become any rows of other ids.
  pub data Failures (j : Job) : ℕ → List Job → List Job → Queue → Type 0 where
    unfailed :
        (before after : List Job) (next : ℕ)
        → AreOthers j.id before
        → AreOthers j.id after
        → Failures j 0 before after (among before after next j)
    others :
        {k : ℕ} {before after : List Job} {q : Queue} (i : Job) (next : ℕ)
        (before' after' : List Job) (next' : ℕ)
        → Failures j k before after q
        → q ≡ among before after next i
        → AreOthers j.id before'
        → AreOthers j.id after'
        → Failures j k before' after' (among before' after' next' i)
    failed :
        {k : ℕ} {before after : List Job} {q : Queue} (i : Job) (next : ℕ) (now later : DateTime)
        (worker_id : Text) (jitter_ms : ℕ) (m : Message)
        → Failures j k before after q
        → q ≡ among before after next i
        → is_runnable now i ≡ true
        → Failures j
            (suc k)
            before
            after
            (fail_once now later worker_id jitter_ms m before after next i)

  -- The row after `k` failures in all, of which the job had `n` before and may have `m`.
  abbrev pub IsSpent : ℕ → ℕ → ℕ → Job → Type 0
  IsSpent id n m j =
      (j.id ≡ id)
      × (j.attempts ≡ n)
      × (j.max_attempts ≡ m)
      × (j.status ≡ (if leb m n then dead else pending))

  -- The table holds such a row, between the others.
  pub record HasSpent (id n m : ℕ) (before after : List Job) (q : Queue) : Type 0 where
    row : Job
    next : ℕ
    table : q ≡ among before after next row
    spent : IsSpent id n m row

  same_row :
      (before after : List Job) (next next' : ℕ) (i i' : Job)
      → among before after next i ≡ among before after next' i'
      → i ≡ i'
  same_row before after next next' i i' e =
      sym (row_behind-among before after i i)
      ∙ ap (λ q. row_behind before q.rows i) e
      ∙ row_behind-among before after i' i

  fail_once_lem :
      (now later : DateTime) (worker_id : Text) (jitter_ms id n mx : ℕ) (m : Message)
      (before after : List Job) (next : ℕ) (i : Job)
      → i.id ≡ id
      → i.attempts ≡ n
      → i.max_attempts ≡ mx
      → AreOthers i.id before
      → AreOthers i.id after
      → HasSpent id
          (suc n)
          mx
          before
          after
          (fail_once now later worker_id jitter_ms m before after next i)
  unfolding fail_once settle claimed fail_retry fail_dead
  fail_once_lem now later w jitter id n mx m before after next i c a b hb ha =
      by_case (leb i.max_attempts (i.attempts + 1)) refl
    where
      by_case :
          (d : Bool)
          → leb i.max_attempts (i.attempts + 1) ≡ d
          → HasSpent id (suc n) mx before after (fail_once now later w jitter m before after next i)
      by_case true e = rw e (record {
        row = _;
        next = next;
        table =
            ap (λ (rows : List Job). record { rows = rows; next_id = next })
              (update_among _ before after (claimed now w i) hb ha);
        spent = (c, omega (arith, a), b, ground (arith, a, b, e));
      })
      by_case false e = rw e (record {
        row = _;
        next = next;
        table =
            ap (λ (rows : List Job). record { rows = rows; next_id = next })
              (update_among _ before after (claimed now w i) hb ha);
        spent = (c, omega (arith, a), b, ground (arith, a, b, e));
      })

  still_pending :
      (now : DateTime) (id n mx : ℕ) (i : Job)
      → IsSpent id n mx i
      → is_runnable now i ≡ true
      → n < mx
  unfolding is_runnable
  still_pending now id n mx i (_, a, b, c) h = by_case (leb mx n) refl
    where
      by_case : (d : Bool) → leb mx n ≡ d → n < mx
      by_case true e =
          let p = (and-true (is_pending i.status) (leb_ℤ i.next_run_at now) h).0 in
          let s : i.status ≡ dead = rw e at c in absurd (cc (s, p))
      by_case false e = ground (arith, e)

  Failures-others :
      (j : Job) (k : ℕ) (before after : List Job) (q : Queue)
      → Failures j k before after q
      → AreOthers j.id before × AreOthers j.id after
  Failures-others j k before after q (unfailed _ _ next hb ha) = (hb, ha)
  Failures-others j k before after q (others i next _ _ next' f e hb ha) = (hb, ha)
  Failures-others j k before after q (failed i next now later w jitter m f e h) =
      Failures-others j _ before after _ f

  -- Suppose that a pending job of which `n` attempts are spent, fewer than its `mx` allowed, is
  -- claimed and fails with a failure that may be retried, `k` times in a row, by any workers and
  -- at any times at which it is runnable; the table may hold any jobs of other ids, which may change
  -- from one failure to the next. Then `n + k` is at most `mx`: no more failures happen. The job's
  -- row then has `n + k` attempts, and is dead if these are `mx` and pending otherwise; and the
  -- last failure has left all the other rows as they were.
  pub Failures-end :
      (n mx : ℕ) (j : Job) (k : ℕ) (before after : List Job) (q : Queue)
      → j.attempts ≡ n
      → j.max_attempts ≡ mx
      → j.status ≡ pending
      → n < mx
      → Failures j k before after q
      → (k + n ≤ mx) × HasSpent j.id (k + n) mx before after q
  Failures-end n mx j k before after q a b c l (unfailed _ _ next hb ha) = (
    omega (arith, l),
    subst (λ t. HasSpent j.id t mx before after (among before after next j)) (omega arith)
        (record { row = j; next = next; table = refl; spent = (refl, a, b, ground (arith, c, l)) }),
  )
  Failures-end n mx j k before after q a b c l
        (others {before = b0} {after = a0} i next _ _ next' f e hb ha) =
      let (le, s) = Failures-end n mx j k b0 a0 _ a b c l f in
      let same : s.row ≡ i = same_row b0 a0 s.next next s.row i (sym s.table ∙ e) in
      (
        le,
        record {
          row = i;
          next = next';
          table = refl;
          spent = subst (IsSpent j.id (k + n) mx) same s.spent;
        },
      )
  Failures-end n mx j (suc k) before after q a b c l (failed i next now later w jitter m f e h) =
      let (le, s) = Failures-end n mx j k before after _ a b c l f in
      let same : s.row ≡ i = same_row before after s.next next s.row i (sym s.table ∙ e) in
      let spent = subst (IsSpent j.id (k + n) mx) same s.spent in
      let below = still_pending now j.id (k + n) mx i spent h in
      let (hb, ha) = Failures-others j k before after _ f in
      (
        omega (arith, below),
        subst
            (λ t.
              HasSpent j.id t mx before after (fail_once now later w jitter m before after next i))
            (omega arith)
            (fail_once_lem now later w jitter j.id (k + n) mx m before after next i spent.0 spent.1
              spent.2 (subst (λ t. AreOthers t before) (sym spent.0) hb)
              (subst (λ t. AreOthers t after) (sym spent.0) ha)),
      )
