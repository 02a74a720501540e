-- ===== src/Jobs/Claims.antt =====
-- `claim_batch` of src/services/jobs.rs: which rows it takes, and that two claims share none.
use kick_channel_role.Prelude.{
  ℕ, zero, suc, ◌≤◌, ◌<◌, ◌≡◌, refl, sym, ap, ◌≢◌, List, [], ◌∷◌, map, Bool, true, false,
  if◌then◌else◌, All, arith, ◌+◌, some, ◌∙◌, ◌↔◌, and-true,
}
use kick_channel_role.Prelude.Text.{Text}
use kick_channel_role.Rule.Facts.{DateTime}
use kick_channel_role.Prelude.Int.{◌≤ℤ◌, leb_ℤ}
use kick_channel_role.Jobs.{
  Job, Queue, Status, pending, in_progress, is_pending, is_runnable, claimed, claim_rows,
  claim_batch,
}

-- `WHERE …` and `LIMIT n`.
abbrev pub where_rows : (Job → Bool) → List Job → List Job
where_rows p [] = []
where_rows p (j ∷ rows) = if p j then j ∷ where_rows p rows else where_rows p rows

abbrev pub limit : ℕ → List Job → List Job
limit zero rows = []
limit (suc n) [] = []
limit (suc n) (j ∷ rows) = j ∷ limit n rows

-- The rows stand in the order of their ids, each after `k`.
abbrev pub AreAfter : ℕ → List Job → Type 0
AreAfter k [] = Unit
AreAfter k (j ∷ rows) = (k < j.id) × AreAfter j.id rows

-- The ids of a list are all above `k`.
abbrev pub IdsAbove : ℕ → List Job → Type 0
IdsAbove k = All (λ j. k < j.id)

-- No job of the one list has the id of a job of the other.
abbrev pub AreApart : List Job → List Job → Type 0
AreApart xs ys = All (λ a. All (λ b. a.id ≢ b.id) ys) xs

pub AreAfter-le : (k m : ℕ) (rows : List Job) → k ≤ m → AreAfter m rows → AreAfter k rows
AreAfter-le k m [] l h = tt
AreAfter-le k m (j ∷ rows) l h = (omega (arith, h.0), h.1)

limit_none : (n : ℕ) → limit n [] ≡ []
limit_none zero = refl
limit_none (suc n) = refl

module _ (now : DateTime) (worker_id : Text) where
  batch_of :
      (n : ℕ) (rows : List Job)
      → (claim_rows now worker_id n rows).1
        ≡ map (claimed now worker_id) (limit n (where_rows (is_runnable now) rows))
  unfolding claim_rows
  batch_of n [] = sym (ap (map (claimed now worker_id)) (limit_none n))
  batch_of zero (j ∷ rows) = refl
  batch_of (suc n) (j ∷ rows) =
      by_case (is_runnable now j) refl (batch_of n rows) (batch_of (suc n) rows)
    where
      by_case :
          (b : Bool)
          → is_runnable now j ≡ b
          → (claim_rows now worker_id n rows).1
            ≡ map (claimed now worker_id) (limit n (where_rows (is_runnable now) rows))
          → (claim_rows now worker_id (suc n) rows).1
            ≡ map (claimed now worker_id) (limit (suc n) (where_rows (is_runnable now) rows))
          → (claim_rows now worker_id (suc n) (j ∷ rows)).1
            ≡ map (claimed now worker_id) (limit (suc n) (where_rows (is_runnable now) (j ∷ rows)))
      by_case true e p q = rw e (ap (λ l. claimed now worker_id j ∷ l) p)
      by_case false e p q = rw e q

  -- The rows stay in order.
  pub claimed-AreAfter :
      (k n : ℕ) (rows : List Job) → AreAfter k rows → AreAfter k (claim_rows now worker_id n rows).0
  unfolding claim_rows claimed
  claimed-AreAfter k n [] h = tt
  claimed-AreAfter k zero (j ∷ rows) h = h
  claimed-AreAfter k (suc n) (j ∷ rows) h =
      by_case (is_runnable now j) refl (claimed-AreAfter j.id n rows h.1)
        (claimed-AreAfter j.id (suc n) rows h.1)
    where
      by_case :
          (b : Bool)
          → is_runnable now j ≡ b
          → AreAfter j.id (claim_rows now worker_id n rows).0
          → AreAfter j.id (claim_rows now worker_id (suc n) rows).0
          → AreAfter k (claim_rows now worker_id (suc n) (j ∷ rows)).0
      by_case true e p q = rw e (h.0, p)
      by_case false e p q = rw e (h.0, q)

  -- The ids of a batch.
  batch-IdsAbove :
      (k n : ℕ) (rows : List Job) → AreAfter k rows → IdsAbove k (claim_rows now worker_id n rows).1
  unfolding claim_rows claimed
  batch-IdsAbove k n [] h = tt
  batch-IdsAbove k zero (j ∷ rows) h = tt
  batch-IdsAbove k (suc n) (j ∷ rows) h =
      let later = AreAfter-le k j.id rows (omega (arith, h.0)) h.1 in
      by_case (is_runnable now j) refl (batch-IdsAbove k n rows later)
        (batch-IdsAbove k (suc n) rows later)
    where
      by_case :
          (b : Bool)
          → is_runnable now j ≡ b
          → IdsAbove k (claim_rows now worker_id n rows).1
          → IdsAbove k (claim_rows now worker_id (suc n) rows).1
          → IdsAbove k (claim_rows now worker_id (suc n) (j ∷ rows)).1
      by_case true e p q = rw e (h.0, p)
      by_case false e p q = rw e q

  -- A batch is in order as well.
  batch-AreAfter :
      (k n : ℕ) (rows : List Job) → AreAfter k rows → AreAfter k (claim_rows now worker_id n rows).1
  unfolding claim_rows claimed
  batch-AreAfter k n [] h = tt
  batch-AreAfter k zero (j ∷ rows) h = tt
  batch-AreAfter k (suc n) (j ∷ rows) h =
      by_case (is_runnable now j) refl (batch-AreAfter j.id n rows h.1)
        (batch-AreAfter k (suc n) rows (AreAfter-le k j.id rows (omega (arith, h.0)) h.1))
    where
      by_case :
          (b : Bool)
          → is_runnable now j ≡ b
          → AreAfter j.id (claim_rows now worker_id n rows).1
          → AreAfter k (claim_rows now worker_id (suc n) rows).1
          → AreAfter k (claim_rows now worker_id (suc n) (j ∷ rows)).1
      by_case true e p q = rw e (h.0, p)
      by_case false e p q = rw e q

-- A pending row whose time has come.
abbrev pub IsDue : DateTime → Job → Type 0
IsDue now j = (j.status ≡ pending) × (j.next_run_at ≤ℤ now)

pub is_runnable_iff : (now : DateTime) (j : Job) → (is_runnable now j ≡ true) ↔ IsDue now j
unfolding is_runnable
is_runnable_iff now j = (
  λ e. (
    (let p = (and-true (is_pending j.status) (leb_ℤ j.next_run_at now) e).0 in
        pending_of j.status p),
    ground (arith, (and-true (is_pending j.status) (leb_ℤ j.next_run_at now) e).1),
  ),
  λ h. (rw h.0 (ground (arith, h.1))),
)
  where
    pending_of : (s : Status) → is_pending s ≡ true → s ≡ pending
    pending_of pending e = refl
    pending_of _ e = absurd (cc e)

same_test :
    {P : Job → Type 0} (p q : Job → Bool)
    → ((j : Job) → (p j ≡ true) ↔ P j)
    → ((j : Job) → (q j ≡ true) ↔ P j)
    → (rows : List Job) → where_rows p rows ≡ where_rows q rows
same_test p q f g [] = refl
same_test p q f g (j ∷ rows) =
    rw (same (p j) (q j) (λ e. (g j).1 ((f j).0 e)) (λ e. (f j).1 ((g j).0 e)))
      (rw (same_test p q f g rows) refl)
  where
    same : (a b : Bool) → (a ≡ true → b ≡ true) → (b ≡ true → a ≡ true) → a ≡ b
    same true b h k = sym (h refl)
    same false true h k = k refl
    same false false h k = refl

-- Suppose that the rows stand in the order of their ids, each above `k`, and that a test tells the
-- rows that are pending and due at `now`. Then a claim takes the first `batch_size` of these rows,
-- each marked in progress, locked by the worker at `now` and with one attempt more; and it takes
-- them in the order of their ids.
pub claim_batch-selects :
    (now : DateTime) (worker_id : Text) (k batch_size : ℕ) (q : Queue) (due : Job → Bool)
    → AreAfter k q.rows
    → ((j : Job) → (due j ≡ true) ↔ IsDue now j)
    → ((claim_batch now worker_id batch_size q).1
        ≡ map
            (λ (j : Job). record j {
              status = in_progress;
              locked_by = some worker_id;
              locked_at = some now;
              attempts = j.attempts + 1;
            })
            (limit batch_size (where_rows due q.rows)))
      × AreAfter k (claim_batch now worker_id batch_size q).1
unfolding claim_batch claimed
claim_batch-selects now worker_id k batch_size q due h d = (
  batch_of now worker_id batch_size q.rows
      ∙ ap (λ l. map (claimed now worker_id) (limit batch_size l))
          (same_test (is_runnable now) due (is_runnable_iff now) d q.rows),
  batch-AreAfter now worker_id k batch_size q.rows h,
)

apart_none : (xs : List Job) → AreApart xs []
apart_none [] = tt
apart_none (x ∷ xs) = (tt, apart_none xs)

above_apart :
    (k : ℕ) (j : Job) (ys : List Job) → j.id ≡ k → IdsAbove k ys → All (λ b. j.id ≢ b.id) ys
above_apart k j [] e h = tt
above_apart k j (y ∷ ys) e h = (λ p. absurd (omega (arith, p, e, h.0)), above_apart k j ys e h.1)

apart_cons :
    (k : ℕ) (j : Job) (xs ys : List Job)
    → j.id ≡ k
    → IdsAbove k xs
    → AreApart xs ys
    → AreApart xs (j ∷ ys)
apart_cons k j [] ys e h p = tt
apart_cons k j (x ∷ xs) ys e h p =
    ((λ q. absurd (omega (arith, q, e, h.0)), p.0), apart_cons k j xs ys e h.1 p.1)

module _ (now later : DateTime) (worker_id other_id : Text) where
  claims_apart :
      (k n m : ℕ) (rows : List Job)
      → AreAfter k rows
      → AreApart
          (claim_rows now worker_id n rows).1
          (claim_rows later other_id m (claim_rows now worker_id n rows).0).1
  unfolding claim_rows claimed is_runnable
  claims_apart k n m [] h = tt
  claims_apart k zero m (j ∷ rows) h = tt
  claims_apart k (suc n) m (j ∷ rows) h =
      by_case m (is_runnable now j) (is_runnable later j) refl refl
        (λ i. claims_apart j.id n i rows h.1) (λ i. claims_apart j.id (suc n) i rows h.1)
    where
      by_case :
          (m : ℕ) (b c : Bool)
          → is_runnable now j ≡ b
          → is_runnable later j ≡ c
          → ((i : ℕ)
              → AreApart
                  (claim_rows now worker_id n rows).1
                  (claim_rows later other_id i (claim_rows now worker_id n rows).0).1)
          → ((i : ℕ)
              → AreApart
                  (claim_rows now worker_id (suc n) rows).1
                  (claim_rows later other_id i (claim_rows now worker_id (suc n) rows).0).1)
          → AreApart
              (claim_rows now worker_id (suc n) (j ∷ rows)).1
              (claim_rows later other_id m (claim_rows now worker_id (suc n) (j ∷ rows)).0).1
      by_case zero true c d e p q = rw d (tt, apart_none (claim_rows now worker_id n rows).1)
      by_case zero false c d e p q = rw d (apart_none (claim_rows now worker_id (suc n) rows).1)
      by_case (suc i) true c d e p q = rw d (
        above_apart j.id (claimed now worker_id j) _ refl (
            batch-IdsAbove later other_id j.id (suc i) _
              (claimed-AreAfter now worker_id j.id n rows h.1)),
        p (suc i),
      )
      by_case (suc i) false true d e p q =
          rw (d, e)
            (apart_cons j.id (claimed later other_id j) _ _ refl
              (batch-IdsAbove now worker_id j.id (suc n) rows h.1) (q i))
      by_case (suc i) false false d e p q = rw (d, e) (q (suc i))

-- Suppose that the rows stand in the order of their ids, each above `k`. Then a claim that follows
-- another one, by any worker, at any time and of any size, takes no job that the first one took.
pub claims-AreApart :
    (now later : DateTime) (worker_id other_id : Text) (k batch_size other_size : ℕ) (q : Queue)
    → AreAfter k q.rows
    → AreApart
        (claim_batch now worker_id batch_size q).1
        (claim_batch later other_id other_size (claim_batch now worker_id batch_size q).0).1
unfolding claim_batch
claims-AreApart now later worker_id other_id k n m q h =
    claims_apart now later worker_id other_id k n m q.rows h
