-- ===== src/Database/Respects.antt =====
-- Relations between the tables before and after, which every statement of a handler respects.
use kick_channel_role.Prelude.{
  Bool, true, false, Option, none, some, List, [], ◌∷◌, Result, ok, err,
}
use kick_channel_role.Database.{
  Tables, World, Sql, run, DbError, statement, execute, outcome, return, best_effort, when,
  when_some, for_each, query, ◌>>=◌, ◌>>◌, then_run,
}

-- A relation that holds where nothing happens, and along a sequence.
pub record IsPreorder {κ} (R : Tables → Tables → Type κ) : Type κ where
  pub same : (t : Tables) → R t t
  pub along : (t u v : Tables) → R t u → R u v → R t v

-- Whatever fails, the tables after are related to those before.
pub record Respects {κ ℓ} (R : Tables → Tables → Type κ) {A : Type ℓ} (m : Sql A) : Type κ where
  pub respects : (w : World) → R w.tables (run m w).0.tables

module _ {κ} {R : Tables → Tables → Type κ} (p : IsPreorder R) where
  pub Respects-return {ℓ} : {A : Type ℓ} (a : A) → Respects R (return a)
  unfolding return
  Respects-return a = record { respects = λ w. p.same w.tables }

  after-Respects {ℓ μ} :
      {A : Type ℓ} {B : Type μ} (t : Tables) (o : World × Result DbError A) (k : A → Sql B)
      → R t o.0.tables
      → ((a : A) → Respects R (k a))
      → R t (then_run o k).0.tables
  after-Respects t (v, ok a) k r hk = p.along t v.tables _ r ((hk a).respects v)
  after-Respects t (v, err e) k r hk = r

  pub Respects-bind {ℓ μ} :
      {A : Type ℓ} {B : Type μ} (m : Sql A) (k : A → Sql B)
      → Respects R m
      → ((a : A) → Respects R (k a))
      → Respects R (m >>= k)
  unfolding ◌>>=◌
  Respects-bind m k h hk = record {
    respects = λ w. after-Respects w.tables (run m w) k (h.respects w) hk;
  }

  -- A statement whose success is related to what it was run on.
  abbrev pub IsRelated {ℓ} : {A : Type ℓ} → Tables → Result DbError (Tables × A) → Type κ
  IsRelated t (ok (u, a)) = R t u
  IsRelated t (err e) = Unit

  outcome-Respects {ℓ} :
      {A : Type ℓ} (t : Tables) (faults : List Bool) (r : Result DbError (Tables × A))
      → IsRelated t r
      → R t (outcome t faults r).0.tables
  outcome-Respects t faults (ok (u, a)) h = h
  outcome-Respects t faults (err e) h = p.same t

  pub execute-Respects {ℓ} :
      {A : Type ℓ} (f : Tables → Result DbError (Tables × A)) (t : Tables) (faults : List Bool)
      → IsRelated t (f t)
      → R t (execute f t faults).0.tables
  execute-Respects f t [] h = outcome-Respects t [] (f t) h
  execute-Respects f t (true ∷ faults) h = p.same t
  execute-Respects f t (false ∷ faults) h = outcome-Respects t faults (f t) h

  pub Respects-statement {ℓ} :
      {A : Type ℓ} (f : Tables → Result DbError (Tables × A))
      → ((t : Tables) → IsRelated t (f t))
      → Respects R (statement f)
  unfolding statement
  Respects-statement f h = record {
    respects = λ w. execute-Respects f w.tables w.faults (h w.tables);
  }

  pub Respects-then {ℓ μ} :
      {A : Type ℓ} {B : Type μ} (m : Sql A) (n : Sql B)
      → Respects R m
      → Respects R n
      → Respects R (m >> n)
  unfolding ◌>>◌
  Respects-then m n h k = Respects-bind m (λ _. n) h (λ _. k)

  pub Respects-query {ℓ} : {A : Type ℓ} (f : Tables → A) → Respects R (query f)
  unfolding query
  Respects-query f = Respects-statement (λ t. ok (t, f t)) (λ t. p.same t)

  pub Respects-when : (b : Bool) (m : Sql (Unit {0})) → Respects R m → Respects R (when b m)
  unfolding when
  Respects-when true m h = h
  Respects-when false m h = Respects-return tt

  pub Respects-when_some {ℓ} :
      {A : Type ℓ} (o : Option A) (k : A → Sql (Unit {0}))
      → ((a : A) → Respects R (k a))
      → Respects R (when_some o k)
  unfolding when_some
  Respects-when_some none k h = Respects-return tt
  Respects-when_some (some a) k h = h a

  pub Respects-for_each {ℓ} :
      {A : Type ℓ} (xs : List A) (k : A → Sql (Unit {0}))
      → ((a : A) → Respects R (k a))
      → Respects R (for_each xs k)
  unfolding for_each ◌>>◌
  Respects-for_each [] k h = Respects-return tt
  Respects-for_each (x ∷ xs) k h =
      Respects-bind (k x) (λ _. for_each xs k) (h x) (λ _. Respects-for_each xs k h)

  pub Respects-best_effort : (m : Sql (Unit {0})) → Respects R m → Respects R (best_effort m)
  unfolding best_effort
  Respects-best_effort m h = record { respects = h.respects }
