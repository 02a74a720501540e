-- ===== src/Jobs/Dedup.antt =====
-- `enqueue_config_sync_unless_queued` of src/services/jobs.rs: at most one pending row of a link.
use kick_channel_role.Prelude.{
  ℕ, ◌≤◌, ◌≡◌, max, refl, Bool, true, false, List, [], ◌∷◌, ◌++◌, any, length, arith,
}
use kick_channel_role.Prelude.Text.{Text, text_eq}
use kick_channel_role.Json.{Value}
use kick_channel_role.Rule.Facts.{DateTime}
use kick_channel_role.Jobs.{
  Job, Queue, config_sync, as_str, new_job, enqueue, link_payload, is_queued,
  enqueue_config_sync_unless_queued,
}
use kick_channel_role.Jobs.Claims.{where_rows}

count : (Job → Bool) → List Job → ℕ
count p rows = length (where_rows p rows)

where_rows-append :
    (p : Job → Bool) (xs ys : List Job)
    → where_rows p (xs ++ ys) ≡ where_rows p xs ++ where_rows p ys
where_rows-append p [] ys = refl
where_rows-append p (x ∷ xs) ys = by_case (p x) refl (where_rows-append p xs ys)
  where
    by_case :
        (b : Bool)
        → p x ≡ b
        → where_rows p (xs ++ ys) ≡ where_rows p xs ++ where_rows p ys
        → where_rows p (x ∷ xs ++ ys) ≡ where_rows p (x ∷ xs) ++ where_rows p ys
    by_case true e h = rw (e, h) refl
    by_case false e h = rw (e, h) refl

-- No row is selected exactly when the test finds none.
none_selected : (p : Job → Bool) (xs : List Job) → any p xs ≡ false → where_rows p xs ≡ []
none_selected p [] h = refl
none_selected p (x ∷ xs) h = by_case (p x) refl (none_selected p xs)
  where
    by_case :
        (b : Bool)
        → p x ≡ b
        → (any p xs ≡ false → where_rows p xs ≡ [])
        → where_rows p (x ∷ xs) ≡ []
    by_case true e r = absurd (cc (h, e))
    by_case false e r = rw e (r (rw e at h))

some_selected : (p : Job → Bool) (xs : List Job) → any p xs ≡ true → 1 ≤ length (where_rows p xs)
some_selected p [] h = absurd (cc h)
some_selected p (x ∷ xs) h = by_case (p x) refl (some_selected p xs)
  where
    by_case :
        (b : Bool)
        → p x ≡ b
        → (any p xs ≡ true → 1 ≤ length (where_rows p xs))
        → 1 ≤ length (where_rows p (x ∷ xs))
    by_case true e r = rw e (omega arith)
    by_case false e r = rw e (r (rw e at h))

module _ (json_eq : Value → Value → Bool) where
  added_is_queued :
      (now : DateTime) (id : ℕ) (guild_id role_id : Text) (delay_secs : ℕ)
      → ((v : Value) → json_eq v v ≡ true)
      → is_queued json_eq
          (as_str config_sync)
          (link_payload guild_id role_id)
          (new_job now id (as_str config_sync) (link_payload guild_id role_id) delay_secs)
        ≡ true
  unfolding is_queued new_job as_str text_eq
  added_is_queued now id guild_id role_id delay_secs reflexive =
      reflexive (link_payload guild_id role_id)

  -- Where equality of JSON is reflexive, the check leaves exactly one pending config sync of the
  -- link if there was none, and as many as there were otherwise.
  pub unless_queued-one :
      (now : DateTime) (guild_id role_id : Text) (delay_secs : ℕ) (q : Queue)
      → ((v : Value) → json_eq v v ≡ true)
      → length (
          where_rows
            (is_queued json_eq (as_str config_sync) (link_payload guild_id role_id))
            (enqueue_config_sync_unless_queued json_eq now guild_id role_id delay_secs q).rows)
        ≡ max 1 (
            length (
              where_rows
                (is_queued json_eq (as_str config_sync) (link_payload guild_id role_id))
                q.rows))
  unfolding enqueue_config_sync_unless_queued enqueue
  unless_queued-one now guild_id role_id delay_secs q reflexive = by_case (any wanted q.rows) refl
    where
      wanted : Job → Bool
      wanted = is_queued json_eq (as_str config_sync) (link_payload guild_id role_id)

      added : Job
      added = new_job now q.next_id (as_str config_sync) (link_payload guild_id role_id) delay_secs

      by_case :
          (b : Bool)
          → any wanted q.rows ≡ b
          → length (
              where_rows wanted
                (enqueue_config_sync_unless_queued json_eq now guild_id role_id delay_secs q).rows)
            ≡ max 1 (length (where_rows wanted q.rows))
      by_case true e = rw e (omega (arith, some_selected wanted q.rows e))
      by_case false e = rw e (
          rw
            (
              where_rows-append wanted q.rows (added ∷ []),
              none_selected wanted q.rows e,
              added_is_queued now q.next_id guild_id role_id delay_secs reflexive,
            )
            refl)
