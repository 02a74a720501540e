-- ===== src/RoleLogic/Trace.antt =====
-- src/services/rolelogic.rs, `upload_users`: the requests that an upload sends.
use kick_channel_role.Prelude.{
  ℕ, ◌≤◌, ◌<◌, ◌≡◌, refl, ap, ◌∙◌, Bool, true, false, List, [], ◌∷◌, ◌++◌, map, length, leb, leb→le,
  leb→gt, if◌then◌else◌, Result, ok, err, All, arith,
}
use kick_channel_role.Prelude.Text.{Text}
use kick_channel_role.Json.{Value}
use kick_channel_role.AppError.{AppError}
use kick_channel_role.RoleLogic.{
  Endpoint, start, replace, chunk, commit, cancel, Request, Response, Wire, Client, is_success, run,
  return, lift, then_run, ◌>>=◌,
}
use kick_channel_role.RoleLogic.Upload.{
  put_max_users, chunk_size, chunks, call, checked, json, request, replace_users, start_upload,
  upload_chunk, upload_chunks, commit_upload, cancel_upload, after_chunk, upload_users,
}
use kick_channel_role.RoleLogic.Chunks.{concat, Fits, concat-chunks, chunks-Fits}

-- Requests that are sent in this order.
abbrev pub send_all : List Request → List Request → List Request
send_all [] sent = sent
send_all (q ∷ qs) sent = send_all qs (q ∷ sent)

-- A computation that sends nothing.
record IsSilent {ℓ} {A : Type ℓ} (m : Client A) : Type 0 where
  same : (sent : List Request) → (run m sent).0 ≡ sent

IsSilent-return {ℓ} : {A : Type ℓ} (a : A) → IsSilent (return a)
unfolding return
IsSilent-return a = record { same = λ sent. refl }

IsSilent-lift {ℓ} : {A : Type ℓ} (r : Result AppError A) → IsSilent (lift r)
unfolding lift
IsSilent-lift r = record { same = λ sent. refl }

then_run-sent {ℓ κ} :
    {A : Type ℓ} {B : Type κ} (sent : List Request) (o : Result AppError A) (k : A → Client B)
    → ((a : A) → IsSilent (k a))
    → (then_run (sent, o) k).0 ≡ sent
then_run-sent sent (ok a) k h = (h a).same sent
then_run-sent sent (err e) k h = refl

module _ (wire : Wire) (guild_id role_id token : Text) where
  abbrev req : Endpoint → Request
  req e = request wire guild_id role_id token e

  abbrev chunk_reqs : Text → List (List Text) → List Request
  chunk_reqs id cs = map (λ c. req (chunk id c)) cs

  -- The request, sent after `sent`, was answered with a success.
  abbrev pub IsAccepted : List Request → Request → Type 0
  IsAccepted sent q =
      (r : Response) × (wire.answer sent q ≡ ok r) × (200 ≤ r.status) × (r.status < 300)

  -- Requests that are sent in this order, each of them accepted.
  abbrev pub AreAccepted : List Request → List Request → Type 0
  AreAccepted sent [] = Unit
  AreAccepted sent (q ∷ qs) = IsAccepted sent q × AreAccepted (q ∷ sent) qs

  -- What an upload sends, and what comes of it: one PUT of all the users; or no more than the
  -- start, which fails; or all of them in chunks, in order, each accepted, and then the commit; or
  -- some of the chunks up to the one that is not accepted, and then the cancellation.
  pub data IsUpload (user_ids : List Text) (sent : List Request)
      : List Request × Result AppError ℕ → Type 0 where
    whole :
        (r : Result AppError ℕ)
        → length user_ids ≤ put_max_users
        → IsUpload user_ids sent (req (replace user_ids) ∷ sent, r)
    not_started :
        (e : AppError)
        → put_max_users < length user_ids
        → IsUpload user_ids sent (req start ∷ sent, err e)
    committed :
        (id : Text) (cs : List (List Text)) (r : Result AppError ℕ)
        → put_max_users < length user_ids
        → concat cs ≡ user_ids
        → All (Fits chunk_size) cs
        → IsAccepted sent (req start)
        → AreAccepted (req start ∷ sent) (chunk_reqs id cs)
        → IsUpload user_ids sent
            (req (commit id) ∷ send_all (chunk_reqs id cs) (req start ∷ sent), r)
    cancelled :
        (id : Text) (before : List (List Text)) (c : List Text) (after : List (List Text))
        (e : AppError)
        → put_max_users < length user_ids
        → concat (before ++ c ∷ after) ≡ user_ids
        → All (Fits chunk_size) (before ++ c ∷ after)
        → IsAccepted sent (req start)
        → AreAccepted (req start ∷ sent) (chunk_reqs id before)
        → ¬ IsAccepted (send_all (chunk_reqs id before) (req start ∷ sent)) (req (chunk id c))
        → IsUpload user_ids sent (
          req (cancel id) ∷ req (chunk id c) ∷ send_all (chunk_reqs id before) (req start ∷ sent),
          err e,
        )

  json-IsSilent {ℓ} :
      {A : Type ℓ} (r : Response) (k : Value → Client A)
      → ((v : Value) → IsSilent (k v))
      → IsSilent (json wire r >>= k)
  unfolding ◌>>=◌ json lift
  json-IsSilent r k h = record { same = λ sent. then_run-sent sent _ k h }

  -- One request, and the reading of its answer.
  call-sent {ℓ} :
      {A : Type ℓ} (error : Response → AppError) (q : Request) (k : Response → Client A)
      (sent : List Request)
      → ((r : Response) → IsSilent (k r))
      → (run (call wire error q >>= k) sent).0 ≡ q ∷ sent
  unfolding ◌>>=◌ call
  call-sent error q k sent h =
      then_run-sent (q ∷ sent) (checked wire error (wire.answer sent q)) k h

  replace_users-sent :
      (user_ids : List Text) (sent : List Request)
      → (run (replace_users wire guild_id role_id token user_ids) sent).0
        ≡ req (replace user_ids) ∷ sent
  unfolding replace_users
  replace_users-sent user_ids sent =
      call-sent _ _ _ sent (λ r. json-IsSilent r _ (λ v. IsSilent-return _))

  start_upload-sent :
      (sent : List Request)
      → (run (start_upload wire guild_id role_id token) sent).0 ≡ req start ∷ sent
  unfolding start_upload
  start_upload-sent sent = call-sent _ _ _ sent (λ r. json-IsSilent r _ (λ v. IsSilent-lift _))

  commit_upload-sent :
      (id : Text) (sent : List Request)
      → (run (commit_upload wire guild_id role_id token id) sent).0 ≡ req (commit id) ∷ sent
  unfolding commit_upload
  commit_upload-sent id sent =
      call-sent _ _ _ sent (λ r. json-IsSilent r _ (λ v. IsSilent-return _))

  upload_chunk-sent :
      (id : Text) (c : List Text) (sent : List Request)
      → (run (upload_chunk wire guild_id role_id token id c) sent).0 ≡ req (chunk id c) ∷ sent
  unfolding upload_chunk
  upload_chunk-sent id c sent = call-sent _ _ _ sent (λ r. IsSilent-return _)

  cancel_upload-sent :
      (id : Text) (sent : List Request)
      → (run (cancel_upload wire guild_id role_id token id) sent).0 ≡ req (cancel id) ∷ sent
  unfolding cancel_upload
  cancel_upload-sent id sent = call-sent _ _ _ sent (λ r. IsSilent-return _)

  -- What becomes of the chunks.
  data AreSent (id : Text) (cs : List (List Text)) (sent : List Request)
      : List Request × Result AppError (Unit {0}) → Type 0 where
    all_sent :
        AreAccepted sent (chunk_reqs id cs)
        → AreSent id cs sent (send_all (chunk_reqs id cs) sent, ok tt)
    stopped :
        (before : List (List Text)) (c : List Text) (after : List (List Text)) (e : AppError)
        → before ++ c ∷ after ≡ cs
        → AreAccepted sent (chunk_reqs id before)
        → ¬ IsAccepted (send_all (chunk_reqs id before) sent) (req (chunk id c))
        → AreSent id cs sent
            (req (cancel id) ∷ req (chunk id c) ∷ send_all (chunk_reqs id before) sent, err e)

  AreSent-cons :
      (id : Text) (c : List Text) (cs : List (List Text)) (sent : List Request)
      (o : List Request × Result AppError (Unit {0}))
      → IsAccepted sent (req (chunk id c))
      → AreSent id cs (req (chunk id c) ∷ sent) o
      → AreSent id (c ∷ cs) sent o
  AreSent-cons id c cs sent _ a (all_sent rest) = all_sent (a, rest)
  AreSent-cons id c cs sent _ a (stopped before d after e h rest n) =
      stopped (c ∷ before) d after e (ap (λ l. c ∷ l) h) (a, rest) n

  -- A call that comes to a value was accepted.
  call-IsAccepted {ℓ} :
      {A : Type ℓ} (error : Response → AppError) (q : Request) (k : Response → Client A)
      (sent : List Request) (a : A)
      → (run (call wire error q >>= k) sent).1 ≡ ok a
      → IsAccepted sent q
  unfolding ◌>>=◌ call checked
  call-IsAccepted error q k sent a = by_answer (wire.answer sent q) refl
    where
      by_answer :
          (o : Result Text Response)
          → wire.answer sent q ≡ o
          → (then_run (q ∷ sent, checked wire error o) k).1 ≡ ok a
          → IsAccepted sent q
      by_answer (err t) h e = absurd (cc e)
      by_answer (ok r) h e = by_status (is_success r.status) refl e
        where
          by_status :
              (b : Bool)
              → is_success r.status ≡ b
              → (then_run (q ∷ sent, if b then ok r else err (error r)) k).1 ≡ ok a
              → IsAccepted sent q
          by_status true s e = (r, h, ground (arith, s), ground (arith, s))
          by_status false s e = absurd (cc e)

  -- A call that comes to an error, and whose answer is not read further, was not accepted.
  call_refused_lem :
      (error : Response → AppError) (q : Request) (sent : List Request) (e : AppError)
      → (run (call wire error q >>= λ r. return {A = Unit {0}} tt) sent).1 ≡ err e
      → ¬ IsAccepted sent q
  unfolding ◌>>=◌ call checked return
  call_refused_lem error q sent e = by_answer (wire.answer sent q) refl
    where
      by_answer :
          (o : Result Text Response)
          → wire.answer sent q ≡ o
          → (then_run (q ∷ sent, checked wire error o) (λ r. return {A = Unit {0}} tt)).1 ≡ err e
          → ¬ IsAccepted sent q
      by_answer (err t) h p (r, a, low, high) = absurd (cc (h, a))
      by_answer (ok r) h p (r', a, low, high) =
          let same : r ≡ r' = cc (h, a) in
          let good : is_success r.status ≡ true = rw same (ground (arith, low, high)) in
          absurd (cc (rw good at p))

  upload_chunks-AreSent :
      (id : Text) (cs : List (List Text)) (sent : List Request)
      → AreSent id cs sent (run (upload_chunks wire guild_id role_id token id cs) sent)
  unfolding upload_chunks after_chunk return
  upload_chunks-AreSent id [] sent = all_sent tt
  upload_chunks-AreSent id (c ∷ cs) sent =
      by_chunk (run (upload_chunk wire guild_id role_id token id c) sent) refl
        (upload_chunk-sent id c sent) (upload_chunks-AreSent id cs)
    where
      by_chunk :
          (o : List Request × Result AppError (Unit {0}))
          → run (upload_chunk wire guild_id role_id token id c) sent ≡ o
          → o.0 ≡ req (chunk id c) ∷ sent
          → ((s : List Request)
              → AreSent id cs s (run (upload_chunks wire guild_id role_id token id cs) s))
          → AreSent id (c ∷ cs) sent (
              after_chunk wire guild_id role_id token id
                (upload_chunks wire guild_id role_id token id cs)
                o)
      by_chunk (s, ok u) same h rest = rw h (
          AreSent-cons id c cs sent _
            (unfold upload_chunk in call-IsAccepted _ _ _ sent u (ap (λ o. o.1) same))
            (rest (req (chunk id c) ∷ sent)))
      by_chunk (s, err e) same h rest = rw (cancel_upload-sent id s) (
          rw h (
            stopped [] c cs e refl tt
              (unfold upload_chunk in call_refused_lem _ _ sent e (ap (λ o. o.1) same))))

  IsUpload-pair :
      (user_ids : List Text) (sent : List Request) (o : List Request × Result AppError ℕ)
      {s : List Request}
      → o.0 ≡ s
      → IsUpload user_ids sent (s, o.1)
      → IsUpload user_ids sent o
  IsUpload-pair user_ids sent (s, r) e h = rw e h

  -- The commit, or what stopped the chunks.
  commit-IsUpload :
      (user_ids : List Text) (sent : List Request) (id : Text)
      (o : List Request × Result AppError (Unit {0}))
      → put_max_users < length user_ids
      → IsAccepted sent (req start)
      → AreSent id (chunks chunk_size user_ids) (req start ∷ sent) o
      → IsUpload user_ids sent (then_run o (λ u. commit_upload wire guild_id role_id token id))
  commit-IsUpload user_ids sent id _ big started (all_sent rest) =
      IsUpload-pair user_ids sent _ (commit_upload-sent id _) (
        committed id (chunks chunk_size user_ids) _ big (concat-chunks chunk_size user_ids)
          (chunks-Fits chunk_size user_ids (omega arith)) started rest)
  commit-IsUpload user_ids sent id _ big started (stopped before c after e h rest n) =
      cancelled id before c after e big (ap concat h ∙ concat-chunks chunk_size user_ids)
        (rw h (chunks-Fits chunk_size user_ids (omega arith))) started rest n

  chunked-IsUpload :
      (user_ids : List Text) (sent : List Request)
      → put_max_users < length user_ids
      → IsUpload user_ids sent (
          run
            (start_upload wire guild_id role_id token >>= λ id.
              upload_chunks wire guild_id role_id token id (chunks chunk_size user_ids) >>= λ u.
              commit_upload wire guild_id role_id token id)
            sent)
  unfolding ◌>>=◌
  chunked-IsUpload user_ids sent big =
      by_start (run (start_upload wire guild_id role_id token) sent) refl (start_upload-sent sent)
    where
      by_start :
          (o : List Request × Result AppError Text)
          → run (start_upload wire guild_id role_id token) sent ≡ o
          → o.0 ≡ req start ∷ sent
          → IsUpload user_ids sent (
              then_run o (λ id.
                upload_chunks wire guild_id role_id token id (chunks chunk_size user_ids) >>= λ u.
                commit_upload wire guild_id role_id token id))
      by_start (s, ok id) same h = rw h (
          commit-IsUpload user_ids sent id _ big
            (unfold start_upload in call-IsAccepted _ _ _ sent id (ap (λ o. o.1) same))
            (upload_chunks-AreSent id (chunks chunk_size user_ids) (req start ∷ sent)))
      by_start (s, err e) same h = rw h (not_started e big)

  -- Whatever RoleLogic answers, an upload sends one PUT of all the users where they are at most
  -- 100,000; else a start, and then chunks that are not empty, are at most 100,000 and together
  -- give the users in order. A commit at the end comes only after the start and every chunk were
  -- answered with a status from 200 to 299, and a cancellation only after a chunk that was not.
  pub upload_users-IsUpload :
      (user_ids : List Text) (sent : List Request)
      → IsUpload user_ids sent (run (upload_users wire guild_id role_id token user_ids) sent)
  unfolding upload_users
  upload_users-IsUpload user_ids sent = by_size (leb (length user_ids) put_max_users) refl
    where
      by_size :
          (b : Bool)
          → leb (length user_ids) put_max_users ≡ b
          → IsUpload user_ids sent (run (upload_users wire guild_id role_id token user_ids) sent)
      by_size true e = rw e (
          IsUpload-pair user_ids sent _ (replace_users-sent user_ids sent)
            (whole _ (leb→le (length user_ids) put_max_users e)))
      by_size false e =
          rw e (chunked-IsUpload user_ids sent (leb→gt (length user_ids) put_max_users e))
