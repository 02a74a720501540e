-- ===== src/RoleLogic/Upload.antt =====
-- src/services/rolelogic.rs, the methods of `RoleLogicClient`.
use kick_channel_role.Prelude.{
  ℕ, zero, suc, ◌-◌, Bool, ◌&&◌, ◌||◌, List, [], ◌∷◌, ◌++◌, length, leb, ◌==◌, if◌then◌else◌,
  Result, ok, err, ok_or, unwrap_or,
}
use kick_channel_role.Prelude.Text.{Text, codes}
use kick_channel_role.Prelude.Text as Str
use kick_channel_role.Json.{Value, null, as_str}
use kick_channel_role.AppError.{
  AppError, rolelogic, role_link_not_found, role_link_disabled, removal_held, user_limit_reached,
}
use kick_channel_role.RoleLogic.{
  Endpoint, user_info, start, add, remove, replace, chunk, commit, cancel, Request, Response,
  is_success, link_inactive, is_held, link_gone, index, count_in, flag_in, Wire, Client, client,
  run, return, lift, ◌>>=◌,
}

-- Below the hard cap of `PUT /users`, and of a chunk.
abbrev pub put_max_users : ℕ
put_max_users = 100000

abbrev pub chunk_size : ℕ
chunk_size = 100000

-- `slice::chunks`, while the current chunk has `room`.
unfoldable pub push {ℓ} : {A : Type ℓ} → A → List (List A) → List (List A)
push x [] = (x ∷ []) ∷ []
push x (c ∷ cs) = (x ∷ c) ∷ cs

unfoldable pub chunks_from {ℓ} : {A : Type ℓ} → ℕ → ℕ → List A → List (List A)
unfolding push
chunks_from size room [] = [] ∷ []
chunks_from size zero (x ∷ xs) = [] ∷ push x (chunks_from size (size - 1) xs)
chunks_from size (suc room) (x ∷ xs) = push x (chunks_from size room xs)

unfoldable pub chunks {ℓ} : {A : Type ℓ} → ℕ → List A → List (List A)
unfolding chunks_from
chunks size [] = []
chunks size (x ∷ xs) = chunks_from size size (x ∷ xs)

module _ (wire : Wire) where
  -- `{what} failed: {status} - {body}`.
  unfoldable pub failed_with : Text → Response → AppError
  failed_with what r =
      rolelogic (what ++ codes " failed: " ++ wire.show_status r.status ++ codes " - " ++ r.body)

  -- The errors that every call on a link shares.
  unfoldable pub link_error : Text → Response → AppError
  unfolding failed_with
  link_error what r =
      if link_gone r.status r.body
      then role_link_not_found
      else if link_inactive r.status r.body
      then role_link_disabled
      else failed_with what r

  unfoldable pub limit_reached : ℕ → Text → Bool
  limit_reached status body = (status == 400 || status == 403) && Str.contains body (codes "limit")

  unfoldable pub add_error : Response → AppError
  unfolding link_error limit_reached
  add_error r =
      if link_gone r.status r.body
      then role_link_not_found
      else if link_inactive r.status r.body
      then role_link_disabled
      else if limit_reached r.status r.body
      then user_limit_reached
          (count_in (unwrap_or (wire.parse_json r.body) null) (codes "user_limit") 100)
      else failed_with (codes "Add user") r

  unfoldable pub replace_error : Response → AppError
  unfolding failed_with
  replace_error r =
      if link_gone r.status r.body
      then role_link_not_found
      else if link_inactive r.status r.body
      then role_link_disabled
      else if is_held r.status r.body
      then removal_held
      else failed_with (codes "Replace users") r

  unfoldable pub commit_error : Response → AppError
  unfolding failed_with
  commit_error r =
      if is_held r.status r.body then removal_held else failed_with (codes "Commit upload") r

  -- A request that is answered with a success, or `error` of the response.
  unfoldable pub checked : (Response → AppError) → Result Text Response → Result AppError Response
  checked error (err e) = err (rolelogic e)
  checked error (ok r) = if is_success r.status then ok r else err (error r)

  unfoldable pub call : (Response → AppError) → Request → Client Response
  unfolding checked
  call error q = client (λ sent. (q ∷ sent, checked error (wire.answer sent q)))

  unfoldable pub json : Response → Client Value
  json r = lift (ok_or (wire.parse_json r.body) (rolelogic (wire.json_error r.body)))

  module _ (guild_id role_id token : Text) where
    unfoldable pub request : Endpoint → Request
    request e = record { guild_id = guild_id; role_id = role_id; token = token; endpoint = e }

    unfoldable pub get_user_info : Client (ℕ × ℕ)
    unfolding call json
    get_user_info = do
      r ← call (link_error (codes "Get user info")) (request user_info)
      v ← json r
      return (count_in v (codes "user_count") 0, count_in v (codes "user_limit") 100)

    unfoldable pub add_user : Text → Client Bool
    unfolding call json
    add_user user_id = do
      r ← call add_error (request (add user_id))
      v ← json r
      return (flag_in v (codes "added"))

    unfoldable pub remove_user : Text → Client Bool
    unfolding call json
    remove_user user_id = do
      r ← call (link_error (codes "Remove user")) (request (remove user_id))
      v ← json r
      return (flag_in v (codes "removed"))

    unfoldable pub replace_users : List Text → Client ℕ
    unfolding call json
    replace_users user_ids = do
      r ← call replace_error (request (replace user_ids))
      v ← json r
      return (count_in v (codes "user_count") 0)

    unfoldable pub start_upload : Client Text
    unfolding call json
    start_upload = do
      r ← call (link_error (codes "Start upload")) (request start)
      v ← json r
      lift (
          ok_or (as_str (index (index v (codes "data")) (codes "upload_id")))
            (rolelogic (codes "Start upload response missing upload_id")))

    unfoldable pub upload_chunk : Text → List Text → Client (Unit {0})
    unfolding call
    upload_chunk upload_id user_ids = do
      r ← call (failed_with (codes "Upload chunk")) (request (chunk upload_id user_ids))
      return tt

    unfoldable pub commit_upload : Text → Client ℕ
    unfolding call json
    commit_upload upload_id = do
      r ← call commit_error (request (commit upload_id))
      v ← json r
      return (count_in v (codes "user_count") 0)

    unfoldable pub cancel_upload : Text → Client (Unit {0})
    unfolding call
    cancel_upload upload_id = do
      r ← call (failed_with (codes "Cancel upload")) (request (cancel upload_id))
      return tt

    -- A chunk that fails cancels the upload, and its own error is returned.
    unfoldable pub after_chunk :
        Text
        → Client (Unit {0})
        → List Request × Result AppError (Unit {0})
        → List Request × Result AppError (Unit {0})
    unfolding cancel_upload
    after_chunk upload_id rest (sent, ok u) = run rest sent
    after_chunk upload_id rest (sent, err e) = ((run (cancel_upload upload_id) sent).0, err e)

    unfoldable pub upload_chunks : Text → List (List Text) → Client (Unit {0})
    unfolding after_chunk
    upload_chunks upload_id [] = return tt
    upload_chunks upload_id (c ∷ cs) =
        let rest = upload_chunks upload_id cs in
        client (λ sent. after_chunk upload_id rest (run (upload_chunk upload_id c) sent))

    unfoldable pub upload_users : List Text → Client ℕ
    unfolding replace_users start_upload upload_chunks commit_upload
    upload_users user_ids =
        let chunked : Client ℕ = do
          upload_id ← start_upload
          u ← upload_chunks upload_id (chunks chunk_size user_ids)
          commit_upload upload_id
        in if leb (length user_ids) put_max_users then replace_users user_ids else chunked
