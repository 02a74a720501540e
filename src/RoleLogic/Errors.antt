-- ===== src/RoleLogic/Errors.antt =====
-- src/services/rolelogic.rs: what an answer must have been for an error on which the callers act.
use kick_channel_role.Prelude.{
  ℕ, Bool, true, false, List, [], ◌∷◌, leb, if◌then◌else◌, length, Result, ok, err,
}
use kick_channel_role.Prelude.Text.{Text}
use kick_channel_role.AppError.{AppError}
use kick_channel_role.RoleLogic.{Request, Wire, Client, run}
use kick_channel_role.RoleLogic.Upload.{
  put_max_users, get_user_info, add_user, remove_user, replace_users, start_upload, upload_chunk,
  upload_chunks, commit_upload, cancel_upload, after_chunk, upload_users,
}
use kick_channel_role.RoleLogic.Founded.{
  IsFounded, IsFounded-cleaned, then_run-IsFounded, AllFounded, AllFounded-return, AllFounded-bind,
  AllFounded-ok_or, json-AllFounded, link_error-IsFair, add_error-IsFair, replace_error-IsFair,
  commit_error-IsFair, failed_with-IsFair, call-AllFounded,
}

module _ (wire : Wire) (guild_id role_id token : Text) where
  info-AllFounded : AllFounded wire (get_user_info wire guild_id role_id token)
  unfolding get_user_info
  info-AllFounded =
      AllFounded-bind wire _ _ (call-AllFounded wire _ _ (link_error-IsFair wire _))
        (λ r. AllFounded-bind wire _ _ (json-AllFounded wire r) (λ v. AllFounded-return wire _))

  add-AllFounded : (u : Text) → AllFounded wire (add_user wire guild_id role_id token u)
  unfolding add_user
  add-AllFounded u =
      AllFounded-bind wire _ _ (call-AllFounded wire _ _ (add_error-IsFair wire))
        (λ r. AllFounded-bind wire _ _ (json-AllFounded wire r) (λ v. AllFounded-return wire _))

  remove-AllFounded : (u : Text) → AllFounded wire (remove_user wire guild_id role_id token u)
  unfolding remove_user
  remove-AllFounded u =
      AllFounded-bind wire _ _ (call-AllFounded wire _ _ (link_error-IsFair wire _))
        (λ r. AllFounded-bind wire _ _ (json-AllFounded wire r) (λ v. AllFounded-return wire _))

  replace-AllFounded :
      (us : List Text) → AllFounded wire (replace_users wire guild_id role_id token us)
  unfolding replace_users
  replace-AllFounded us =
      AllFounded-bind wire _ _ (call-AllFounded wire _ _ (replace_error-IsFair wire))
        (λ r. AllFounded-bind wire _ _ (json-AllFounded wire r) (λ v. AllFounded-return wire _))

  start-AllFounded : AllFounded wire (start_upload wire guild_id role_id token)
  unfolding start_upload
  start-AllFounded =
      AllFounded-bind wire _ _ (call-AllFounded wire _ _ (link_error-IsFair wire _))
        (λ r. AllFounded-bind wire _ _ (json-AllFounded wire r) (λ v. AllFounded-ok_or wire _ _))

  chunk-AllFounded :
      (id : Text) (c : List Text) → AllFounded wire (upload_chunk wire guild_id role_id token id c)
  unfolding upload_chunk
  chunk-AllFounded id c =
      AllFounded-bind wire _ _ (call-AllFounded wire _ _ (failed_with-IsFair wire _))
        (λ r. AllFounded-return wire _)

  commit-AllFounded : (id : Text) → AllFounded wire (commit_upload wire guild_id role_id token id)
  unfolding commit_upload
  commit-AllFounded id =
      AllFounded-bind wire _ _ (call-AllFounded wire _ _ (commit_error-IsFair wire))
        (λ r. AllFounded-bind wire _ _ (json-AllFounded wire r) (λ v. AllFounded-return wire _))

  cancel-AllFounded : (id : Text) → AllFounded wire (cancel_upload wire guild_id role_id token id)
  unfolding cancel_upload
  cancel-AllFounded id =
      AllFounded-bind wire _ _ (call-AllFounded wire _ _ (failed_with-IsFair wire _))
        (λ r. AllFounded-return wire _)

  after_chunk-IsFounded :
      (id : Text) (rest : Client (Unit {0})) (sent : List Request)
      (o : List Request × Result AppError (Unit {0}))
      → IsFounded wire sent o
      → AllFounded wire rest
      → IsFounded wire sent (after_chunk wire guild_id role_id token id rest o)
  unfolding after_chunk
  after_chunk-IsFounded id rest sent (s, ok u) h k =
      then_run-IsFounded wire sent (s, ok u) (λ v. rest) h (λ v. k)
  after_chunk-IsFounded id rest sent (s, err e) h k =
      IsFounded-cleaned wire sent s _ e h ((cancel-AllFounded id).founded s).0

  chunks-AllFounded :
      (id : Text) (cs : List (List Text))
      → AllFounded wire (upload_chunks wire guild_id role_id token id cs)
  unfolding upload_chunks
  chunks-AllFounded id [] = AllFounded-return wire tt
  chunks-AllFounded id (c ∷ cs) =
      let k = chunks-AllFounded id cs in
      record {
        founded = λ sent.
            after_chunk-IsFounded id _ sent
              (run (upload_chunk wire guild_id role_id token id c) sent)
              ((chunk-AllFounded id c).founded sent) k;
      }

  upload-AllFounded :
      (us : List Text) → AllFounded wire (upload_users wire guild_id role_id token us)
  unfolding upload_users
  upload-AllFounded us = by_size (leb (length us) put_max_users) (replace-AllFounded us) (
      AllFounded-bind wire _ _ start-AllFounded
        (λ id. AllFounded-bind wire _ _ (chunks-AllFounded id _) (λ u. commit-AllFounded id)))
    where
      by_size :
          (b : Bool) {m n : Client ℕ}
          → AllFounded wire m
          → AllFounded wire n
          → AllFounded wire (if b then m else n)
      by_size true h k = h
      by_size false h k = k

  -- Where a call says that the link is gone, is switched off or paused, or that its removals are
  -- held, RoleLogic has answered a request that this very call sent by a response that says so:
  -- 403 with `Invalid or revoked token` in its body, 403 with `This role link is disabled` or
  -- `This role link is paused`, or 409 with `confirm_required`.
  pub client-IsFounded :
      (user_id : Text) (user_ids : List Text) (sent : List Request)
      → IsFounded wire sent (run (get_user_info wire guild_id role_id token) sent)
        × IsFounded wire sent (run (add_user wire guild_id role_id token user_id) sent)
        × IsFounded wire sent (run (remove_user wire guild_id role_id token user_id) sent)
        × IsFounded wire sent (run (upload_users wire guild_id role_id token user_ids) sent)
  client-IsFounded user_id user_ids sent = (
    info-AllFounded.founded sent,
    (add-AllFounded user_id).founded sent,
    (remove-AllFounded user_id).founded sent,
    (upload-AllFounded user_ids).founded sent,
  )
