-- ===== src/ApiKey/Answers.antt =====
-- src/services/api_key.rs, `authenticate`: what it answers and leaves.
use kick_channel_role.Prelude.{
  ℕ, ◌≡◌, refl, Bool, true, false, Option, none, some, if◌then◌else◌, Result, ok, err,
}
use kick_channel_role.Prelude.Text.{Text, starts_with}
use kick_channel_role.Rule.Facts.{DateTime}
use kick_channel_role.AppError.{AppError}
use kick_channel_role.ApiKey.{
  ApiKey, KeyTable, ApiKeyContext, token_prefix, is_none, touch_last_used, has_scope, lookup_key,
  after_limit, after_lookup, with_token, extract_bearer, authenticate,
}

module _ (hash_token : Text → Text) {L : Type 0} (check_key : L → ℕ → L × Option ℕ) (now : DateTime)
    (scope : Text) (t : KeyTable) where
  -- A refusal, or the context of a live key that the table has under the token's hash.
  pub data IsAnswer : (L × KeyTable) × Result AppError ApiKeyContext → Type 0 where
    denied : (l : L) (e : AppError) → IsAnswer ((l, t), err e)
    granted :
        (l : L) (k : ApiKey) (raw : Text)
        → lookup_key hash_token (hash_token raw) t ≡ some k
        → is_none k.revoked_at ≡ true
        → IsAnswer (
          (l, touch_last_used now k.id t),
          ok (record { key_id = k.id; guild_id = k.guild_id; label = k.label; scopes = k.scopes }),
        )

  if-IsAnswer :
      (b : Bool) (x y : (L × KeyTable) × Result AppError ApiKeyContext)
      → (b ≡ true → IsAnswer x)
      → IsAnswer y
      → IsAnswer (if b then x else y)
  if-IsAnswer true x y h k = h refl
  if-IsAnswer false x y h k = k

  limit-IsAnswer :
      (k : ApiKey) (raw : Text) (o : L × Option ℕ)
      → lookup_key hash_token (hash_token raw) t ≡ some k
      → is_none k.revoked_at ≡ true
      → IsAnswer (after_limit hash_token check_key now scope k o t)
  unfolding after_limit
  limit-IsAnswer k raw (l, some wait) h live = denied l _
  limit-IsAnswer k raw (l, none) h live =
      if-IsAnswer
        (has_scope
          (record { key_id = k.id; guild_id = k.guild_id; label = k.label; scopes = k.scopes })
          scope)
        _ _ (λ _. granted l k raw h live) (denied l _)

  lookup-IsAnswer :
      (l : L) (raw : Text) (found : Option ApiKey)
      → lookup_key hash_token (hash_token raw) t ≡ found
      → IsAnswer (after_lookup hash_token check_key now scope l found t)
  unfolding after_lookup
  lookup-IsAnswer l raw none h = denied l _
  lookup-IsAnswer l raw (some k) h =
      if-IsAnswer (is_none k.revoked_at) _ _
        (λ live. limit-IsAnswer k raw (check_key l k.id) h live) (denied l _)

  token-IsAnswer :
      (l : L) (token : Option Text) → IsAnswer (with_token hash_token check_key now scope l token t)
  unfolding with_token
  token-IsAnswer l none = denied l _
  token-IsAnswer l (some raw) =
      if-IsAnswer (starts_with token_prefix raw) _ _
        (λ _. lookup-IsAnswer l raw (lookup_key hash_token (hash_token raw) t) refl) (denied l _)

  pub authenticate-IsAnswer :
      (l : L) (header : Option Text)
      → IsAnswer (authenticate hash_token check_key now scope l header t)
  unfolding authenticate
  authenticate-IsAnswer l header = token-IsAnswer l (extract_bearer header)
