-- ===== src/ApiKey/Steps.antt =====
-- src/services/api_key.rs and src/routes/api_keys.rs: the operations on keys, one after the other.
use kick_channel_role.Prelude.{ℕ, Option, Result}
use kick_channel_role.Prelude.Text.{Text}
use kick_channel_role.Rule.Facts.{DateTime}
use kick_channel_role.AppError.{AppError}
use kick_channel_role.ApiKey.{KeyTable, ApiKeyContext, create, revoke, authenticate}
use kick_channel_role.ApiKey.Answers.{IsAnswer, denied, granted, authenticate-IsAnswer}
use kick_channel_role.ApiKey.Limit.{
  IsKeyTable, create-IsKeyTable, revoke-IsKeyTable, touch-IsKeyTable,
}

module _ (hash_token : Text → Text) {L : Type 0} (check_key : L → ℕ → L × Option ℕ) where
  -- Any operations, in any order, by anyone.
  pub data Steps : KeyTable → KeyTable → Type 0 where
    start : (t : KeyTable) → Steps t t
    creates :
        (now : DateTime) (guild_id : Text) (manager : Result AppError Text) (label encoded : Text)
        (t u : KeyTable)
        → Steps (create hash_token now guild_id manager label encoded t).0 u
        → Steps t u
    revokes :
        (now : DateTime) (guild_id : Text) (key_id : ℕ) (manager : Result AppError Text)
        (t u : KeyTable)
        → Steps (revoke hash_token now guild_id key_id manager t).0 u
        → Steps t u
    authenticates :
        (now : DateTime) (scope : Text) (l : L) (header : Option Text) (t u : KeyTable)
        → Steps (authenticate hash_token check_key now scope l header t).0.1 u
        → Steps t u

  answer-IsKeyTable :
      (now : DateTime) (scope : Text) (t : KeyTable)
      (o : (L × KeyTable) × Result AppError ApiKeyContext)
      → IsAnswer hash_token check_key now scope t o
      → IsKeyTable t
      → IsKeyTable o.0.1
  answer-IsKeyTable now scope t _ (denied l e) i = i
  answer-IsKeyTable now scope t _ (granted l k raw h live) i = touch-IsKeyTable now k.id t i

  -- Whatever is created, revoked and authenticated, by whichever managers and callers: where no
  -- guild had more than ten live keys and the ids were all different, this stays so.
  pub Steps-IsKeyTable : (t u : KeyTable) → Steps t u → IsKeyTable t → IsKeyTable u
  Steps-IsKeyTable _ _ (start t) i = i
  Steps-IsKeyTable _ u (creates now g m label encoded _ _ rest) i =
      Steps-IsKeyTable _ u rest (create-IsKeyTable hash_token now g m label encoded _ i)
  Steps-IsKeyTable _ u (revokes now g id m _ _ rest) i =
      Steps-IsKeyTable _ u rest (revoke-IsKeyTable hash_token now g id m _ i)
  Steps-IsKeyTable _ u (authenticates now scope l header _ _ rest) i = Steps-IsKeyTable _ u rest (
      answer-IsKeyTable now scope _ _
        (authenticate-IsAnswer hash_token check_key now scope _ l header) i)
