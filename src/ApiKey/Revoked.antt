-- ===== src/ApiKey/Revoked.antt =====
-- src/services/api_key.rs and src/routes/api_keys.rs: a revoked key stays revoked.
use kick_channel_role.Prelude.{
  ℕ, ◌≡◌, ◌≢◌, refl, ap, Bool, true, false, Option, some, List, [], ◌∷◌, any, all, is_empty, length,
  ltb, leb, ◌==◌, if◌then◌else◌, Result, ok, err, and-true, arith,
}
use kick_channel_role.Prelude.Text.{Text, text_eq, trim}
use kick_channel_role.Rule.Facts.{DateTime}
use kick_channel_role.AppError.{AppError}
use kick_channel_role.Sync.{find}
use kick_channel_role.ApiKey.{
  ApiKey, KeyTable, ApiKeyContext, Minted, count_live, lookup_key, mint, add_key, insert_key,
  create_checked, create, created, revoke, authenticate, max_label_len, max_active_keys_per_guild,
}
use kick_channel_role.ApiKey.Answers.{IsAnswer, denied, granted, authenticate-IsAnswer}
use kick_channel_role.ApiKey.Limit.{IsKeyTable}
use kick_channel_role.ApiKey.Steps.{Steps, start, creates, revokes, authenticates}
use kick_channel_role.ApiKey.Dead.{
  is_dead, IsRevoked, all-update, touch-IsRevoked, revoke_row-dead, revoke-now,
}

-- The key of a context.
abbrev key_of : Result AppError ApiKeyContext → ℕ
key_of (ok ctx) = ctx.key_id
key_of (err e) = 0

module _ (hash_token : Text → Text) where
  add-IsRevoked :
      (now : DateTime) (g label by : Text) (minted : Minted) (id : ℕ) (t : KeyTable)
      → IsRevoked id t
      → IsRevoked id (add_key hash_token now g label by minted t)
  unfolding add_key
  add-IsRevoked now g label by minted id t r =
      let other : (t.next_id == id) ≡ false = ground (arith, r.used) in
      record { used = omega (arith, r.used); dead = rw other r.dead }

  -- What a creation leaves: a refusal, or one key more.
  data IsAdded (id : ℕ) : Result AppError (KeyTable × ℕ) → Type 0 where
    added : (u : KeyTable) (new : ℕ) → IsRevoked id u → IsAdded id (ok (u, new))
    refused : (e : AppError) → IsAdded id (err e)

  unless-IsAdded :
      (id : ℕ) (b : Bool) (e : AppError) (o : Result AppError (KeyTable × ℕ))
      → IsAdded id o
      → IsAdded id (if b then err e else o)
  unless-IsAdded id true e o h = refused e
  unless-IsAdded id false e o h = h

  checked-IsAdded :
      (now : DateTime) (g label by encoded : Text) (id : ℕ) (t : KeyTable)
      → IsRevoked id t
      → IsAdded id (create_checked hash_token now g label by encoded t)
  unfolding create_checked insert_key
  checked-IsAdded now g label by encoded id t r =
      let minted = mint hash_token encoded in
      unless-IsAdded id (is_empty label) _ _ (
        unless-IsAdded id (ltb max_label_len (length label)) _ _ (
          unless-IsAdded id (leb max_active_keys_per_guild (count_live g t.rows)) _ _ (
            unless-IsAdded id (any (λ (k : ApiKey). text_eq k.token_hash minted.hash) t.rows) _ _ (
              added (add_key hash_token now g label by minted t) t.next_id
                (add-IsRevoked now g label by minted id t r)))))

  created-IsRevoked :
      (id : ℕ) (t : KeyTable) (o : Result AppError (KeyTable × ℕ))
      → IsRevoked id t
      → IsAdded id o
      → IsRevoked id (created hash_token t o).0
  created-IsRevoked id t _ r (added u new h) = h
  created-IsRevoked id t _ r (refused e) = r

  create-IsRevoked :
      (now : DateTime) (g : Text) (manager : Result AppError Text) (label encoded : Text) (id : ℕ)
      (t : KeyTable)
      → IsRevoked id t
      → IsRevoked id (create hash_token now g manager label encoded t).0
  unfolding create
  create-IsRevoked now g (err e) label encoded id t r = r
  create-IsRevoked now g (ok m) label encoded id t r =
      created-IsRevoked id t _ r (checked-IsAdded now g (trim label) m encoded id t r)

  revoke-IsRevoked :
      (now : DateTime) (g : Text) (id' : ℕ) (manager : Result AppError Text) (id : ℕ) (t : KeyTable)
      → IsRevoked id t
      → IsRevoked id (revoke hash_token now g id' manager t).0
  unfolding revoke
  revoke-IsRevoked now g id' (err e) id t r = r
  revoke-IsRevoked now g id' (ok m) id t r = record {
    used = r.used;
    dead = all-update (is_dead id) _ _ t.rows (λ k d. revoke_row-dead now m id k) r.dead;
  }

  found-dead :
      (id : ℕ) (p : ApiKey → Bool) (ks : List ApiKey) (k : ApiKey)
      → find p ks ≡ some k
      → all (is_dead id) ks ≡ true
      → is_dead id k ≡ true
  found-dead id p [] k f d = absurd (cc f)
  found-dead id p (x ∷ ks) k f d =
      let (here, there) = and-true (is_dead id x) (all (is_dead id) ks) d in
      by_row (p x) refl here (λ g. found-dead id p ks k g there)
    where
      by_row :
          (b : Bool)
          → p x ≡ b
          → is_dead id x ≡ true
          → (find p ks ≡ some k → is_dead id k ≡ true)
          → is_dead id k ≡ true
      by_row true e here rest = let same : x ≡ k = cc (rw e at f) in rw same at here
      by_row false e here rest = rest (rw e at f)

  module _ {L : Type 0} (check_key : L → ℕ → L × Option ℕ) where
    answer-IsRevoked :
        (now : DateTime) (scope : Text) (id : ℕ) (t : KeyTable)
        (o : (L × KeyTable) × Result AppError ApiKeyContext)
        → IsAnswer hash_token check_key now scope t o
        → IsRevoked id t
        → IsRevoked id o.0.1
    answer-IsRevoked now scope id t _ (denied l e) r = r
    answer-IsRevoked now scope id t _ (granted l k raw h live) r = touch-IsRevoked now id k.id t r

    answer-other :
        (now : DateTime) (scope : Text) (id : ℕ) (t : KeyTable)
        (o : (L × KeyTable) × Result AppError ApiKeyContext) (ctx : ApiKeyContext)
        → IsAnswer hash_token check_key now scope t o
        → IsRevoked id t
        → o.1 ≡ ok ctx
        → ctx.key_id ≢ id
    unfolding lookup_key
    answer-other now scope id t _ ctx (denied l e) r h = absurd (cc h)
    answer-other now scope id t _ ctx (granted l k raw h live) r e = λ same.
        let own : k.id ≡ ctx.key_id = ap key_of e in
        let dead = found-dead id _ t.rows k h r.dead in
        absurd (ground (arith, own, same, dead, live))

    Steps-IsRevoked :
        (id : ℕ) (t u : KeyTable) → Steps hash_token check_key t u → IsRevoked id t → IsRevoked id u
    Steps-IsRevoked id _ _ (start t) r = r
    Steps-IsRevoked id _ u (creates now g m label encoded _ _ rest) r =
        Steps-IsRevoked id _ u rest (create-IsRevoked now g m label encoded id _ r)
    Steps-IsRevoked id _ u (revokes now g id' m _ _ rest) r =
        Steps-IsRevoked id _ u rest (revoke-IsRevoked now g id' m id _ r)
    Steps-IsRevoked id _ u (authenticates now scope l header _ _ rest) r =
        Steps-IsRevoked id _ u rest (
          answer-IsRevoked now scope id _ _
            (authenticate-IsAnswer hash_token check_key now scope _ l header) r)

    -- Once a key was revoked, and whatever operations come after it, no request is authenticated as
    -- that key, whichever token it carries.
    pub revoke-authenticate :
        (now : DateTime) (guild_id : Text) (key_id : ℕ) (manager : Result AppError Text)
        (t u : KeyTable)
        → IsKeyTable t
        → (revoke hash_token now guild_id key_id manager t).1 ≡ ok tt
        → Steps hash_token check_key (revoke hash_token now guild_id key_id manager t).0 u
        → (later : DateTime) (scope : Text) (l : L) (header : Option Text) (ctx : ApiKeyContext)
        → (authenticate hash_token check_key later scope l header u).1 ≡ ok ctx
        → ctx.key_id ≢ key_id
    revoke-authenticate now guild_id key_id manager t u i done steps later scope l header ctx e =
        answer-other later scope key_id u _ ctx
          (authenticate-IsAnswer hash_token check_key later scope u l header)
          (Steps-IsRevoked key_id _ u steps
            (revoke-now hash_token now guild_id key_id manager t i done))
          e
