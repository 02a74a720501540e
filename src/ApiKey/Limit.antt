-- ===== src/ApiKey/Limit.antt =====
-- src/routes/api_keys.rs: the cap on a guild's live keys, along any operations on the table.
use kick_channel_role.Prelude.{
  ℕ, suc, ◌≤◌, ◌<◌, ◌≡◌, refl, Bool, true, false, ◌&&◌, List, [], ◌∷◌, any, length, is_empty, leb,
  ltb, leb→gt, if◌then◌else◌, Result, ok, err, update_rows, arith,
}
use kick_channel_role.Prelude.Text.{Text, text_eq, text_eq_sound, trim}
use kick_channel_role.Rule.Facts.{DateTime}
use kick_channel_role.AppError.{AppError}
use kick_channel_role.ApiKey.{
  ApiKey, KeyTable, Minted, add_key, max_active_keys_per_guild, max_label_len, is_live, count_live,
  touch_last_used, mint, insert_key, create_checked, create, created, revoke_row, revoke,
}

-- The ids of the rows, below a bound and below each other.
abbrev pub AreBelow : ℕ → List ApiKey → Type 0
AreBelow n [] = Unit
AreBelow n (k ∷ ks) = (k.id < n) × AreBelow k.id ks

pub record IsKeyTable (t : KeyTable) : Type 0 where
  pub below : AreBelow t.next_id t.rows
  pub capped : (guild_id : Text) → count_live guild_id t.rows ≤ max_active_keys_per_guild

AreBelow-update :
    (p : ApiKey → Bool) (f : ApiKey → ApiKey) (n : ℕ) (ks : List ApiKey)
    → ((k : ApiKey) → (f k).id ≡ k.id)
    → AreBelow n ks
    → AreBelow n (update_rows p f ks)
AreBelow-update p f n [] same h = tt
AreBelow-update p f n (k ∷ ks) same h = by_case (p k) (AreBelow-update p f k.id ks same h.1)
  where
    by_case :
        (b : Bool)
        → AreBelow k.id (update_rows p f ks)
        → AreBelow n ((if b then f k else k) ∷ update_rows p f ks)
    by_case true r = rw (same k) (h.0, r)
    by_case false r = (h.0, r)

count_live-update :
    (p : ApiKey → Bool) (f : ApiKey → ApiKey) (g : Text) (ks : List ApiKey)
    → ((k : ApiKey) → is_live g (f k) ≡ true → is_live g k ≡ true)
    → count_live g (update_rows p f ks) ≤ count_live g ks
unfolding count_live
count_live-update p f g [] h = omega arith
count_live-update p f g (k ∷ ks) h = by_case (p k) (count_live-update p f g ks h)
  where
    by_case :
        (b : Bool)
        → count_live g (update_rows p f ks) ≤ count_live g ks
        → count_live g ((if b then f k else k) ∷ update_rows p f ks) ≤ count_live g (k ∷ ks)
    by_case true r = ground (arith, r, h k)
    by_case false r = ground (arith, r)

-- An UPDATE that keeps ids and makes no key live.
IsKeyTable-update :
    (p : ApiKey → Bool) (f : ApiKey → ApiKey) (t : KeyTable)
    → ((k : ApiKey) → (f k).id ≡ k.id)
    → ((g : Text) (k : ApiKey) → is_live g (f k) ≡ true → is_live g k ≡ true)
    → IsKeyTable t
    → IsKeyTable (record t { rows = update_rows p f t.rows })
IsKeyTable-update p f t same h i = record {
  below = AreBelow-update p f t.next_id t.rows same i.below;
  capped = λ g. omega (arith, count_live-update p f g t.rows (h g), i.capped g);
}

pub touch-IsKeyTable :
    (now : DateTime) (id : ℕ) (t : KeyTable) → IsKeyTable t → IsKeyTable (touch_last_used now id t)
unfolding touch_last_used is_live
touch-IsKeyTable now id t i = IsKeyTable-update _ _ t (λ k. refl) (λ g k e. e) i

module _ (hash_token : Text → Text) where
  pub revoke-IsKeyTable :
      (now : DateTime) (g : Text) (id : ℕ) (manager : Result AppError Text) (t : KeyTable)
      → IsKeyTable t
      → IsKeyTable (revoke hash_token now g id manager t).0
  unfolding revoke revoke_row is_live
  revoke-IsKeyTable now g id (err e) t i = i
  revoke-IsKeyTable now g id (ok m) t i =
      IsKeyTable-update _ _ t (λ k. refl) (λ g' k e. ground (arith, e)) i

  data IsGood : Result AppError (KeyTable × ℕ) → Type 0 where
    made : (u : KeyTable) (id : ℕ) → IsKeyTable u → IsGood (ok (u, id))
    refused : (e : AppError) → IsGood (err e)

  unless-IsGood :
      (b : Bool) (e : AppError) (r : Result AppError (KeyTable × ℕ))
      → (b ≡ false → IsGood r)
      → IsGood (if b then err e else r)
  unless-IsGood true e r h = refused e
  unless-IsGood false e r h = h refl

  -- A new key where its guild has room for it.
  add-IsKeyTable :
      (now : DateTime) (g label by : Text) (minted : Minted) (t : KeyTable)
      → count_live g t.rows < max_active_keys_per_guild
      → IsKeyTable t
      → IsKeyTable (add_key hash_token now g label by minted t)
  unfolding add_key count_live is_live
  add-IsKeyTable now g label by minted t room i = record {
    below = (omega arith, i.below);
    capped = λ other. by_guild other (text_eq g other) refl;
  }
    where
      by_guild :
          (other : Text) (b : Bool)
          → text_eq g other ≡ b
          → (if b && true then suc (count_live other t.rows) else count_live other t.rows)
            ≤ max_active_keys_per_guild
      by_guild other true e =
          let same : g ≡ other = text_eq_sound g other e in
          let spare : count_live other t.rows < max_active_keys_per_guild = rw same at room in
          omega (arith, spare)
      by_guild other false e = i.capped other

  insert-IsGood :
      (now : DateTime) (g label by : Text) (minted : Minted) (t : KeyTable)
      → count_live g t.rows < max_active_keys_per_guild
      → IsKeyTable t
      → IsGood (insert_key hash_token now g label by minted t)
  unfolding insert_key
  insert-IsGood now g label by minted t room i =
      unless-IsGood (any (λ (k : ApiKey). text_eq k.token_hash minted.hash) t.rows) _
        (ok (add_key hash_token now g label by minted t, t.next_id))
        (λ e. made _ _ (add-IsKeyTable now g label by minted t room i))

  create_checked-IsGood :
      (now : DateTime) (g label by encoded : Text) (t : KeyTable)
      → IsKeyTable t
      → IsGood (create_checked hash_token now g label by encoded t)
  unfolding create_checked
  create_checked-IsGood now g label by encoded t i = unless-IsGood (is_empty label) _ _ (λ _.
      unless-IsGood (ltb max_label_len (length label)) _ _ (λ _.
        unless-IsGood (leb max_active_keys_per_guild (count_live g t.rows)) _ _
          (λ full. insert-IsGood now g label by (mint hash_token encoded) t (leb→gt _ _ full) i)))

  pub create-IsKeyTable :
      (now : DateTime) (g : Text) (manager : Result AppError Text) (label encoded : Text)
      (t : KeyTable)
      → IsKeyTable t
      → IsKeyTable (create hash_token now g manager label encoded t).0
  unfolding create
  create-IsKeyTable now g (err e) label encoded t i = i
  create-IsKeyTable now g (ok m) label encoded t i =
      kept (create_checked hash_token now g (trim label) m encoded t)
        (create_checked-IsGood now g (trim label) m encoded t i)
    where
      kept : (o : Result AppError (KeyTable × ℕ)) → IsGood o → IsKeyTable (created hash_token t o).0
      kept _ (made u id h) = h
      kept _ (refused e) = i
