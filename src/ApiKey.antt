-- ===== src/ApiKey.antt =====
-- src/services/api_key.rs and src/routes/api_keys.rs: the keys of the machine API. The hash of a
-- token, the base64 text of random bytes, the limiter of requests, and the check of the manager
-- (its origin, its session and its right to write) are arguments.
pub mod Answers
pub mod Limit
pub mod Steps
pub mod Dead
pub mod Revoked
use kick_channel_role.Prelude.{
  ℕ, zero, suc, ◌+◌, ◌*◌, Bool, true, false, not, ◌&&◌, ◌||◌, Option, none, some, List, [], ◌∷◌,
  ◌++◌, any, length, is_empty, leb, ltb, ◌==◌, max, if◌then◌else◌, Result, ok, err, ok_or, and_then,
  update_rows,
}
use kick_channel_role.Prelude.Int.{ℤ, pos, ◌-ℤ◌, ltb_ℤ}
use kick_channel_role.Prelude.Text.{Text, codes, text_eq, trim, starts_with}
use kick_channel_role.Rule.Facts.{DateTime}
use kick_channel_role.Identity.{keep_if}
use kick_channel_role.Sync.{find, take}
use kick_channel_role.AppError.{
  AppError, unauthorized_with, forbidden, not_found, rate_limited, bad_request, database,
}

-- `guild_api_keys` (migration 012), the newest row first.
pub record ApiKey : Type 0 where
  pub id : ℕ
  pub guild_id : Text
  pub token_hash : Text
  pub prefix : Text
  pub label : Text
  pub scopes : List Text
  pub created_by : Text
  pub created_at : DateTime
  pub last_used_at : Option DateTime
  pub revoked_at : Option DateTime
  pub revoked_by : Option Text

pub record KeyTable : Type 0 where
  pub rows : List ApiKey
  pub next_id : ℕ

pub record ApiKeyContext : Type 0 where
  pub key_id : ℕ
  pub guild_id : Text
  pub label : Text
  pub scopes : List Text

pub record Minted : Type 0 where
  pub raw : Text
  pub hash : Text
  pub prefix : Text

abbrev pub token_prefix : Text
token_prefix = codes "kck_"

abbrev pub scope_users_read : Text
scope_users_read = codes "users:read"

abbrev pub max_active_keys_per_guild : ℕ
max_active_keys_per_guild = 10

abbrev pub max_label_len : ℕ
max_label_len = 60

abbrev pub is_none {ℓ} : {A : Type ℓ} → Option A → Bool
is_none none = true
is_none (some a) = false

-- `str::strip_prefix`.
unfoldable pub strip_prefix : Text → Text → Option Text
strip_prefix [] s = some s
strip_prefix (x ∷ p) [] = none
strip_prefix (x ∷ p) (y ∷ s) = let rest = strip_prefix p s in if x == y then rest else none

-- From the header, if it is there and can be read.
unfoldable pub extract_bearer : Option Text → Option Text
unfolding strip_prefix
extract_bearer header =
    and_then (and_then header (strip_prefix (codes "Bearer ")))
      (λ s. keep_if (λ t. not (is_empty t)) (trim s))

unfoldable pub has_scope : ApiKeyContext → Text → Bool
has_scope ctx scope = any (λ s. text_eq s scope) ctx.scopes

-- More than a minute ago, or never.
unfoldable pub is_stale : DateTime → Option DateTime → Bool
is_stale now none = true
is_stale now (some t) = ltb_ℤ t (now -ℤ pos (60 * 1000000))

unfoldable pub touch_last_used : DateTime → ℕ → KeyTable → KeyTable
unfolding is_stale
touch_last_used now key_id t = record t {
  rows =
      update_rows (λ (k : ApiKey). k.id == key_id && is_stale now k.last_used_at)
        (λ k. record k { last_used_at = some now }) t.rows;
}

abbrev pub missing : Text
missing =
    codes
      "Missing API key. Send `Authorization: Bearer kck_…` — mint one from the plugin's role settings in the RoleLogic dashboard."

abbrev pub rejected : Text
rejected = codes "Invalid or revoked API key."

-- What is true of a live key of a guild.
unfoldable pub is_live : Text → ApiKey → Bool
is_live guild_id k = text_eq k.guild_id guild_id && is_none k.revoked_at

unfoldable pub count_live : Text → List ApiKey → ℕ
count_live guild_id [] = 0
count_live guild_id (k ∷ ks) =
    let rest = count_live guild_id ks in if is_live guild_id k then suc rest else rest

unfoldable pub revoke_row : DateTime → Text → ApiKey → ApiKey
revoke_row now by k = record k { revoked_at = some now; revoked_by = some by }

module _ (hash_token : Text → Text) where
  unfoldable pub lookup_key : Text → KeyTable → Option ApiKey
  lookup_key hash t = find (λ (k : ApiKey). text_eq k.token_hash hash) t.rows

  -- `encoded` is the base64 text of 32 random bytes.
  unfoldable pub mint : Text → Minted
  mint encoded =
      let raw = token_prefix ++ encoded in
      record { raw = raw; hash = hash_token raw; prefix = take 12 raw }

  unfoldable pub add_key : DateTime → Text → Text → Text → Minted → KeyTable → KeyTable
  add_key now guild_id label created_by minted t = record {
    rows =
        record {
          id = t.next_id;
          guild_id = guild_id;
          token_hash = minted.hash;
          prefix = minted.prefix;
          label = label;
          scopes = scope_users_read ∷ [];
          created_by = created_by;
          created_at = now;
          last_used_at = none;
          revoked_at = none;
          revoked_by = none;
        }
        ∷ t.rows;
    next_id = suc t.next_id;
  }

  -- The INSERT, which fails where the hash is there already.
  unfoldable pub insert_key :
      DateTime → Text → Text → Text → Minted → KeyTable → Result AppError (KeyTable × ℕ)
  unfolding add_key
  insert_key now guild_id label created_by minted t =
      if any (λ (k : ApiKey). text_eq k.token_hash minted.hash) t.rows
      then err (database (codes "duplicate key value"))
      else ok (add_key now guild_id label created_by minted t, t.next_id)

  unfoldable pub create_checked :
      DateTime → Text → Text → Text → Text → KeyTable → Result AppError (KeyTable × ℕ)
  unfolding insert_key mint
  create_checked now guild_id label created_by encoded t =
      if is_empty label
      then err (bad_request (codes "Give the key a label so you can tell your integrations apart."))
      else if ltb max_label_len (length label)
      then err (bad_request (codes "Label is too long (max 60 characters)."))
      else if leb max_active_keys_per_guild (count_live guild_id t.rows)
      then err (
          bad_request (
            codes
              "This server already has 10 active API keys. Revoke one before creating another."))
      else insert_key now guild_id label created_by (mint encoded) t

  abbrev pub created : KeyTable → Result AppError (KeyTable × ℕ) → KeyTable × Result AppError ℕ
  created t (ok (u, id)) = (u, ok id)
  created t (err e) = (t, err e)

  -- Each operation leaves the table and an answer. `manager` is what the checks of the caller give.
  unfoldable pub create :
      DateTime → Text → Result AppError Text → Text → Text → KeyTable → KeyTable × Result AppError ℕ
  unfolding create_checked
  create now guild_id (err e) label encoded t = (t, err e)
  create now guild_id (ok created_by) label encoded t =
      created t (create_checked now guild_id (trim label) created_by encoded t)

  unfoldable pub is_revocable : Text → ℕ → ApiKey → Bool
  is_revocable guild_id key_id k = k.id == key_id && is_live guild_id k

  unfoldable pub revoke :
      DateTime → Text → ℕ → Result AppError Text → KeyTable → KeyTable × Result AppError (Unit {0})
  unfolding is_revocable revoke_row
  revoke now guild_id key_id (err e) t = (t, err e)
  revoke now guild_id key_id (ok revoked_by) t = (
    record t {
      rows = update_rows (is_revocable guild_id key_id) (revoke_row now revoked_by) t.rows;
    },
    if any (is_revocable guild_id key_id) t.rows
        then ok tt
        else err (not_found (codes "No such active API key for this server.")),
  )

  module _ {L : Type 0} (check_key : L → ℕ → L × Option ℕ) where
    -- With the key that was found, and what the limiter answers: none, or seconds to wait.
    unfoldable pub after_limit :
        DateTime
        → Text
        → ApiKey
        → L × Option ℕ
        → KeyTable
        → (L × KeyTable) × Result AppError ApiKeyContext
    unfolding touch_last_used has_scope
    after_limit now required_scope k (l, some wait) t = ((l, t), err (rate_limited (max wait 1)))
    after_limit now required_scope k (l, none) t =
        let ctx : ApiKeyContext = record {
          key_id = k.id;
          guild_id = k.guild_id;
          label = k.label;
          scopes = k.scopes;
        } in
        if has_scope ctx required_scope then ((l, touch_last_used now k.id t), ok ctx) else (
          (l, t),
          err (
              forbidden
                (codes "This API key does not carry the `" ++ required_scope ++ codes "` scope.")),
        )

    unfoldable pub after_lookup :
        DateTime
        → Text
        → L
        → Option ApiKey
        → KeyTable
        → (L × KeyTable) × Result AppError ApiKeyContext
    unfolding after_limit
    after_lookup now required_scope l none t = ((l, t), err (unauthorized_with rejected))
    after_lookup now required_scope l (some k) t =
        if is_none k.revoked_at
        then after_limit now required_scope k (check_key l k.id) t
        else ((l, t), err (unauthorized_with rejected))

    unfoldable pub with_token :
        DateTime
        → Text
        → L
        → Option Text
        → KeyTable
        → (L × KeyTable) × Result AppError ApiKeyContext
    unfolding after_lookup lookup_key
    with_token now required_scope l none t = ((l, t), err (unauthorized_with missing))
    with_token now required_scope l (some raw) t =
        if starts_with token_prefix raw
        then after_lookup now required_scope l (lookup_key (hash_token raw) t) t
        else ((l, t), err (unauthorized_with rejected))

    unfoldable pub authenticate :
        DateTime
        → Text
        → L
        → Option Text
        → KeyTable
        → (L × KeyTable) × Result AppError ApiKeyContext
    unfolding with_token extract_bearer
    authenticate now required_scope l header t =
        with_token now required_scope l (extract_bearer header) t
