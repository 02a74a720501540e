-- ===== src/Identity.antt =====
-- src/routes/webhooks.rs: the names of channels and viewers, kept current from every event. `lower`
-- is Postgres' function, and `show` the text of an integer.
use kick_channel_role.Prelude.{
  ℕ, Bool, true, false, not, ◌&&◌, ◌||◌, Option, none, some, List, [], ◌∷◌, ◌++◌, any, all,
  is_empty, length, leb, ◌==◌, if◌then◌else◌, Result, ok, err, update_rows, and_then, unwrap_or,
}
use kick_channel_role.Prelude.Int.{ℤ, pos, eqb_ℤ, ltb_ℤ}
use kick_channel_role.Prelude.Text.{Text, codes, text_eq}
use kick_channel_role.Json.{Value, get, as_i64, as_str}
use kick_channel_role.Rule.Facts.{DateTime}
use kick_channel_role.Relation.{KickUser}
use kick_channel_role.Database.{
  Broadcaster, Tables, World, DbError, unique_violation, Sql, sql, run, ◌>>◌, best_effort,
  when_some, for_each, statement, if_allowed,
}

-- `is_kick_identifier` of src/services/kick.rs, on a byte that is one character.
unfoldable pub is_identifier_char : ℕ → Bool
is_identifier_char c =
    (leb 48 c && leb c 57)
    || (leb 65 c && leb c 90)
    || (leb 97 c && leb c 122)
    || c == 95
    || c == 45
    || c == 46

unfoldable pub is_kick_identifier : Text → Bool
is_kick_identifier s = not (is_empty s) && leb (length s) 64 && all is_identifier_char s

abbrev pub keep_if {ℓ} : {A : Type ℓ} → (A → Bool) → A → Option A
keep_if p a = if p a then some a else none

-- `payload.<obj>.user_id`.
unfoldable pub user_id_of : Value → Text → Option ℤ
user_id_of p obj = and_then (and_then (get obj p) (get (codes "user_id"))) as_i64

-- `payload.<obj>.<key>`, fit to be stored.
unfoldable pub identifier_of : Value → Text → Text → Option Text
identifier_of p obj key =
    and_then (and_then (and_then (get obj p) (get key)) as_str) (keep_if is_kick_identifier)

-- `IS DISTINCT FROM`, on a text that may be NULL where it is a parameter.
abbrev pub is_other_name : Option Text → Text → Bool
is_other_name none name = false
is_other_name (some new) name = not (text_eq name new)

unfoldable pub rename_user : ℤ → Text → Sql (Unit {0})
rename_user uid username = statement (λ t. ok (
  record t {
    kick_users =
        update_rows
          (λ (u : KickUser). eqb_ℤ u.kick_user_id uid && not (text_eq u.kick_username username))
          (λ u. record u { kick_username = username }) t.kick_users;
  },
  tt,
))

abbrev pub actors : List Text
actors = codes "sender" ∷ codes "follower" ∷ codes "subscriber" ∷ codes "gifter" ∷ []

unfoldable pub note_actor : Value → Text → Sql (Unit {0})
unfolding rename_user
note_actor p actor =
    when_some (and_then (user_id_of p actor) (keep_if (λ id. ltb_ℤ (pos 0) id))) (λ uid.
      when_some (identifier_of p actor (codes "username"))
        (λ username. best_effort (rename_user uid username)))

module _ (lower : Text → Text) (show : ℤ → Text) where
  -- The unique index on the slugs.
  unfoldable pub slugs_unique : List Broadcaster → Bool
  slugs_unique [] = true
  slugs_unique (b ∷ bs) =
      not (any (λ (c : Broadcaster). text_eq (lower c.kick_slug) (lower b.kick_slug)) bs)
      && slugs_unique bs

  -- An UPDATE of `broadcasters`.
  unfoldable pub update_broadcasters :
      (Broadcaster → Bool)
      → (Broadcaster → Broadcaster)
      → Tables
      → Result DbError (Tables × Unit {0})
  unfolding slugs_unique
  update_broadcasters p f t =
      let rows = update_rows p f t.broadcasters in
      if_allowed (slugs_unique rows) unique_violation (record t { broadcasters = rows }, tt)

  -- `write` of `store_channel_name`: only where a name changes.
  unfoldable pub names_change : ℤ → Text → Option Text → Broadcaster → Bool
  names_change cid slug display_name b =
      eqb_ℤ b.kick_channel_id cid
      && (not (text_eq b.kick_slug slug) || is_other_name display_name b.display_name)

  unfoldable pub write_names : DateTime → ℤ → Text → Option Text → Sql (Unit {0})
  write_names now cid slug display_name = statement (
      update_broadcasters (names_change cid slug display_name) (λ b. record b {
        kick_slug = slug;
        display_name = unwrap_or display_name b.display_name;
        updated_at = now;
      }))

  unfoldable pub placeholder : Broadcaster → Text
  placeholder b = codes "~renamed-" ++ show b.kick_channel_id

  -- The channel that still holds the slug is parked on a placeholder.
  unfoldable pub park_others : ℤ → Text → Sql (Unit {0})
  park_others cid slug = statement (
      update_broadcasters
        (λ b. text_eq (lower b.kick_slug) (lower slug) && not (eqb_ℤ b.kick_channel_id cid))
        (λ b. record b { kick_slug = placeholder b }))

  -- After the first write: on a broken index, park and write again.
  unfoldable pub on_violation :
      DateTime
      → ℤ
      → Text
      → Option Text
      → World × Result DbError (Unit {0})
      → World × Result DbError (Unit {0})
  unfolding park_others write_names
  on_violation now cid slug display_name (w, err unique_violation) =
      run (park_others cid slug >> write_names now cid slug display_name) w
  on_violation now cid slug display_name (w, r) = (w, r)

  unfoldable pub store_channel_name : DateTime → ℤ → Text → Option Text → Sql (Unit {0})
  unfolding on_violation write_names
  store_channel_name now cid slug display_name =
      sql (λ w.
        on_violation now cid slug display_name (run (write_names now cid slug display_name) w))

  unfoldable pub note_identities : DateTime → ℤ → Value → Sql (Unit {0})
  unfolding note_actor store_channel_name
  note_identities now cid p =
      when_some (identifier_of p (codes "broadcaster") (codes "channel_slug")) (λ slug.
        best_effort (
          store_channel_name now cid slug
            (identifier_of p (codes "broadcaster") (codes "username"))))
      >> for_each actors (note_actor p)
