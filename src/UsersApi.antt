-- ===== src/UsersApi.antt =====
-- src/routes/api_v1.rs: the pages of `/api/v1/users`. The order of texts and the reader of RFC 3339
-- dates are arguments; the members of the guild are the gateway's answer.
pub mod Order
pub mod Pages
use kick_channel_role.Prelude.{
  ℕ, zero, suc, ◌+◌, Bool, true, false, not, ◌&&◌, ◌||◌, Option, none, some, List, [], ◌∷◌, ◌++◌,
  map, any, length, ltb, if◌then◌else◌, Result, ok, err, ◌>>=◌, unwrap_or, min, max,
}
use kick_channel_role.Prelude.Int.{ℤ, pos, negsuc, ◌+ℤ◌, eqb_ℤ, leb_ℤ, max_ℤ}
use kick_channel_role.Prelude.Text.{Text, codes, text_eq, match_str}
use kick_channel_role.Rule.Facts.{DateTime}
use kick_channel_role.Relation.{Relation, KickUser}
use kick_channel_role.Validator.{filter}
use kick_channel_role.Sync.{take}
use kick_channel_role.Database.{in_i32}
use kick_channel_role.AppError.{AppError, bad_request, database}

-- A row of `kick_users`, with the columns that only this API reads.
pub record Linked : Type 0 where
  pub user : KickUser
  pub discord_name : Option Text
  pub linked_at : DateTime
  pub refreshed_at : DateTime

pub record Directory : Type 0 where
  pub kick_users : List Linked
  pub guild_broadcasters : List (Text × ℤ)
  pub relations : List Relation

pub record UserRow : Type 0 where
  pub discord_id : Text
  pub discord_name : Option Text
  pub kick_username : Text
  pub kick_user_id : ℤ
  pub is_follower : Bool
  pub is_subscriber : Bool
  pub is_vip : Bool
  pub is_og : Bool
  pub is_moderator : Bool
  pub sub_months_cumulative : ℤ
  pub sub_streak_months : ℤ
  pub gifted_subs_given : ℤ
  pub followed_at : Option DateTime
  pub last_seen_at : Option DateTime
  pub linked_at : DateTime
  pub updated_at : DateTime

-- Aggregates; NULLs do not count.
abbrev pub best : (ℤ → ℤ → ℤ) → Option ℤ → Option ℤ → Option ℤ
best f none b = b
best f (some a) none = some a
best f (some a) (some b) = some (f a b)

abbrev pub aggregate : (ℤ → ℤ → ℤ) → (Relation → Option ℤ) → List Relation → Option ℤ
aggregate f column [] = none
aggregate f column (r ∷ rs) = best f (column r) (aggregate f column rs)

abbrev pub min_ℤ : ℤ → ℤ → ℤ
min_ℤ a b = if leb_ℤ a b then a else b

abbrev pub sum_of : List Relation → ℤ
sum_of [] = pos 0
sum_of (r ∷ rs) = r.gifted_subs_given +ℤ sum_of rs

abbrev pub default_limit : ℤ
default_limit = pos 100

-- `clamp(1, MAX_LIMIT)`.
unfoldable pub clamp_limit : ℤ → ℕ
clamp_limit (pos n) = max 1 (min n 500)
clamp_limit (negsuc n) = 1

abbrev pub relation_arms : List (Text × (Relation → Bool))
relation_arms =
    (codes "follower", λ (r : Relation). r.is_follower)
    ∷ (codes "subscriber", λ r. r.is_subscriber)
    ∷ (codes "vip", λ r. r.is_vip)
    ∷ (codes "og", λ r. r.is_og)
    ∷ (codes "moderator", λ r. r.is_moderator)
    ∷ []

-- The column of a `relation` filter.
unfoldable pub parse_relation : Option Text → Result AppError (Option (Relation → Bool))
parse_relation none = ok none
parse_relation (some s) = elim (match_str s relation_arms) [
  | none ↦ err (
      bad_request (
        codes "Unknown `relation` filter `"
        ++ s
        ++ codes "` (expected follower, subscriber, vip, og, or moderator)."))
  | some column ↦ ok (some column)
]

unfoldable pub parse_updated_since :
    (Text → Option DateTime) → Option Text → Result AppError (Option DateTime)
parse_updated_since parse_rfc3339 none = ok none
parse_updated_since parse_rfc3339 (some s) = elim (parse_rfc3339 s) [
  | none ↦ err (
      bad_request (
        codes "`updated_since` must be an RFC 3339 timestamp (e.g. 2026-07-27T00:00:00Z); got `"
        ++ s
        ++ codes "`."))
  | some t ↦ ok (some t)
]

-- `$n IS NULL OR …`.
abbrev pub if_given {ℓ} : {A : Type ℓ} → Option A → (A → Bool) → Bool
if_given none test = true
if_given (some a) test = test a

pub record UserFilter : Type 0 where
  pub updated_since : Option DateTime
  pub relation : Option (Relation → Bool)
  pub only_discord_id : Option Text

module _ (collate : Text → Text → Bool) where
  unfoldable pub insert_linked : Linked → List Linked → List Linked
  insert_linked m [] = m ∷ []
  insert_linked m (n ∷ ns) =
      let later = insert_linked m ns in
      if collate m.user.discord_id n.user.discord_id then m ∷ n ∷ ns else n ∷ later

  -- `ORDER BY ku.discord_id`.
  unfoldable pub order_linked : List Linked → List Linked
  unfolding insert_linked
  order_linked [] = []
  order_linked (m ∷ ms) = insert_linked m (order_linked ms)

  -- `ku.discord_id > $3`.
  unfoldable pub is_after : Option Text → Linked → Bool
  is_after cursor m = if_given cursor (λ c. not (collate m.user.discord_id c))

  module _ (dir : Directory) (guild_id : Text) where
    unfoldable pub relations_of : Linked → List Relation
    relations_of m =
        filter
          (λ (r : Relation).
            eqb_ℤ r.kick_user_id m.user.kick_user_id
            && any (λ (g : Text × ℤ). text_eq g.0 guild_id && eqb_ℤ g.1 r.kick_channel_id)
                dir.guild_broadcasters)
          dir.relations

    unfoldable pub updated_at_of : Linked → DateTime
    unfolding relations_of
    updated_at_of m =
        max_ℤ m.refreshed_at
          (unwrap_or (aggregate max_ℤ (λ r. some r.last_synced_at) (relations_of m)) m.refreshed_at)

    unfoldable pub user_row : Linked → UserRow
    unfolding relations_of updated_at_of
    user_row m = record {
      discord_id = m.user.discord_id;
      discord_name = m.discord_name;
      kick_username = m.user.kick_username;
      kick_user_id = m.user.kick_user_id;
      is_follower = any (λ (r : Relation). r.is_follower) (relations_of m);
      is_subscriber = any (λ (r : Relation). r.is_subscriber) (relations_of m);
      is_vip = any (λ (r : Relation). r.is_vip) (relations_of m);
      is_og = any (λ (r : Relation). r.is_og) (relations_of m);
      is_moderator = any (λ (r : Relation). r.is_moderator) (relations_of m);
      sub_months_cumulative =
          unwrap_or (aggregate max_ℤ (λ r. some r.sub_months_cumulative) (relations_of m)) (pos 0);
      sub_streak_months =
          unwrap_or (aggregate max_ℤ (λ r. some r.sub_streak_months) (relations_of m)) (pos 0);
      gifted_subs_given = sum_of (relations_of m);
      followed_at = aggregate min_ℤ (λ r. r.followed_at) (relations_of m);
      last_seen_at = aggregate max_ℤ (λ r. r.last_seen_at) (relations_of m);
      linked_at = m.linked_at;
      updated_at = updated_at_of m;
    }

    -- The sum of an INTEGER column that is cast back to one.
    unfoldable pub overflows : Linked → Bool
    overflows m = not (in_i32 (sum_of (relations_of m)))

    -- WHERE and HAVING, but for the cursor.
    unfoldable pub is_chosen : List Text → UserFilter → Linked → Bool
    is_chosen member_ids f m =
        any (λ id. text_eq id m.user.discord_id) member_ids
        && if_given f.only_discord_id (λ id. text_eq m.user.discord_id id)
        && if_given f.updated_since (λ t. leb_ℤ t (updated_at_of m))
        && if_given f.relation (λ column. any column (relations_of m))

    unfoldable pub chosen : List Text → UserFilter → Option Text → List Linked
    unfolding order_linked is_after is_chosen
    chosen member_ids f cursor =
        order_linked (filter (λ m. is_chosen member_ids f m && is_after cursor m) dir.kick_users)

    unfoldable pub fetch_users :
        List Text → UserFilter → Option Text → ℕ → Result AppError (List UserRow)
    unfolding chosen user_row overflows
    fetch_users member_ids f cursor limit =
        if any overflows (chosen member_ids f cursor)
        then err (database (codes "integer out of range"))
        else ok (map user_row (take limit (chosen member_ids f cursor)))

abbrev pub last_id : List UserRow → Option Text
last_id [] = none
last_id (r ∷ []) = some r.discord_id
last_id (r ∷ s ∷ rs) = last_id (s ∷ rs)

pub record Page : Type 0 where
  pub users : List UserRow
  pub has_more : Bool
  pub next_cursor : Option Text

-- One row too many tells that there is another page.
unfoldable pub page_of : ℕ → List UserRow → Page
page_of limit rows =
    if ltb limit (length rows)
    then record {
      users = take limit rows;
      has_more = true;
      next_cursor = last_id (take limit rows);
    }
    else record { users = rows; has_more = false; next_cursor = none }

pub record ListQuery : Type 0 where
  pub limit : Option ℤ
  pub cursor : Option Text
  pub updated_since : Option Text
  pub relation : Option Text

-- The listing, for a guild whose members the gateway gave.
unfoldable pub list_users :
    (Text → Text → Bool)
    → (Text → Option DateTime)
    → Directory
    → Text
    → List Text
    → ListQuery
    → Result AppError Page
unfolding fetch_users page_of clamp_limit parse_relation parse_updated_since
list_users collate parse_rfc3339 dir guild_id member_ids q = do
  updated_since ← parse_updated_since parse_rfc3339 q.updated_since
  relation ← parse_relation q.relation
  rows ←
      fetch_users collate dir guild_id member_ids
        (record { updated_since = updated_since; relation = relation; only_discord_id = none })
        q.cursor (suc (clamp_limit (unwrap_or q.limit default_limit)))
  ok (page_of (clamp_limit (unwrap_or q.limit default_limit)) rows)
