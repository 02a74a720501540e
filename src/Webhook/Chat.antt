-- ===== src/Webhook/Chat.antt =====
-- src/routes/webhooks.rs, the arm `chat.message.sent` of `apply_event`: the activity counters, and
-- the facts that a sender's badges show.
use kick_channel_role.Prelude.{
  ℕ, ◌*◌, Bool, true, false, not, ◌&&◌, ◌||◌, Option, none, some, List, [], ◌∷◌, ◌++◌, any,
  if◌then◌else◌, Result, update_rows, and_then, unwrap_or, all,
}
use kick_channel_role.Prelude.Int.{ℤ, pos, ◌+ℤ◌, eqb_ℤ, ltb_ℤ, max_ℤ}
use kick_channel_role.Prelude.Text.{Text, codes, text_eq}
use kick_channel_role.Json.{Value, get, as_i64, as_str, as_array}
use kick_channel_role.Rule.Facts.{DateTime}
use kick_channel_role.Relation.{Relation}
use kick_channel_role.Eval.{day_micros, bool_eq}
use kick_channel_role.Sync.{find}
use kick_channel_role.Database.{
  ChatDay, Tables, DbError, out_of_range, Sql, return, ◌>>=◌, ◌>>◌, when, statement, in_i32,
  if_allowed,
}
use kick_channel_role.Webhook.{
  get_in, filter_map, first_of, ensure_relation, update_where_row, update_row,
  enqueue_for_kick_user,
}

-- A badge, and the number it carries.
pub record Badge : Type 0 where
  pub type : Text
  pub count : Option ℤ

unfoldable pub badge_of : Value → Option Badge
badge_of b =
    and_then (and_then (get (codes "type") b) as_str)
      (λ t. some (record { type = t; count = and_then (get (codes "count") b) as_i64 }))

unfoldable pub badges_of : Value → List Badge
unfolding badge_of
badges_of p =
    elim (and_then (and_then (get_in (codes "sender") (codes "identity") p) (get (codes "badges")))
      as_array) [ none ↦ [] | some a ↦ filter_map badge_of a ]

unfoldable pub has : List Badge → Text → Bool
has badges t = any (λ (b : Badge). text_eq b.type t) badges

unfoldable pub count_of : List Badge → Text → Option ℤ
count_of badges t =
    and_then (find (λ (b : Badge). text_eq b.type t) badges) (λ (b : Badge). b.count)

-- The bucket of a day.
unfoldable pub is_day : ℤ → ℤ → ℤ → ChatDay → Bool
is_day cid uid today d =
    eqb_ℤ d.kick_channel_id cid && eqb_ℤ d.kick_user_id uid && eqb_ℤ d.day today

unfoldable pub count_day : ℤ → ℤ → ℤ → Tables → Result DbError (Tables × Unit {0})
count_day cid uid today t =
    let added =
      if any (is_day cid uid today) t.chat_days
      then update_rows (is_day cid uid today)
          (λ (d : ChatDay). record d { messages = d.messages +ℤ pos 1 }) t.chat_days
      else t.chat_days
        ++ record { kick_channel_id = cid; kick_user_id = uid; day = today; messages = pos 1 }
          ∷ [] in
    if_allowed (all (λ (d : ChatDay). in_i32 d.messages) added) out_of_range
      (record t { chat_days = added }, tt)

abbrev pub differs : Bool → Bool → Bool
differs a b = not (bool_eq a b)

abbrev pub days_later : DateTime → ℕ → DateTime
days_later now n = now +ℤ pos (n * day_micros)

module _ (now : DateTime) where
  unfoldable pub seen_row : Relation → Relation
  seen_row r = record r {
    chat_messages_30d = r.chat_messages_30d +ℤ pos 1;
    last_seen_at = some now;
  }

  -- The three badges, set and cleared.
  unfoldable pub badges_change : Bool → Bool → Bool → Relation → Bool
  badges_change is_mod is_vip is_og r =
      differs r.is_moderator is_mod || differs r.is_vip is_vip || differs r.is_og is_og

  unfoldable pub badge_row : Bool → Bool → Bool → Relation → Relation
  badge_row is_mod is_vip is_og r = record r {
    is_moderator = is_mod;
    is_vip = is_vip;
    is_og = is_og;
    last_synced_at = now;
  }

  unfoldable pub sub_badge_raises : ℤ → Relation → Bool
  sub_badge_raises months r = not r.is_subscriber || ltb_ℤ r.sub_months_cumulative months

  unfoldable pub sub_badge_row : ℤ → Relation → Relation
  sub_badge_row months r = record r {
    is_subscriber = true;
    subscribed_at = first_of r.subscribed_at now;
    sub_months_cumulative = max_ℤ r.sub_months_cumulative months;
    sub_streak_months = max_ℤ r.sub_streak_months (pos 1);
    last_synced_at = now;
  }

  -- Only where the expiry is unset or under a day away.
  unfoldable pub expiry_is_near : Relation → Bool
  expiry_is_near r =
      r.is_subscriber && elim r.sub_expires_at [ none ↦ true | some t ↦ ltb_ℤ t (days_later now 1) ]

  unfoldable pub hold_row : Relation → Relation
  hold_row r = record r { sub_expires_at = some (days_later now 3) }

  unfoldable pub gave_badge_row : ℤ → Relation → Relation
  gave_badge_row gifted r = record r { gifted_subs_given = gifted; last_synced_at = now }

  -- Each of the next three tells whether a fact changed.
  unfoldable pub sync_badges : ℤ → ℤ → List Badge → Sql Bool
  sync_badges cid uid badges =
      let is_mod = has badges (codes "moderator") in
      let is_vip = has badges (codes "vip") in
      let is_og = has badges (codes "og") in
      update_where_row now cid uid (badges_change is_mod is_vip is_og)
        (badge_row is_mod is_vip is_og)

  unfoldable pub sync_subscriber : ℤ → ℤ → List Badge → Sql Bool
  sync_subscriber cid uid badges =
      let months = max_ℤ (unwrap_or (count_of badges (codes "subscriber")) (pos 1)) (pos 1) in
      let raise : Sql Bool = do
        raised ← update_where_row now cid uid (sub_badge_raises months) (sub_badge_row months)
        held ← update_where_row now cid uid expiry_is_near hold_row
        return raised
      in if has badges (codes "subscriber") then raise else return false

  unfoldable pub sync_gifter : ℤ → ℤ → Option ℤ → Sql Bool
  sync_gifter cid uid none = return false
  sync_gifter cid uid (some gifted) =
      update_where_row now cid uid (λ r. ltb_ℤ r.gifted_subs_given gifted) (gave_badge_row gifted)

  unfoldable pub apply_chat : ℤ → ℤ → ℤ → List Badge → Sql (Unit {0})
  unfolding sync_badges sync_subscriber sync_gifter
  apply_chat today cid uid badges =
      ensure_relation now cid uid
      >> update_row now cid uid seen_row
      >> statement (count_day cid uid today)
      >> (do
        badged ← sync_badges cid uid badges
        subscribed ← sync_subscriber cid uid badges
        gave ← sync_gifter cid uid (count_of badges (codes "sub_gifter"))
        when (badged || subscribed || gave) (enqueue_for_kick_user now uid))
