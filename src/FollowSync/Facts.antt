-- ===== src/FollowSync/Facts.antt =====
-- What a probe does to the facts that rules read.
use kick_channel_role.Prelude.{
  Bool, true, false, not, ◌&&◌, ◌||◌, ◌≡◌, ◌≢◌, ◌↔◌, refl, ap, Option, none, some, arith, or_else,
}
use kick_channel_role.Prelude.Int.{ℤ, pos, ◌≤ℤ◌, max_ℤ, ltb_ℤ}
use kick_channel_role.Rule.Facts.{DateTime, Facts}
use kick_channel_role.Relation.{Relation, KickUser, facts_of}
use kick_channel_role.FollowSync.{
  CardFacts, ProbeOutcome, usable, unavailable, Decision, i32_max, clamp_i32, gained_extras, decide,
  apply, probe_row,
}

-- A row has a follow date exactly if it is a follower's.
pub record IsDated (row : Relation) : Type 0 where
  pub dated : row.is_follower ≡ true → row.followed_at ≢ none
  pub undated : row.is_follower ≡ false → row.followed_at ≡ none

-- A probe keeps that, whatever its outcome.
pub probe_row-IsDated :
    (confirmations : ℤ) (now : DateTime) (outcome : ProbeOutcome) (row : Relation)
    → IsDated row
    → IsDated (probe_row confirmations now outcome row)
unfolding probe_row apply
probe_row-IsDated confirmations now (unavailable reason) row h = record {
  dated = h.dated;
  undated = h.undated;
}
probe_row-IsDated confirmations now (usable facts) row h = record {
  dated = λ e. ground arith;
  undated = λ e. ground arith;
}

-- The facts of a viewer, once linked.
abbrev facts_with : KickUser → Relation → Facts
facts_with ku row = facts_of (record { ku = ku; cr = some row })

months_kept :
    (m n : ℤ) → pos 0 ≤ℤ m → n ≤ℤ i32_max → (ltb_ℤ m n ≡ false) ↔ (max_ℤ m (clamp_i32 n) ≡ m)
months_kept m n h k = (λ e. ground arith, λ e. ground arith)

or_else-dated : (o x : Option DateTime) → o ≢ none → or_else o x ≡ o
or_else-dated none x h = absurd (h refl)
or_else-dated (some t) x h = refl

or_kept : (a b : Bool) → ((b && not a) ≡ false) ↔ ((a || b) ≡ a)
or_kept true b = (λ e. refl, λ e. ground arith)
or_kept false b = (λ e. ground arith, λ e. ground arith)

module _ (confirmations : ℤ) (now : DateTime) (row : Relation) (facts : CardFacts) (d : IsDated row)
    (m : pos 0 ≤ℤ row.sub_months_cumulative) (n : facts.subscribed_for_months ≤ℤ i32_max) where
  abbrev decision : Decision
  decision = decide now row facts confirmations

  abbrev after : Relation
  after = apply now row facts decision

  -- The extras gain nothing exactly if `apply` leaves each of them as it is.
  extras_kept : (gained_extras row facts ≡ false) ↔ (
      (after.is_subscriber ≡ row.is_subscriber)
      × (after.is_vip ≡ row.is_vip)
      × (after.is_moderator ≡ row.is_moderator)
      × (after.is_og ≡ row.is_og)
      × (after.sub_months_cumulative ≡ row.sub_months_cumulative))
  unfolding gained_extras apply
  extras_kept = (
    λ e. ground (arith, months_kept row.sub_months_cumulative facts.subscribed_for_months m n),
    λ e. ground (arith, months_kept row.sub_months_cumulative facts.subscribed_for_months m n),
  )

  follow_kept : (decision.changed_facts ≡ false) ↔ (
      (gained_extras row facts ≡ false)
      × (after.is_follower ≡ row.is_follower)
      × (after.followed_at ≡ row.followed_at))
  unfolding apply decide
  follow_kept = (
    λ e. ground (
      arith,
      or_else-dated row.followed_at (or_else facts.following_since (some now)),
      d.dated,
      d.undated,
    ),
    λ e. ground (arith, d.dated, d.undated),
  )

  -- For a row that has a follow date exactly if it is a follower's, of a number of months that is
  -- not negative, and a card whose number of months is within an `i32`: `changed_facts` is off
  -- exactly if the write leaves every fact that a rule can read as it was.
  pub changed_facts_iff :
      (ku : KickUser) → (decision.changed_facts ≡ false) ↔ (facts_with ku after ≡ facts_with ku row)
  unfolding facts_of apply
  changed_facts_iff ku = (to_same, to_unchanged)
    where
      to_same : decision.changed_facts ≡ false → facts_with ku after ≡ facts_with ku row
      to_same e =
          let (kept, follower, date) = follow_kept.0 e in
          let (subscriber, vip, moderator, og, months) = extras_kept.0 kept in
          λ i. record {
            is_follower = follower i;
            followed_at = date i;
            is_subscriber = subscriber i;
            sub_months_cumulative = months i;
            sub_streak_months = row.sub_streak_months;
            sub_is_gift = row.sub_is_gift;
            gifted_subs_given = row.gifted_subs_given;
            is_vip = vip i;
            is_moderator = moderator i;
            kicks_donated = row.kicks_donated;
            chat_messages_30d = row.chat_messages_30d;
            is_og = og i;
            kick_created_at = some ku.kick_created_at;
            country_code = ku.country_code;
            username = ku.kick_username;
          }

      to_unchanged : facts_with ku after ≡ facts_with ku row → decision.changed_facts ≡ false
      to_unchanged e = follow_kept.1 (
        extras_kept.1 (
          ap (λ (f : Facts). f.is_subscriber) e,
          ap (λ (f : Facts). f.is_vip) e,
          ap (λ (f : Facts). f.is_moderator) e,
          ap (λ (f : Facts). f.is_og) e,
          ap (λ (f : Facts). f.sub_months_cumulative) e,
        ),
        ap (λ (f : Facts). f.is_follower) e,
        ap (λ (f : Facts). f.followed_at) e,
      )
