-- ===== src/Webhook/Rows.antt =====
-- src/routes/webhooks.rs: the rows that events write raise the facts of a viewer.
use kick_channel_role.Prelude.{ℕ, ◌≡◌, refl, Bool, true, Option, arith}
use kick_channel_role.Prelude.Int.{ℤ, pos, ◌≤ℤ◌, ◌+ℤ◌, ltb_ℤ}
use kick_channel_role.Rule.Facts.{DateTime}
use kick_channel_role.Relation.{Relation}
use kick_channel_role.Webhook.{
  follow_row, subscribe_row, renew_row, gave_row, gifted_row, donate_row,
}
use kick_channel_role.Webhook.Chat.{seen_row, badge_row, sub_badge_row, hold_row, gave_badge_row}
use kick_channel_role.Webhook.Evolves.{IsRaised}

pub follow-IsRaised : (now : DateTime) (r : Relation) → IsRaised r (follow_row now r)
unfolding follow_row
follow-IsRaised now r = record {
  same_channel = refl;
  same_user = refl;
  follows = λ e. refl;
  dated = λ e. ground arith;
  subscribes = λ e. e;
  gifted = λ e. e;
  months = omega arith;
  streak = omega arith;
  gave = omega arith;
  donated = omega arith;
  chatted = omega arith;
  misses = refl;
  missed_at = refl;
}

pub subscribe-IsRaised :
    (now : DateTime) (c e : Option DateTime) (d : Option ℤ) (r : Relation)
    → IsRaised r (subscribe_row now c e d r)
unfolding subscribe_row
subscribe-IsRaised now c e d r = record {
  same_channel = refl;
  same_user = refl;
  follows = λ e. e;
  dated = λ e. refl;
  subscribes = λ e. refl;
  gifted = λ e. e;
  months = ground arith;
  streak = ground arith;
  gave = omega arith;
  donated = omega arith;
  chatted = omega arith;
  misses = refl;
  missed_at = refl;
}

pub renew-IsRaised :
    (now : DateTime) (e : Option DateTime) (d : Option ℤ) (r : Relation)
    → IsRaised r (renew_row now e d r)
unfolding renew_row ◌+ℤ◌
renew-IsRaised now e d r = record {
  same_channel = refl;
  same_user = refl;
  follows = λ e. e;
  dated = λ e. refl;
  subscribes = λ e. refl;
  gifted = λ e. e;
  months = ground arith;
  streak = ground arith;
  gave = omega arith;
  donated = omega arith;
  chatted = omega arith;
  misses = refl;
  missed_at = refl;
}

pub gave-IsRaised : (now : DateTime) (n : ℕ) (r : Relation) → IsRaised r (gave_row now n r)
unfolding gave_row ◌+ℤ◌
gave-IsRaised now n r = record {
  same_channel = refl;
  same_user = refl;
  follows = λ e. e;
  dated = λ e. refl;
  subscribes = λ e. e;
  gifted = λ e. e;
  months = omega arith;
  streak = omega arith;
  gave = ground arith;
  donated = omega arith;
  chatted = omega arith;
  misses = refl;
  missed_at = refl;
}

pub gifted-IsRaised :
    (now : DateTime) (e : Option DateTime) (r : Relation) → IsRaised r (gifted_row now e r)
unfolding gifted_row
gifted-IsRaised now e r = record {
  same_channel = refl;
  same_user = refl;
  follows = λ e. e;
  dated = λ e. refl;
  subscribes = λ e. refl;
  gifted = λ e. refl;
  months = ground arith;
  streak = ground arith;
  gave = omega arith;
  donated = omega arith;
  chatted = omega arith;
  misses = refl;
  missed_at = refl;
}

pub donate-IsRaised :
    (now : DateTime) (a : ℤ) (r : Relation) → pos 0 ≤ℤ a → IsRaised r (donate_row now a r)
unfolding donate_row ◌+ℤ◌
donate-IsRaised now a r h = record {
  same_channel = refl;
  same_user = refl;
  follows = λ e. e;
  dated = λ e. refl;
  subscribes = λ e. e;
  gifted = λ e. e;
  months = omega arith;
  streak = omega arith;
  gave = omega arith;
  donated = ground arith;
  chatted = omega arith;
  misses = refl;
  missed_at = refl;
}

pub seen-IsRaised : (now : DateTime) (r : Relation) → IsRaised r (seen_row now r)
unfolding seen_row ◌+ℤ◌
seen-IsRaised now r = record {
  same_channel = refl;
  same_user = refl;
  follows = λ e. e;
  dated = λ e. refl;
  subscribes = λ e. e;
  gifted = λ e. e;
  months = omega arith;
  streak = omega arith;
  gave = omega arith;
  donated = omega arith;
  chatted = ground arith;
  misses = refl;
  missed_at = refl;
}

pub badge-IsRaised :
    (now : DateTime) (m v o : Bool) (r : Relation) → IsRaised r (badge_row now m v o r)
unfolding badge_row
badge-IsRaised now m v o r = record {
  same_channel = refl;
  same_user = refl;
  follows = λ e. e;
  dated = λ e. refl;
  subscribes = λ e. e;
  gifted = λ e. e;
  months = omega arith;
  streak = omega arith;
  gave = omega arith;
  donated = omega arith;
  chatted = omega arith;
  misses = refl;
  missed_at = refl;
}

pub sub_badge-IsRaised :
    (now : DateTime) (n : ℤ) (r : Relation) → IsRaised r (sub_badge_row now n r)
unfolding sub_badge_row
sub_badge-IsRaised now n r = record {
  same_channel = refl;
  same_user = refl;
  follows = λ e. e;
  dated = λ e. refl;
  subscribes = λ e. refl;
  gifted = λ e. e;
  months = ground arith;
  streak = ground arith;
  gave = omega arith;
  donated = omega arith;
  chatted = omega arith;
  misses = refl;
  missed_at = refl;
}

pub hold-IsRaised : (now : DateTime) (r : Relation) → IsRaised r (hold_row now r)
unfolding hold_row
hold-IsRaised now r = record {
  same_channel = refl;
  same_user = refl;
  follows = λ e. e;
  dated = λ e. refl;
  subscribes = λ e. e;
  gifted = λ e. e;
  months = omega arith;
  streak = omega arith;
  gave = omega arith;
  donated = omega arith;
  chatted = omega arith;
  misses = refl;
  missed_at = refl;
}

pub gave_badge-IsRaised :
    (now : DateTime) (n : ℤ) (r : Relation)
    → ltb_ℤ r.gifted_subs_given n ≡ true
    → IsRaised r (gave_badge_row now n r)
unfolding gave_badge_row
gave_badge-IsRaised now n r h = record {
  same_channel = refl;
  same_user = refl;
  follows = λ e. e;
  dated = λ e. refl;
  subscribes = λ e. e;
  gifted = λ e. e;
  months = omega arith;
  streak = omega arith;
  gave = ground arith;
  donated = omega arith;
  chatted = omega arith;
  misses = refl;
  missed_at = refl;
}
