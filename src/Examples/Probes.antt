-- ===== src/Examples/Probes.antt =====
-- Follow probes at work, under a rule of two confirmations.
use kick_channel_role.Prelude.{
  ◌≡◌, ◌↔◌, refl, true, false, none, some, arith, ◌≤◌, List, [], ◌∷◌, length,
}
use kick_channel_role.Prelude.Int.{pos, ◌-ℤ◌, ◌+ℤ◌}
use kick_channel_role.Rule.Facts.{DateTime}
use kick_channel_role.Relation.{Relation, facts_of}
use kick_channel_role.FollowSync.{
  CardFacts, usable, miss_counts, next_misses, decide, apply, probe_row,
}
use kick_channel_role.FollowSync.Facts.{IsDated, probe_row-IsDated, changed_facts_iff}
use kick_channel_role.FollowSync.History.{start, probed, IsPart, AreSpaced, removal_is_slow}
use kick_channel_role.Examples.{days, follower, sample_user}

abbrev denial : CardFacts
denial = record {
  is_following = false;
  following_since = none;
  subscribed_for_months = pos 0;
  is_subscriber = false;
  is_vip = false;
  is_moderator = false;
  is_og = false;
}

-- The row after one denial, which is a miss.
abbrev missed : Relation
missed = probe_row (pos 2) (days 121) (usable denial) follower

follower-IsDated : IsDated follower
follower-IsDated = record { dated = λ e p. absurd (cc p); undated = λ e. absurd (cc e) }

probe_row-IsDated_example : IsDated missed
probe_row-IsDated_example =
    probe_row-IsDated (pos 2) (days 121) (usable denial) follower follower-IsDated

-- A second denial a day later removes the follow.
second-removes : (decide (days 122) missed denial (pos 2)).removes_follow ≡ true
unfolding decide probe_row apply miss_counts next_misses ◌-ℤ◌ ◌+ℤ◌
second-removes = refl

removal_is_slow_example :
    (denial.is_following ≡ false)
    × ((counted : List DateTime) × IsPart counted (days 121 ∷ [])
        × (1 ≤ length counted)
        × AreSpaced (days 122) counted)
removal_is_slow_example =
    removal_is_slow (pos 2) {denials = days 121 ∷ []} {row = missed} 1 (days 122) denial refl
      (probed (days 121) (usable denial) (start follower refl)) second-removes

changed_facts_iff_example : ((decide (days 121) follower denial (pos 2)).changed_facts ≡ false) ↔ (
    facts_of (record {
      ku = sample_user;
      cr = some (apply (days 121) follower denial (decide (days 121) follower denial (pos 2)));
    })
    ≡ facts_of (record { ku = sample_user; cr = some follower }))
changed_facts_iff_example =
    changed_facts_iff (pos 2) (days 121) follower denial follower-IsDated (omega arith)
      (omega arith) sample_user
