-- ===== src/FollowSync/Decisions.antt =====
-- When a follow is granted, kept and removed.
use kick_channel_role.Prelude.{true, false, ◌≡◌, ◌↔◌, arith}
use kick_channel_role.Prelude.Int.{ℤ, leb_ℤ}
use kick_channel_role.Rule.Facts.{DateTime}
use kick_channel_role.Relation.{Relation}
use kick_channel_role.FollowSync.{CardFacts, miss_counts, next_misses, decide}

-- A follow is removed exactly when the stored row is a follower, the card says otherwise, the last
-- counted miss is none or long enough ago, and this miss reaches the threshold.
pub removes_follow_iff :
    (now : DateTime) (row : Relation) (facts : CardFacts) (confirmations : ℤ)
    → ((decide now row facts confirmations).removes_follow ≡ true) ↔ (
        (facts.is_following ≡ false)
        × (row.is_follower ≡ true)
        × (miss_counts now row.follow_missed_at ≡ true)
        × (leb_ℤ confirmations (next_misses row.follow_probe_misses) ≡ true))
unfolding decide
removes_follow_iff now row facts confirmations = (λ e. ground arith, λ e. ground arith)
