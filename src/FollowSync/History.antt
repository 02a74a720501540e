-- ===== src/FollowSync/History.antt =====
-- A follow is removed only after as many spaced denials as the configuration asks for.
use kick_channel_role.Prelude.{
  ℕ, suc, ◌+◌, ◌*◌, ◌≤◌, Bool, true, false, ◌≡◌, refl, Option, some, List, [], ◌∷◌, length, arith,
  ltb, if◌then◌else◌,
}
use kick_channel_role.Prelude.Int.{ℤ, pos, pos_part, neg_part, ◌+ℤ◌, ◌-ℤ◌, leb_ℤ}
use kick_channel_role.Rule.Facts.{DateTime}
use kick_channel_role.Relation.{Relation}
use kick_channel_role.FollowSync.Decisions.{removes_follow_iff}
use kick_channel_role.Prelude.Text.{Text}
use kick_channel_role.FollowSync.{
  CardFacts, ProbeOutcome, usable, unavailable, second_micros, miss_counts, next_misses, decide,
  apply, probe_row,
}

-- `t` comes at least 6 hours after `since`.
abbrev pub IsSpaced : DateTime → DateTime → Type 0
IsSpaced since t =
    pos_part since + 6 * 3600 * second_micros + neg_part t ≤ pos_part t + neg_part since

-- Each of `now` and the moments comes at least 6 hours after the next one.
abbrev pub AreSpaced : DateTime → List DateTime → Type 0
AreSpaced now [] = Unit
AreSpaced now (t ∷ ts) = IsSpaced t now × AreSpaced t ts

-- A part of a list, in its order.
pub data IsPart : List DateTime → List DateTime → Type 0 where
  nothing : {ys : List DateTime} → IsPart [] ys
  without : {xs ys : List DateTime} (y : DateTime) → IsPart xs ys → IsPart xs (y ∷ ys)
  with_it : {xs ys : List DateTime} (y : DateTime) → IsPart xs ys → IsPart (y ∷ xs) (y ∷ ys)

-- The denials since the last moment at which a card showed the follow, the latest first, after one
-- more answer.
abbrev pub denials_after : DateTime → ProbeOutcome → List DateTime → List DateTime
denials_after now (unavailable reason) denials = denials
denials_after now (usable facts) denials = if facts.is_following then [] else now ∷ denials

-- How a row may come about: `History c denials row` says that `row` has been probed, with these
-- denials since a card last showed the follow. It starts with no misses. Between probes anything
-- else may write to the row, but for the two columns of misses.
pub data History (confirmations : ℤ) : List DateTime → Relation → Type 0 where
  start : (row : Relation) → row.follow_probe_misses ≡ pos 0 → History confirmations [] row
  written :
      {denials : List DateTime} {row : Relation} (row' : Relation)
      → History confirmations denials row
      → row'.follow_probe_misses ≡ row.follow_probe_misses
      → row'.follow_missed_at ≡ row.follow_missed_at
      → History confirmations denials row'
  probed :
      {denials : List DateTime} {row : Relation} (now : DateTime) (outcome : ProbeOutcome)
      → History confirmations denials row
      → History confirmations
          (denials_after now outcome denials)
          (probe_row confirmations now outcome row)

-- The denials that were counted: the last of them is stored.
abbrev AreCounted : List DateTime → Option DateTime → Type 0
AreCounted [] missed = Unit
AreCounted (t ∷ ts) missed = (missed ≡ some t) × AreSpaced t ts

record Doubt (denials : List DateTime) (row : Relation) : Type 0 where
  misses : ℕ
  stored : row.follow_probe_misses ≡ pos misses
  counted : List DateTime
  part : IsPart counted denials
  enough : misses ≤ length counted
  spaced : AreCounted counted row.follow_missed_at

next_count : ℕ → ℕ
next_count k = if ltb k 32767 then suc k else 32767

next_count-le : (k : ℕ) → next_count k ≤ suc k
unfolding next_count
next_count-le k = ground arith

next_misses-pos : (k : ℕ) → next_misses (pos k) ≡ pos (next_count k)
unfolding next_misses next_count ◌+ℤ◌
next_misses-pos k = ground arith

miss_counts-IsSpaced : (now t : DateTime) → miss_counts now (some t) ≡ true → IsSpaced t now
unfolding miss_counts ◌-ℤ◌
miss_counts-IsSpaced now t h = ground arith

-- A denial that counts comes 6 hours after the last one that was counted.
counted-AreSpaced :
    (now : DateTime) (ts : List DateTime) (missed : Option DateTime)
    → AreCounted ts missed
    → miss_counts now missed ≡ true
    → AreSpaced now ts
counted-AreSpaced now [] missed h c = tt
counted-AreSpaced now (t ∷ ts) missed (e, s) c = (miss_counts-IsSpaced now t (rw e at c), s)

-- A row without misses.
no_Doubt :
    (denials : List DateTime) (row : Relation) → row.follow_probe_misses ≡ pos 0 → Doubt denials row
no_Doubt denials row e = record {
  misses = 0;
  stored = e;
  counted = [];
  part = nothing;
  enough = omega arith;
  spaced = tt;
}

-- A later row with the misses that there were.
same_Doubt :
    {denials later : List DateTime} {row : Relation} (row' : Relation)
    → (d : Doubt denials row) → IsPart d.counted later
    → row'.follow_probe_misses ≡ row.follow_probe_misses
    → row'.follow_missed_at ≡ row.follow_missed_at
    → Doubt later row'
same_Doubt row' d p e q = record {
  misses = d.misses;
  stored = rw e d.stored;
  counted = d.counted;
  part = p;
  enough = d.enough;
  spaced = rw q d.spaced;
}

-- A row on which one more miss has been counted at `now`.
more_Doubt :
    {denials : List DateTime} {row : Relation} (now : DateTime) (row' : Relation)
    → Doubt denials row
    → miss_counts now row.follow_missed_at ≡ true
    → row'.follow_probe_misses ≡ next_misses row.follow_probe_misses
    → row'.follow_missed_at ≡ some now
    → Doubt (now ∷ denials) row'
more_Doubt {denials} {row} now row' d c e q = record {
  misses = next_count d.misses;
  stored = rw (e, d.stored) (next_misses-pos d.misses);
  counted = now ∷ d.counted;
  part = with_it now d.part;
  enough = omega (arith, next_count-le d.misses, d.enough);
  spaced = (q, counted-AreSpaced now d.counted row.follow_missed_at d.spaced c);
}

-- A threshold that one more miss reaches.
threshold :
    (confirmations stored : ℤ) (c k : ℕ)
    → confirmations ≡ pos (suc c)
    → stored ≡ pos k
    → leb_ℤ confirmations (next_misses stored) ≡ true
    → c ≤ k
unfolding next_misses ◌+ℤ◌
threshold confirmations stored c k e q h = ground arith

module _ (confirmations : ℤ) where
  -- One usable answer.
  usable-Doubt :
      {denials : List DateTime} {row : Relation} (now : DateTime) (facts : CardFacts)
      → Doubt denials row
      → Doubt
          (if facts.is_following then [] else now ∷ denials)
          (probe_row confirmations now (usable facts) row)
  unfolding probe_row apply decide
  usable-Doubt {denials} {row} now facts d =
      by_case facts.is_following row.is_follower (miss_counts now row.follow_missed_at)
        (leb_ℤ confirmations (next_misses row.follow_probe_misses)) refl refl refl refl
    where
      row' : Relation
      row' = probe_row confirmations now (usable facts) row

      by_case :
          (following follower counts enough : Bool)
          → facts.is_following ≡ following
          → row.is_follower ≡ follower
          → miss_counts now row.follow_missed_at ≡ counts
          → leb_ℤ confirmations (next_misses row.follow_probe_misses) ≡ enough
          → Doubt (if following then [] else now ∷ denials) row'
      by_case true follower counts enough p q r t = no_Doubt [] row' (ground arith)
      by_case false false counts enough p q r t = no_Doubt (now ∷ denials) row' (ground arith)
      by_case false true false enough p q r t =
          same_Doubt row' d (without now d.part) (ground arith) (ground arith)
      by_case false true true true p q r t = no_Doubt (now ∷ denials) row' (ground arith)
      by_case false true true false p q r t = more_Doubt now row' d r (ground arith) (ground arith)

  unavailable-Doubt :
      {denials : List DateTime} {row : Relation} (now : DateTime) (reason : Text)
      → Doubt denials row
      → Doubt denials (probe_row confirmations now (unavailable reason) row)
  unfolding probe_row
  unavailable-Doubt now reason d = same_Doubt _ d d.part refl refl

  Doubt-of :
      {denials : List DateTime} {row : Relation}
      → History confirmations denials row
      → Doubt denials row
  Doubt-of (start row e) = no_Doubt [] row e
  Doubt-of (written row' h e q) = let d = Doubt-of h in same_Doubt row' d d.part e q
  Doubt-of (probed now (usable facts) h) = usable-Doubt now facts (Doubt-of h)
  Doubt-of (probed now (unavailable reason) h) = unavailable-Doubt now reason (Doubt-of h)

  -- Suppose that the configuration asks for `c + 1` confirmations and that an answer at `now` removes the
  -- follow from a row with a history. Then this answer is a denial, and before it there were at
  -- least `c` denials since a card last showed the follow, or since the start of the history, such
  -- that of these and the last one each came at least 6 hours after the one before.
  pub removal_is_slow :
      {denials : List DateTime} {row : Relation} (c : ℕ) (now : DateTime) (facts : CardFacts)
      → confirmations ≡ pos (suc c)
      → History confirmations denials row
      → (decide now row facts confirmations).removes_follow ≡ true
      → (facts.is_following ≡ false)
        × ((counted : List DateTime) × IsPart counted denials
            × (c ≤ length counted)
            × AreSpaced now counted)
  removal_is_slow {denials} {row} c now facts e h removed =
      let d = Doubt-of h in
      let (denied, _, counts, enough) =
        (removes_follow_iff now row facts confirmations).0 removed in
      let few : c ≤ d.misses =
        threshold confirmations row.follow_probe_misses c d.misses e d.stored enough in
      (
        denied,
        (
          d.counted,
          d.part,
          omega (arith, d.enough),
          counted-AreSpaced now d.counted row.follow_missed_at d.spaced counts,
        ),
      )
