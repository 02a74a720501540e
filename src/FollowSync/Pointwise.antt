-- ===== src/FollowSync/Pointwise.antt =====
-- src/services/follow_sync.rs: the loop over a viewer's channels does to each row what one probe does.
use kick_channel_role.Prelude.{
  ◌≡◌, ◌≢◌, refl, sym, ap, ◌∙◌, Bool, true, false, Option, none, some, List, [], ◌∷◌, map,
  if◌then◌else◌, update_rows, All, and-true,
}
use kick_channel_role.Prelude.Int.{ℤ, eqb_ℤ, eqb_ℤ_iff}
use kick_channel_role.Prelude.Text.{Text, text_eq}
use kick_channel_role.Rule.Facts.{DateTime}
use kick_channel_role.Relation.{Relation, KickUser}
use kick_channel_role.Sync.{find}
use kick_channel_role.Webhook.{is_row}
use kick_channel_role.Webhook.Evolves.{keys, AreDistinct}
use kick_channel_role.Database.{Broadcaster, Tables}
use kick_channel_role.FollowSync.{ProbeOutcome, usable, unavailable, decide, apply, probe_row}
use kick_channel_role.FollowSync.Players.{
  Progress, slug_of, with_slug, select_rows, on_card, on_outcome, probe_rows, probe_user,
  after_probes, probe_and_apply_for_player,
}

abbrev key : Relation → ℤ × ℤ
key r = (r.kick_channel_id, r.kick_user_id)

update_rows-map :
    (p : Relation → Bool) (f : Relation → Relation) (rs : List Relation)
    → update_rows p f rs ≡ map (λ r. if p r then f r else r) rs
update_rows-map p f [] = refl
update_rows-map p f (r ∷ rs) = ap (λ l. (if p r then f r else r) ∷ l) (update_rows-map p f rs)

map-map :
    (f g : Relation → Relation) (rs : List Relation) → map f (map g rs) ≡ map (λ r. f (g r)) rs
map-map f g [] = refl
map-map f g (r ∷ rs) = ap (λ l. f (g r) ∷ l) (map-map f g rs)

-- Two functions that agree on the rows whose keys satisfy `P`.
map-agrees :
    (P : ℤ × ℤ → Type 0) (f g : Relation → Relation) (rs : List Relation)
    → ((r : Relation) → P (key r) → f r ≡ g r)
    → All P (keys rs)
    → map f rs ≡ map g rs
map-agrees P f g [] h a = refl
map-agrees P f g (r ∷ rs) h a = rw (h r a.0) (ap (λ l. g r ∷ l) (map-agrees P f g rs h a.1))

module _ (confirmations : ℤ) (now : DateTime) (uid : ℤ) (probe : Text → Text → ProbeOutcome)
    (name : Text) (bs : List Broadcaster) where
  -- What one channel's answer writes to a row, decided on the row that was read.
  effect : Relation → ProbeOutcome → Relation → Relation
  effect row (usable facts) r = apply now r facts (decide now row facts confirmations)
  effect row (unavailable reason) r = record r { follow_probe_attempted_at = some now }

  effect-key : (row : Relation) (o : ProbeOutcome) (r : Relation) → key (effect row o r) ≡ key r
  unfolding effect apply
  effect-key row (usable facts) r = refl
  effect-key row (unavailable reason) r = refl

  effect-probe_row :
      (row : Relation) (o : ProbeOutcome) → effect row o row ≡ probe_row confirmations now o row
  unfolding effect probe_row
  effect-probe_row row (usable facts) = refl
  effect-probe_row row (unavailable reason) = refl

  probe_row-key :
      (row : Relation) (o : ProbeOutcome) → key (probe_row confirmations now o row) ≡ key row
  probe_row-key row o = ap key (sym (effect-probe_row row o)) ∙ effect-key row o row

  abbrev hit : Relation → ProbeOutcome → Relation → Relation
  hit row o r = if is_row row.kick_channel_id uid r then effect row o r else r

  on_outcome-relations :
      (row : Relation) (o : ProbeOutcome) (p : Progress)
      → (on_outcome confirmations now uid row o p).relations ≡ map (hit row o) p.relations
  unfolding on_outcome on_card effect
  on_outcome-relations row (usable facts) p =
      update_rows-map (is_row row.kick_channel_id uid) (effect row (usable facts)) p.relations
  on_outcome-relations row (unavailable reason) p =
      update_rows-map (is_row row.kick_channel_id uid) (effect row (unavailable reason)) p.relations

  unfoldable hit_all : List (Relation × Text) → Relation → Relation
  hit_all [] r = r
  hit_all ((row, slug) ∷ rows) r = hit_all rows (hit row (probe slug name) r)

  probe_rows-relations :
      (rows : List (Relation × Text)) (p : Progress)
      → (probe_rows confirmations now uid probe name rows p).relations
        ≡ map (hit_all rows) p.relations
  unfolding probe_rows hit_all
  probe_rows-relations [] p = sym (map_id p.relations)
    where
      map_id : (rs : List Relation) → map (λ r. r) rs ≡ rs
      map_id [] = refl
      map_id (r ∷ rs) = ap (λ l. r ∷ l) (map_id rs)
  probe_rows-relations ((row, slug) ∷ rows) p =
      probe_rows-relations rows (on_outcome confirmations now uid row (probe slug name) p)
      ∙ ap (map (hit_all rows)) (on_outcome-relations row (probe slug name) p)
      ∙ map-map _ _ p.relations

  is_row-key :
      (x r : Relation)
      → x.kick_user_id ≡ uid
      → is_row x.kick_channel_id uid r ≡ true
      → key r ≡ key x
  unfolding is_row
  is_row-key x r same e =
      let (c, u) =
        and-true (eqb_ℤ r.kick_channel_id x.kick_channel_id) (eqb_ℤ r.kick_user_id uid) e in
      let cid = (eqb_ℤ_iff r.kick_channel_id x.kick_channel_id).0 c in
      let user = (eqb_ℤ_iff r.kick_user_id uid).0 u in cc (cid, user, same)

  -- Another row's answer leaves a row alone.
  hit_other :
      (x r : Relation) (o : ProbeOutcome) → x.kick_user_id ≡ uid → key r ≢ key x → hit x o r ≡ r
  hit_other x r o same other = by_case (is_row x.kick_channel_id uid r) refl
    where
      by_case :
          (b : Bool) → is_row x.kick_channel_id uid r ≡ b → (if b then effect x o r else r) ≡ r
      by_case true e = absurd (other (is_row-key x r same e))
      by_case false e = refl

  -- The rows that are read, one by one.
  read-all :
      (x : Relation) (rs : List Relation) (r : Relation)
      → (x.kick_user_id ≡ uid
          → (slug : Text)
          → hit_all (select_rows bs uid rs) (hit x (probe slug name) r)
            ≡ hit_all (select_rows bs uid rs) r)
      → hit_all (select_rows bs uid (x ∷ rs)) r ≡ hit_all (select_rows bs uid rs) r
  unfolding select_rows hit_all
  read-all x rs r h = by_user (eqb_ℤ x.kick_user_id uid) (slug_of bs x.kick_channel_id) refl
    where
      by_user :
          (b : Bool) (slug : Option Text)
          → eqb_ℤ x.kick_user_id uid ≡ b
          → hit_all
              (if b then with_slug x slug (select_rows bs uid rs) else select_rows bs uid rs)
              r
            ≡ hit_all (select_rows bs uid rs) r
      by_user false slug e = refl
      by_user true none e = refl
      by_user true (some slug) e = h ((eqb_ℤ_iff x.kick_user_id uid).0 e) slug

  skip-first :
      (x : Relation) (rs : List Relation) (r : Relation)
      → key r ≢ key x
      → hit_all (select_rows bs uid (x ∷ rs)) r ≡ hit_all (select_rows bs uid rs) r
  skip-first x rs r other = read-all x rs r (λ same slug.
      ap (hit_all (select_rows bs uid rs)) (hit_other x r (probe slug name) same other))

  skip-all :
      (rs : List Relation) (r : Relation)
      → All (λ k. key r ≢ k) (keys rs)
      → hit_all (select_rows bs uid rs) r ≡ r
  unfolding hit_all select_rows
  skip-all [] r a = refl
  skip-all (x ∷ rs) r a = skip-first x rs r a.0 ∙ skip-all rs r a.1

  -- What a run of all channels does to one row.
  pub probed_by : Option Text → Relation → Relation
  probed_by none r = r
  probed_by (some slug) r = probe_row confirmations now (probe slug name) r

  unfoldable pub probed : Relation → Relation
  unfolding probed_by
  probed r = if eqb_ℤ r.kick_user_id uid then probed_by (slug_of bs r.kick_channel_id) r else r

  hit_self :
      (r : Relation) (o : ProbeOutcome)
      → eqb_ℤ r.kick_user_id uid ≡ true
      → hit r o r ≡ probe_row confirmations now o r
  unfolding is_row
  hit_self r o e =
      let me : eqb_ℤ r.kick_channel_id r.kick_channel_id ≡ true =
        (eqb_ℤ_iff r.kick_channel_id r.kick_channel_id).1 refl in
      rw me (rw e (effect-probe_row r o))

  first-probed :
      (r : Relation) (rs : List Relation)
      → All (λ k. key r ≢ k) (keys rs)
      → hit_all (select_rows bs uid (r ∷ rs)) r ≡ probed r
  unfolding select_rows hit_all probed
  first-probed r rs a = by_user (eqb_ℤ r.kick_user_id uid) (slug_of bs r.kick_channel_id) refl
    where
      by_user :
          (b : Bool) (slug : Option Text)
          → eqb_ℤ r.kick_user_id uid ≡ b
          → hit_all
              (if b then with_slug r slug (select_rows bs uid rs) else select_rows bs uid rs)
              r
            ≡ (if b then probed_by slug r else r)
      by_user false slug e = skip-all rs r a
      by_user true none e = skip-all rs r a
      by_user true (some slug) e =
          let o = probe slug name in
          ap (hit_all (select_rows bs uid rs)) (hit_self r o e)
          ∙ skip-all rs (probe_row confirmations now o r) (rw (probe_row-key r o) a)

  all-probed :
      (rs : List Relation)
      → AreDistinct (keys rs)
      → map (hit_all (select_rows bs uid rs)) rs ≡ map probed rs
  all-probed [] d = refl
  all-probed (r ∷ rs) d =
      let later =
        map-agrees (λ k. key r ≢ k) (hit_all (select_rows bs uid (r ∷ rs)))
          (hit_all (select_rows bs uid rs)) rs (λ r' other. skip-first r rs r' (λ e. other (sym e)))
          d.0 in
      ap (λ h. h ∷ map (hit_all (select_rows bs uid (r ∷ rs))) rs) (first-probed r rs d.0)
      ∙ ap (λ l. probed r ∷ l) (later ∙ all-probed rs d.1)

-- A linked viewer whose rows have distinct keys is probed on every connected channel: each of their
-- rows whose channel has a slug becomes what the answer for that slug makes of it by itself, and
-- all other rows stay.
pub probe_and_apply-probed :
    (confirmations : ℤ) (now : DateTime) (probe : Text → Text → ProbeOutcome) (discord_id : Text)
    (u : KickUser) (t : Tables)
    → find (λ (v : KickUser). text_eq v.discord_id discord_id) t.kick_users ≡ some u
    → AreDistinct (keys t.relations)
    → (probe_and_apply_for_player confirmations now (some probe) discord_id t).0.relations
      ≡ map
          (probed confirmations now u.kick_user_id probe u.kick_username t.broadcasters)
          t.relations
unfolding probe_and_apply_for_player probe_user after_probes
probe_and_apply-probed confirmations now probe discord_id u t found distinct = rw found (
    probe_rows-relations confirmations now u.kick_user_id probe u.kick_username t.broadcasters
      (select_rows t.broadcasters u.kick_user_id t.relations) _
    ∙ all-probed confirmations now u.kick_user_id probe u.kick_username t.broadcasters t.relations
        distinct)
