-- ===== src/ApiKey/Dead.antt =====
-- src/routes/api_keys.rs, `revoke`: the key is revoked, whatever row it has.
use kick_channel_role.Prelude.{
  ℕ, ◌<◌, ◌≤◌, ◌≡◌, refl, Bool, true, false, not, ◌&&◌, ◌||◌, List, [], ◌∷◌, any, all, ◌==◌, ==_iff,
  if◌then◌else◌, Result, ok, err, update_rows, and-true, arith,
}
use kick_channel_role.Prelude.Text.{Text}
use kick_channel_role.Rule.Facts.{DateTime}
use kick_channel_role.AppError.{AppError}
use kick_channel_role.ApiKey.{
  ApiKey, KeyTable, is_none, is_live, touch_last_used, is_revocable, revoke_row, revoke,
}
use kick_channel_role.ApiKey.Limit.{AreBelow, IsKeyTable}

-- Every row of the id, whatever its guild, is revoked.
abbrev pub is_dead : ℕ → ApiKey → Bool
is_dead id k = not (k.id == id) || not (is_none k.revoked_at)

and-both : (a b : Bool) → a ≡ true → b ≡ true → (a && b) ≡ true
and-both a b x y = ground (arith, x, y)

pub record IsRevoked (id : ℕ) (t : KeyTable) : Type 0 where
  pub used : id < t.next_id
  pub dead : all (is_dead id) t.rows ≡ true

pub all-update :
    (q p : ApiKey → Bool) (f : ApiKey → ApiKey) (ks : List ApiKey)
    → ((k : ApiKey) → q k ≡ true → q (f k) ≡ true)
    → all q ks ≡ true
    → all q (update_rows p f ks) ≡ true
all-update q p f [] h a = refl
all-update q p f (k ∷ ks) h a =
    let (x, y) = and-true (q k) (all q ks) a in by_case (p k) x (all-update q p f ks h y)
  where
    by_case :
        (b : Bool)
        → q k ≡ true
        → all q (update_rows p f ks) ≡ true
        → all q ((if b then f k else k) ∷ update_rows p f ks) ≡ true
    by_case true x r = ground (arith, h k x, r)
    by_case false x r = ground (arith, x, r)

pub touch-IsRevoked :
    (now : DateTime) (id id' : ℕ) (t : KeyTable)
    → IsRevoked id t
    → IsRevoked id (touch_last_used now id' t)
unfolding touch_last_used
touch-IsRevoked now id id' t r = record {
  used = r.used;
  dead = all-update (is_dead id) _ _ t.rows (λ k e. e) r.dead;
}

-- The rows below a bound do not have it as their id.
below-dead :
    (id : ℕ) (ks : List ApiKey) (n : ℕ) → AreBelow n ks → n ≤ id → all (is_dead id) ks ≡ true
below-dead id [] n h le = refl
below-dead id (k ∷ ks) n h le =
    let other : (k.id == id) ≡ false = ground (arith, h.0, le) in
    let rest = below-dead id ks k.id h.1 (omega (arith, h.0, le)) in ground (arith, other, rest)

pub revoke_row-dead :
    (now : DateTime) (by : Text) (id : ℕ) (k : ApiKey) → is_dead id (revoke_row now by k) ≡ true
unfolding revoke_row
revoke_row-dead now by id k = ground arith

module _ (hash_token : Text → Text) where
  revocable-id :
      (g : Text) (id : ℕ) (k : ApiKey) → is_revocable hash_token g id k ≡ true → k.id ≡ id
  unfolding is_revocable
  revocable-id g id k l = (==_iff k.id id).0 (and-true (k.id == id) (is_live g k) l).0

  any-used :
      (g : Text) (id : ℕ) (ks : List ApiKey) (n : ℕ)
      → AreBelow n ks
      → any (is_revocable hash_token g id) ks ≡ true
      → id < n
  any-used g id [] n h a = absurd (cc a)
  any-used g id (k ∷ ks) n h a =
      by_row (is_revocable hash_token g id k) refl (any-used g id ks k.id h.1)
    where
      by_row :
          (b : Bool)
          → is_revocable hash_token g id k ≡ b
          → (any (is_revocable hash_token g id) ks ≡ true → id < k.id)
          → id < n
      by_row true e rest = omega (arith, revocable-id g id k e, h.0)
      by_row false e rest = omega (arith, rest (ground (arith, a, e)), h.0)

  below-any :
      (g : Text) (id : ℕ) (ks : List ApiKey) (n : ℕ)
      → AreBelow n ks
      → n ≤ id
      → any (is_revocable hash_token g id) ks ≡ false
  unfolding is_revocable
  below-any g id [] n h le = refl
  below-any g id (k ∷ ks) n h le =
      let other : (k.id == id) ≡ false = ground (arith, h.0, le) in
      let rest = below-any g id ks k.id h.1 (omega (arith, h.0, le)) in ground (arith, other, rest)

  -- A row that the UPDATE meets dies, and with it every row of the id.
  update-dead :
      (now : DateTime) (g by : Text) (id : ℕ) (ks : List ApiKey) (n : ℕ)
      → AreBelow n ks
      → any (is_revocable hash_token g id) ks ≡ true
      → all (is_dead id) (update_rows (is_revocable hash_token g id) (revoke_row now by) ks) ≡ true
  update-dead now g by id [] n h a = absurd (cc a)
  update-dead now g by id (k ∷ ks) n h a =
      by_row (k.id == id) (is_revocable hash_token g id k) refl refl
        (update-dead now g by id ks k.id h.1)
    where
      by_row :
          (same hit : Bool)
          → (k.id == id) ≡ same
          → is_revocable hash_token g id k ≡ hit
          → (any (is_revocable hash_token g id) ks ≡ true
              → all (is_dead id) (update_rows (is_revocable hash_token g id) (revoke_row now by) ks)
                ≡ true)
          → all
              (is_dead id)
              (update_rows (is_revocable hash_token g id) (revoke_row now by) (k ∷ ks))
            ≡ true
      by_row true hit e l rest =
          let low : k.id ≤ id = omega (arith, (==_iff k.id id).0 e) in
          let none_left = below-any g id ks k.id h.1 low in
          let met : is_revocable hash_token g id k ≡ true = ground (arith, a, none_left) in
          rw met (
            and-both _ _ (revoke_row-dead now by id k) (
              all-update (is_dead id) (is_revocable hash_token g id) (revoke_row now by) ks
                (λ k' d. revoke_row-dead now by id k') (below-dead id ks k.id h.1 low)))
      by_row false true e l rest = absurd (ground (arith, e, revocable-id g id k l))
      by_row false false e l rest = let further = rest (ground (arith, a, l)) in rw l (rw e further)

  pub revoke-now :
      (now : DateTime) (g : Text) (id : ℕ) (manager : Result AppError Text) (t : KeyTable)
      → IsKeyTable t
      → (revoke hash_token now g id manager t).1 ≡ ok tt
      → IsRevoked id (revoke hash_token now g id manager t).0
  unfolding revoke
  revoke-now now g id (err e) t i h = absurd (cc h)
  revoke-now now g id (ok by) t i h = by_found (any (is_revocable hash_token g id) t.rows) refl
    where
      by_found :
          (b : Bool)
          → any (is_revocable hash_token g id) t.rows ≡ b
          → IsRevoked id (revoke hash_token now g id (ok by) t).0
      by_found true e = record {
        used = any-used g id t.rows t.next_id i.below e;
        dead = update-dead now g by id t.rows t.next_id i.below e;
      }
      by_found false e = absurd (cc (rw e at h))
