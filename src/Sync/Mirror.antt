-- ===== src/Sync/Mirror.antt =====
-- src/services/sync.rs: a link that is in line with its rule is left alone.
use kick_channel_role.Prelude.{
  ℕ, ◌≡◌, refl, ap, ◌⊎◌, Bool, true, false, not, Option, none, some, List, [], ◌∷◌, ◌++◌, map, any,
  Result, ok, err, unwrap_or,
}
use kick_channel_role.Prelude.Text.{Text, text_eq_refl}
use kick_channel_role.Json.{Value}
use kick_channel_role.Rule.Tree.{RuleTree}
use kick_channel_role.Rule.Facts.{DateTime}
use kick_channel_role.AppError.{AppError}
use kick_channel_role.Validator.{filter}
use kick_channel_role.Sync.{
  RoleLink, Assignment, Store, Upstream, order_by, replace_assignments, is_assigned, same_texts,
  current, ordered, qualifying, after_upload, drain_to_empty, put_users, after_info, after_members,
  grants_nobody, default_tree, sync_link,
}
use kick_channel_role.Sync.Order.{IsSorted, order_by-eq, take-IsSorted, order_by-IsSorted}

pub same_texts_refl : (xs : List Text) → same_texts xs xs ≡ true
same_texts_refl [] = refl
same_texts_refl (x ∷ xs) = rw (text_eq_refl x) (same_texts_refl xs)

module _ (p : Assignment → Bool) where
  others_then :
      (xs ys : List Assignment) → filter p (filter (λ a. not (p a)) xs ++ ys) ≡ filter p ys
  unfolding filter
  others_then [] ys = refl
  others_then (x ∷ xs) ys = by_case (p x) refl (others_then xs ys)
    where
      by_case :
          (b : Bool)
          → p x ≡ b
          → filter p (filter (λ a. not (p a)) xs ++ ys) ≡ filter p ys
          → filter p (filter (λ a. not (p a)) (x ∷ xs) ++ ys) ≡ filter p ys
      by_case true e h = rw e h
      by_case false e h = rw e (rw e h)

  none_left : (xs : List Assignment) → any p (filter (λ a. not (p a)) xs ++ []) ≡ false
  unfolding filter
  none_left [] = refl
  none_left (x ∷ xs) = by_case (p x) refl (none_left xs)
    where
      by_case :
          (b : Bool)
          → p x ≡ b
          → any p (filter (λ a. not (p a)) xs ++ []) ≡ false
          → any p (filter (λ a. not (p a)) (x ∷ xs) ++ []) ≡ false
      by_case true e h = rw e h
      by_case false e h = rw e (rw e h)

module _ (guild_id role_id : Text) where
  abbrev assigned_to : Text → Assignment
  assigned_to user = record { guild_id = guild_id; role_id = role_id; discord_id = user }

  users_of :
      (users : List Text)
      → map
          (λ (a : Assignment). a.discord_id)
          (filter (is_assigned guild_id role_id) (map assigned_to users))
        ≡ users
  unfolding filter is_assigned
  users_of [] = refl
  users_of (u ∷ users) =
      rw (text_eq_refl guild_id, text_eq_refl role_id) (ap (λ l. u ∷ l) (users_of users))

  pub current-replace_assignments :
      (collate : Text → Text → Bool) (users : List Text) (s : Store)
      → IsSorted collate users
      → current collate guild_id role_id (replace_assignments guild_id role_id users s) ≡ users
  unfolding current replace_assignments
  current-replace_assignments collate users s h =
      rw
        (
          others_then (is_assigned guild_id role_id) s.role_assignments (map assigned_to users),
          users_of users,
        )
        (order_by-eq collate users h)

module _ (json_eq : Value → Value → Bool) (read_tree : Value → Option RuleTree)
    (collate : Text → Text → Bool) (tilde : Text → Text → Option Bool) (up : Upstream)
    (now : DateTime) (total : (x y : Text) → (collate x y ≡ true) ⊎ (collate y x ≡ true))
    (link : RoleLink)
    (accepts : (users : List Text)
      → up.upload_users link.guild_id link.role_id users link.api_token ≡ ok tt)
    (other : Text → Text → List Text → Text → Result AppError (Unit {0})) where
  -- The same answers, but for those to an upload.
  abbrev pub later : Upstream
  later = record up { upload_users = other }

  abbrev put : Option (List Text) → Store → Store × Result AppError (Unit {0})
  put found s =
      put_users json_eq read_tree collate tilde up now link.guild_id link.role_id link.api_token
        found s

  abbrev found_in : RuleTree → List Text → ℕ → Store → Option (List Text)
  found_in tree members limit s =
      qualifying collate tilde now tree link.kick_channel_id members limit s

  abbrev put_later : Option (List Text) → Store → Store × Result AppError (Unit {0})
  put_later found s =
      put_users json_eq read_tree collate tilde later now link.guild_id link.role_id link.api_token
        found s

  put-same :
      (users : List Text) (s : Store)
      → same_texts (current collate link.guild_id link.role_id s) users ≡ true
      → put (some users) s ≡ (s, ok tt)
  unfolding put_users
  put-same users s e = rw e refl

  put_later-same :
      (users : List Text) (s : Store)
      → same_texts (current collate link.guild_id link.role_id s) users ≡ true
      → put_later (some users) s ≡ (s, ok tt)
  unfolding put_users
  put_later-same users s e = rw e refl

  put-new :
      (users : List Text) (s : Store)
      → same_texts (current collate link.guild_id link.role_id s) users ≡ false
      → put (some users) s ≡ (replace_assignments link.guild_id link.role_id users s, ok tt)
  unfolding put_users after_upload
  put-new users s e = rw (e, accepts users) refl

  put-again :
      (users : List Text) (s : Store)
      → IsSorted collate users
      → put_later (some users) (put (some users) s).0 ≡ put (some users) s
  put-again users s h =
      by_case (same_texts (current collate link.guild_id link.role_id s) users) refl
    where
      by_case :
          (b : Bool)
          → same_texts (current collate link.guild_id link.role_id s) users ≡ b
          → put_later (some users) (put (some users) s).0 ≡ put (some users) s
      by_case true e = rw (put-same users s e) (put_later-same users s e)
      by_case false e =
          let p = put-new users s e in
          rw p (
            put_later-same users (replace_assignments link.guild_id link.role_id users s) (
              rw (current-replace_assignments link.guild_id link.role_id collate users s h)
                (same_texts_refl users)))

  found_in-put :
      (tree : RuleTree) (members : List Text) (limit : ℕ) (found : Option (List Text)) (s : Store)
      → found_in tree members limit (put found s).0 ≡ found_in tree members limit s
  unfolding qualifying put_users after_upload replace_assignments
  found_in-put tree members limit none s = refl
  found_in-put tree members limit (some users) s =
      by_case (same_texts (current collate link.guild_id link.role_id s) users) refl
    where
      by_case :
          (b : Bool)
          → same_texts (current collate link.guild_id link.role_id s) users ≡ b
          → found_in tree members limit (put (some users) s).0 ≡ found_in tree members limit s
      by_case true e = rw e refl
      by_case false e = rw (e, accepts users) refl

  -- The users of the bulk query are in order.
  abbrev AreSorted : Option (List Text) → Type 0
  AreSorted none = Unit
  AreSorted (some users) = IsSorted collate users

  ordered-AreSorted : (n : ℕ) (found : Option (List Text)) → AreSorted (ordered collate n found)
  unfolding ordered
  ordered-AreSorted n none = tt
  ordered-AreSorted n (some users) =
      take-IsSorted collate n (order_by collate users) (order_by-IsSorted collate total users)

  found_in-AreSorted :
      (tree : RuleTree) (members : List Text) (limit : ℕ) (s : Store)
      → AreSorted (found_in tree members limit s)
  unfolding qualifying
  found_in-AreSorted tree members limit s = ordered-AreSorted limit _

  put-found_again :
      (found : Option (List Text)) (s : Store)
      → AreSorted found
      → put_later found (put found s).0 ≡ put found s
  unfolding put_users
  put-found_again none s h = refl
  put-found_again (some users) s h = put-again users s h

  abbrev drained : Store → Store × Result AppError (Unit {0})
  drained s =
      drain_to_empty json_eq read_tree collate tilde up now link.guild_id link.role_id
        link.api_token s

  abbrev drained_later : Store → Store × Result AppError (Unit {0})
  drained_later s =
      drain_to_empty json_eq read_tree collate tilde later now link.guild_id link.role_id
        link.api_token s

  drained-again : (s : Store) → drained_later (drained s).0 ≡ drained s
  unfolding drain_to_empty after_upload replace_assignments
  drained-again s = by_case (any (is_assigned link.guild_id link.role_id) s.role_assignments) refl
    where
      by_case :
          (b : Bool)
          → any (is_assigned link.guild_id link.role_id) s.role_assignments ≡ b
          → drained_later (drained s).0 ≡ drained s
      by_case false e = rw e (rw e refl)
      by_case true e =
          rw (e, accepts [])
            (rw (none_left (is_assigned link.guild_id link.role_id) s.role_assignments) refl)

  module _ (limit : ℕ)
      (knows : up.user_info link.guild_id link.role_id link.api_token ≡ ok limit) where
    members_again :
        (tree : RuleTree) (s : Store) (answer : Result AppError (List Text))
        → after_members json_eq read_tree collate tilde later now link tree
            (after_members json_eq read_tree collate tilde up now link tree s answer).0
            answer
          ≡ after_members json_eq read_tree collate tilde up now link tree s answer
    unfolding after_members after_info
    members_again tree s (err e) = refl
    members_again tree s (ok []) = drained-again s
    members_again tree s (ok (m ∷ ms)) = rw knows (
        rw (found_in-put tree (m ∷ ms) limit (found_in tree (m ∷ ms) limit s) s) (
          put-found_again (found_in tree (m ∷ ms) limit s) s
            (found_in-AreSorted tree (m ∷ ms) limit s)))

    -- Suppose that the order of texts is total, that RoleLogic accepts every list of the link's
    -- users and tells the limit of their number. Then a second sync of the link, with the same
    -- answers and at the same time, finds nothing to do: it gives the tables and the result of the
    -- first even if RoleLogic by then answers every upload differently, as by refusing it.
    pub sync_link-sync_link :
        (s : Store)
        → sync_link json_eq read_tree collate tilde later now link
            (sync_link json_eq read_tree collate tilde up now link s).0
          ≡ sync_link json_eq read_tree collate tilde up now link s
    unfolding sync_link drain_to_empty
    sync_link-sync_link s =
        by_case
          (grants_nobody (unwrap_or (read_tree link.rule_tree) default_tree) link.kick_channel_id)
          refl
      where
        by_case :
            (b : Bool)
            → grants_nobody (unwrap_or (read_tree link.rule_tree) default_tree) link.kick_channel_id
              ≡ b
            → sync_link json_eq read_tree collate tilde later now link
                (sync_link json_eq read_tree collate tilde up now link s).0
              ≡ sync_link json_eq read_tree collate tilde up now link s
        by_case true e = rw e (drained-again s)
        by_case false e = rw e (members_again _ s (up.guild_member_ids link.guild_id))
