-- ===== src/Sync/Roles.antt =====
-- src/services/sync.rs, `sync_for_player`: what the sync of one member and one link brings about.
use kick_channel_role.Prelude.{
  ◌≡◌, refl, Bool, true, false, not, Option, List, [], ◌∷◌, ◌++◌, any, inl, inr, Result, ok,
  Bool-cases,
}
use kick_channel_role.Prelude.Text.{Text, text_eq_refl}
use kick_channel_role.Json.{Value}
use kick_channel_role.Rule.Tree.{RuleTree}
use kick_channel_role.Rule.Facts.{DateTime}
use kick_channel_role.AppError.{AppError}
use kick_channel_role.Eval.{Regex}
use kick_channel_role.Validator.{filter}
use kick_channel_role.Sync.{RoleLink, Assignment, Store, is_assigned}
use kick_channel_role.Sync.Players.{
  is_user, has_role, assign, unassign, qualifies, after_add, after_remove, act, sync_player_link,
}

any-last :
    (p : Assignment → Bool) (xs : List Assignment) (a : Assignment)
    → p a ≡ true
    → any p (xs ++ a ∷ []) ≡ true
any-last p [] a e = rw e refl
any-last p (x ∷ xs) a e = elim (Bool-cases (p x)) [
  | inl q ↦ rw q refl
  | inr q ↦ rw q (any-last p xs a e)
]

any-others :
    (p : Assignment → Bool) (xs : List Assignment) → any p (filter (λ a. not (p a)) xs) ≡ false
unfolding filter
any-others p [] = refl
any-others p (x ∷ xs) = elim (Bool-cases (p x)) [
  | inl q ↦ rw q (any-others p xs)
  | inr q ↦ rw q (rw q (any-others p xs))
]

has_role-assign :
    (guild_id role_id discord_id : Text) (s : Store)
    → has_role guild_id role_id discord_id s ≡ false
    → has_role guild_id role_id discord_id (assign guild_id role_id discord_id s) ≡ true
unfolding assign has_role
has_role-assign g r d s h = rw h (
    any-last (is_user g r d) s.role_assignments
      (record { guild_id = g; role_id = r; discord_id = d }) own)
  where
    own : is_user g r d (record { guild_id = g; role_id = r; discord_id = d }) ≡ true
    own = unfold is_user is_assigned in rw (text_eq_refl g, text_eq_refl r, text_eq_refl d) refl

has_role-unassign :
    (guild_id role_id discord_id : Text) (s : Store)
    → has_role guild_id role_id discord_id (unassign guild_id role_id discord_id s) ≡ false
unfolding unassign has_role
has_role-unassign g r d s = any-others (is_user g r d) s.role_assignments

module _ (re : Regex) (now : DateTime) (read_tree : Value → Option RuleTree)
    (add_user remove_user : Text → Text → Text → Text → Result AppError (Unit {0}))
    (link : RoleLink) (discord_id : Text) (s : Store) where
  -- Where RoleLogic accepts the addition and the removal of the member, the member has the role
  -- after the sync exactly if the link's rule grants it.
  pub sync_player_link-has_role :
      add_user link.guild_id link.role_id discord_id link.api_token ≡ ok tt
      → remove_user link.guild_id link.role_id discord_id link.api_token ≡ ok tt
      → has_role link.guild_id link.role_id discord_id
          (sync_player_link re now read_tree add_user remove_user link discord_id s)
        ≡ qualifies re now read_tree link discord_id s
  unfolding sync_player_link
  sync_player_link-has_role added removed =
      by_case (qualifies re now read_tree link discord_id s)
        (has_role link.guild_id link.role_id discord_id s) refl
    where
      by_case :
          (q h : Bool)
          → has_role link.guild_id link.role_id discord_id s ≡ h
          → has_role link.guild_id link.role_id discord_id
              (act re now read_tree add_user remove_user link discord_id s q h)
            ≡ q
      by_case true true e = e
      by_case false false e = e
      by_case true false e =
          unfold act after_add in
          rw added (has_role-assign link.guild_id link.role_id discord_id s e)
      by_case false true e =
          unfold act after_remove in
          rw removed (has_role-unassign link.guild_id link.role_id discord_id s)
