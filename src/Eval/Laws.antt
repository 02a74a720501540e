-- ===== src/Eval/Laws.antt =====
-- What a rule tree grants: the disjunctive normal form, and the rule that grants to nobody.
use kick_channel_role.Prelude.{
  Bool, true, false, not, ◌&&◌, ◌≡◌, ◌≢◌, refl, ◌↔◌, ◌⊎◌, inl, inr, List, [], ◌∷◌, all, any,
  is_empty, All, arith, Bool-cases, and-true,
}
use kick_channel_role.Rule.Condition.{Condition}
use kick_channel_role.Rule.Tree.{ConditionGroup, RuleTree}
use kick_channel_role.Rule.Facts.{DateTime, Facts}
use kick_channel_role.Eval.{Regex, evaluate_single, evaluate}

-- Some element of the list satisfies `P`.
pub data Some {A : Type 0} (P : A → Type 0) : List A → Type 0 where
  here : {x : A} {xs : List A} → P x → Some P (x ∷ xs)
  there : {x : A} {xs : List A} → Some P xs → Some P (x ∷ xs)

none_of_nil : {A : Type 0} {P : A → Type 0} {xs : List A} → xs ≡ [] → Some P xs → ⊥
none_of_nil e (here p) = cc
none_of_nil e (there s) = cc

module _ {A : Type 0} (P : A → Type 0) (p : A → Bool) (p_iff : (a : A) → (p a ≡ true) ↔ P a) where
  all_iff : (xs : List A) → (all p xs ≡ true) ↔ All P xs
  all_iff [] = (λ _. tt, λ _. refl)
  all_iff (x ∷ xs) = (
    λ e. let (q, r) = and-true (p x) (all p xs) e in ((p_iff x).0 q, (all_iff xs).0 r),
    λ (q, r). rw ((p_iff x).1 q, (all_iff xs).1 r),
  )

  any-Some : (xs : List A) → any p xs ≡ true → Some P xs
  any-Some [] e = cc
  any-Some (x ∷ xs) e = elim (Bool-cases (p x)) [
    | inl q ↦ here ((p_iff x).0 q)
    | inr q ↦ there (any-Some xs (rw q at e))
  ]

  Some-any : {xs : List A} → Some P xs → any p xs ≡ true
  Some-any (here {x} q) = rw ((p_iff x).1 q)
  Some-any (there {x} {xs} s) = ground (arith, Some-any s)

  any_iff : (xs : List A) → (any p xs ≡ true) ↔ Some P xs
  any_iff xs = (any-Some xs, λ s. Some-any s)

module _ (re : Regex) (now : DateTime) (facts : Facts) where
  -- A group that is not empty, all of whose conditions hold.
  abbrev pub GroupHolds : ConditionGroup → Type 0
  GroupHolds g = (g.conditions ≢ []) × All (λ c. evaluate_single re now c facts ≡ true) g.conditions

  conditions_iff :
      (cs : List Condition)
      → ((not (is_empty cs) && all (λ c. evaluate_single re now c facts) cs) ≡ true)
        ↔ ((cs ≢ []) × All (λ c. evaluate_single re now c facts ≡ true) cs)
  conditions_iff [] = (λ e. cc, λ (ne, _). absurd (ne refl))
  conditions_iff (c ∷ cs) =
      let (to, from) =
        all_iff _ (λ c. evaluate_single re now c facts) (λ c. (λ e. e, λ e. e)) (c ∷ cs) in
      (λ e. (λ p. cc p, to e), λ (_, h). from h)

  -- A tree is met exactly when it grants on any relation, or some group of it is not empty and all
  -- the conditions of that group are met.
  pub evaluate_iff :
      (tree : RuleTree)
      → (evaluate re now tree facts ≡ true)
        ↔ ((tree.grant_on_any_relation ≡ true) ⊎ Some GroupHolds tree.groups)
  unfolding evaluate
  evaluate_iff tree = by_shape tree.grant_on_any_relation tree.groups
    where
      matched : ConditionGroup → Bool
      matched g =
          not (is_empty g.conditions) && all (λ c. evaluate_single re now c facts) g.conditions

      by_shape :
          (grant : Bool) (groups : List ConditionGroup)
          → (evaluate re now (record { grant_on_any_relation = grant; groups = groups }) facts
              ≡ true)
            ↔ ((grant ≡ true) ⊎ Some GroupHolds groups)
      by_shape true groups = (λ _. inl refl, λ _. refl)
      by_shape false [] = (λ e. cc, elim [ inl e ↦ cc | inr s ↦ absurd (none_of_nil refl s) ])
      by_shape false (g ∷ groups) =
          let (to, from) =
            any_iff GroupHolds matched (λ g. conditions_iff g.conditions) (g ∷ groups) in
          (λ e. inr (to e), elim [ inl e ↦ cc | inr s ↦ from s ])
