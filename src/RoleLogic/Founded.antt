-- ===== src/RoleLogic/Founded.antt =====
-- src/services/rolelogic.rs: computations whose errors rest on an answer that says so.
use kick_channel_role.Prelude.{
  ◌≡◌, ◌⊎◌, inl, inr, refl, sym, ap, Bool, true, false, Option, none, some, List, [], ◌∷◌, ◌++◌,
  ◌==◌, ==_iff, ◌||◌, and-true, if◌then◌else◌, Result, ok, err, ok_or,
}
use kick_channel_role.Prelude.Text.{Text, codes, starts_with, some_suffix, contains}
use kick_channel_role.AppError.{
  AppError, rolelogic, role_link_not_found, role_link_disabled, removal_held,
}
use kick_channel_role.RoleLogic.{
  Request, Response, is_success, link_inactive, is_held, link_gone, Wire, Client, run, return, lift,
  then_run, ◌>>=◌,
}
use kick_channel_role.RoleLogic.Upload.{
  failed_with, link_error, limit_reached, add_error, replace_error, commit_error, call, checked,
  json,
}

-- The text stands somewhere in the body.
abbrev pub Holds : Text → Text → Type 0
Holds body text = (front : Text) × (back : Text) × (body ≡ front ++ text ++ back)

starts_with-split : (p s : Text) → starts_with p s ≡ true → (back : Text) × (s ≡ p ++ back)
unfolding starts_with
starts_with-split [] s e = (s, refl)
starts_with-split (x ∷ p) [] e = absurd (cc e)
starts_with-split (x ∷ p) (y ∷ s) e =
    let (same, rest) = and-true (x == y) (starts_with p s) e in
    let (back, q) = starts_with-split p s rest in
    (back, let e' : y ≡ x = sym ((==_iff x y).0 same) in rw e' (ap (λ l. x ∷ l) q))

contains-Holds : (body text : Text) → contains body text ≡ true → Holds body text
unfolding contains some_suffix
contains-Holds [] text e = let (back, q) = starts_with-split text [] e in ([], back, q)
contains-Holds (c ∷ s) text e = by_case (starts_with text (c ∷ s)) refl (contains-Holds s text) e
  where
    by_case :
        (b : Bool)
        → starts_with text (c ∷ s) ≡ b
        → (some_suffix (starts_with text) s ≡ true → Holds s text)
        → (b || some_suffix (starts_with text) s) ≡ true
        → Holds (c ∷ s) text
    by_case true h k e = let (back, q) = starts_with-split text (c ∷ s) h in ([], back, q)
    by_case false h k e = let (front, back, q) = k e in (c ∷ front, back, ap (λ l. c ∷ l) q)

-- What RoleLogic says when a link is gone, is switched off or paused, or its removals are held.
abbrev pub SaysGone : Response → Type 0
SaysGone r = (r.status ≡ 403) × Holds r.body (codes "Invalid or revoked token")

abbrev pub SaysOff : Response → Type 0
SaysOff r =
    (r.status ≡ 403)
    × (Holds r.body (codes "This role link is disabled")
        ⊎ Holds r.body (codes "This role link is paused"))

abbrev pub SaysHeld : Response → Type 0
SaysHeld r = (r.status ≡ 409) × Holds r.body (codes "confirm_required")

-- What a response must say for an error; nothing for the others.
abbrev pub Says : AppError → Response → Type 0
Says role_link_not_found r = SaysGone r
Says role_link_disabled r = SaysOff r
Says removal_held r = SaysHeld r
Says _ r = Unit

link_gone-SaysGone : (r : Response) → link_gone r.status r.body ≡ true → SaysGone r
unfolding link_gone
link_gone-SaysGone r e =
    let (status, body) = and-true (r.status == 403) _ e in
    ((==_iff r.status 403).0 status, contains-Holds r.body _ body)

link_inactive-SaysOff : (r : Response) → link_inactive r.status r.body ≡ true → SaysOff r
unfolding link_inactive
link_inactive-SaysOff r e =
    let (status, body) = and-true (r.status == 403) _ e in
    (
      (==_iff r.status 403).0 status,
      by_case (contains r.body (codes "This role link is disabled")) refl body,
    )
  where
    by_case :
        (b : Bool)
        → contains r.body (codes "This role link is disabled") ≡ b
        → (b || contains r.body (codes "This role link is paused")) ≡ true
        → Holds r.body (codes "This role link is disabled")
          ⊎ Holds r.body (codes "This role link is paused")
    by_case true h e = inl (contains-Holds r.body _ h)
    by_case false h e = inr (contains-Holds r.body _ e)

is_held-SaysHeld : (r : Response) → is_held r.status r.body ≡ true → SaysHeld r
unfolding is_held
is_held-SaysHeld r e =
    let (status, body) = and-true (r.status == 409) _ e in
    ((==_iff r.status 409).0 status, contains-Holds r.body _ body)

-- The requests `sent`, and then some more.
pub data Grows (sent : List Request) : List Request → Type 0 where
  none_more : Grows sent sent
  one_more : {s : List Request} (q : Request) → Grows sent s → Grows sent (q ∷ s)

Grows-trans : {r s t : List Request} → Grows r s → Grows s t → Grows r t
Grows-trans g none_more = g
Grows-trans g (one_more q h) = one_more q (Grows-trans g h)

module _ (wire : Wire) where
  -- Of the requests that were sent after `sent`, one was answered by a response of this kind.
  pub data WasAnswered (P : Response → Type 0) (sent : List Request) : List Request → Type 0 where
    answered :
        {before : List Request} (q : Request) (r : Response)
        → Grows sent before
        → wire.answer before q ≡ ok r
        → P r
        → WasAnswered P sent (q ∷ before)
    and_then_sent :
        {s : List Request} (q : Request) → WasAnswered P sent s → WasAnswered P sent (q ∷ s)

  WasAnswered-later :
      {P : Response → Type 0} {sent s t : List Request}
      → WasAnswered P sent s
      → Grows s t
      → WasAnswered P sent t
  WasAnswered-later w none_more = w
  WasAnswered-later w (one_more q g) = and_then_sent q (WasAnswered-later w g)

  WasAnswered-earlier :
      {P : Response → Type 0} {r s t : List Request}
      → Grows r s
      → WasAnswered P s t
      → WasAnswered P r t
  WasAnswered-earlier g (answered q a h e p) = answered q a (Grows-trans g h) e p
  WasAnswered-earlier g (and_then_sent q w) = and_then_sent q (WasAnswered-earlier g w)

  -- RoleLogic said that the link is gone, is switched off, or that the removals are held, where the
  -- error says so.
  abbrev pub HasCause : List Request → List Request → AppError → Type 0
  HasCause sent s role_link_not_found = WasAnswered SaysGone sent s
  HasCause sent s role_link_disabled = WasAnswered SaysOff sent s
  HasCause sent s removal_held = WasAnswered SaysHeld sent s
  HasCause sent s _ = Unit

  HasCause-later :
      (sent s t : List Request) (e : AppError) → HasCause sent s e → Grows s t → HasCause sent t e
  HasCause-later sent s t role_link_not_found w g = WasAnswered-later w g
  HasCause-later sent s t role_link_disabled w g = WasAnswered-later w g
  HasCause-later sent s t removal_held w g = WasAnswered-later w g
  HasCause-later sent s t _ w g = tt

  HasCause-earlier :
      (r s t : List Request) (e : AppError) → Grows r s → HasCause s t e → HasCause r t e
  HasCause-earlier r s t role_link_not_found g w = WasAnswered-earlier g w
  HasCause-earlier r s t role_link_disabled g w = WasAnswered-earlier g w
  HasCause-earlier r s t removal_held g w = WasAnswered-earlier g w
  HasCause-earlier r s t _ g w = tt

  HasCause-answered :
      (e : AppError) (sent : List Request) (q : Request) (r : Response)
      → wire.answer sent q ≡ ok r
      → Says e r
      → HasCause sent (q ∷ sent) e
  HasCause-answered role_link_not_found sent q r h p = answered q r none_more h p
  HasCause-answered role_link_disabled sent q r h p = answered q r none_more h p
  HasCause-answered removal_held sent q r h p = answered q r none_more h p
  HasCause-answered _ sent q r h p = tt

  -- The cause of a result, where it is an error.
  abbrev pub ResultHasCause {ℓ} :
      {A : Type ℓ} → List Request → List Request → Result AppError A → Type 0
  ResultHasCause sent s (ok a) = Unit
  ResultHasCause sent s (err e) = HasCause sent s e

  -- A run from `sent` that sends some more requests, and whose error has its cause among these.
  abbrev pub IsFounded {ℓ} : {A : Type ℓ} → List Request → List Request × Result AppError A → Type 0
  IsFounded sent o = Grows sent o.0 × ResultHasCause sent o.0 o.1

  pub record AllFounded {ℓ} {A : Type ℓ} (m : Client A) : Type 0 where
    pub founded : (sent : List Request) → IsFounded sent (run m sent)

  pub AllFounded-return {ℓ} : {A : Type ℓ} (a : A) → AllFounded (return a)
  unfolding return
  AllFounded-return a = record { founded = λ sent. (none_more, tt) }

  pub then_run-IsFounded {ℓ κ} :
      {A : Type ℓ} {B : Type κ} (sent : List Request) (o : List Request × Result AppError A)
      (k : A → Client B)
      → IsFounded sent o
      → ((a : A) → AllFounded (k a))
      → IsFounded sent (then_run o k)
  then_run-IsFounded {B = B} sent (s, ok a) k h hk = later (run (k a) s) ((hk a).founded s)
    where
      later : (o : List Request × Result AppError B) → IsFounded s o → IsFounded sent o
      later (t, ok b) g = (Grows-trans h.0 g.0, tt)
      later (t, err e) g = (Grows-trans h.0 g.0, HasCause-earlier sent s t e h.0 g.1)
  then_run-IsFounded sent (s, err e) k h hk = h

  pub AllFounded-bind {ℓ κ} :
      {A : Type ℓ} {B : Type κ} (m : Client A) (k : A → Client B)
      → AllFounded m
      → ((a : A) → AllFounded (k a))
      → AllFounded (m >>= k)
  unfolding ◌>>=◌
  AllFounded-bind m k h hk = record {
    founded = λ sent. then_run-IsFounded sent (run m sent) k (h.founded sent) hk;
  }

  -- A run that ended in an error, and was cleaned up after.
  pub IsFounded-cleaned :
      (sent s t : List Request) (e : AppError)
      → Grows sent s × HasCause sent s e
      → Grows s t
      → Grows sent t × HasCause sent t e
  IsFounded-cleaned sent s t e h g = (Grows-trans h.0 g, HasCause-later sent s t e h.1 g)

  pub AllFounded-ok_or {ℓ} :
      {A : Type ℓ} (o : Option A) (message : Text) → AllFounded (lift (ok_or o (rolelogic message)))
  unfolding lift
  AllFounded-ok_or none message = record { founded = λ sent. (none_more, tt) }
  AllFounded-ok_or (some a) message = record { founded = λ sent. (none_more, tt) }

  pub json-AllFounded : (r : Response) → AllFounded (json wire r)
  unfolding json
  json-AllFounded r = AllFounded-ok_or (wire.parse_json r.body) _

  -- An error function that blames a response only for what it says.
  pub record IsFair (error : Response → AppError) : Type 0 where
    pub fair : (r : Response) → Says (error r) r

  -- A branch of an error function, and the error of its test.
  branch :
      (e e' : AppError) (r : Response) (test : Bool)
      → (test ≡ true → Says e r)
      → Says e' r
      → Says (if test then e else e') r
  branch e e' r true here there = here refl
  branch e e' r false here there = there

  pub link_error-IsFair : (what : Text) → IsFair (link_error wire what)
  unfolding link_error failed_with
  link_error-IsFair what = record {
    fair = λ r.
        branch _ _ r (link_gone r.status r.body) (link_gone-SaysGone r)
          (branch _ _ r (link_inactive r.status r.body) (link_inactive-SaysOff r) tt);
  }

  pub add_error-IsFair : IsFair (add_error wire)
  unfolding add_error failed_with
  add_error-IsFair = record {
    fair = λ r. branch _ _ r (link_gone r.status r.body) (link_gone-SaysGone r) (
        branch _ _ r (link_inactive r.status r.body) (link_inactive-SaysOff r)
          (branch _ _ r (limit_reached wire r.status r.body) (λ a. tt) tt));
  }

  pub replace_error-IsFair : IsFair (replace_error wire)
  unfolding replace_error failed_with
  replace_error-IsFair = record {
    fair = λ r. branch _ _ r (link_gone r.status r.body) (link_gone-SaysGone r) (
        branch _ _ r (link_inactive r.status r.body) (link_inactive-SaysOff r)
          (branch _ _ r (is_held r.status r.body) (is_held-SaysHeld r) tt));
  }

  pub commit_error-IsFair : IsFair (commit_error wire)
  unfolding commit_error failed_with
  commit_error-IsFair = record {
    fair = λ r. branch _ _ r (is_held r.status r.body) (is_held-SaysHeld r) tt;
  }

  pub failed_with-IsFair : (what : Text) → IsFair (failed_with wire what)
  unfolding failed_with
  failed_with-IsFair what = record { fair = λ r. tt }

  checked-ResultHasCause :
      (error : Response → AppError) (sent : List Request) (q : Request) (a : Result Text Response)
      → wire.answer sent q ≡ a
      → IsFair error
      → ResultHasCause sent (q ∷ sent) (checked wire error a)
  unfolding checked
  checked-ResultHasCause error sent q (err e) h f = tt
  checked-ResultHasCause error sent q (ok r) h f = by_status (is_success r.status)
    where
      by_status : (b : Bool) → ResultHasCause sent (q ∷ sent) (if b then ok r else err (error r))
      by_status true = tt
      by_status false = HasCause-answered (error r) sent q r h (f.fair r)

  pub call-AllFounded :
      (error : Response → AppError) (q : Request) → IsFair error → AllFounded (call wire error q)
  unfolding call
  call-AllFounded error q f = record {
    founded = λ sent.
        (one_more q none_more, checked-ResultHasCause error sent q (wire.answer sent q) refl f);
  }
