-- ===== src/Csrf.antt =====
-- src/services/csrf.rs: the origin of a request that changes something. A header that is absent or
-- cannot be read is none.
use kick_channel_role.Prelude.{
  ◌≡◌, ◌↔◌, refl, Bool, true, false, Option, none, some, List, [], ◌∷◌, ◌++◌, if◌then◌else◌, Result,
  ok, err,
}
use kick_channel_role.Prelude.Text.{Text, codes, text_eq, text_eq_sound, text_eq_refl}
use kick_channel_role.AppError.{AppError, forbidden}
use kick_channel_role.RlToken.{trim_slashes}

unfoldable pub verify_trimmed : Text → Text → List Text → Result AppError (Unit {0})
verify_trimmed origin origin_norm [] = err (
    forbidden (codes "Origin '" ++ origin ++ codes "' is not allowed for state-changing requests."))
verify_trimmed origin origin_norm (allowed ∷ rest) =
    let later = verify_trimmed origin origin_norm rest in
    if text_eq origin_norm (trim_slashes allowed) then ok tt else later

unfoldable pub verify_origin : Option Text → List Text → Result AppError (Unit {0})
unfolding verify_trimmed
verify_origin none allowed_origins =
    err (forbidden (codes "State-changing requests must include an Origin header."))
verify_origin (some origin) allowed_origins =
    verify_trimmed origin (trim_slashes origin) allowed_origins

-- The origin is one of the list, up to slashes at the end.
pub data IsAllowed : Text → List Text → Type 0 where
  here :
      {origin allowed : Text} {rest : List Text}
      → trim_slashes origin ≡ trim_slashes allowed
      → IsAllowed origin (allowed ∷ rest)
  later :
      {origin allowed : Text} {rest : List Text}
      → IsAllowed origin rest
      → IsAllowed origin (allowed ∷ rest)

trimmed-IsAllowed :
    (origin : Text) (rest : List Text)
    → verify_trimmed origin (trim_slashes origin) rest ≡ ok tt
    → IsAllowed origin rest
unfolding verify_trimmed
trimmed-IsAllowed origin [] e = absurd (cc e)
trimmed-IsAllowed origin (a ∷ rest) e =
    by_first (text_eq (trim_slashes origin) (trim_slashes a)) refl e (trimmed-IsAllowed origin rest)
  where
    by_first :
        (b : Bool)
        → text_eq (trim_slashes origin) (trim_slashes a) ≡ b
        → (if b then ok tt else verify_trimmed origin (trim_slashes origin) rest) ≡ ok tt
        → (verify_trimmed origin (trim_slashes origin) rest ≡ ok tt → IsAllowed origin rest)
        → IsAllowed origin (a ∷ rest)
    by_first true s e' k = here (text_eq_sound _ _ s)
    by_first false s e' k = later (k e')

IsAllowed-trimmed :
    (origin : Text) (rest : List Text)
    → IsAllowed origin rest
    → verify_trimmed origin (trim_slashes origin) rest ≡ ok tt
unfolding verify_trimmed
IsAllowed-trimmed origin [] h = elim h [ ]
IsAllowed-trimmed origin (a ∷ rest) (here s) = rw s (rw (text_eq_refl (trim_slashes a)) refl)
IsAllowed-trimmed origin (a ∷ rest) (later h) =
    by_first (text_eq (trim_slashes origin) (trim_slashes a)) (IsAllowed-trimmed origin rest h)
  where
    by_first :
        (b : Bool)
        → verify_trimmed origin (trim_slashes origin) rest ≡ ok tt
        → (if b then ok tt else verify_trimmed origin (trim_slashes origin) rest) ≡ ok tt
    by_first true k = refl
    by_first false k = k

-- A header that holds an allowed origin.
abbrev pub HasAllowedOrigin : Option Text → List Text → Type 0
HasAllowedOrigin none allowed_origins = ⊥
HasAllowedOrigin (some origin) allowed_origins = IsAllowed origin allowed_origins

-- A request passes exactly if it has an origin that is one of those allowed, up to the slashes at
-- its end; one without an Origin header does not pass.
pub verify_origin_iff :
    (header : Option Text) (allowed_origins : List Text)
    → (verify_origin header allowed_origins ≡ ok tt) ↔ HasAllowedOrigin header allowed_origins
unfolding verify_origin
verify_origin_iff none allowed_origins = (λ e. absurd (cc e), λ h. absurd h)
verify_origin_iff (some origin) allowed_origins =
    (trimmed-IsAllowed origin allowed_origins, IsAllowed-trimmed origin allowed_origins)
