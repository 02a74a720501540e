-- ===== src/CookieSession.antt =====
-- src/services/session.rs, `verify_session`: the cookie of a signed-in browser. The hex text of the
-- HMAC, and the decoding of a name, are arguments.
use kick_channel_role.Prelude.{
  ◌≡◌, refl, Bool, true, false, Option, none, some, List, [], ◌∷◌, ◌++◌, append_assoc,
  if◌then◌else◌, and_then,
}
use mathlib.Core.Path.{subst}
use kick_channel_role.Prelude.Int.{ℤ, ltb_ℤ}
use kick_channel_role.Prelude.Text.{Text, codes}
use kick_channel_role.Validator.{parse_i64}
use kick_channel_role.IframeSession.{splits, constant_time_eq, as_bytes}
use kick_channel_role.IframeSession.Bytes.{constant_time_eq_iff, as_bytes-IsByte}
use kick_channel_role.IframeSession.Signed.{join, join-splits, and_then-some}

module _ (mac : Text → Text → Text) (url_decode : Text → Option Text) where
  unfoldable pub signed_text : Text → Text → Text → Text
  signed_text discord_id name exp = discord_id ++ codes ":" ++ name ++ codes ":" ++ exp

  unfoldable pub check_cookie : ℤ → Text → Text → Text → Text → Text → ℤ → Option (Text × Text)
  unfolding signed_text
  check_cookie now secret discord_id name exp sig expires =
      if ltb_ℤ expires now
      then none
      else if constant_time_eq (as_bytes sig)
          (as_bytes (mac secret (signed_text discord_id name exp)))
      then and_then (url_decode name) (λ display_name. some (discord_id, display_name))
      else none

  unfoldable pub cookie_parts : ℤ → Text → List Text → Option (Text × Text)
  unfolding check_cookie
  cookie_parts now secret (discord_id ∷ name ∷ exp ∷ sig ∷ []) =
      and_then (parse_i64 exp) (λ expires. check_cookie now secret discord_id name exp sig expires)
  cookie_parts now secret _ = none

  unfoldable pub verify_session : ℤ → Text → Text → Option (Text × Text)
  unfolding cookie_parts splits
  verify_session now secret cookie = cookie_parts now secret (splits 3 58 cookie)

  -- A cookie of four fields, the last the HMAC of the others, that has not expired.
  pub data IsSignedCookie (now : ℤ) (secret cookie : Text) (who : Text × Text) : Type 0 where
    signed :
        (name exp sig : Text) (expires : ℤ)
        → cookie ≡ signed_text who.0 name exp ++ codes ":" ++ sig
        → url_decode name ≡ some who.1
        → parse_i64 exp ≡ some expires
        → ltb_ℤ expires now ≡ false
        → as_bytes sig ≡ as_bytes (mac secret (signed_text who.0 name exp))
        → IsSignedCookie now secret cookie who

  check_cookie-IsSignedCookie :
      (now : ℤ) (secret cookie d name exp sig : Text) (expires : ℤ) (who : Text × Text)
      → cookie ≡ signed_text d name exp ++ codes ":" ++ sig
      → parse_i64 exp ≡ some expires
      → check_cookie now secret d name exp sig expires ≡ some who
      → IsSignedCookie now secret cookie who
  unfolding check_cookie
  check_cookie-IsSignedCookie now secret cookie d name exp sig expires who whole x e =
      by_checks (ltb_ℤ expires now)
        (constant_time_eq (as_bytes sig) (as_bytes (mac secret (signed_text d name exp)))) refl refl
        e
    where
      by_checks :
          (late same : Bool)
          → ltb_ℤ expires now ≡ late
          → constant_time_eq (as_bytes sig) (as_bytes (mac secret (signed_text d name exp))) ≡ same
          → (if late
              then none
              else if same
              then and_then (url_decode name) (λ display_name. some (d, display_name))
              else none)
            ≡ some who
          → IsSignedCookie now secret cookie who
      by_checks true same l c e' = absurd (cc e')
      by_checks false false l c e' = absurd (cc e')
      by_checks false true l c e' =
          let (shown, u, e'') = and_then-some (url_decode name) (λ n. some (d, n)) who e' in
          let bytes =
            (constant_time_eq_iff (as_bytes sig) (as_bytes (mac secret (signed_text d name exp)))
                (as_bytes-IsByte sig) (as_bytes-IsByte (mac secret (signed_text d name exp)))).0
              c in
          let own : (d, shown) ≡ who = cc e'' in
          subst (λ w. IsSignedCookie now secret cookie w) own
            (signed name exp sig expires whole u x l bytes)

  parts-IsSignedCookie :
      (now : ℤ) (secret : Text) (ps : List Text) (who : Text × Text)
      → cookie_parts now secret ps ≡ some who
      → IsSignedCookie now secret (join 58 ps) who
  unfolding cookie_parts signed_text
  parts-IsSignedCookie now secret (d ∷ name ∷ exp ∷ sig ∷ []) who e =
      let (expires, x, e') = and_then-some (parse_i64 exp) _ who e in
      check_cookie-IsSignedCookie now secret _ d name exp sig expires who (simp append_assoc) x e'
  parts-IsSignedCookie now secret [] who e = absurd (cc e)
  parts-IsSignedCookie now secret (a ∷ []) who e = absurd (cc e)
  parts-IsSignedCookie now secret (a ∷ b ∷ []) who e = absurd (cc e)
  parts-IsSignedCookie now secret (a ∷ b ∷ c ∷ []) who e = absurd (cc e)
  parts-IsSignedCookie now secret (a ∷ b ∷ c ∷ d ∷ f ∷ ps) who e = absurd (cc e)

  -- A cookie that is accepted has four fields: the identifier that is returned, a name that decodes
  -- to the one returned, an expiry that has not passed, and the HMAC of these three.
  pub verify_session-IsSignedCookie :
      (now : ℤ) (secret cookie : Text) (who : Text × Text)
      → verify_session now secret cookie ≡ some who
      → IsSignedCookie now secret cookie who
  unfolding verify_session
  verify_session-IsSignedCookie now secret cookie who e =
      subst (λ c. IsSignedCookie now secret c who) (join-splits 3 58 cookie)
        (parts-IsSignedCookie now secret (splits 3 58 cookie) who e)
