-- ===== src/RlToken/Genuine.antt =====
-- src/services/rl_token.rs, `verify`: which tokens are accepted.
use kick_channel_role.Prelude.{
  ℕ, ◌≡◌, refl, sym, ap, ◌∙◌, Bool, true, false, not, Option, none, some, List, [], ◌∷◌, ◌++◌,
  append_assoc, ok, >>=-eq-ok, ok_or, arith,
}
use mathlib.Core.Path.{subst}
use kick_channel_role.Prelude.Int.{ℤ, ltb_ℤ}
use kick_channel_role.Prelude.Text.{Text, codes, text_eq, text_eq_sound}
use kick_channel_role.IframeSession.{splits}
use kick_channel_role.IframeSession.Signed.{join, join-splits}
use kick_channel_role.RlToken.{
  RlTokenError, malformed, bad_signature, expired, wrong_audience, wrong_issuer, Claims, Verified,
  Crates, trim_slashes, aud_matches, is_jwt, wrapping_add, allowed_skew_secs, require, check_claims,
  check_parts, verify_split, verify,
}

require-true : (b : Bool) (e : RlTokenError) (u : Unit {0}) → require b e ≡ ok u → b ≡ true
unfolding require
require-true true e u h = refl
require-true false e u h = absurd (cc h)

ok_or-some {ℓ} :
    {A : Type ℓ} (o : Option A) (e : RlTokenError) (a : A) → ok_or o e ≡ ok a → o ≡ some a
ok_or-some none e a h = absurd (cc h)
ok_or-some (some x) e a h = cc h

module _ (crates : Crates) (now : ℤ) (key expected_aud : Text) where
  -- The claims that are accepted, and who they are for.
  pub record AreAccepted (c : Claims) (v : Verified) : Type 0 where
    issuer : c.iss ≡ codes "rolelogic"
    audience : trim_slashes c.aud ≡ trim_slashes expected_aud
    in_time : ltb_ℤ (wrapping_add c.exp allowed_skew_secs) now ≡ false
    same : v ≡ record {
      discord_id = c.sub;
      guild_id = c.guild_id;
      role_id = c.role_id;
      read_only = c.read_only;
      actor_id = c.act;
    }

  -- A token of three parts, the third the HMAC of the first two under the link's own key.
  pub data IsGenuine (token : Text) (v : Verified) : Type 0 where
    genuine :
        (header_b64 payload_b64 sig_b64 : Text) (bytes : List ℕ) (c : Claims)
        → token ≡ header_b64 ++ codes "." ++ payload_b64 ++ codes "." ++ sig_b64
        → crates.decode sig_b64 ≡ some (crates.hmac key (header_b64 ++ codes "." ++ payload_b64))
        → crates.decode payload_b64 ≡ some bytes
        → crates.read_claims bytes ≡ some c
        → AreAccepted c v
        → IsGenuine token v

  claims-AreAccepted :
      (c : Claims) (v : Verified)
      → check_claims crates now key expected_aud c ≡ ok v
      → AreAccepted c v
  unfolding check_claims aud_matches
  claims-AreAccepted c v h =
      let (u1, i, h1) = >>=-eq-ok (require (text_eq c.iss (codes "rolelogic")) wrong_issuer) _ h in
      let (u2, a, h2) = >>=-eq-ok (require (aud_matches c.aud expected_aud) wrong_audience) _ h1 in
      let (u3, x, h3) =
        >>=-eq-ok (require (not (ltb_ℤ (wrapping_add c.exp allowed_skew_secs) now)) expired) _ h2 in
      record {
        issuer = text_eq_sound c.iss (codes "rolelogic") (require-true _ _ u1 i);
        audience =
            text_eq_sound (trim_slashes c.aud) (trim_slashes expected_aud) (require-true _ _ u2 a);
        in_time = let t = require-true _ _ u3 x in ground (arith, t);
        same = cc h3;
      }

  parts-IsGenuine :
      (token h p s : Text) (v : Verified)
      → token ≡ h ++ codes "." ++ p ++ codes "." ++ s
      → check_parts crates now key expected_aud h p s ≡ ok v
      → IsGenuine token v
  unfolding check_parts
  parts-IsGenuine token h p s v whole e =
      let (hb, d1, e1) = >>=-eq-ok (ok_or (crates.decode h) malformed) _ e in
      let (pb, d2, e2) = >>=-eq-ok (ok_or (crates.decode p) malformed) _ e1 in
      let (sb, d3, e3) = >>=-eq-ok (ok_or (crates.decode s) malformed) _ e2 in
      let (header, r1, e4) = >>=-eq-ok (ok_or (crates.read_header hb) malformed) _ e3 in
      let (u1, g1, e5) =
        >>=-eq-ok (require (text_eq header.alg (codes "HS256")) bad_signature) _ e4 in
      let (u2, g2, e6) = >>=-eq-ok (require (is_jwt header.typ) malformed) _ e5 in
      let (u3, g3, e7) =
        >>=-eq-ok (require (text_eq (crates.hmac key (h ++ codes "." ++ p)) sb) bad_signature) _
          e6 in
      let (c, r2, e8) = >>=-eq-ok (ok_or (crates.read_claims pb) malformed) _ e7 in
      let signed =
        text_eq_sound (crates.hmac key (h ++ codes "." ++ p)) sb (require-true _ _ u3 g3) in
      genuine h p s pb c whole (ok_or-some _ _ sb d3 ∙ ap some (sym signed)) (ok_or-some _ _ pb d2)
        (ok_or-some _ _ c r2) (claims-AreAccepted c v e8)

  split-IsGenuine :
      (ps : List Text) (v : Verified)
      → verify_split crates now key expected_aud ps ≡ ok v
      → IsGenuine (join 46 ps) v
  unfolding verify_split
  split-IsGenuine (h ∷ p ∷ s ∷ []) v e =
      parts-IsGenuine (join 46 (h ∷ p ∷ s ∷ [])) h p s v (simp append_assoc) e
  split-IsGenuine [] v e = absurd (cc e)
  split-IsGenuine (a ∷ []) v e = absurd (cc e)
  split-IsGenuine (a ∷ b ∷ []) v e = absurd (cc e)
  split-IsGenuine (a ∷ b ∷ c ∷ d ∷ ps) v e = absurd (cc e)

  -- A token that is accepted has three parts, the third of which is the HMAC of the other two under
  -- the link's own key; its claims name RoleLogic and this plugin, and are no more than a minute
  -- past their expiry; and the result is what the claims say, the restriction to reading included.
  pub verify-IsGenuine :
      (token : Text) (v : Verified)
      → verify crates now key expected_aud token ≡ ok v
      → IsGenuine token v
  unfolding verify
  verify-IsGenuine token v e =
      subst (λ t. IsGenuine t v) (join-splits 2 46 token) (split-IsGenuine (splits 2 46 token) v e)
