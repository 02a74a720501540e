-- ===== src/RlToken.antt =====
-- src/services/rl_token.rs, `verify`: the token that RoleLogic signs for the configuration page.
-- Base64, the HMAC, and the reading of the two JSON objects are arguments.
pub mod Genuine
use kick_channel_role.Prelude.{
  ℕ, ◌^◌, Bool, true, false, not, Option, none, some, List, [], ◌∷◌, ◌++◌, ◌==◌, if◌then◌else◌,
  Result, ok, err, ◌>>=◌, ok_or,
}
use kick_channel_role.Prelude.Int.{ℤ, pos, ◌+ℤ◌, ◌-ℤ◌, ltb_ℤ, i64_max}
use kick_channel_role.Prelude.Text.{Text, codes, text_eq, trim_end, to_ascii_lowercase}
use kick_channel_role.IframeSession.{splits}

pub data RlTokenError : Type 0 where
  malformed bad_signature expired wrong_audience wrong_issuer : RlTokenError

pub record Header : Type 0 where
  pub alg : Text
  pub typ : Option Text

pub record Claims : Type 0 where
  pub iss : Text
  pub aud : Text
  pub sub : Text
  pub guild_id : Text
  pub role_id : Text
  pub exp : ℤ
  pub read_only : Bool
  pub act : Option Text

pub record Verified : Type 0 where
  pub discord_id : Text
  pub guild_id : Text
  pub role_id : Text
  pub read_only : Bool
  pub actor_id : Option Text

-- What the crates do.
pub record Crates : Type 0 where
  pub decode : Text → Option (List ℕ)
  pub hmac : Text → Text → List ℕ
  pub read_header : List ℕ → Option Header
  pub read_claims : List ℕ → Option Claims

-- `trim_end_matches('/')`.
abbrev pub trim_slashes : Text → Text
trim_slashes s = trim_end (λ c. c == 47) s

unfoldable pub aud_matches : Text → Text → Bool
aud_matches claim_aud expected = text_eq (trim_slashes claim_aud) (trim_slashes expected)

-- `eq_ignore_ascii_case("JWT")`, where there is a type.
unfoldable pub is_jwt : Option Text → Bool
is_jwt none = true
is_jwt (some typ) = text_eq (to_ascii_lowercase typ) (codes "jwt")

-- An `i64` sum of which the second is small.
unfoldable pub wrapping_add : ℤ → ℤ → ℤ
wrapping_add a b = if ltb_ℤ i64_max (a +ℤ b) then (a +ℤ b) -ℤ pos (2 ^ 64) else a +ℤ b

abbrev pub allowed_skew_secs : ℤ
allowed_skew_secs = pos 60

unfoldable pub require : Bool → RlTokenError → Result RlTokenError (Unit {0})
require true e = ok tt
require false e = err e

module _ (crates : Crates) (now : ℤ) (key expected_aud : Text) where
  unfoldable pub check_claims : Claims → Result RlTokenError Verified
  unfolding require wrapping_add aud_matches
  check_claims claims = do
    u ← require (text_eq claims.iss (codes "rolelogic")) wrong_issuer
    v ← require (aud_matches claims.aud expected_aud) wrong_audience
    w ← require (not (ltb_ℤ (wrapping_add claims.exp allowed_skew_secs) now)) expired
    ok (record {
      discord_id = claims.sub;
      guild_id = claims.guild_id;
      role_id = claims.role_id;
      read_only = claims.read_only;
      actor_id = claims.act;
    })

  unfoldable pub check_parts : Text → Text → Text → Result RlTokenError Verified
  unfolding check_claims is_jwt
  check_parts header_b64 payload_b64 sig_b64 = do
    header_bytes ← ok_or (crates.decode header_b64) malformed
    payload_bytes ← ok_or (crates.decode payload_b64) malformed
    sig_bytes ← ok_or (crates.decode sig_b64) malformed
    header ← ok_or (crates.read_header header_bytes) malformed
    u ← require (text_eq header.alg (codes "HS256")) bad_signature
    v ← require (is_jwt header.typ) malformed
    w ←
        require (text_eq (crates.hmac key (header_b64 ++ codes "." ++ payload_b64)) sig_bytes)
          bad_signature
    claims ← ok_or (crates.read_claims payload_bytes) malformed
    check_claims claims

  unfoldable pub verify_split : List Text → Result RlTokenError Verified
  unfolding check_parts
  verify_split (header_b64 ∷ payload_b64 ∷ sig_b64 ∷ []) =
      check_parts header_b64 payload_b64 sig_b64
  verify_split _ = err malformed

  unfoldable pub verify : Text → Result RlTokenError Verified
  unfolding verify_split splits
  verify token = verify_split (splits 2 46 token)
