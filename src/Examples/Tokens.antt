-- ===== src/Examples/Tokens.antt =====
-- Tokens and origins at work.
use kick_channel_role.Prelude.{ℕ, ◌≡◌, ◌↔◌, refl, true, some, List, [], ◌∷◌, ok, arith}
use kick_channel_role.Prelude.Int.{pos, ◌+ℤ◌}
use kick_channel_role.Prelude.Text.{
  Text, codes, text_eq, match_str, trim_end, trim_start, to_ascii_lowercase,
}
use kick_channel_role.Validator.{parse_i64}
use kick_channel_role.ApiKey.{strip_prefix}
use kick_channel_role.IframeSession.{
  Session, splits, onto_first, xor, or, differences, constant_time_eq, utf8, as_bytes, payload_of,
  verify_fields, verify_parts, verify_iframe_session,
}
use kick_channel_role.IframeSession.Bytes.{constant_time_eq_iff}
use kick_channel_role.IframeSession.Signed.{IsSigned, verify-IsSigned}
use kick_channel_role.RlToken.{
  Crates, Verified, aud_matches, is_jwt, wrapping_add, require, check_claims, check_parts,
  verify_split, verify,
}
use kick_channel_role.RlToken.Genuine.{IsGenuine, verify-IsGenuine}
use kick_channel_role.CookieSession.{
  signed_text, check_cookie, cookie_parts, verify_session, IsSignedCookie,
  verify_session-IsSignedCookie,
}
use kick_channel_role.Csrf.{verify_origin, HasAllowedOrigin, verify_origin_iff}

abbrev sent : List ℕ
sent = 7 ∷ 200 ∷ []

abbrev expected : List ℕ
expected = 7 ∷ 201 ∷ []

constant_time_eq_iff_example : (constant_time_eq sent expected ≡ true) ↔ (sent ≡ expected)
constant_time_eq_iff_example =
    constant_time_eq_iff sent expected (omega arith, (omega arith, tt))
      (omega arith, (omega arith, tt))

abbrev mac : Text → Text → Text
mac secret payload = codes "ab"

abbrev read_only : Session
read_only = record {
  discord_id = codes "1";
  guild_id = codes "2";
  role_id = codes "3";
  read_only = true;
}

verify-IsSigned_example : IsSigned mac (pos 5) (codes "s") (codes "ifs:1:2:3:1:99:ab") read_only
unfolding verify_iframe_session verify_parts verify_fields splits onto_first strip_prefix match_str
    text_eq parse_i64 constant_time_eq differences xor or utf8 as_bytes payload_of
verify-IsSigned_example =
    verify-IsSigned mac (pos 5) (codes "s") (codes "ifs:1:2:3:1:99:ab") read_only refl

abbrev crates : Crates
crates = record {
  decode = λ t. some t;
  hmac = λ key input. codes "x";
  read_header = λ b. some (record { alg = codes "HS256"; typ = some (codes "JWT") });
  read_claims = λ b. some (record {
    iss = codes "rolelogic";
    aud = codes "https://k/";
    sub = codes "1";
    guild_id = codes "2";
    role_id = codes "3";
    exp = pos 100;
    read_only = true;
    act = some (codes "4");
  });
}

abbrev verified : Verified
verified = record {
  discord_id = codes "1";
  guild_id = codes "2";
  role_id = codes "3";
  read_only = true;
  actor_id = some (codes "4");
}

verify-IsGenuine_example :
    IsGenuine crates (pos 150) (codes "rl_a") (codes "https://k") (codes "h.p.x") verified
unfolding verify verify_split check_parts check_claims require aud_matches is_jwt wrapping_add
    splits onto_first text_eq trim_end trim_start to_ascii_lowercase ◌+ℤ◌
verify-IsGenuine_example =
    verify-IsGenuine crates (pos 150) (codes "rl_a") (codes "https://k") (codes "h.p.x") verified
      refl

verify_origin_iff_example :
    (verify_origin (some (codes "https://k/")) (codes "https://k" ∷ []) ≡ ok tt)
    ↔ HasAllowedOrigin (some (codes "https://k/")) (codes "https://k" ∷ [])
verify_origin_iff_example = verify_origin_iff (some (codes "https://k/")) (codes "https://k" ∷ [])

verify_session-IsSignedCookie_example :
    IsSignedCookie mac (λ t. some t) (pos 5) (codes "s") (codes "1:n:99:ab") (codes "1", codes "n")
unfolding verify_session cookie_parts check_cookie signed_text splits onto_first parse_i64
    constant_time_eq differences xor or utf8 as_bytes
verify_session-IsSignedCookie_example =
    verify_session-IsSignedCookie mac (λ t. some t) (pos 5) (codes "s") (codes "1:n:99:ab")
      (codes "1", codes "n") refl
