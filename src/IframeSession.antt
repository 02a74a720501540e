-- ===== src/IframeSession.antt =====
-- src/services/rl_token.rs, the session token of the iframe: `verify_iframe_session`. The hex text
-- of the HMAC of a secret and a payload is an argument.
pub mod Bytes
pub mod Signed
use kick_channel_role.Prelude.{
  ℕ, zero, suc, ◌+◌, ◌*◌, ◌/◌, ◌%◌, Bool, true, false, ◌&&◌, Option, none, some, List, [], ◌∷◌,
  ◌++◌, length, ltb, ◌==◌, if◌then◌else◌, and_then,
}
use kick_channel_role.Prelude.Int.{ℤ, ltb_ℤ}
use kick_channel_role.Prelude.Text.{Text, codes, match_str}
use kick_channel_role.Validator.{parse_i64}
use kick_channel_role.ApiKey.{strip_prefix}

pub record Session : Type 0 where
  pub discord_id : Text
  pub guild_id : Text
  pub role_id : Text
  pub read_only : Bool

-- `str::splitn(n + 1, c)`.
unfoldable pub onto_first : ℕ → List Text → List Text
onto_first x [] = (x ∷ []) ∷ []
onto_first x (p ∷ ps) = (x ∷ p) ∷ ps

unfoldable pub splits : ℕ → ℕ → Text → List Text
unfolding onto_first
splits zero c s = s ∷ []
splits (suc n) c [] = [] ∷ []
splits (suc n) c (x ∷ s) =
    let next = splits n c s in
    let same = splits (suc n) c s in if x == c then [] ∷ next else onto_first x same

-- `^` and `|` on the lowest `w` bits.
unfoldable pub xor : ℕ → ℕ → ℕ → ℕ
xor zero x y = 0
xor (suc w) x y =
    let rest = xor w (x / 2) (y / 2) in if x % 2 == y % 2 then 2 * rest else 1 + 2 * rest

unfoldable pub or : ℕ → ℕ → ℕ → ℕ
or zero x y = 0
or (suc w) x y =
    let rest = or w (x / 2) (y / 2) in if x % 2 == 0 && y % 2 == 0 then 2 * rest else 1 + 2 * rest

-- The loop over two lists of bytes.
unfoldable pub differences : ℕ → List ℕ → List ℕ → ℕ
unfolding xor or
differences diff (x ∷ xs) (y ∷ ys) = differences (or 8 diff (xor 8 x y)) xs ys
differences diff _ _ = diff

unfoldable pub constant_time_eq : List ℕ → List ℕ → Bool
unfolding differences
constant_time_eq a b = if length a == length b then differences 0 a b == 0 else false

-- A character in UTF-8.
unfoldable pub utf8 : ℕ → List ℕ
utf8 c =
    if ltb c 0x80
    then c % 256 ∷ []
    else if ltb c 0x800
    then (0xC0 + c / 64) % 256 ∷ (0x80 + c % 64) % 256 ∷ []
    else if ltb c 0x10000
    then (0xE0 + c / 4096) % 256 ∷ (0x80 + c / 64 % 64) % 256 ∷ (0x80 + c % 64) % 256 ∷ []
    else (0xF0 + c / 262144) % 256
      ∷ (0x80 + c / 4096 % 64) % 256
      ∷ (0x80 + c / 64 % 64) % 256
      ∷ (0x80 + c % 64) % 256
      ∷ []

unfoldable pub as_bytes : Text → List ℕ
unfolding utf8
as_bytes [] = []
as_bytes (c ∷ s) = utf8 c ++ as_bytes s

abbrev pub flag_arms : List (Text × Bool)
flag_arms = (codes "0", false) ∷ (codes "1", true) ∷ []

-- The texts of the fields, `:` between them.
unfoldable pub payload_of : Text → Text → Text → Text → Text → Text
payload_of discord_id guild_id role_id ro exp =
    discord_id
    ++ codes ":"
    ++ guild_id
    ++ codes ":"
    ++ role_id
    ++ codes ":"
    ++ ro
    ++ codes ":"
    ++ exp

module _ (mac : Text → Text → Text) where
  -- The fields, once the flag and the expiry are read.
  unfoldable pub verify_fields :
      ℤ → Text → Text → Text → Text → Text → Text → Text → Bool → ℤ → Option Session
  unfolding constant_time_eq as_bytes payload_of
  verify_fields now secret discord_id guild_id role_id ro exp sig read_only expires =
      if ltb_ℤ expires now
      then none
      else if constant_time_eq (as_bytes sig)
          (as_bytes (mac secret (payload_of discord_id guild_id role_id ro exp)))
      then some (record {
        discord_id = discord_id;
        guild_id = guild_id;
        role_id = role_id;
        read_only = read_only;
      })
      else none

  unfoldable pub verify_parts : ℤ → Text → List Text → Option Session
  unfolding verify_fields
  verify_parts now secret (discord_id ∷ guild_id ∷ role_id ∷ ro ∷ exp ∷ sig ∷ []) =
      and_then (match_str ro flag_arms) (λ read_only. and_then (parse_i64 exp) (λ expires.
        verify_fields now secret discord_id guild_id role_id ro exp sig read_only expires))
  verify_parts now secret _ = none

  unfoldable pub verify_iframe_session : ℤ → Text → Text → Option Session
  unfolding verify_parts splits
  verify_iframe_session now secret token =
      and_then (strip_prefix (codes "ifs:") token)
        (λ rest. verify_parts now secret (splits 5 58 rest))
