-- ===== src/Examples/Keys.antt =====
-- Keys at work: a guild with two of them revokes the first.
use kick_channel_role.Prelude.{◌≢◌, refl, ℕ, Option, none, some, [], ◌∷◌, Result, ok, arith}
use kick_channel_role.Prelude.Text.{
  Text, codes, text_eq, is_whitespace, trim, trim_start, trim_end, starts_with,
}
use kick_channel_role.AppError.{AppError}
use kick_channel_role.ApiKey.{
  ApiKey, KeyTable, ApiKeyContext, scope_users_read, revoke, is_revocable, is_live, count_live,
  create, authenticate, with_token, after_lookup, after_limit, lookup_key, has_scope,
  extract_bearer, strip_prefix, revoke_row,
}
use kick_channel_role.ApiKey.Limit.{IsKeyTable}
use kick_channel_role.ApiKey.Steps.{start, creates, Steps-IsKeyTable}
use kick_channel_role.ApiKey.Revoked.{revoke-authenticate}
use kick_channel_role.Examples.{days}

abbrev hash_token : Text → Text
hash_token t = t

abbrev unlimited : ℕ → ℕ → ℕ × Option ℕ
unlimited l id = (l, none)

abbrev key : ℕ → Text → ApiKey
key id raw = record {
  id = id;
  guild_id = codes "5";
  token_hash = raw;
  prefix = raw;
  label = codes "a";
  scopes = scope_users_read ∷ [];
  created_by = codes "9";
  created_at = days 1;
  last_used_at = none;
  revoked_at = none;
  revoked_by = none;
}

abbrev two_keys : KeyTable
two_keys = record { rows = key 2 (codes "kck_b") ∷ key 1 (codes "kck_a") ∷ []; next_id = 3 }

two_keys-IsKeyTable : IsKeyTable two_keys
unfolding count_live is_live
two_keys-IsKeyTable = record {
  below = (omega arith, (omega arith, tt));
  capped = λ g. ground arith;
}

abbrev manager : Result AppError Text
manager = ok (codes "9")

abbrev with_third : KeyTable
with_third = (create hash_token (days 2) (codes "5") manager (codes " c ") (codes "c") two_keys).0

Steps-IsKeyTable_example : IsKeyTable with_third
Steps-IsKeyTable_example =
    Steps-IsKeyTable hash_token unlimited two_keys with_third
      (creates (days 2) (codes "5") manager (codes " c ") (codes "c") two_keys with_third
        (start with_third))
      two_keys-IsKeyTable

abbrev revoked : KeyTable
revoked = (revoke hash_token (days 2) (codes "5") 1 manager two_keys).0

abbrev second : ApiKeyContext
second = record {
  key_id = 2;
  guild_id = codes "5";
  label = codes "a";
  scopes = scope_users_read ∷ [];
}

revoke-authenticate_example : second.key_id ≢ 1
unfolding revoke is_revocable is_live text_eq authenticate with_token after_lookup after_limit
    lookup_key has_scope extract_bearer strip_prefix trim trim_start trim_end is_whitespace
    starts_with revoke_row
revoke-authenticate_example =
    revoke-authenticate hash_token unlimited (days 2) (codes "5") 1 manager two_keys revoked
      two_keys-IsKeyTable refl (start revoked) (days 3) scope_users_read 0
      (some (codes "Bearer kck_b")) second refl
