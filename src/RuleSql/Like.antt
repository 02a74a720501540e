-- ===== src/RuleSql/Like.antt =====
-- SQL's LIKE with the escape character `\`, and `escape_like` of src/services/rule_sql.rs.
use kick_channel_role.Prelude.{
  ℕ, Bool, true, false, ◌&&◌, ◌≡◌, refl, ap, List, [], ◌∷◌, ◌++◌, map, arith, ◌==◌, if◌then◌else◌,
  append_assoc, sym, fun_ext,
}
use kick_channel_role.Prelude.Text.{Text, starts_with, some_suffix, contains}
use kick_channel_role.RuleSql.{replace_char, escape_like}

pub data LikeToken : Type 0 where
  literal : ℕ → LikeToken
  any_one any_run : LikeToken

-- A pattern as tokens. A lone `\` at the end, which Postgres refuses, stands for itself here; the
-- patterns of the program never end so.
like_tokens : Text → List LikeToken
like_tokens [] = []
like_tokens (c ∷ []) = (if c == 37 then any_run else if c == 95 then any_one else literal c) ∷ []
like_tokens (c ∷ d ∷ s) =
    let escaped = literal d ∷ like_tokens s in
    let rest = like_tokens (d ∷ s) in
    if c == 92
    then escaped
    else (if c == 37 then any_run else if c == 95 then any_one else literal c) ∷ rest

match_tokens : List LikeToken → Text → Bool
match_tokens [] [] = true
match_tokens [] (x ∷ s) = false
match_tokens (literal c ∷ ts) [] = false
match_tokens (literal c ∷ ts) (x ∷ s) = c == x && match_tokens ts s
match_tokens (any_one ∷ ts) [] = false
match_tokens (any_one ∷ ts) (x ∷ s) = match_tokens ts s
match_tokens (any_run ∷ ts) s = some_suffix (match_tokens ts) s

-- `text LIKE pattern`.
unfoldable pub like : Text → Text → Bool
unfolding like_tokens match_tokens some_suffix
like pattern text = match_tokens (like_tokens pattern) text

-- One character, escaped where LIKE gives it a meaning.
escape_char : ℕ → Text
escape_char c =
    if c == 92
    then 92 ∷ 92 ∷ []
    else if c == 37
    then 92 ∷ 37 ∷ []
    else if c == 95
    then 92 ∷ 95 ∷ []
    else c ∷ []

replace_char-append :
    (c : ℕ) (r s t : Text) → replace_char c r (s ++ t) ≡ replace_char c r s ++ replace_char c r t
unfolding replace_char
replace_char-append c r [] t = refl
replace_char-append c r (x ∷ s) t =
    rw (replace_char-append c r s t) (sym (append_assoc (if x == c then r else x ∷ []) _ _))

-- The three passes of `escape_like` escape each character on its own.
escape_like-cons : (c : ℕ) (s : Text) → escape_like (c ∷ s) ≡ escape_char c ++ escape_like s
unfolding escape_like escape_char
escape_like-cons c s = ground arith

like_tokens-run : (t : Text) → like_tokens (37 ∷ t) ≡ any_run ∷ like_tokens t
unfolding like_tokens
like_tokens-run [] = refl
like_tokens-run (d ∷ s) = refl

like_tokens-escape_char :
    (c : ℕ) (t : Text) → like_tokens (escape_char c ++ t) ≡ literal c ∷ like_tokens t
unfolding like_tokens escape_char
like_tokens-escape_char c [] = ground arith
like_tokens-escape_char c (d ∷ s) = ground arith

-- An escaped text stands for its own characters.
like_tokens-escape_like :
    (v t : Text) → like_tokens (escape_like v ++ t) ≡ map literal v ++ like_tokens t
like_tokens-escape_like [] t = unfold escape_like in refl
like_tokens-escape_like (c ∷ v) t =
    rw (escape_like-cons c v, append_assoc, like_tokens-escape_char, like_tokens-escape_like v t)

some_suffix-match_nil : (s : Text) → some_suffix (match_tokens []) s ≡ true
unfolding some_suffix match_tokens
some_suffix-match_nil [] = refl
some_suffix-match_nil (x ∷ s) = some_suffix-match_nil s

match_tokens-literals :
    (v s : Text) → match_tokens (map literal v ++ any_run ∷ []) s ≡ starts_with v s
unfolding match_tokens starts_with
match_tokens-literals [] s = some_suffix-match_nil s
match_tokens-literals (c ∷ v) [] = refl
match_tokens-literals (c ∷ v) (x ∷ s) = rw (match_tokens-literals v s)

-- The pattern that `build_condition` makes of a text matches exactly the texts that contain it,
-- whatever `%`, `_` and `\` it holds.
pub like-escape_like : (v a : Text) → like (37 ∷ (escape_like v ++ 37 ∷ [])) a ≡ contains a v
unfolding like contains match_tokens
like-escape_like v a =
    rw (like_tokens-run, like_tokens-escape_like v (37 ∷ []))
      (ap (λ f. some_suffix f a) (fun_ext (match_tokens-literals v)))
