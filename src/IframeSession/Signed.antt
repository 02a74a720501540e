-- ===== src/IframeSession/Signed.antt =====
-- src/services/rl_token.rs, `verify_iframe_session`: which tokens are accepted.
use kick_channel_role.Prelude.{
  ℕ, zero, suc, ◌≡◌, refl, sym, ap, ◌∙◌, Bool, true, false, Option, none, some, List, [], ◌∷◌, ◌++◌,
  append_assoc, ◌==◌, ==_iff, if◌then◌else◌, and_then,
}
use kick_channel_role.Prelude.Int.{ℤ, ltb_ℤ}
use kick_channel_role.Prelude.Text.{Text, codes, match_str}
use kick_channel_role.Validator.{parse_i64}
use kick_channel_role.ApiKey.{strip_prefix}
use kick_channel_role.IframeSession.{
  Session, onto_first, splits, constant_time_eq, as_bytes, flag_arms, payload_of, verify_fields,
  verify_parts, verify_iframe_session,
}
use kick_channel_role.IframeSession.Bytes.{constant_time_eq_iff, as_bytes-IsByte}

strip_prefix-eq : (p s rest : Text) → strip_prefix p s ≡ some rest → s ≡ p ++ rest
unfolding strip_prefix
strip_prefix-eq [] s rest e = cc e
strip_prefix-eq (x ∷ p) [] rest e = absurd (cc e)
strip_prefix-eq (x ∷ p) (y ∷ s) rest e = by_head (x == y) refl e (strip_prefix-eq p s rest)
  where
    by_head :
        (b : Bool)
        → (x == y) ≡ b
        → (if b then strip_prefix p s else none) ≡ some rest
        → (strip_prefix p s ≡ some rest → s ≡ p ++ rest)
        → y ∷ s ≡ x ∷ p ++ rest
    by_head true h e' tail = let same = (==_iff x y).0 h in cc (same, tail e')
    by_head false h e' tail = absurd (cc e')

-- The pieces with the separator between them.
abbrev pub join : ℕ → List Text → Text
join c [] = []
join c (p ∷ []) = p
join c (p ∷ q ∷ ps) = p ++ c ∷ join c (q ∷ ps)

join-onto_first : (c x : ℕ) (ps : List Text) → join c (onto_first x ps) ≡ x ∷ join c ps
unfolding onto_first
join-onto_first c x [] = refl
join-onto_first c x (p ∷ []) = refl
join-onto_first c x (p ∷ q ∷ ps) = refl

abbrev IsCons : List Text → Type 0
IsCons ps = (p : Text) × (qs : List Text) × (ps ≡ p ∷ qs)

onto_first-IsCons : (x : ℕ) (ps : List Text) → IsCons (onto_first x ps)
unfolding onto_first
onto_first-IsCons x [] = (_, _, refl)
onto_first-IsCons x (p ∷ ps) = (_, _, refl)

splits-IsCons : (n c : ℕ) (s : Text) → IsCons (splits n c s)
unfolding splits
splits-IsCons zero c s = (_, _, refl)
splits-IsCons (suc n) c [] = (_, _, refl)
splits-IsCons (suc n) c (x ∷ s) = by_head (x == c)
  where
    by_head :
        (b : Bool) → IsCons (if b then [] ∷ splits n c s else onto_first x (splits (suc n) c s))
    by_head true = (_, _, refl)
    by_head false = onto_first-IsCons x (splits (suc n) c s)

join-cons : (c : ℕ) (ps : List Text) → IsCons ps → join c ([] ∷ ps) ≡ c ∷ join c ps
join-cons c ps (p, qs, e) = rw e refl

pub join-splits : (n c : ℕ) (s : Text) → join c (splits n c s) ≡ s
unfolding splits
join-splits zero c s = refl
join-splits (suc n) c [] = refl
join-splits (suc n) c (x ∷ s) = by_head (x == c) refl (join-splits n c s) (join-splits (suc n) c s)
  where
    by_head :
        (b : Bool)
        → (x == c) ≡ b
        → join c (splits n c s) ≡ s
        → join c (splits (suc n) c s) ≡ s
        → join c (if b then [] ∷ splits n c s else onto_first x (splits (suc n) c s)) ≡ x ∷ s
    by_head true h next same =
        join-cons c (splits n c s) (splits-IsCons n c s) ∙ let e = (==_iff x c).0 h in cc (e, next)
    by_head false h next same = join-onto_first c x (splits (suc n) c s) ∙ ap (λ l. x ∷ l) same

pub and_then-some {ℓ κ} :
    {A : Type ℓ} {B : Type κ} (o : Option A) (f : A → Option B) (b : B)
    → and_then o f ≡ some b
    → (a : A) × (o ≡ some a) × (f a ≡ some b)
and_then-some none f b e = absurd (cc e)
and_then-some (some a) f b e = (a, refl, e)

module _ (mac : Text → Text → Text) where
  -- A token of which the holder of the secret has signed all the fields, and that has not expired.
  pub data IsSigned (now : ℤ) (secret token : Text) (s : Session) : Type 0 where
    signed :
        (ro exp sig : Text) (expires : ℤ)
        → token
          ≡ codes "ifs:" ++ payload_of s.discord_id s.guild_id s.role_id ro exp ++ codes ":" ++ sig
        → match_str ro flag_arms ≡ some s.read_only
        → parse_i64 exp ≡ some expires
        → ltb_ℤ expires now ≡ false
        → as_bytes sig ≡ as_bytes (mac secret (payload_of s.discord_id s.guild_id s.role_id ro exp))
        → IsSigned now secret token s

  join-payload :
      (d g r ro exp sig : Text)
      → join 58 (d ∷ g ∷ r ∷ ro ∷ exp ∷ sig ∷ []) ≡ payload_of d g r ro exp ++ codes ":" ++ sig
  unfolding payload_of
  join-payload d g r ro exp sig = simp append_assoc

  fields-IsSigned :
      (now : ℤ) (secret : Text) (d g r ro exp sig : Text) (read_only : Bool) (expires : ℤ)
      (s : Session)
      → match_str ro flag_arms ≡ some read_only
      → parse_i64 exp ≡ some expires
      → verify_fields mac now secret d g r ro exp sig read_only expires ≡ some s
      → IsSigned now secret (codes "ifs:" ++ join 58 (d ∷ g ∷ r ∷ ro ∷ exp ∷ sig ∷ [])) s
  unfolding verify_fields
  fields-IsSigned now secret d g r ro exp sig read_only expires s f x e =
      by_checks (ltb_ℤ expires now)
        (constant_time_eq (as_bytes sig) (as_bytes (mac secret (payload_of d g r ro exp)))) refl
        refl e
    where
      by_checks :
          (late same : Bool)
          → ltb_ℤ expires now ≡ late
          → constant_time_eq (as_bytes sig) (as_bytes (mac secret (payload_of d g r ro exp))) ≡ same
          → (if late
              then none
              else if same
              then some
                  (record { discord_id = d; guild_id = g; role_id = r; read_only = read_only })
              else none)
            ≡ some s
          → IsSigned now secret (codes "ifs:" ++ join 58 (d ∷ g ∷ r ∷ ro ∷ exp ∷ sig ∷ [])) s
      by_checks true same l c e' = absurd (cc e')
      by_checks false false l c e' = absurd (cc e')
      by_checks false true l c e' =
          let bytes =
            (constant_time_eq_iff (as_bytes sig) (as_bytes (mac secret (payload_of d g r ro exp)))
                (as_bytes-IsByte sig) (as_bytes-IsByte (mac secret (payload_of d g r ro exp)))).0
              c in
          let own : record { discord_id = d; guild_id = g; role_id = r; read_only = read_only }
              ≡ s =
            cc e' in
          rw (sym own) (
            signed ro exp sig expires
              (ap (λ l'. codes "ifs:" ++ l') (join-payload d g r ro exp sig)) f x l bytes)

  parts-IsSigned :
      (now : ℤ) (secret : Text) (ps : List Text) (s : Session)
      → verify_parts mac now secret ps ≡ some s
      → IsSigned now secret (codes "ifs:" ++ join 58 ps) s
  unfolding verify_parts
  parts-IsSigned now secret (d ∷ g ∷ r ∷ ro ∷ exp ∷ sig ∷ []) s e =
      let (read_only, f, e') = and_then-some (match_str ro flag_arms) _ s e in
      let (expires, x, e'') = and_then-some (parse_i64 exp) _ s e' in
      fields-IsSigned now secret d g r ro exp sig read_only expires s f x e''
  parts-IsSigned now secret [] s e = absurd (cc e)
  parts-IsSigned now secret (a ∷ []) s e = absurd (cc e)
  parts-IsSigned now secret (a ∷ b ∷ []) s e = absurd (cc e)
  parts-IsSigned now secret (a ∷ b ∷ c ∷ []) s e = absurd (cc e)
  parts-IsSigned now secret (a ∷ b ∷ c ∷ d ∷ []) s e = absurd (cc e)
  parts-IsSigned now secret (a ∷ b ∷ c ∷ d ∷ f ∷ []) s e = absurd (cc e)
  parts-IsSigned now secret (a ∷ b ∷ c ∷ d ∷ f ∷ g ∷ h ∷ ps) s e = absurd (cc e)

  -- A token that is accepted is the prefix and the fields of the session, with a flag that reads as
  -- its right to write, an expiry that has not passed, and the HMAC of just these fields.
  pub verify-IsSigned :
      (now : ℤ) (secret token : Text) (s : Session)
      → verify_iframe_session mac now secret token ≡ some s
      → IsSigned now secret token s
  unfolding verify_iframe_session
  verify-IsSigned now secret token s e =
      let (rest, p, e') = and_then-some (strip_prefix (codes "ifs:") token) _ s e in
      let whole = strip_prefix-eq (codes "ifs:") token rest p in
      let parts = parts-IsSigned now secret (splits 5 58 rest) s e' in
      rw whole (rw (join-splits 5 58 rest) at parts)
