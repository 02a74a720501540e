-- ===== src/Validator/Numbers.antt =====
-- Every integer that the validator stores is an `i64`.
use mathlib.Core.Path.{subst}
use kick_channel_role.Prelude.{
  Bool, true, false, ◌≡◌, refl, Option, none, some, if◌then◌else◌, Bool-cases, inl, inr, ok, err,
  ◌>>=◌, ok_or, or_else, and_then,
}
use kick_channel_role.Prelude.Int.{ℤ, pos, negsuc, in_i64}
use kick_channel_role.Prelude.Text.{Text, trim}
use kick_channel_role.Json.{Number, integer, float, Value, number, string, number_as_i64}
use kick_channel_role.AppError.{Where, integer_required, number_blank}
use kick_channel_role.Validator.{
  Host, signed, parse_i64, saturate, is_blank, number_value, int_value, normalize_int,
}

-- `f64 as i64` saturates, so that its result is an `i64`.
pub record IsSaturating (host : Host) : Type 0 where
  pub float_in_range : (t : Text) → in_i64 (host.float_as_i64 t) ≡ true

saturate-in_i64 : (n : ℤ) → in_i64 (saturate n) ≡ true
unfolding saturate
saturate-in_i64 (pos n) = elim (Bool-cases (in_i64 (pos n))) [ inl e ↦ rw e e | inr e ↦ rw e refl ]
saturate-in_i64 (negsuc n) = elim (Bool-cases (in_i64 (negsuc n))) [
  | inl e ↦ rw e e
  | inr e ↦ rw e refl
]

-- What a range check lets through is in range.
range_checked :
    (m n : ℤ) (b : Bool) → in_i64 m ≡ b → (if b then some m else none) ≡ some n → in_i64 n ≡ true
range_checked m n true e h = let same : m ≡ n = cc h in subst (λ k. in_i64 k ≡ true) same e
range_checked m n false e h = cc

parse_i64-in_i64 : (s : Text) (n : ℤ) → parse_i64 s ≡ some n → in_i64 n ≡ true
unfolding parse_i64
parse_i64-in_i64 s n h = guarded (signed s) h
  where
    guarded :
        (o : Option ℤ)
        → and_then o (λ n. if in_i64 n then some n else none) ≡ some n
        → in_i64 n ≡ true
    guarded none h = cc
    guarded (some m) h = range_checked m n (in_i64 m) refl h

module _ (host : Host) (sat : IsSaturating host) where
  number_value-in_i64 : (num : Number) (n : ℤ) → number_value host num ≡ some n → in_i64 n ≡ true
  unfolding number_value number_as_i64
  number_value-in_i64 (integer m) n h = by_range (in_i64 m) refl h
    where
      by_range :
          (b : Bool)
          → in_i64 m ≡ b
          → or_else (if b then some m else none) (some (saturate m)) ≡ some n
          → in_i64 n ≡ true
      by_range true e h = range_checked m n true e h
      by_range false e h =
          let same : saturate m ≡ n = cc h in subst (λ k. in_i64 k ≡ true) same (saturate-in_i64 m)
  number_value-in_i64 (float t) n h =
      let same : host.float_as_i64 t ≡ n = cc h in
      subst (λ k. in_i64 k ≡ true) same (sat.float_in_range t)

  int_value-in_i64 : (v : Value) (n : ℤ) → int_value host v ≡ some n → in_i64 n ≡ true
  unfolding int_value
  int_value-in_i64 (number num) n h = number_value-in_i64 num n h
  int_value-in_i64 (string s) n h = parse_i64-in_i64 (trim s) n h
  int_value-in_i64 _ n h = cc

  -- A number that is accepted is stored as an `i64`.
  pub normalize_int-in_i64 :
      (w : Where) (raw v : Value)
      → normalize_int host w raw ≡ ok v
      → (n : ℤ) × (v ≡ number (integer n)) × (in_i64 n ≡ true)
  unfolding normalize_int
  normalize_int-in_i64 w raw v h = by_value (is_blank raw) (int_value host raw) refl h
    where
      by_value :
          (blank : Bool) (o : Option ℤ)
          → int_value host raw ≡ o
          → (if blank
              then err (number_blank w)
              else (do n ← ok_or o (integer_required w raw); ok (number (integer n))))
            ≡ ok v
          → (n : ℤ) × (v ≡ number (integer n)) × (in_i64 n ≡ true)
      by_value true o e h = absurd (cc h)
      by_value false none e h = absurd (cc h)
      by_value false (some n) e h = (n, cc h, int_value-in_i64 raw n e)
