-- ===== src/IframeSession/Bytes.antt =====
-- src/services/rl_token.rs, `constant_time_eq`.
use kick_channel_role.Prelude.{
  ℕ, zero, suc, ◌+◌, ◌*◌, ◌/◌, ◌%◌, ◌^◌, ◌<◌, ◌≡◌, ◌↔◌, refl, Bool, true, false, ◌&&◌, List, [],
  ◌∷◌, length, and-true, All, All-append, ltb, ◌==◌, ==_iff, if◌then◌else◌, arith,
}
use kick_channel_role.Prelude.Text.{Text}
use kick_channel_role.IframeSession.{xor, or, differences, constant_time_eq, utf8, as_bytes}

double : (w : ℕ) → 2 ^ suc w ≡ 2 * 2 ^ w
double w = omega arith

xor_refl : (w x : ℕ) → xor w x x ≡ 0
unfolding xor
xor_refl zero x = refl
xor_refl (suc w) x = let rest = xor_refl w (x / 2) in ground (arith, rest)

xor-zero : (w x y : ℕ) → x < 2 ^ w → y < 2 ^ w → xor w x y ≡ 0 → x ≡ y
unfolding xor
xor-zero zero x y hx hy e = omega (arith, hx, hy)
xor-zero (suc w) x y hx hy e = by_bit (x % 2 == y % 2) refl e (xor-zero w (x / 2) (y / 2))
  where
    by_bit :
        (b : Bool)
        → (x % 2 == y % 2) ≡ b
        → (if b then 2 * xor w (x / 2) (y / 2) else 1 + 2 * xor w (x / 2) (y / 2)) ≡ 0
        → (x / 2 < 2 ^ w → y / 2 < 2 ^ w → xor w (x / 2) (y / 2) ≡ 0 → x / 2 ≡ y / 2)
        → x ≡ y
    by_bit true same e' half =
        let bound = double w in
        let low = (==_iff (x % 2) (y % 2)).0 same in
        let high = half (omega (arith, hx, bound)) (omega (arith, hy, bound)) (omega (arith, e')) in
        omega (arith, low, high)
    by_bit false same e' half = absurd (omega (arith, e'))

or-zero : (w x y : ℕ) → x < 2 ^ w → y < 2 ^ w → or w x y ≡ 0 → (x ≡ 0) × (y ≡ 0)
unfolding or
or-zero zero x y hx hy e = (omega (arith, hx), omega (arith, hy))
or-zero (suc w) x y hx hy e = by_bit (x % 2 == 0 && y % 2 == 0) refl e (or-zero w (x / 2) (y / 2))
  where
    by_bit :
        (b : Bool)
        → (x % 2 == 0 && y % 2 == 0) ≡ b
        → (if b then 2 * or w (x / 2) (y / 2) else 1 + 2 * or w (x / 2) (y / 2)) ≡ 0
        → (x / 2 < 2 ^ w → y / 2 < 2 ^ w → or w (x / 2) (y / 2) ≡ 0 → (x / 2 ≡ 0) × (y / 2 ≡ 0))
        → (x ≡ 0) × (y ≡ 0)
    by_bit true same e' half =
        let bound = double w in
        let (a, b) = and-true (x % 2 == 0) (y % 2 == 0) same in
        let a' = (==_iff (x % 2) 0).0 a in
        let b' = (==_iff (y % 2) 0).0 b in
        let (p, q) =
          half (omega (arith, hx, bound)) (omega (arith, hy, bound)) (omega (arith, e')) in
        (omega (arith, p, a'), omega (arith, q, b'))
    by_bit false same e' half = absurd (omega (arith, e'))

or_refl : (w : ℕ) → or w 0 0 ≡ 0
unfolding or
or_refl zero = refl
or_refl (suc w) = let rest = or_refl w in omega (arith, rest)

xor-bound : (w x y : ℕ) → xor w x y < 2 ^ w
unfolding xor
xor-bound zero x y = omega arith
xor-bound (suc w) x y = let rest = xor-bound w (x / 2) (y / 2) in ground (arith, rest, double w)

or-bound : (w x y : ℕ) → or w x y < 2 ^ w
unfolding or
or-bound zero x y = omega arith
or-bound (suc w) x y = let rest = or-bound w (x / 2) (y / 2) in ground (arith, rest, double w)

abbrev pub IsByte : ℕ → Type 0
IsByte x = x < 2 ^ 8

differences-same : (xs : List ℕ) → differences 0 xs xs ≡ 0
unfolding differences
differences-same [] = refl
differences-same (x ∷ xs) = rw (xor_refl 8 x) (rw (or_refl 8) (differences-same xs))

-- The loop ends at 0 only if it began there and met equal bytes.
differences-zero :
    (diff : ℕ) (xs ys : List ℕ)
    → IsByte diff
    → All IsByte xs
    → All IsByte ys
    → length xs ≡ length ys
    → differences diff xs ys ≡ 0
    → (diff ≡ 0) × (xs ≡ ys)
unfolding differences
differences-zero diff [] [] hd hx hy l e = (e, refl)
differences-zero diff [] (y ∷ ys) hd hx hy l e = absurd (omega (arith, l))
differences-zero diff (x ∷ xs) [] hd hx hy l e = absurd (omega (arith, l))
differences-zero diff (x ∷ xs) (y ∷ ys) hd hx hy l e =
    let (z, same) =
      differences-zero (or 8 diff (xor 8 x y)) xs ys (or-bound 8 diff (xor 8 x y)) hx.1 hy.1
        (omega (arith, l)) e in
    let (p, q) = or-zero 8 diff (xor 8 x y) hd (xor-bound 8 x y) z in
    let head : x ≡ y = xor-zero 8 x y hx.0 hy.0 q in (p, cc (head, same))

-- On bytes, `constant_time_eq` is equality.
pub constant_time_eq_iff :
    (a b : List ℕ) → All IsByte a → All IsByte b → (constant_time_eq a b ≡ true) ↔ (a ≡ b)
unfolding constant_time_eq
constant_time_eq_iff a b ha hb = (by_length (length a == length b) refl, same)
  where
    by_length :
        (c : Bool)
        → (length a == length b) ≡ c
        → (if c then differences 0 a b == 0 else false) ≡ true
        → a ≡ b
    by_length true l e =
        (differences-zero 0 a b (omega arith) ha hb ((==_iff (length a) (length b)).0 l)
          ((==_iff (differences 0 a b) 0).0 e)).1
    by_length false l e = absurd (cc e)

    same : a ≡ b → (if length a == length b then differences 0 a b == 0 else false) ≡ true
    same e =
        let l : (length b == length b) ≡ true = (==_iff (length b) (length b)).1 refl in
        rw e (rw l (rw (differences-same b) refl))

modulo : (n : ℕ) → IsByte (n % 256)
modulo n = omega arith

utf8-IsByte : (c : ℕ) → All IsByte (utf8 c)
unfolding utf8
utf8-IsByte c =
    by_size (ltb c 0x80) _ _ (modulo _, tt)
      (by_size (ltb c 0x800) _ _ (modulo _, (modulo _, tt))
        (by_size (ltb c 0x10000) _ _ (modulo _, (modulo _, (modulo _, tt)))
          (modulo _, (modulo _, (modulo _, (modulo _, tt))))))
  where
    by_size :
        (b : Bool) (x y : List ℕ) → All IsByte x → All IsByte y → All IsByte (if b then x else y)
    by_size true x y h k = h
    by_size false x y h k = k

pub as_bytes-IsByte : (s : Text) → All IsByte (as_bytes s)
unfolding as_bytes
as_bytes-IsByte [] = tt
as_bytes-IsByte (c ∷ s) =
    All-append IsByte (utf8 c) (as_bytes s) (utf8-IsByte c) (as_bytes-IsByte s)
