-- ===== src/Prelude/Text.antt =====
-- Text as the list of its code points, and what the program uses of `str`.
use Prim.Native.Char.{code}
use Prim.Native.String.{String}
use mathlib.Core.Path.{◌≡◌, refl}
use mathlib.Core.Logic.{◌↔◌}
use mathlib.Core.Bool.{Bool, true, false, ◌&&◌, ◌||◌}
use mathlib.Core.Option.{Option, none, some}
use mathlib.Core.List.{List, [], ◌∷◌, reverse, map}
use native.Mathlib.Omega.{arith}
use Prim.Native.Nat.{ℕ, ◌+◌}
use kick_channel_role.Prelude.Tests.{leb, ◌==◌, if◌then◌else◌, ==_iff, and-true}

abbrev pub Text : Type 0
Text = List ℕ

-- The code points of a literal.
abbrev pub codes : String → Text
codes String.[] = []
codes (String.◌∷◌ c s) = code c ∷ codes s

-- `==` on `str`.
unfoldable pub text_eq : Text → Text → Bool
text_eq [] [] = true
text_eq (x ∷ s) (y ∷ t) = x == y && text_eq s t
text_eq _ _ = false

pub text_eq_sound : (s t : Text) → text_eq s t ≡ true → s ≡ t
unfolding text_eq
text_eq_sound [] [] h = refl
text_eq_sound (x ∷ s) [] h = cc
text_eq_sound [] (y ∷ t) h = cc
text_eq_sound (x ∷ s) (y ∷ t) h =
    let (p, q) = and-true (x == y) (text_eq s t) h in cc ((==_iff x y).0 p, text_eq_sound s t q)

pub text_eq_refl : (s : Text) → text_eq s s ≡ true
unfolding text_eq
text_eq_refl [] = refl
text_eq_refl (x ∷ s) = ground (arith, text_eq_refl s)

pub text_eq_iff : (s t : Text) → (text_eq s t ≡ true) ↔ (s ≡ t)
text_eq_iff s t = (text_eq_sound s t, λ e. rw e (text_eq_refl t))

-- `match s { "…" => a, … , _ => none }`: the arms in order.
unfoldable pub match_str {ℓ} : {A : Type ℓ} → Text → List (Text × A) → Option A
match_str s [] = none
match_str s ((k, a) ∷ arms) = if text_eq s k then some a else match_str s arms

-- `char::is_whitespace`: the Unicode property White_Space.
unfoldable pub is_whitespace : ℕ → Bool
is_whitespace c =
    (leb 9 c && leb c 13)
    || c == 32
    || c == 0x85
    || c == 0xA0
    || c == 0x1680
    || (leb 0x2000 c && leb c 0x200A)
    || c == 0x2028
    || c == 0x2029
    || c == 0x202F
    || c == 0x205F
    || c == 0x3000

-- `str::trim_start_matches`, for a class of characters.
unfoldable pub trim_start : (ℕ → Bool) → Text → Text
trim_start p [] = []
trim_start p (c ∷ s) = let rest = trim_start p s in if p c then rest else c ∷ s

unfoldable pub trim_end : (ℕ → Bool) → Text → Text
unfolding trim_start
trim_end p s = reverse (trim_start p (reverse s))

-- `str::trim`.
unfoldable pub trim : Text → Text
unfolding trim_start trim_end is_whitespace
trim s = trim_end is_whitespace (trim_start is_whitespace s)

-- `str::to_ascii_lowercase`.
unfoldable pub to_ascii_lowercase : Text → Text
to_ascii_lowercase s = map (λ c. if leb 65 c && leb c 90 then c + 32 else c) s

unfoldable pub starts_with : Text → Text → Bool
starts_with [] s = true
starts_with (x ∷ p) [] = false
starts_with (x ∷ p) (y ∷ s) = x == y && starts_with p s

-- A test on some suffix of a text, the text itself and the empty one included.
unfoldable pub some_suffix : (Text → Bool) → Text → Bool
some_suffix f [] = f []
some_suffix f (c ∷ s) = f (c ∷ s) || some_suffix f s

-- `haystack.contains(needle)`.
unfoldable pub contains : Text → Text → Bool
unfolding starts_with some_suffix
contains haystack needle = some_suffix (starts_with needle) haystack

-- `s.split(c)`: the pieces between the separators, `cur` being read.
split_from : ℕ → Text → Text → List Text
split_from c cur [] = reverse cur ∷ []
split_from c cur (x ∷ s) =
    if x == c then reverse cur ∷ split_from c [] s else split_from c (x ∷ cur) s

unfoldable pub split : ℕ → Text → List Text
unfolding split_from
split c s = split_from c [] s
