-- ===== src/Examples/Listings.antt =====
-- The pages of a guild with three linked members, one on each.
use kick_channel_role.Prelude.{
  ℕ, ◌≡◌, ◌⊎◌, refl, ap, inl, inr, Bool, true, false, not, ◌&&◌, ◌||◌, Option, none, some, List, [],
  ◌∷◌, ltb, ◌==◌, ok, map, arith,
}
use kick_channel_role.Prelude.Int.{pos}
use kick_channel_role.Prelude.Text.{Text, codes, text_eq}
use kick_channel_role.Rule.Facts.{DateTime}
use kick_channel_role.Validator.{filter}
use kick_channel_role.UsersApi.{
  Linked, Directory, ListQuery, user_row, chosen, order_linked, insert_linked, is_chosen, is_after,
  relations_of, updated_at_of, overflows, list_users, parse_relation, parse_updated_since,
}
use kick_channel_role.UsersApi.Order.{IsOrder}
use kick_channel_role.UsersApi.Pages.{walk, walk-list_users}
use kick_channel_role.Examples.{sample_user, days}

-- The order of the C locale.
unfoldable lex : Text → Text → Bool
lex [] t = true
lex (x ∷ s) [] = false
lex (x ∷ s) (y ∷ t) = ltb x y || (x == y && lex s t)

lex_total : (s t : Text) → (lex s t || lex t s) ≡ true
unfolding lex
lex_total [] [] = refl
lex_total [] (y ∷ t) = refl
lex_total (x ∷ s) [] = refl
lex_total (x ∷ s) (y ∷ t) = let rest = lex_total s t in ground (arith, rest)

lex_trans : (s t u : Text) → (not (lex s t) || not (lex t u) || lex s u) ≡ true
unfolding lex
lex_trans [] t u = ground arith
lex_trans (x ∷ s) [] u = refl
lex_trans (x ∷ s) (y ∷ t) [] = ground arith
lex_trans (x ∷ s) (y ∷ t) (z ∷ u) = let rest = lex_trans s t u in ground (arith, rest)

lex_antisym : (s t : Text) → lex s t ≡ true → lex t s ≡ true → s ≡ t
unfolding lex
lex_antisym [] [] h k = refl
lex_antisym [] (y ∷ t) h k = absurd (cc k)
lex_antisym (x ∷ s) [] h k = absurd (cc h)
lex_antisym (x ∷ s) (y ∷ t) h k =
    let same : x ≡ y = ground (arith, h, k) in
    let rest = lex_antisym s t (ground (arith, h, k)) (ground (arith, h, k)) in cc (same, rest)

lex-IsOrder : IsOrder lex
lex-IsOrder = record {
  total = λ s t. by_first s t (lex s t) refl (lex_total s t);
  antisym = lex_antisym;
  trans = λ s t u h k. let e = lex_trans s t u in ground (arith, e, h, k);
}
  where
    by_first :
        (s t : Text) (b : Bool)
        → lex s t ≡ b
        → (lex s t || lex t s) ≡ true
        → (lex s t ≡ true) ⊎ (lex t s ≡ true)
    by_first s t true e h = inl e
    by_first s t false e h = inr (ground (arith, e, h))

abbrev head_of : Text → ℕ
head_of [] = 0
head_of (c ∷ s) = c

abbrev member : Text → Linked
member id = record {
  user = record sample_user { discord_id = id };
  discord_name = none;
  linked_at = days 1;
  refreshed_at = days 2;
}

abbrev directory : Directory
directory = record {
  kick_users = member (codes "3") ∷ member (codes "1") ∷ member (codes "2") ∷ [];
  guild_broadcasters = [];
  relations = [];
}

abbrev members : List Text
members = codes "1" ∷ codes "2" ∷ codes "3" ∷ []

abbrev query : ListQuery
query = record { limit = some (pos 1); cursor = none; updated_since = none; relation = none }

abbrev no_date : Text → Option DateTime
no_date t = none

walk-list_users_example :
    walk
      (λ c. list_users lex no_date directory (codes "5") members (record query { cursor = c }))
      3
      none
    ≡ ok (
        map
          (user_row lex directory (codes "5"))
          (member (codes "1") ∷ member (codes "2") ∷ member (codes "3") ∷ []))
unfolding chosen order_linked insert_linked is_chosen is_after filter text_eq relations_of
    updated_at_of overflows lex parse_relation parse_updated_since
walk-list_users_example =
    walk-list_users lex no_date directory (codes "5") members query none none 3 lex-IsOrder
      (
        (
          λ e. absurd (omega (arith, ap head_of e)),
          (λ e. absurd (omega (arith, ap head_of e)), tt),
        ),
        ((λ e. absurd (omega (arith, ap head_of e)), tt), (tt, tt)),
      )
      refl refl refl (omega arith)
