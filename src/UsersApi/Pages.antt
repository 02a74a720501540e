-- ===== src/UsersApi/Pages.antt =====
-- src/routes/api_v1.rs: the pages that a caller reads by passing each cursor back.
use kick_channel_role.Prelude.{
  ℕ, zero, suc, ◌≤◌, ◌<◌, ◌≡◌, refl, sym, ap, ◌∙◌, Bool, true, false, Option, none, some, List, [],
  ◌∷◌, ◌++◌, append_assoc, map, any, length, length-append, ltb, Result, ok, ◌>>=◌, unwrap_or,
  arith,
}
use mathlib.Core.Path.{subst}
use kick_channel_role.Prelude.Int.{ℤ, pos, negsuc}
use kick_channel_role.Prelude.Text.{Text}
use kick_channel_role.Rule.Facts.{DateTime}
use kick_channel_role.Relation.{Relation}
use kick_channel_role.Validator.{filter}
use kick_channel_role.Sync.{take}
use kick_channel_role.AppError.{AppError}
use kick_channel_role.UsersApi.{
  Linked, Directory, UserRow, UserFilter, Page, ListQuery, default_limit, clamp_limit,
  parse_relation, parse_updated_since, order_linked, is_after, user_row, overflows, is_chosen,
  chosen, fetch_users, last_id, page_of, list_users,
}
use kick_channel_role.UsersApi.Order.{
  IsOrder, AreDistinctIds, IsOrdered, id_of, filter-and, filter-append, filter-order_linked,
  order_linked-IsOrdered, AreDistinctIds-filter,
}

-- After a page: the end, or the pages behind its cursor.
abbrev pub onward :
    (Option Text → Result AppError (List UserRow))
    → List UserRow
    → Option Text
    → Result AppError (List UserRow)
onward next users none = ok users
onward next users (some c) = next (some c) >>= λ rest. ok (users ++ rest)

-- The pages from a cursor on, one after the other, `n` at most.
unfoldable pub walk :
    (Option Text → Result AppError Page) → ℕ → Option Text → Result AppError (List UserRow)
walk page zero c = ok []
walk page (suc n) c = page c >>= λ p. onward (walk page n) p.users p.next_cursor

map-append : (f : Linked → UserRow) (xs ys : List Linked) → map f (xs ++ ys) ≡ map f xs ++ map f ys
map-append f [] ys = refl
map-append f (x ∷ xs) ys = ap (λ l. f x ∷ l) (map-append f xs ys)

take-map : (f : Linked → UserRow) (n : ℕ) (xs : List Linked) → take n (map f xs) ≡ map f (take n xs)
take-map f zero xs = refl
take-map f (suc n) [] = refl
take-map f (suc n) (x ∷ xs) = ap (λ l. f x ∷ l) (take-map f n xs)

take-take : (n : ℕ) (xs : List Linked) → take n (take (suc n) xs) ≡ take n xs
take-take zero xs = refl
take-take (suc n) [] = refl
take-take (suc n) (x ∷ xs) = ap (λ l. x ∷ l) (take-take n xs)

-- Where `take` leaves nothing out, and where it does.
data IsCut (k : ℕ) (xs : List Linked) : Type 0 where
  all_of : length (take (suc (suc k)) xs) ≤ suc k → take (suc (suc k)) xs ≡ xs → IsCut k xs
  cut :
      (front : List Linked) (m : Linked) (back : List Linked)
      → suc k < length (take (suc (suc k)) xs)
      → xs ≡ front ++ m ∷ back
      → take (suc k) xs ≡ front ++ m ∷ []
      → IsCut k xs

IsCut-cons : (k : ℕ) (x : Linked) (xs : List Linked) → IsCut k xs → IsCut (suc k) (x ∷ xs)
IsCut-cons k x xs (all_of l e) = all_of (omega (arith, l)) (ap (λ r. x ∷ r) e)
IsCut-cons k x xs (cut front m back l e t) =
    cut (x ∷ front) m back (omega (arith, l)) (ap (λ r. x ∷ r) e) (ap (λ r. x ∷ r) t)

cuts : (k : ℕ) (xs : List Linked) → IsCut k xs
cuts k [] = all_of (omega arith) refl
cuts zero (x ∷ []) = all_of (omega arith) refl
cuts zero (x ∷ y ∷ ys) = cut [] x (y ∷ ys) (omega arith) refl refl
cuts (suc k) (x ∷ xs) = IsCut-cons k x xs (cuts k xs)

length-map : (f : Linked → UserRow) (xs : List Linked) → length (map f xs) ≡ length xs
length-map f [] = refl
length-map f (x ∷ xs) = ap suc (length-map f xs)

any-append_right :
    (p : Linked → Bool) (xs ys : List Linked) → any p (xs ++ ys) ≡ false → any p ys ≡ false
any-append_right p [] ys h = h
any-append_right p (x ∷ xs) ys h = any-append_right p xs ys (ground (arith, h))

clamp_limit-pos : (n : ℤ) → 1 ≤ clamp_limit n
unfolding clamp_limit
clamp_limit-pos (pos n) = omega arith
clamp_limit-pos (negsuc n) = omega arith

module _ (collate : Text → Text → Bool) (dir : Directory) (guild_id : Text) where
  last_id-append :
      (front : List Linked) (m : Linked)
      → last_id (map (user_row collate dir guild_id) (front ++ m ∷ [])) ≡ some (id_of m)
  unfolding user_row
  last_id-append [] m = refl
  last_id-append (x ∷ []) m = refl
  last_id-append (x ∷ y ∷ front) m = last_id-append (y ∷ front) m

  module _ (o : IsOrder collate) (ids : List Text) (f : UserFilter) where
    abbrev all_users : List Linked
    all_users = order_linked collate (filter (is_chosen collate dir guild_id ids f) dir.kick_users)

    filter-every : (ms : List Linked) → filter (is_after collate none) ms ≡ ms
    unfolding filter is_after
    filter-every [] = refl
    filter-every (m ∷ ms) = ap (λ l. m ∷ l) (filter-every ms)

    chosen-none : chosen collate dir guild_id ids f none ≡ all_users
    unfolding chosen
    chosen-none = ap (order_linked collate) (
        filter-and (is_chosen collate dir guild_id ids f) (is_after collate none) dir.kick_users
        ∙ filter-every _)

    chosen-some :
        (c : Text)
        → chosen collate dir guild_id ids f (some c) ≡ filter (is_after collate (some c)) all_users
    unfolding chosen
    chosen-some c =
        ap (order_linked collate) (
          filter-and (is_chosen collate dir guild_id ids f) (is_after collate (some c))
            dir.kick_users)
        ∙ sym (filter-order_linked collate o c _)

    -- A page of the users that are left, by the limit `suc k`.
    abbrev page_at : ℕ → Option Text → Result AppError Page
    page_at k c =
        fetch_users collate dir guild_id ids f c (suc (suc k)) >>= λ rows. ok (page_of (suc k) rows)

    page_at-eq :
        (k : ℕ) (c : Option Text) (left : List Linked)
        → chosen collate dir guild_id ids f c ≡ left
        → any (overflows collate dir guild_id) left ≡ false
        → page_at k c
          ≡ ok (page_of (suc k) (map (user_row collate dir guild_id) (take (suc (suc k)) left)))
    unfolding fetch_users
    page_at-eq k c left e v = rw e (rw v refl)

    behind :
        (before front : List Linked) (m : Linked) (back : List Linked)
        → AreDistinctIds dir.kick_users
        → all_users ≡ (before ++ front) ++ m ∷ back
        → chosen collate dir guild_id ids f (some (id_of m)) ≡ back
    behind before front m back d whole =
        let ordered =
          order_linked-IsOrdered collate o _
            (AreDistinctIds-filter (is_chosen collate dir guild_id ids f) dir.kick_users d) in
        chosen-some (id_of m)
        ∙ ap (filter (is_after collate (some (id_of m)))) whole
        ∙ filter-append collate o (before ++ front) m back
            (subst (λ ms. IsOrdered collate o ms) whole ordered)

    any-back :
        (left front : List Linked) (m : Linked) (back : List Linked)
        → left ≡ front ++ m ∷ back
        → any (overflows collate dir guild_id) left ≡ false
        → any (overflows collate dir guild_id) back ≡ false
    any-back left front m back e v =
        let tail =
          any-append_right (overflows collate dir guild_id) front (m ∷ back)
            (subst (λ ms. any (overflows collate dir guild_id) ms ≡ false) e v) in
        any-append_right (overflows collate dir guild_id) (m ∷ []) back tail

    shorter :
        (left front : List Linked) (m : Linked) (back : List Linked) (n : ℕ)
        → left ≡ front ++ m ∷ back
        → length left ≤ suc n
        → length back ≤ n
    shorter left front m back n e l =
        let whole = ap length e ∙ length-append front (m ∷ back) in omega (arith, whole, l)

    -- One page, and the pages behind it.
    onward-suffix :
        (k n : ℕ) (before left : List Linked)
        → AreDistinctIds dir.kick_users
        → all_users ≡ before ++ left
        → any (overflows collate dir guild_id) left ≡ false
        → length left ≤ suc n
        → IsCut k left
        → ((c : Option Text) (before' left' : List Linked)
            → all_users ≡ before' ++ left'
            → chosen collate dir guild_id ids f c ≡ left'
            → any (overflows collate dir guild_id) left' ≡ false
            → length left' ≤ n
            → walk (page_at k) n c ≡ ok (map (user_row collate dir guild_id) left'))
        → let p = page_of (suc k) (map (user_row collate dir guild_id) (take (suc (suc k)) left)) in
          onward (walk (page_at k) n) p.users p.next_cursor
          ≡ ok (map (user_row collate dir guild_id) left)
    unfolding page_of
    onward-suffix k n before left d s v l (all_of short whole) next =
        let fits : ltb (suc k)
              (length (map (user_row collate dir guild_id) (take (suc (suc k)) left)))
            ≡ false =
          ground
            (arith, length-map (user_row collate dir guild_id) (take (suc (suc k)) left), short) in
        rw fits (ap (λ xs. ok (map (user_row collate dir guild_id) xs)) whole)
    onward-suffix k n before left d s v l (cut front m back long e t) next =
        let more : ltb (suc k)
              (length (map (user_row collate dir guild_id) (take (suc (suc k)) left)))
            ≡ true =
          ground
            (arith, length-map (user_row collate dir guild_id) (take (suc (suc k)) left), long) in
        let users =
          take-map (user_row collate dir guild_id) (suc k) (take (suc (suc k)) left)
          ∙ ap (map (user_row collate dir guild_id)) (take-take (suc k) left ∙ t) in
        let whole : all_users ≡ (before ++ front) ++ m ∷ back =
          s ∙ ap (λ r. before ++ r) e ∙ simp append_assoc in
        let rest =
          next (some (id_of m)) (before ++ front ++ m ∷ []) back (whole ∙ simp append_assoc)
            (behind before front m back d whole) (any-back left front m back e v)
            (shorter left front m back n e l) in
        let glue : (front ++ m ∷ []) ++ back ≡ front ++ m ∷ back = simp append_assoc in
        rw more (
          rw users (
            rw (last_id-append front m) (
              rw rest (
                ap ok (
                  sym (map-append (user_row collate dir guild_id) (front ++ m ∷ []) back)
                  ∙ ap (map (user_row collate dir guild_id)) (glue ∙ sym e))))))

    walk-suffix :
        (k n : ℕ) (c : Option Text) (before left : List Linked)
        → AreDistinctIds dir.kick_users
        → all_users ≡ before ++ left
        → chosen collate dir guild_id ids f c ≡ left
        → any (overflows collate dir guild_id) left ≡ false
        → length left ≤ n
        → walk (page_at k) n c ≡ ok (map (user_row collate dir guild_id) left)
    unfolding walk
    walk-suffix k zero c before [] d s e v l = refl
    walk-suffix k zero c before (m ∷ ms) d s e v l = absurd (omega (arith, l))
    walk-suffix k (suc n) c before left d s e v l = rw (page_at-eq k c left e v) (
        onward-suffix k n before left d s v l (cuts k left)
          (λ c' before' left' s' e' v' l'. walk-suffix k n c' before' left' d s' e' v' l'))

    walk-all :
        (lim n : ℕ)
        → 1 ≤ lim
        → AreDistinctIds dir.kick_users
        → any (overflows collate dir guild_id) (chosen collate dir guild_id ids f none) ≡ false
        → length (chosen collate dir guild_id ids f none) ≤ n
        → walk
            (λ c.
              fetch_users collate dir guild_id ids f c (suc lim) >>= λ rows. ok (page_of lim rows))
            n
            none
          ≡ ok (map (user_row collate dir guild_id) (chosen collate dir guild_id ids f none))
    walk-all zero n h d v l = absurd (omega (arith, h))
    walk-all (suc k) n h d v l = walk-suffix k n none [] _ d (sym chosen-none) refl v l

-- A caller who passes each page's cursor back, for as many pages as the guild has such users at the
-- most, gets every linked member that the filters keep, each once and in the order of identifiers,
-- where no sum leaves its range.
pub walk-list_users :
    (collate : Text → Text → Bool) (parse_rfc3339 : Text → Option DateTime) (dir : Directory)
    (guild_id : Text) (ids : List Text) (q : ListQuery) (since : Option DateTime)
    (relation : Option (Relation → Bool)) (n : ℕ)
    → IsOrder collate
    → AreDistinctIds dir.kick_users
    → parse_updated_since parse_rfc3339 q.updated_since ≡ ok since
    → parse_relation q.relation ≡ ok relation
    → let f : UserFilter = record {
      updated_since = since;
      relation = relation;
      only_discord_id = none;
    } in
      any (overflows collate dir guild_id) (chosen collate dir guild_id ids f none) ≡ false
      → length (chosen collate dir guild_id ids f none) ≤ n
      → walk
          (λ c. list_users collate parse_rfc3339 dir guild_id ids (record q { cursor = c }))
          n
          none
        ≡ ok (map (user_row collate dir guild_id) (chosen collate dir guild_id ids f none))
unfolding list_users
walk-list_users collate parse_rfc3339 dir guild_id ids q since relation n o d s r v l =
    rw (s, r)
      (walk-all collate dir guild_id o ids
        (record { updated_since = since; relation = relation; only_discord_id = none })
        (clamp_limit (unwrap_or q.limit default_limit)) n
        (clamp_limit-pos (unwrap_or q.limit default_limit)) d v l)
