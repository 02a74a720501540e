-- ===== src/UsersApi/Order.antt =====
-- The order of the users of src/routes/api_v1.rs, and the part of it behind a cursor.
use kick_channel_role.Prelude.{
  ◌≡◌, ◌≢◌, refl, ap, ◌∙◌, ◌⊎◌, inl, inr, Bool, true, false, not, ◌&&◌, List, [], ◌∷◌, ◌++◌, All,
  if◌then◌else◌, some, arith,
}
use kick_channel_role.Prelude.Text.{Text}
use kick_channel_role.Validator.{filter}
use kick_channel_role.UsersApi.{Linked, insert_linked, order_linked, is_after}

abbrev pub id_of : Linked → Text
id_of m = m.user.discord_id

-- What Postgres promises of the order of a column.
pub record IsOrder (collate : Text → Text → Bool) : Type 0 where
  pub total : (x y : Text) → (collate x y ≡ true) ⊎ (collate y x ≡ true)
  pub antisym : (x y : Text) → collate x y ≡ true → collate y x ≡ true → x ≡ y
  pub trans : (x y z : Text) → collate x y ≡ true → collate y z ≡ true → collate x z ≡ true

pub filter-and :
    (p q : Linked → Bool) (ms : List Linked) → filter (λ m. p m && q m) ms ≡ filter q (filter p ms)
unfolding filter
filter-and p q [] = refl
filter-and p q (m ∷ ms) = by_both (p m) (filter-and p q ms)
  where
    by_both :
        (a : Bool)
        → filter (λ m'. p m' && q m') ms ≡ filter q (filter p ms)
        → (if a && q m then m ∷ filter (λ m'. p m' && q m') ms else filter (λ m'. p m' && q m') ms)
          ≡ filter q (if a then m ∷ filter p ms else filter p ms)
    by_both true h = ap (λ l. if q m then m ∷ l else l) h
    by_both false h = h

All-middle :
    (P : Linked → Type 0) (front : List Linked) (m : Linked) (back : List Linked)
    → All P (front ++ m ∷ back)
    → P m
All-middle P [] m back h = h.0
All-middle P (n ∷ front) m back h = All-middle P front m back h.1

All-map :
    (P Q : Linked → Type 0) (ms : List Linked) → ((m : Linked) → P m → Q m) → All P ms → All Q ms
All-map P Q [] f a = tt
All-map P Q (m ∷ ms) f a = (f m a.0, All-map P Q ms f a.1)

All-filter :
    (P : Linked → Type 0) (p : Linked → Bool) (ms : List Linked) → All P ms → All P (filter p ms)
unfolding filter
All-filter P p [] a = tt
All-filter P p (m ∷ ms) a = by_case (p m) (All-filter P p ms a.1)
  where
    by_case : (b : Bool) → All P (filter p ms) → All P (if b then m ∷ filter p ms else filter p ms)
    by_case true rest = (a.0, rest)
    by_case false rest = rest

-- The primary key.
abbrev pub AreDistinctIds : List Linked → Type 0
AreDistinctIds [] = Unit
AreDistinctIds (m ∷ ms) = All (λ n. id_of m ≢ id_of n) ms × AreDistinctIds ms

pub AreDistinctIds-filter :
    (p : Linked → Bool) (ms : List Linked) → AreDistinctIds ms → AreDistinctIds (filter p ms)
unfolding filter
AreDistinctIds-filter p [] d = tt
AreDistinctIds-filter p (m ∷ ms) d =
    by_case (p m) (All-filter (λ n. id_of m ≢ id_of n) p ms d.0) (AreDistinctIds-filter p ms d.1)
  where
    by_case :
        (b : Bool)
        → All (λ n. id_of m ≢ id_of n) (filter p ms)
        → AreDistinctIds (filter p ms)
        → AreDistinctIds (if b then m ∷ filter p ms else filter p ms)
    by_case true a rest = (a, rest)
    by_case false a rest = rest

module _ (collate : Text → Text → Bool) (o : IsOrder collate) where
  -- Later users of one that is behind the cursor are behind it.
  is_after-up :
      (c : Text) (x y : Linked)
      → collate (id_of x) (id_of y) ≡ true
      → is_after collate (some c) x ≡ true
      → is_after collate (some c) y ≡ true
  unfolding is_after
  is_after-up c x y le a = by_case (collate (id_of y) c) refl
    where
      by_case : (b : Bool) → collate (id_of y) c ≡ b → not (collate (id_of y) c) ≡ true
      by_case true e = absurd (ground (arith, o.trans (id_of x) (id_of y) c le e, a))
      by_case false e = rw e refl

  filter-insert_linked :
      (c : Text) (x : Linked) (ys : List Linked)
      → filter (is_after collate (some c)) (insert_linked collate x ys) ≡ (
          if is_after collate (some c) x
          then insert_linked collate x (filter (is_after collate (some c)) ys)
          else filter (is_after collate (some c)) ys)
  unfolding filter insert_linked
  filter-insert_linked c x [] = refl
  filter-insert_linked c x (y ∷ ys) =
      by_case (collate (id_of x) (id_of y)) (is_after collate (some c) x)
        (is_after collate (some c) y) refl refl refl (filter-insert_linked c x ys)
    where
      by_case :
          (le ax ay : Bool)
          → collate (id_of x) (id_of y) ≡ le
          → is_after collate (some c) x ≡ ax
          → is_after collate (some c) y ≡ ay
          → filter (is_after collate (some c)) (insert_linked collate x ys) ≡ (
              if is_after collate (some c) x
              then insert_linked collate x (filter (is_after collate (some c)) ys)
              else filter (is_after collate (some c)) ys)
          → filter (is_after collate (some c)) (insert_linked collate x (y ∷ ys)) ≡ (
              if is_after collate (some c) x
              then insert_linked collate x (filter (is_after collate (some c)) (y ∷ ys))
              else filter (is_after collate (some c)) (y ∷ ys))
      by_case true true true l a b h = rw (l, a, b) (rw l refl)
      by_case true true false l a b h = absurd (cc (b, is_after-up c x y l a))
      by_case true false ay l a b h = rw (l, a) refl
      by_case false true true l a b h = rw (l, a, b) (rw l (ap (λ l'. y ∷ l') (rw a at h)))
      by_case false true false l a b h = rw (l, a, b) (rw a at h)
      by_case false false ay l a b h =
          rw (l, a) (ap (λ l'. if is_after collate (some c) y then y ∷ l' else l') (rw a at h))

  pub filter-order_linked :
      (c : Text) (ms : List Linked)
      → filter (is_after collate (some c)) (order_linked collate ms)
        ≡ order_linked collate (filter (is_after collate (some c)) ms)
  unfolding filter order_linked
  filter-order_linked c [] = refl
  filter-order_linked c (m ∷ ms) =
      by_case (is_after collate (some c) m) refl
        (filter-insert_linked c m (order_linked collate ms)) (filter-order_linked c ms)
    where
      by_case :
          (b : Bool)
          → is_after collate (some c) m ≡ b
          → filter (is_after collate (some c)) (insert_linked collate m (order_linked collate ms))
            ≡ (if is_after collate (some c) m
                then insert_linked collate m
                    (filter (is_after collate (some c)) (order_linked collate ms))
                else filter (is_after collate (some c)) (order_linked collate ms))
          → filter (is_after collate (some c)) (order_linked collate ms)
            ≡ order_linked collate (filter (is_after collate (some c)) ms)
          → filter (is_after collate (some c)) (insert_linked collate m (order_linked collate ms))
            ≡ order_linked collate (
                if is_after collate (some c) m
                then m ∷ filter (is_after collate (some c)) ms
                else filter (is_after collate (some c)) ms)
      by_case true a h k = rw a (rw a at h ∙ ap (insert_linked collate m) k)
      by_case false a h k = rw a (rw a at h ∙ k)

  -- Each user's identifier is strictly behind those before it.
  abbrev pub IsOrdered : List Linked → Type 0
  IsOrdered [] = Unit
  IsOrdered (m ∷ ms) = All (λ n. collate (id_of n) (id_of m) ≡ false) ms × IsOrdered ms

  filter-none :
      (c : Text) (ms : List Linked)
      → All (λ n. collate (id_of n) c ≡ false) ms
      → filter (is_after collate (some c)) ms ≡ ms
  unfolding filter is_after
  filter-none c [] h = refl
  filter-none c (m ∷ ms) h = rw h.0 (ap (λ l. m ∷ l) (filter-none c ms h.1))

  -- Behind the last of the first part comes the second part.
  pub filter-append :
      (front : List Linked) (m : Linked) (back : List Linked)
      → IsOrdered (front ++ m ∷ back)
      → filter (is_after collate (some (id_of m))) (front ++ m ∷ back) ≡ back
  unfolding filter is_after
  filter-append [] m back h =
      let self : collate (id_of m) (id_of m) ≡ true = elim (o.total (id_of m) (id_of m)) [
        | inl e ↦ e
        | inr e ↦ e
      ] in
      rw self (filter-none (id_of m) back h.0)
  filter-append (n ∷ front) m back h =
      let behind = All-middle _ front m back h.0 in
      let before : collate (id_of n) (id_of m) ≡ true = elim (o.total (id_of n) (id_of m)) [
        | inl e ↦ e
        | inr e ↦ absurd (cc (e, behind))
      ] in
      rw before (filter-append front m back h.1)

  All-insert_linked :
      (P : Linked → Type 0) (x : Linked) (ys : List Linked)
      → P x
      → All P ys
      → All P (insert_linked collate x ys)
  unfolding insert_linked
  All-insert_linked P x [] px a = (px, tt)
  All-insert_linked P x (y ∷ ys) px a =
      by_case (collate (id_of x) (id_of y)) (All-insert_linked P x ys px a.1)
    where
      by_case :
          (b : Bool)
          → All P (insert_linked collate x ys)
          → All P (if b then x ∷ y ∷ ys else y ∷ insert_linked collate x ys)
      by_case true rest = (px, a)
      by_case false rest = (a.0, rest)

  All-order_linked :
      (P : Linked → Type 0) (ms : List Linked) → All P ms → All P (order_linked collate ms)
  unfolding order_linked
  All-order_linked P [] a = tt
  All-order_linked P (m ∷ ms) a = All-insert_linked P m _ a.0 (All-order_linked P ms a.1)

  -- What is not before a user that comes later is not before one that comes earlier.
  not-before :
      (x y n : Linked)
      → collate (id_of x) (id_of y) ≡ true
      → collate (id_of n) (id_of y) ≡ false
      → collate (id_of n) (id_of x) ≡ false
  not-before x y n le h = by_case (collate (id_of n) (id_of x)) refl
    where
      by_case : (b : Bool) → collate (id_of n) (id_of x) ≡ b → collate (id_of n) (id_of x) ≡ false
      by_case true e = absurd (cc (o.trans (id_of n) (id_of x) (id_of y) e le, h))
      by_case false e = e

  strictly :
      (x y : Linked)
      → collate (id_of x) (id_of y) ≡ true
      → id_of x ≢ id_of y
      → collate (id_of y) (id_of x) ≡ false
  strictly x y le other = by_case (collate (id_of y) (id_of x)) refl
    where
      by_case : (b : Bool) → collate (id_of y) (id_of x) ≡ b → collate (id_of y) (id_of x) ≡ false
      by_case true e = absurd (other (o.antisym (id_of x) (id_of y) le e))
      by_case false e = e

  insert_linked-IsOrdered :
      (x : Linked) (ys : List Linked)
      → All (λ n. id_of x ≢ id_of n) ys
      → IsOrdered ys
      → IsOrdered (insert_linked collate x ys)
  unfolding insert_linked
  insert_linked-IsOrdered x [] d h = (tt, tt)
  insert_linked-IsOrdered x (y ∷ ys) d h =
      by_case (collate (id_of x) (id_of y)) refl (insert_linked-IsOrdered x ys d.1 h.1)
    where
      by_case :
          (b : Bool)
          → collate (id_of x) (id_of y) ≡ b
          → IsOrdered (insert_linked collate x ys)
          → IsOrdered (if b then x ∷ y ∷ ys else y ∷ insert_linked collate x ys)
      by_case true le rest =
          ((strictly x y le d.0, All-map _ _ ys (λ n. not-before x y n le) h.0), h)
      by_case false le rest =
          (All-insert_linked (λ n. collate (id_of n) (id_of y) ≡ false) x ys le h.0, rest)

  pub order_linked-IsOrdered :
      (ms : List Linked) → AreDistinctIds ms → IsOrdered (order_linked collate ms)
  unfolding order_linked
  order_linked-IsOrdered [] d = tt
  order_linked-IsOrdered (m ∷ ms) d =
      insert_linked-IsOrdered m _ (All-order_linked (λ n. id_of m ≢ id_of n) ms d.0)
        (order_linked-IsOrdered ms d.1)
