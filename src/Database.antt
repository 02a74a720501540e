-- ===== src/Database.antt =====
-- The tables that the handlers of events write, and the statements that they run one by one, each
-- of which may fail: it fails where `faults` says so, where a column would leave its type, and
-- where a unique index would break. A statement that fails changes nothing. A handler that stops at
-- an error keeps what its earlier statements wrote, since there is no transaction around them.
pub mod Respects
use kick_channel_role.Prelude.{
  ◌^◌, ◌-◌, Bool, true, false, not, ◌&&◌, Option, none, some, List, [], ◌∷◌, any, all,
  if◌then◌else◌, Result, ok, err, update_rows,
}
use kick_channel_role.Prelude.Int.{ℤ, pos, negsuc, leb_ℤ}
use kick_channel_role.Prelude.Text.{Text}
use kick_channel_role.Rule.Facts.{DateTime}
use kick_channel_role.Relation.{Relation, KickUser}
use kick_channel_role.Jobs.{Queue}

-- The columns of `broadcasters` that events write.
pub record Broadcaster : Type 0 where
  pub kick_channel_id : ℤ
  pub kick_slug : Text
  pub display_name : Text
  pub is_live : Bool
  pub current_category : Option Text
  pub viewer_count : ℤ
  pub live_started_at : Option DateTime
  pub last_live_at : Option DateTime
  pub updated_at : DateTime

-- `chat_activity_days`; a day is numbered.
pub record ChatDay : Type 0 where
  pub kick_channel_id : ℤ
  pub kick_user_id : ℤ
  pub day : ℤ
  pub messages : ℤ

-- `webhook_deliveries`.
pub record Delivery : Type 0 where
  pub message_id : Text
  pub event_type : Text

pub record Tables : Type 0 where
  pub broadcasters : List Broadcaster
  pub relations : List Relation
  pub kick_users : List KickUser
  pub chat_days : List ChatDay
  pub deliveries : List Delivery
  pub jobs : Queue

pub data DbError : Type 0 where
  fault out_of_range unique_violation : DbError

-- The tables, and for the next statements whether each fails; past the end none does.
pub record World : Type 0 where
  pub tables : Tables
  pub faults : List Bool

-- Statements, one after the other.
pub data Sql {ℓ} (A : Type ℓ) : Type ℓ where
  sql : (World → World × Result DbError A) → Sql A

abbrev pub run {ℓ} : {A : Type ℓ} → Sql A → World → World × Result DbError A
run (sql f) = f

unfoldable pub return {ℓ} : {A : Type ℓ} → A → Sql A
return a = sql (λ w. (w, ok a))

abbrev pub then_run {ℓ κ} :
    {A : Type ℓ} {B : Type κ} → World × Result DbError A → (A → Sql B) → World × Result DbError B
then_run (w, ok a) k = run (k a) w
then_run (w, err e) k = (w, err e)

infixl 5 ◌>>=◌ ◌>>◌
unfoldable pub ◌>>=◌ {ℓ κ} : {A : Type ℓ} {B : Type κ} → Sql A → (A → Sql B) → Sql B
m >>= k = sql (λ w. then_run (run m w) k)

unfoldable pub ◌>>◌ {ℓ κ} : {A : Type ℓ} {B : Type κ} → Sql A → Sql B → Sql B
m >> n = m >>= λ _. n

-- An error is logged, and the handler goes on.
abbrev pub forget_error : World × Result DbError (Unit {0}) → World × Result DbError (Unit {0})
forget_error (w, r) = (w, ok tt)

unfoldable pub best_effort : Sql (Unit {0}) → Sql (Unit {0})
best_effort m = sql (λ w. forget_error (run m w))

unfoldable pub when : Bool → Sql (Unit {0}) → Sql (Unit {0})
when true m = m
when false m = return tt

-- `if let Some(a) = …`.
unfoldable pub when_some {ℓ} : {A : Type ℓ} → Option A → (A → Sql (Unit {0})) → Sql (Unit {0})
when_some none k = return tt
when_some (some a) k = k a

unfoldable pub for_each {ℓ} : {A : Type ℓ} → List A → (A → Sql (Unit {0})) → Sql (Unit {0})
for_each [] k = return tt
for_each (x ∷ xs) k = k x >> for_each xs k

-- What a statement leaves, on tables that it may change or on which it fails.
abbrev pub outcome {ℓ} :
    {A : Type ℓ} → Tables → List Bool → Result DbError (Tables × A) → World × Result DbError A
outcome t faults (ok (t', a)) = (record { tables = t'; faults = faults }, ok a)
outcome t faults (err e) = (record { tables = t; faults = faults }, err e)

abbrev pub execute {ℓ} :
    {A : Type ℓ}
    → (Tables → Result DbError (Tables × A))
    → Tables
    → List Bool
    → World × Result DbError A
execute f t [] = outcome t [] (f t)
execute f t (true ∷ faults) = (record { tables = t; faults = faults }, err fault)
execute f t (false ∷ faults) = outcome t faults (f t)

unfoldable pub statement {ℓ} : {A : Type ℓ} → (Tables → Result DbError (Tables × A)) → Sql A
statement f = sql (λ w. execute f w.tables w.faults)

-- A SELECT.
unfoldable pub query {ℓ} : {A : Type ℓ} → (Tables → A) → Sql A
query f = statement (λ t. ok (t, f t))

-- The range of an INTEGER column.
abbrev pub in_i32 : ℤ → Bool
in_i32 n = leb_ℤ (negsuc (2 ^ 31 - 1)) n && leb_ℤ n (pos (2 ^ 31 - 1))

-- The INTEGER columns of a row.
unfoldable pub fits : Relation → Bool
fits r =
    in_i32 r.sub_months_cumulative
    && in_i32 r.sub_streak_months
    && in_i32 r.gifted_subs_given
    && in_i32 r.kicks_donated
    && in_i32 r.chat_messages_30d

abbrev pub if_allowed {ℓ} : {A : Type ℓ} → Bool → DbError → Tables × A → Result DbError (Tables × A)
if_allowed true e x = ok x
if_allowed false e x = err e

-- An UPDATE of `channel_relations`, and whether it affected a row.
unfoldable pub update_relations :
    (Relation → Bool) → (Relation → Relation) → Tables → Result DbError (Tables × Bool)
update_relations p f t =
    let rows = update_rows p f t.relations in
    if_allowed (all fits rows) out_of_range (record t { relations = rows }, any p t.relations)
