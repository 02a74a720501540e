-- ===== src/RoleLogic.antt =====
-- src/services/rolelogic.rs: the client of RoleLogic's HTTP API. What RoleLogic answers is an
-- argument, which may depend on all the requests before; the texts of a status, of a JSON error
-- and the JSON parser are arguments as well. A timeout is an answer like any lost connection.
pub mod Upload
pub mod Chunks
pub mod Trace
pub mod Founded
pub mod Errors
pub mod Links
use kick_channel_role.Prelude.{
  ℕ, ◌<◌, Bool, true, false, not, ◌&&◌, ◌||◌, Option, none, some, List, [], ◌∷◌, ◌++◌, leb, ltb,
  ◌==◌, if◌then◌else◌, Result, ok, err, ok_or, unwrap_or,
}
use kick_channel_role.Prelude.Text.{Text, codes, trim_end}
use kick_channel_role.Prelude.Text as Str
use kick_channel_role.Json.{Value, null, get, as_bool, as_str, as_u64}
use kick_channel_role.AppError.{
  AppError, rolelogic, role_link_not_found, role_link_disabled, removal_held, user_limit_reached,
}

-- What a request asks for, with the users in its path or its body.
pub data Endpoint : Type 0 where
  user_info start : Endpoint
  add remove : Text → Endpoint
  replace : List Text → Endpoint
  chunk : Text → List Text → Endpoint
  commit cancel : Text → Endpoint

pub record Request : Type 0 where
  pub guild_id : Text
  pub role_id : Text
  pub token : Text
  pub endpoint : Endpoint

pub data Method : Type 0 where
  http_get http_post http_put http_delete : Method

unfoldable pub method_of : Endpoint → Method
method_of user_info = http_get
method_of start = http_post
method_of (add u) = http_post
method_of (remove u) = http_delete
method_of (replace users) = http_put
method_of (chunk id users) = http_post
method_of (commit id) = http_post
method_of (cancel id) = http_delete

-- The path below `/users`.
unfoldable pub path_of : Endpoint → Text
path_of user_info = []
path_of start = codes "/upload"
path_of (add u) = codes "/" ++ u
path_of (remove u) = codes "/" ++ u
path_of (replace users) = []
path_of (chunk id users) = codes "/upload/" ++ id ++ codes "/chunk"
path_of (commit id) = codes "/upload/" ++ id ++ codes "/commit"
path_of (cancel id) = codes "/upload/" ++ id

-- The base loses its slashes at the end.
unfoldable pub url_of : Text → Request → Text
unfolding path_of
url_of base_url r =
    trim_end (λ c. c == 47) base_url
    ++ codes "/api/role-link/"
    ++ r.guild_id
    ++ codes "/"
    ++ r.role_id
    ++ codes "/users"
    ++ path_of r.endpoint

-- The status, and the body as a text, empty where it cannot be read.
pub record Response : Type 0 where
  pub status : ℕ
  pub body : Text

abbrev pub is_success : ℕ → Bool
is_success status = leb 200 status && ltb status 300

unfoldable pub link_inactive : ℕ → Text → Bool
link_inactive status body =
    status == 403
    && (Str.contains body (codes "This role link is disabled")
        || Str.contains body (codes "This role link is paused"))

unfoldable pub is_held : ℕ → Text → Bool
is_held status body = status == 409 && Str.contains body (codes "confirm_required")

unfoldable pub link_gone : ℕ → Text → Bool
link_gone status body = status == 403 && Str.contains body (codes "Invalid or revoked token")

-- `v[key]`.
abbrev pub index : Value → Text → Value
index v key = unwrap_or (get key v) null

unfoldable pub count_in : Value → Text → ℕ → ℕ
count_in v key default = unwrap_or (as_u64 (index (index v (codes "data")) key)) default

unfoldable pub flag_in : Value → Text → Bool
flag_in v key = unwrap_or (as_bool (index (index v (codes "data")) key)) false

-- What goes over the wire, and how it is shown.
pub record Wire : Type 0 where
  pub answer : List Request → Request → Result Text Response
  pub show_status : ℕ → Text
  pub parse_json : Text → Option Value
  pub json_error : Text → Text

-- A computation that sends requests, which are kept, the newest first.
pub data Client {ℓ} (A : Type ℓ) : Type ℓ where
  client : (List Request → List Request × Result AppError A) → Client A

abbrev pub run {ℓ} : {A : Type ℓ} → Client A → List Request → List Request × Result AppError A
run (client f) = f

unfoldable pub return {ℓ} : {A : Type ℓ} → A → Client A
return a = client (λ sent. (sent, ok a))

unfoldable pub lift {ℓ} : {A : Type ℓ} → Result AppError A → Client A
lift r = client (λ sent. (sent, r))

abbrev pub then_run {ℓ κ} :
    {A : Type ℓ} {B : Type κ}
    → List Request × Result AppError A
    → (A → Client B)
    → List Request × Result AppError B
then_run (sent, ok a) k = run (k a) sent
then_run (sent, err e) k = (sent, err e)

infixl 5 ◌>>=◌
unfoldable pub ◌>>=◌ {ℓ κ} : {A : Type ℓ} {B : Type κ} → Client A → (A → Client B) → Client B
m >>= k = client (λ sent. then_run (run m sent) k)
