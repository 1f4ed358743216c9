-- ===== src/Access/Db.antt =====
-- The tables of users, sessions and API tokens, and their queries in auth.sql.go and tokens.sql.go. A
-- table is the list of its rows; times are milliseconds, and a primary or unique key that is there
-- already refuses an insertion.
use mock_vision.Prelude.{
  ℕ, String, Bool, not, ◌&&◌, ◌||◌, List, [], ◌∷◌, ◌++◌, Option, none, some, ltb, if◌then◌else◌,
  length, filter, any, map,
}
use mock_vision.Prelude.Equality.{string_eq, ◌==◌}
use mock_vision.Domain.Text.{Text, text_eq}

-- A row of `users`.
pub record User : Type 0 where
  pub id : String
  pub username : Text
  pub password_hash : String
  pub role : String
  pub disabled : Bool
  pub created_at : ℕ

-- A row of `sessions`.
pub record SessionRow : Type 0 where
  pub id : String
  pub user_id : String
  pub expires_at : ℕ
  pub ip : String
  pub user_agent : List ℕ
  pub created_at : ℕ

-- A row of `api_tokens`; the scopes are kept as they are encoded and decoded.
pub record ApiToken : Type 0 where
  pub id : String
  pub user_id : String
  pub name : Text
  pub token_hash : String
  pub prefix : Text
  pub scopes : List String
  pub expires_at : Option ℕ
  pub last_used_at : Option ℕ
  pub last_used_ip : String
  pub created_at : ℕ

pub record Db : Type 0 where
  pub users : List User
  pub sessions : List SessionRow
  pub api_tokens : List ApiToken

-- The first row that passes a test.
unfoldable pub find : {A : Type 0} → (A → Bool) → List A → Option A
find p [] = none
find p (x ∷ xs) = let rest = find p xs in if p x then some x else rest

unfoldable pub count_users : Db → ℕ
count_users d = length d.users

-- A username is unique, and found, whatever the case of its letters: `fold` is SQLite's NOCASE.
unfoldable pub create_user : (Text → Text) → User → Db → Option Db
create_user fold u d =
    if any (λ v. v.id == u.id || fold v.username == fold u.username) d.users
    then none
    else some (record d { users = d.users ++ u ∷ [] })

unfoldable pub get_user_by_username : (Text → Text) → Text → Db → Option User
unfolding find
get_user_by_username fold name d = find (λ u. fold u.username == fold name) d.users

unfoldable pub get_user_by_id : String → Db → Option User
unfolding find
get_user_by_id id d = find (λ u. u.id == id) d.users

unfoldable pub create_session : SessionRow → Db → Option Db
create_session s d =
    if any (λ t. t.id == s.id) d.sessions
    then none
    else some (record d { sessions = d.sessions ++ s ∷ [] })

-- A row joined with its user.
unfoldable pub with_user : {A : Type 0} → A → Option User → Option (A × User)
with_user a none = none
with_user a (some u) = some (a, u)

unfoldable pub session_joined : Db → Option SessionRow → Option (SessionRow × User)
unfolding with_user get_user_by_id
session_joined d none = none
session_joined d (some s) = with_user s (get_user_by_id s.user_id d)

unfoldable pub get_session : String → Db → Option (SessionRow × User)
unfolding find session_joined
get_session id d = session_joined d (find (λ s. s.id == id) d.sessions)

abbrev pub extended_row : String → ℕ → SessionRow → SessionRow
extended_row id expires s = if s.id == id then record s { expires_at = expires } else s

unfoldable pub extend_session : String → ℕ → Db → Db
extend_session id expires d = record d { sessions = map (extended_row id expires) d.sessions }

unfoldable pub delete_session : String → Db → Db
delete_session id d = record d { sessions = filter (λ s. not (s.id == id)) d.sessions }

unfoldable pub delete_expired_sessions : ℕ → Db → Db
delete_expired_sessions now d = record d {
  sessions = filter (λ s. not (ltb s.expires_at now)) d.sessions;
}

-- Whether the tables have a token with one of the keys that must differ: its ID, its hash, and its
-- name among the tokens of its user.
abbrev pub clashes : ApiToken → ApiToken → Bool
clashes a b =
    a.id == b.id || a.token_hash == b.token_hash || (a.user_id == b.user_id && a.name == b.name)

unfoldable pub create_api_token : ApiToken → Db → Option Db
create_api_token t d =
    if any (clashes t) d.api_tokens
    then none
    else some (record d { api_tokens = d.api_tokens ++ t ∷ [] })

abbrev pub is_token_of : String → String → ApiToken → Bool
is_token_of id user t = t.id == id && t.user_id == user

unfoldable pub get_api_token : String → String → Db → Option ApiToken
unfolding find
get_api_token id user d = find (is_token_of id user) d.api_tokens

unfoldable pub token_joined : Db → Option ApiToken → Option (ApiToken × User)
unfolding with_user get_user_by_id
token_joined d none = none
token_joined d (some t) = with_user t (get_user_by_id t.user_id d)

unfoldable pub get_api_token_by_hash : String → Db → Option (ApiToken × User)
unfolding find token_joined
get_api_token_by_hash hash d = token_joined d (find (λ t. t.token_hash == hash) d.api_tokens)

abbrev pub touched : String → ℕ → String → ApiToken → ApiToken
touched id now ip t =
    if t.id == id then record t { last_used_at = some now; last_used_ip = ip } else t

unfoldable pub touch_api_token : String → ℕ → String → Db → Db
touch_api_token id now ip d = record d { api_tokens = map (touched id now ip) d.api_tokens }

-- The rows deleted, and the tables without them.
unfoldable pub delete_api_token : String → String → Db → ℕ × Db
delete_api_token id user d = (
  length (filter (is_token_of id user) d.api_tokens),
  record d { api_tokens = filter (λ t. not (is_token_of id user t)) d.api_tokens },
)
