-- ===== src/Access/Sessions.antt =====
-- Sessions of the panel: `newSession`, `Authenticate`, `CheckSession` and `Logout` of auth.go. Times
-- are nanoseconds, stored as milliseconds; 0 is the zero time.
use mock_vision.Prelude.Time.{time_of, unix_milli}
use mock_vision.Prelude.{
  ℕ, ◌+◌, ◌-◌, ◌*◌, String, Bool, false, not, ◌&&◌, ◌||◌, List, [], Option, none, some, ltb,
  if◌then◌else◌, take, length,
}
use mock_vision.Prelude.Equality.{string_eq, ◌==◌}
use mock_vision.Domain.Text.{Text, text_eq, byte_length}
use mock_vision.Access.Db.{
  Db, User, SessionRow, create_session, get_session, extend_session, delete_session,
}

abbrev pub hour : ℕ
hour = 3_600_000_000_000

-- SessionTTL and SessionMaxLifetime
abbrev pub session_ttl : ℕ
session_ttl = 12 * hour

abbrev pub session_max_lifetime : ℕ
session_max_lifetime = 7 * 24 * hour

-- What a request is made with.
pub record Session : Type 0 where
  pub user_id : String
  pub username : Text
  pub role : String
  pub expires_at : ℕ
  pub extended : Bool

-- A user agent, in bytes.
abbrev pub cut_agent : List ℕ → List ℕ
cut_agent ua = if ltb 200 (length ua) then take 200 ua else ua

abbrev pub new_session_row : (Text → String) → Text → User → String → List ℕ → ℕ → ℕ → SessionRow
new_session_row token_id token u ip ua now later = record {
  id = token_id token;
  user_id = u.id;
  expires_at = unix_milli (now + session_ttl);
  ip = ip;
  user_agent = cut_agent ua;
  created_at = unix_milli later;
}

unfoldable pub session_created : Session → Option Db → Option (Session × Db)
session_created s none = none
session_created s (some after) = some (s, after)

-- The token is random, and the times of the two calls of time.Now follow each other.
unfoldable pub new_session :
    (Text → String) → Text → User → String → List ℕ → ℕ → ℕ → Db → Option (Session × Db)
unfolding create_session session_created
new_session token_id token u ip ua now later d =
    let exp = now + session_ttl in
    let row = new_session_row token_id token u ip ua now later in
    let session : Session = record {
      user_id = u.id;
      username = u.username;
      role = u.role;
      expires_at = exp;
      extended = false;
    } in
    session_created session (create_session row d)

-- A token that no session can have.
abbrev pub bad_token : Text → Bool
bad_token token = token == [] || ltb 100 (byte_length token)

abbrev pub limit_of : SessionRow → ℕ
limit_of s = time_of s.created_at + session_max_lifetime

abbrev pub has_ended : ℕ → SessionRow → User → Bool
has_ended now s u = ltb (time_of s.expires_at) now || ltb (limit_of s) now || u.disabled

abbrev min_time : ℕ → ℕ → ℕ
min_time a b = if ltb a b then a else b

abbrev pub next_expiry : ℕ → SessionRow → ℕ
next_expiry now s = min_time (now + session_ttl) (limit_of s)

-- It is extended at most every hour, and only to a later time.
abbrev pub extends : ℕ → SessionRow → Bool
extends now s =
    let exp = time_of s.expires_at in
    ltb (exp - now) (session_ttl - hour) && ltb exp (next_expiry now s)

abbrev pub session_of : ℕ → SessionRow → User → Session
session_of now s u = record {
  user_id = u.id;
  username = u.username;
  role = u.role;
  expires_at = if extends now s then next_expiry now s else time_of s.expires_at;
  extended = extends now s;
}

unfoldable pub authenticate_row : String → ℕ → Option (SessionRow × User) → Db → Option Session × Db
unfolding extend_session
authenticate_row id now none d = (none, d)
authenticate_row id now (some (s, u)) d = if has_ended now s u then (none, d) else (
  some (session_of now s u),
  if extends now s then extend_session id (unix_milli (next_expiry now s)) d else d,
)

-- `none` for ErrUnauthenticated.
unfoldable pub authenticate : (Text → String) → Text → ℕ → Db → Option Session × Db
unfolding authenticate_row get_session
authenticate token_id token now d =
    let id = token_id token in
    if bad_token token then (none, d) else authenticate_row id now (get_session id d) d

unfoldable pub check_row : ℕ → Option (SessionRow × User) → Bool
check_row now none = false
check_row now (some (s, u)) = not (has_ended now s u)

-- Whether it returns no error.
unfoldable pub check_session : (Text → String) → Text → ℕ → Db → Bool
unfolding check_row get_session
check_session token_id token now d =
    if bad_token token then false else check_row now (get_session (token_id token) d)

unfoldable pub logout : (Text → String) → Text → Db → Db
unfolding delete_session
logout token_id token d = delete_session (token_id token) d
