-- ===== src/Access/Tokens.antt =====
-- API tokens: app/tokens.go. The hash of a secret, the calendar and what random numbers gave are
-- parameters. Times are nanoseconds, 0 is the zero time. The audit
-- log is left out.
use mock_vision.Prelude.{
  ℕ, zero, suc, ◌-◌, String, Bool, false, not, ◌&&◌, ◌||◌, List, [], ◌∷◌, ◌++◌, Option, none, some,
  ◌⊎◌, inl, inr, ltb, leb, nat_beq, any, length, take, if◌then◌else◌,
}
use mock_vision.Prelude.Int.{ℤ, pos, negsuc}
use mock_vision.Prelude.Equality.{string_eq, ◌==◌}
use mock_vision.Prelude.GoMap.{is_some}
use mock_vision.Domain.Text.{Text, text_eq, Unicode, byte_length}
use mock_vision.Domain.Labels.{trim_space}
use mock_vision.Access.Db.{
  Db, User, ApiToken, get_api_token, get_api_token_by_hash, create_api_token, delete_api_token,
  touch_api_token,
}
use mock_vision.Prelude.Time.{time_of, unix_milli}

abbrev pub scope_read : String
scope_read = "read"

abbrev pub scope_write : String
scope_write = "write"

-- "mvt_"
abbrev pub token_prefix : Text
token_prefix = 109 ∷ 118 ∷ 116 ∷ 95 ∷ []

abbrev pub max_token_days : ℕ
max_token_days = 3650

-- A session of a token.
pub record TokenSession : Type 0 where
  pub user_id : String
  pub username : Text
  pub role : String
  pub token_id : String
  pub name : Text
  pub scopes : List String
  pub expires_at : ℕ

-- `CanWrite`
unfoldable pub can_write : TokenSession → Bool
can_write t = any (λ s. s == scope_write) t.scopes

abbrev is_scope : String → Bool
is_scope s = s == scope_read || s == scope_write

-- `none` for an unknown scope.
unfoldable pub normalize_scopes : List String → Option (List String)
normalize_scopes scopes =
    if any (λ s. not (is_scope s)) scopes
    then none
    else if any (λ s. s == scope_write) scopes
    then some (scope_read ∷ scope_write ∷ [])
    else some (scope_read ∷ [])

pub data TokenProblem : Type 0 where
  name_required name_too_long name_has_control unknown_scope bad_days : TokenProblem

pub data TokenError : Type 0 where
  no_actor name_taken invalid_token not_found : TokenError
  problems : List TokenProblem → TokenError

-- What a token is asked with.
pub record TokenInput : Type 0 where
  pub name : Text
  pub scopes : List String
  pub expires_in_days : Option ℤ

abbrev pub name_problems : Unicode → Text → List TokenProblem
name_problems u name =
    if name == []
    then name_required ∷ []
    else if ltb 64 (length name)
    then name_too_long ∷ []
    else if any u.is_control name
    then name_has_control ∷ []
    else []

abbrev pub scope_problems : Option (List String) → List TokenProblem
scope_problems none = unknown_scope ∷ []
scope_problems (some _) = []

abbrev pub days_problems : Option ℤ → List TokenProblem
days_problems none = []
days_problems (some (pos n)) = if leb 1 n && leb n max_token_days then [] else bad_days ∷ []
days_problems (some (negsuc n)) = bad_days ∷ []

abbrev pub or_read : Option (List String) → List String
or_read none = []
or_read (some scopes) = scopes

-- What is new of a token: its ID, and its secret without the prefix.
pub record Fresh : Type 0 where
  pub id : String
  pub encoded : Text

abbrev pub secret_of : Fresh → Text
secret_of f = token_prefix ++ f.encoded

-- store.NullMillis
abbrev pub null_millis_of : ℕ → Option ℕ
null_millis_of zero = none
null_millis_of (suc t) = some (unix_milli (suc t))

-- When a token with these days expires; `add_days` is time.AddDate.
unfoldable pub expires_of : (ℕ → ℕ → ℕ) → ℕ → Option ℤ → ℕ
expires_of add_days now (some (pos n)) =
    if leb 1 n && leb n max_token_days then add_days now n else 0
expires_of add_days now _ = 0

abbrev pub token_row : (Text → String) → String → Fresh → Text → List String → ℕ → ℕ → ApiToken
token_row hash user f name scopes expires now = record {
  id = f.id;
  user_id = user;
  name = name;
  token_hash = hash (secret_of f);
  prefix = take 12 (secret_of f);
  scopes = scopes;
  expires_at = null_millis_of expires;
  last_used_at = none;
  last_used_ip = "";
  created_at = unix_milli now;
}

unfoldable pub token_created : Text → Option Db → TokenError ⊎ (Text × Db)
token_created secret none = inl name_taken
token_created secret (some d) = inr (secret, d)

unfoldable pub create_checked : ApiToken → Text → List TokenProblem → Db → TokenError ⊎ (Text × Db)
unfolding token_created create_api_token
create_checked row secret (p ∷ ps) d = inl (problems (p ∷ ps))
create_checked row secret [] d = token_created secret (create_api_token row d)

-- `CreateToken`: the secret and the tables.
unfoldable pub create_token :
    (Text → String)
    → (ℕ → ℕ → ℕ)
    → Unicode
    → String
    → TokenInput
    → Fresh
    → ℕ
    → Db
    → TokenError ⊎ (Text × Db)
unfolding create_checked normalize_scopes expires_of
create_token hash add_days u user input f now d =
    let name = trim_space u input.name in
    let scopes = normalize_scopes input.scopes in
    let expires = expires_of add_days now input.expires_in_days in
    if user == ""
    then inl no_actor
    else create_checked (token_row hash user f name (or_read scopes) expires now) (secret_of f)
        (name_problems u name ++ scope_problems scopes ++ days_problems input.expires_in_days) d

-- `RevokeToken`
unfoldable pub revoke_token : String → String → Db → Option TokenError × Db
unfolding get_api_token delete_api_token
revoke_token id user d =
    if is_some (get_api_token id user d)
    then (let (n, after) = delete_api_token id user d in
        if nat_beq n 0 then (some not_found, after) else (none, after))
    else (some not_found, d)

abbrev pub bad_secret : Text → Bool
bad_secret secret = not (take 4 secret == token_prefix) || ltb 100 (byte_length secret)

abbrev pub null_time_of : Option ℕ → ℕ
null_time_of none = 0
null_time_of (some ms) = time_of ms

abbrev pub token_ended : ℕ → ApiToken → User → Bool
token_ended now t u =
    let expires = null_time_of t.expires_at in
    (not (nat_beq expires 0) && ltb expires now) || u.disabled

-- The last use is written at most once a minute.
abbrev pub is_stale : ℕ → ApiToken → Bool
is_stale now t =
    let last = null_time_of t.last_used_at in nat_beq last 0 || ltb 60_000_000_000 (now - last)

abbrev pub token_session : ApiToken → User → TokenSession
token_session t u = record {
  user_id = u.id;
  username = u.username;
  role = u.role;
  token_id = t.id;
  name = t.name;
  scopes = t.scopes;
  expires_at = null_time_of t.expires_at;
}

unfoldable pub use_token : String → ℕ → Option (ApiToken × User) → Db → Option TokenSession × Db
unfolding touch_api_token
use_token ip now none d = (none, d)
use_token ip now (some (t, u)) d = if token_ended now t u then (none, d) else (
  some (token_session t u),
  if is_stale now t then touch_api_token t.id (unix_milli now) ip d else d,
)

-- `AuthenticateToken`, `none` for ErrInvalidToken.
unfoldable pub authenticate_token :
    (Text → String) → Text → String → ℕ → Db → Option TokenSession × Db
unfolding use_token get_api_token_by_hash
authenticate_token hash secret ip now d =
    if bad_secret secret
    then (none, d)
    else use_token ip now (get_api_token_by_hash (hash secret) d) d

unfoldable pub token_lives : ℕ → Option (ApiToken × User) → Bool
token_lives now none = false
token_lives now (some (t, u)) = not (token_ended now t u)

-- `CheckToken`, whether it returns no error.
unfoldable pub check_token : (Text → String) → Text → ℕ → Db → Bool
unfolding token_lives get_api_token_by_hash
check_token hash secret now d =
    if bad_secret secret then false else token_lives now (get_api_token_by_hash (hash secret) d)
