-- ===== src/Access/SignIn.antt =====
-- `Setup` and `Login` of auth.go. The hash of a password, the encodings and the key of an address
-- are parameters; what random numbers and the hash limiter gave is an argument. A
-- request has one time, and of other requests only what they do to the database before the
-- transaction of a setup comes between.
use mock_vision.Prelude.{
  ℕ, String, Bool, false, not, ◌&&◌, ◌||◌, List, [], ◌∷◌, ◌++◌, Option, none, some, nat_beq,
  if◌then◌else◌, filter, map,
}
use mock_vision.Prelude.Equality.{string_eq, ◌==◌}
use mock_vision.Domain.Text.{Text, text_eq, Unicode}
use mock_vision.Prelude.GoMap.{is_some}
use mock_vision.Domain.Users.{validate_username, validate_panel_password}
use mock_vision.Domain.Labels.{trim_space}
use mock_vision.Guard.Login.{LoginGuard, locked, allow_ip, fail, success}
use mock_vision.Access.Db.{Db, User, count_users, create_user, get_user_by_username}
use mock_vision.Prelude.Time.{unix_milli}
use mock_vision.Access.Sessions.{Session, new_session}

-- What the code takes from packages: the hash of a token, the check of a password against its hash,
-- the key of a name and an address, the comparison of names in the database, and the
-- key of an address.
pub record Packages : Type 0 where
  pub token_id : Text → String
  pub verify : String → Text → Bool
  pub login_key : Text → String → String
  pub fold : Text → Text
  pub ip_key : String → String

pub data AuthError : Type 0 where
  unauthenticated setup_done bad_setup_code not_stored busy invalid : AuthError
  locked_until rate_limited : ℕ → AuthError

pub data Audited : Type 0 where
  login_failed login_done setup_finished : Audited

pub record Panel : Type 0 where
  pub db : Db
  pub guard : LoginGuard
  pub setup_code : Text
  pub audit : List (Audited × String)

-- Who asks, with what, and when.
pub record Request : Type 0 where
  pub username : Text
  pub password : Text
  pub ip : String
  pub user_agent : List ℕ
  pub now : ℕ

pub data Answer : Type 0 where
  refused : AuthError → Answer
  opened : Text → Session → Answer

unfoldable pub session_answer : Text → Panel → Option (Session × Db) → Answer × Panel
session_answer token p none = (refused not_stored, p)
session_answer token p (some (s, d)) = (opened token s, record p { db = d })

-- `newSession` at the end of both.
unfoldable pub open_session : Packages → Text → User → Request → Panel → Answer × Panel
unfolding new_session session_answer
open_session k token u r p =
    session_answer token p (new_session k.token_id token u r.ip r.user_agent r.now r.now p.db)

-- The user, unless the password is wrong or the user is disabled.
abbrev pub is_admitted : Packages → Request → User → Bool
is_admitted k r u = k.verify u.password_hash r.password && not u.disabled

-- From the answer of the hash limiter on, with the guard after `allowIP`.
unfoldable pub login_checked : Packages → Text → Request → Option User → Panel → Answer × Panel
unfolding open_session fail success
login_checked k token r none p =
    (refused unauthenticated, record p { guard = fail (k.login_key r.username r.ip) r.now p.guard })
login_checked k token r (some u) p =
    let key = k.login_key r.username r.ip in
    if is_admitted k r u
    then open_session k token u r (record p {
      guard = success k.ip_key key r.ip p.guard;
      audit = p.audit ++ (login_done, u.id) ∷ [];
    })
    else (
      refused unauthenticated,
      record p { guard = fail key r.now p.guard; audit = p.audit ++ (login_failed, u.id) ∷ [] },
    )

-- `hashed` is false when the limiter had no slot.
unfoldable pub login_allowed :
    Packages → Bool → Text → Request → Option ℕ × LoginGuard → Panel → Answer × Panel
unfolding login_checked get_user_by_username
login_allowed k hashed token r (some wait, g) p =
    (refused (rate_limited wait), record p { guard = g })
login_allowed k hashed token r (none, g) p =
    if hashed
    then login_checked k token r (get_user_by_username k.fold r.username p.db)
        (record p { guard = g })
    else (refused busy, record p { guard = g })

unfoldable pub login_unlocked : Packages → Bool → Text → Request → Option ℕ → Panel → Answer × Panel
unfolding login_allowed allow_ip
login_unlocked k hashed token r (some until) p = (refused (locked_until until), p)
login_unlocked k hashed token r none p =
    login_allowed k hashed token r (allow_ip k.ip_key r.ip r.now p.guard) p

unfoldable pub login : Packages → Bool → Text → Request → Panel → Answer × Panel
unfolding login_unlocked locked
login k hashed token r p =
    login_unlocked k hashed token r (locked (k.login_key r.username r.ip) r.now p.guard) p

-- `SetupRequired`
unfoldable pub setup_required : Db → Bool
unfolding count_users
setup_required d = nat_beq (count_users d) 0

-- `SetupCode`: the code that the panel has, or else the one of its file or a new one, `made`; `none`
-- where it cannot be made.
unfoldable pub setup_code_of : Option Text → Panel → Option (Text × Panel)
unfolding setup_required
setup_code_of made p =
    if not (setup_required p.db)
    then some ([], p)
    else if not (p.setup_code == [])
    then some (p.setup_code, p)
    else elim made [ none ↦ none | some c ↦ some (c, record p { setup_code = c }) ]

abbrev is_blank : ℕ → Bool
is_blank r = nat_beq r 32

-- strings.ToUpper, without the spaces around and within.
abbrev pub plain_code : Unicode → (ℕ → ℕ) → Text → Text
plain_code u upper given = map upper (filter (λ r. not (is_blank r)) (trim_space u given))

-- What a setup is asked with; `made` and `hash` are what the setup code's file and the hash of the
-- password gave, and `id` and `token` are new.
pub record SetupRequest : Type 0 where
  pub request : Request
  pub code : Text
  pub made : Option Text
  pub hash : Option String
  pub id : String
  pub token : Text

abbrev pub first_user : SetupRequest → String → User
first_user s hash = record {
  id = s.id;
  username = s.request.username;
  password_hash = hash;
  role = "admin";
  disabled = false;
  created_at = unix_milli s.request.now;
}

-- The transaction that creates the user, and what follows it.
unfoldable pub create_first : Packages → SetupRequest → String → Panel → Answer × Panel
unfolding open_session create_user setup_required
create_first k s hash p =
    let u = first_user s hash in
    if setup_required p.db
    then (elim (create_user k.fold u p.db) [
      | none ↦ (refused not_stored, p)
      | some d ↦
          open_session k s.token u s.request
            (record p { db = d; setup_code = []; audit = p.audit ++ (setup_finished, u.id) ∷ [] })
    ])
    else (refused setup_done, p)

-- `checkSetupCode`, and what follows it. `meanwhile` is what other requests do to the database before
-- the transaction, while the password is hashed.
unfoldable pub setup_coded :
    Packages
    → Unicode
    → (ℕ → ℕ)
    → Bool
    → SetupRequest
    → (Db → Db)
    → Option (Text × Panel)
    → Panel
    → Answer × Panel
unfolding create_first
setup_coded k u upper hashed s meanwhile none p = (refused not_stored, p)
setup_coded k u upper hashed s meanwhile (some (code, q)) p =
    if code == [] || not (code == plain_code u upper s.code)
    then (refused bad_setup_code, q)
    else if hashed
    then (elim s.hash [
      | none ↦ (refused not_stored, q)
      | some hash ↦ create_first k s hash (record q { db = meanwhile q.db })
    ])
    else (refused busy, q)

unfoldable pub setup_allowed :
    Packages
    → Unicode
    → (ℕ → ℕ)
    → Bool
    → SetupRequest
    → (Db → Db)
    → Option ℕ × LoginGuard
    → Panel
    → Answer × Panel
unfolding setup_coded setup_code_of
setup_allowed k u upper hashed s meanwhile (some wait, g) p =
    (refused (rate_limited wait), record p { guard = g })
setup_allowed k u upper hashed s meanwhile (none, g) p =
    let q = record p { guard = g } in
    setup_coded k u upper hashed s meanwhile (setup_code_of s.made q) q

abbrev pub is_invalid : Request → Bool
is_invalid r =
    is_some (validate_username r.username) || is_some (validate_panel_password r.password)

unfoldable pub setup :
    Packages → Unicode → (ℕ → ℕ) → Bool → SetupRequest → (Db → Db) → Panel → Answer × Panel
unfolding setup_allowed allow_ip setup_required
setup k u upper hashed s meanwhile p =
    if is_invalid s.request
    then (refused invalid, p)
    else if setup_required p.db
    then setup_allowed k u upper hashed s meanwhile
        (allow_ip k.ip_key s.request.ip s.request.now p.guard) p
    else (refused setup_done, p)
