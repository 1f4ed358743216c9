-- ===== src/Tests/Access.antt =====
-- Sessions, sign-ins and API tokens.
use mock_vision.Prelude.{
  ℕ, ◌+◌, ◌*◌, ◌≡◌, ◌≤◌, refl, Bool, true, false, List, [], ◌∷◌, none, some, inr, arith, any,
}
use mock_vision.Prelude.Int.{pos}
use mock_vision.Prelude.Equality.{string_eq, ◌==◌}
use mock_vision.Prelude.GoMap.{is_some, get}
use mock_vision.Domain.Text.{Text, Unicode, byte_length, trim, trim_left, trim_right}
use mock_vision.Guard.Bucket.{take_token}
use mock_vision.Guard.Login.{LoginGuard, locked, allow_ip, success}
use mock_vision.Domain.Users.{validate_username, validate_panel_password}
use mock_vision.Access.Db.{
  Db, User, count_users, get_user_by_username, get_user_by_id, find, create_session,
  create_api_token, create_user,
}
use mock_vision.Access.Sessions.{check_session, authenticate, hour, new_session, session_created}
use mock_vision.Access.SignIn.{
  Packages, Panel, Request, SetupRequest, login, setup, login_unlocked, login_allowed,
  login_checked, open_session, session_answer, setup_allowed, setup_coded, setup_code_of,
  setup_required, create_first, plain_code,
}
use mock_vision.Access.Answers.{is_opened, login-hides}
use mock_vision.Access.FirstUser.{wanted_code, setup-opened}
use mock_vision.Access.Opening.{authenticate-check, login-check_session}
use mock_vision.Access.Lifetime.{
  SessionOp, signs_in, request, prunes, session_ops, AreBounded, AreDistinct,
}
use mock_vision.Access.Limits.{session_ops-AreBounded}
use mock_vision.Access.Tokens.{
  TokenSession, TokenInput, Fresh, create_token, authenticate_token, can_write, scope_write,
  secret_of, token_row, create_checked, token_created, normalize_scopes, expires_of,
}
use mock_vision.Access.Revoking.{create_token-authenticate}
use mock_vision.Access.Hashes.{
  HashStep, calls, gets_slot, hashed, hash_steps, new_hashes, new_hashes-limit,
  max_concurrent_hashes, max_pending_hashes,
}

abbrev ana : User
ana = record {
  id = "u1";
  username = 97 ∷ 110 ∷ 97 ∷ [];
  password_hash = "hash";
  role = "admin";
  disabled = false;
  created_at = 1;
}

abbrev one_user : Db
one_user = record { users = ana ∷ []; sessions = []; api_tokens = [] }

abbrev no_user : Db
no_user = record { users = []; sessions = []; api_tokens = [] }

abbrev calm_guard : LoginGuard
calm_guard = record { entries = []; ips = [] }

abbrev panel_of : Db → Panel
panel_of d = record { db = d; guard = calm_guard; setup_code = []; audit = [] }

-- A password is right where it is one rune long.
abbrev is_single : Text → Bool
is_single (r ∷ []) = true
is_single _ = false

abbrev packages : Packages
packages = record {
  token_id = λ t. "id";
  verify = λ hash pw. is_single pw;
  login_key = λ name ip. ip;
  fold = λ t. t;
  ip_key = λ ip. ip;
}

abbrev request_with : Text → Request
request_with pw = record {
  username = 97 ∷ 110 ∷ 97 ∷ [];
  password = pw;
  ip = "10.0.0.7";
  user_agent = [];
  now = hour;
}

abbrev wrong_password : Text
wrong_password = 49 ∷ 50 ∷ []

abbrev session_token : Text
session_token = 116 ∷ 111 ∷ []

login-hides_example :
    let r = request_with wrong_password in
    ((login packages true session_token r (panel_of one_user)).0
      ≡ (login packages true session_token r (panel_of no_user)).0)
    × ((login packages true session_token r (panel_of one_user)).1.guard
        ≡ (login packages true session_token r (panel_of no_user)).1.guard)
login-hides_example =
    login-hides packages true session_token (request_with wrong_password) (panel_of one_user)
      (panel_of no_user) refl (unfold get_user_by_username find in refl)
      (unfold get_user_by_username find in refl)

abbrev plain_unicode : Unicode
plain_unicode = record { lower = λ r. r; is_space = λ r. false; is_control = λ r. false }

abbrev long_password : Text
long_password = 49 ∷ 50 ∷ 51 ∷ 52 ∷ 53 ∷ 54 ∷ 55 ∷ 56 ∷ 57 ∷ 48 ∷ []

-- "ada" sets the panel up with the code "7", while others prune the sessions.
abbrev first_setup : SetupRequest
first_setup = record {
  request = record (request_with long_password) { username = 97 ∷ 100 ∷ 97 ∷ [] };
  code = 55 ∷ [];
  made = none;
  hash = some "h";
  id = "u2";
  token = session_token;
}

abbrev closed_panel : Panel
closed_panel = record (panel_of no_user) { setup_code = 55 ∷ [] }

abbrev prune_meanwhile : Db → Db
prune_meanwhile d = record d { sessions = [] }

first_opened :
    is_opened
      (setup packages plain_unicode (λ r. r) true first_setup prune_meanwhile closed_panel).0
    ≡ true
unfolding setup setup_allowed setup_coded setup_code_of setup_required count_users allow_ip
    take_token get validate_username validate_panel_password byte_length trim_left trim_right trim
    create_first create_user open_session session_answer new_session session_created create_session
first_opened = refl

setup-opened_example :
    let q =
      (setup packages plain_unicode (λ r. r) true first_setup prune_meanwhile closed_panel).1 in
    (wanted_code none closed_panel ≡ some (plain_code plain_unicode (λ r. r) (55 ∷ [])))
    × (count_users no_user ≡ 0)
    × (count_users (prune_meanwhile no_user) ≡ 0)
    × (count_users q.db ≡ 1)
    × (q.setup_code ≡ [])
setup-opened_example =
    setup-opened packages plain_unicode (λ r. r) true first_setup prune_meanwhile closed_panel
      first_opened

right_login :
    is_opened (login packages true session_token (request_with (49 ∷ [])) (panel_of one_user)).0
    ≡ true
unfolding login login_unlocked login_allowed login_checked open_session session_answer new_session
    session_created create_session get_user_by_username find locked allow_ip success take_token get
right_login = refl

login-check_session_example :
    check_session packages.token_id session_token
      (2 * hour)
      (login packages true session_token (request_with (49 ∷ [])) (panel_of one_user)).1.db
    ≡ true
login-check_session_example =
    login-check_session packages session_token (request_with (49 ∷ [])) ana (2 * hour)
      (unfold byte_length in refl) refl (omega arith) true (panel_of one_user)
      (unfold get_user_by_username find in refl) (unfold get_user_by_id find in refl) right_login

authenticate-check_example :
    is_some (authenticate packages.token_id session_token hour one_user).0
    ≡ check_session packages.token_id session_token hour one_user
authenticate-check_example = authenticate-check packages.token_id session_token hour one_user

abbrev session_life : List SessionOp
session_life =
    signs_in session_token ana "10.0.0.7" [] hour 5
    ∷ request session_token (9 * hour)
    ∷ prunes (10 * hour)
    ∷ []

session_ops-AreBounded_example : AreBounded (session_ops packages.token_id session_life one_user)
session_ops-AreBounded_example =
    session_ops-AreBounded packages.token_id session_life one_user (unfold AreDistinct in tt, tt)

-- A token to write, for a day, whose secret is "mvt_x".
abbrev write_input : TokenInput
write_input = record { name = 99 ∷ 105 ∷ []; scopes = "write" ∷ []; expires_in_days = some (pos 1) }

abbrev fresh : Fresh
fresh = record { id = "t1"; encoded = 120 ∷ [] }

abbrev add_days : ℕ → ℕ → ℕ
add_days now days = now + days * 24 * hour

abbrev with_token : Db
with_token = record one_user {
  api_tokens =
      token_row (λ t. "h") "u1" fresh write_input.name ("read" ∷ "write" ∷ []) (25 * hour) hour
      ∷ [];
}

created_token :
    create_token (λ t. "h") add_days plain_unicode "u1" write_input fresh hour one_user
    ≡ inr (secret_of fresh, with_token)
unfolding create_token create_checked token_created create_api_token normalize_scopes expires_of
    trim trim_left trim_right
created_token = refl

create_token-authenticate_example :
    (t : TokenSession) × ((authenticate_token
        (λ t. "h")
        (secret_of fresh)
        "10.0.0.7"
        (2 * hour)
        with_token).0
      ≡ some t)
    × (t.user_id ≡ "u1")
    × (can_write t ≡ any (λ x. x == scope_write) write_input.scopes)
create_token-authenticate_example =
    create_token-authenticate (λ t. "h") add_days plain_unicode "u1" write_input fresh hour one_user
      (secret_of fresh) with_token ana "10.0.0.7" (2 * hour) created_token
      (unfold get_user_by_id find in refl) refl refl (unfold byte_length in omega arith)
      (inr (unfold expires_of in omega arith))

abbrev busy_hashes : List HashStep
busy_hashes = calls ∷ calls ∷ calls ∷ gets_slot ∷ gets_slot ∷ gets_slot ∷ hashed ∷ []

new_hashes-limit_example :
    let h = hash_steps busy_hashes new_hashes in
    (h.hashing ≤ max_concurrent_hashes)
    × (h.waiting + h.hashing + h.leaving ≤ max_pending_hashes)
    × (h.pending ≡ h.over + h.waiting + h.hashing + h.leaving)
new_hashes-limit_example = new_hashes-limit busy_hashes
