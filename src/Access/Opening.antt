-- ===== src/Access/Opening.antt =====
-- What a login, a setup and a logout leave of the sessions.
use mock_vision.Access.Answers.{is_opened}
use mock_vision.Prelude.GoMap.{is_some}
use mock_vision.Prelude.{
  ℕ, ◌+◌, ◌≡◌, ◌≤◌, refl, ◌∙◌, String, Bool, true, false, not, List, [], ◌∷◌, ◌++◌, Option, none,
  some, arith, any, filter, Bool-cases, inl, inr,
}
use mock_vision.Prelude.Equality.{string_eq, ◌==◌, ==-refl}
use mock_vision.Domain.Text.{Text, text_eq}
use mock_vision.Guard.Login.{LoginGuard, allow_ip, locked}
use mock_vision.Access.Db.{
  Db, User, SessionRow, find, session_joined, with_user, create_session, get_session,
  get_user_by_id, delete_session, get_user_by_username,
}
use mock_vision.Access.Sessions.{
  Session, new_session, session_created, check_session, check_row, bad_token, session_ttl, logout,
  authenticate, authenticate_row, new_session_row,
}
use mock_vision.Access.SignIn.{
  Packages, Request, Panel, Answer, open_session, session_answer, login, login_checked,
  login_allowed, login_unlocked, is_admitted,
}

find-append :
    (p : SessionRow → Bool) (xs : List SessionRow) (x : SessionRow)
    → any p xs ≡ false
    → p x ≡ true
    → find p (xs ++ x ∷ []) ≡ some x
unfolding find
find-append p [] x h k = rw k refl
find-append p (y ∷ ys) x h k = ground (arith, find-append p ys x, h, k)

find-filter :
    (id : String) (xs : List SessionRow)
    → find (λ s. s.id == id) (filter (λ s. not (s.id == id)) xs) ≡ none
unfolding find
find-filter id [] = refl
find-filter id (x ∷ xs) = ground (arith, find-filter id xs)

get_session-none :
    (id : String) (d : Db) → find (λ s. s.id == id) d.sessions ≡ none → get_session id d ≡ none
unfolding get_session session_joined
get_session-none id d h = rw h refl

get_session-some :
    (id : String) (d : Db) (s : SessionRow) (u : User)
    → find (λ t. t.id == id) d.sessions ≡ some s
    → get_user_by_id s.user_id d ≡ some u
    → get_session id d ≡ some (s, u)
unfolding get_session session_joined with_user
get_session-some id d s u h k = rw h (rw k refl)

check_session-row :
    (token_id : Text → String) (token : Text) (now : ℕ) (d : Db) (o : Option (SessionRow × User))
    → bad_token token ≡ false
    → get_session (token_id token) d ≡ o
    → check_session token_id token now d ≡ check_row now o
unfolding check_session
check_session-row token_id token now d o b h = rw b (rw h refl)

-- A session is not valid, at any time, after a logout with its token.
pub check_session-logout :
    (token_id : Text → String) (token : Text) (now : ℕ) (d : Db)
    → check_session token_id token now (logout token_id token d) ≡ false
check_session-logout token_id token now d = elim (Bool-cases (bad_token token)) [
  | inl b ↦ unfold check_session in rw b refl
  | inr b ↦
      let gone =
        get_session-none (token_id token) (logout token_id token d)
          (unfold logout delete_session in find-filter (token_id token) d.sessions) in
      check_session-row token_id token now (logout token_id token d) none b gone
      ∙ (unfold check_row in refl)
]

authenticate_row-check :
    (id : String) (now : ℕ) (o : Option (SessionRow × User)) (d : Db)
    → is_some (authenticate_row id now o d).0 ≡ check_row now o
unfolding authenticate_row check_row
authenticate_row-check id now none d = refl
authenticate_row-check id now (some (s, u)) d = ground arith

-- A request is authenticated exactly when the check of its session, which open connections use,
-- passes.
pub authenticate-check :
    (token_id : Text → String) (token : Text) (now : ℕ) (d : Db)
    → is_some (authenticate token_id token now d).0 ≡ check_session token_id token now d
unfolding authenticate check_session
authenticate-check token_id token now d = elim (Bool-cases (bad_token token)) [
  | inl b ↦ rw b refl
  | inr b ↦ rw b (authenticate_row-check (token_id token) now (get_session (token_id token) d) d)
]

create_session-found :
    (row : SessionRow) (d after : Db)
    → create_session row d ≡ some after
    → (find (λ t. t.id == row.id) after.sessions ≡ some row) × (after.users ≡ d.users)
unfolding create_session
create_session-found row d after h = elim (Bool-cases (any (λ t. t.id == row.id) d.sessions)) [
  | inl b ↦ absurd (ground (arith, rw b at h))
  | inr b ↦
      let e : record d { sessions = d.sessions ++ row ∷ [] } ≡ after = ground (arith, rw b at h) in
      rw⁻¹ e (find-append (λ t. t.id == row.id) d.sessions row b (==-refl row.id), refl)
]

session_created-some :
    (s t : Session) (o : Option Db) (after : Db)
    → session_created t o ≡ some (s, after)
    → (o ≡ some after) × (t ≡ s)
unfolding session_created
session_created-some s t none after h = absurd (ground (arith, h))
session_created-some s t (some d) after h = ground (arith, h)

-- The row that `newSession` leaves, found by its token.
new_session-row :
    (token_id : Text → String) (token : Text) (u : User) (ip : String) (ua : List ℕ) (now later : ℕ)
    (d after : Db) (s : Session)
    → new_session token_id token u ip ua now later d ≡ some (s, after)
    → get_user_by_id u.id d ≡ some u
    → get_session (token_id token) after
      ≡ some (new_session_row token_id token u ip ua now later, u)
unfolding new_session
new_session-row token_id token u ip ua now later d after s h g =
    let row = new_session_row token_id token u ip ua now later in
    let made = (session_created-some s _ (create_session row d) after h).0 in
    let found = create_session-found row d after made in
    get_session-some (token_id token) after row u found.0
      (unfold get_user_by_id in rw found.1 (unfold get_user_by_id in g))

lasting :
    (token_id : Text → String) (token : Text) (u : User) (ip : String) (ua : List ℕ) (now at : ℕ)
    → u.disabled ≡ false
    → at + 1_000_000 ≤ now + session_ttl
    → check_row at (some (new_session_row token_id token u ip ua now now, u)) ≡ true
unfolding check_row
lasting token_id token u ip ua now at e l = ground (arith, e, l)

-- What a session that was opened is good for.
abbrev Lasts : Packages → Text → ℕ → Answer × Panel → Type 0
Lasts k token at r = is_opened r.0 ≡ true → check_session k.token_id token at r.1.db ≡ true

module _ (k : Packages) (token : Text) (r : Request) (u : User) (at : ℕ)
    (b : bad_token token ≡ false) (e : u.disabled ≡ false)
    (l : at + 1_000_000 ≤ r.now + session_ttl) where
  answer-Lasts :
      (p : Panel) (o : Option (Session × Db))
      → get_user_by_id u.id p.db ≡ some u
      → new_session k.token_id token u r.ip r.user_agent r.now r.now p.db ≡ o
      → Lasts k token at (session_answer token p o)
  unfolding session_answer
  answer-Lasts p none g h x = absurd (ground (arith, x))
  answer-Lasts p (some (s, d)) g h x =
      check_session-row k.token_id token at d _ b
        (new_session-row k.token_id token u r.ip r.user_agent r.now r.now p.db d s h g)
      ∙ lasting k.token_id token u r.ip r.user_agent r.now at e l

  open_session-Lasts :
      (p : Panel)
      → get_user_by_id u.id p.db ≡ some u
      → Lasts k token at (open_session k token u r p)
  unfolding open_session
  open_session-Lasts p g = answer-Lasts p _ g refl

  login_checked-Lasts :
      (p : Panel)
      → get_user_by_id u.id p.db ≡ some u
      → Lasts k token at (login_checked k token r (some u) p)
  unfolding login_checked
  login_checked-Lasts p g = elim (Bool-cases (is_admitted k r u)) [
    | inl c ↦ rw c (open_session-Lasts _ g)
    | inr c ↦ rw c (λ x. absurd (ground (arith, x)))
  ]

  login_allowed-Lasts :
      (hashed : Bool) (a : Option ℕ × LoginGuard) (p : Panel)
      → get_user_by_username k.fold r.username p.db ≡ some u
      → get_user_by_id u.id p.db ≡ some u
      → Lasts k token at (login_allowed k hashed token r a p)
  unfolding login_allowed
  login_allowed-Lasts hashed (some wait, g) p n i = λ x. absurd (ground (arith, x))
  login_allowed-Lasts false (none, g) p n i = λ x. absurd (ground (arith, x))
  login_allowed-Lasts true (none, g) p n i = rw n (login_checked-Lasts (record p { guard = g }) i)

  login_unlocked-Lasts :
      (hashed : Bool) (o : Option ℕ) (p : Panel)
      → get_user_by_username k.fold r.username p.db ≡ some u
      → get_user_by_id u.id p.db ≡ some u
      → Lasts k token at (login_unlocked k hashed token r o p)
  unfolding login_unlocked
  login_unlocked-Lasts hashed (some until) p n i = λ x. absurd (ground (arith, x))
  login_unlocked-Lasts hashed none p n i =
      login_allowed-Lasts hashed (allow_ip k.ip_key r.ip r.now p.guard) p n i

  -- A login that opens a session, of a user who is found by name and by ID and is not disabled, and
  -- with a token of 100 bytes at most that is not empty: the session is valid at any time up to a
  -- millisecond before the 12 hours are over.
  pub login-check_session :
      (hashed : Bool) (p : Panel)
      → get_user_by_username k.fold r.username p.db ≡ some u
      → get_user_by_id u.id p.db ≡ some u
      → is_opened (login k hashed token r p).0 ≡ true
      → check_session k.token_id token at (login k hashed token r p).1.db ≡ true
  unfolding login
  login-check_session hashed p n i =
      login_unlocked-Lasts hashed (locked (k.login_key r.username r.ip) r.now p.guard) p n i
