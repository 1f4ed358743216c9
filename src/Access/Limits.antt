-- ===== src/Access/Limits.antt =====
-- The bound on the lifetime of sessions, through every operation on them.
use mock_vision.Prelude.{
  ℕ, ◌+◌, ◌≡◌, ◌≤◌, refl, ap, String, List, [], ◌∷◌, Option, none, some, arith, any, Bool-cases,
  inl, inr, All-append,
}
use mock_vision.Prelude.Equality.{string_eq, ◌==◌}
use mock_vision.Domain.Text.{Text}
use mock_vision.Access.Db.{
  Db, User, SessionRow, create_session, get_session, extend_session, delete_session,
  delete_expired_sessions, find, session_joined, with_user, get_user_by_id,
}
use mock_vision.Prelude.Time.{time_of, unix_milli}
use mock_vision.Access.Sessions.{
  Session, new_session, new_session_row, bad_token, logout, authenticate, authenticate_row,
  session_ttl, limit_of, has_ended, extends, next_expiry, session_created,
}
use mock_vision.Access.Lifetime.{
  IsBounded, AreBounded, SessionOp, signs_in, request, logs_out, prunes, session_op, session_ops,
  or_same, AreDistinct-append, AreDistinct-extended, AreDistinct-filter, All-filter,
  extended-IsBounded,
}

create_session-AreBounded :
    (row : SessionRow) (s : Session) (d : Db)
    → IsBounded row
    → AreBounded d
    → AreBounded (or_same d (session_created s (create_session row d)))
create_session-AreBounded row s d b h = elim (Bool-cases (any (λ t. t.id == row.id) d.sessions)) [
  | inl e ↦ unfold create_session session_created in rw e h
  | inr e ↦
      unfold create_session session_created in
      rw e (AreDistinct-append d.sessions row e h.0, All-append IsBounded d.sessions _ h.1 (b, tt))
]

-- The session that is found is a row under the key.
with_user-found :
    (t : SessionRow) (o : Option User) (s : SessionRow) (u : User)
    → with_user t o ≡ some (s, u)
    → t ≡ s
unfolding with_user
with_user-found t none s u h = absurd (ground (arith, h))
with_user-found t (some v) s u h = ground (arith, h)

joined-found :
    (o : Option SessionRow) (d : Db) (s : SessionRow) (u : User)
    → session_joined d o ≡ some (s, u)
    → o ≡ some s
unfolding session_joined
joined-found none d s u h = absurd (ground (arith, h))
joined-found (some t) d s u h = ap some (with_user-found t (get_user_by_id t.user_id d) s u h)

time_of-unix_milli : (t : ℕ) → time_of (unix_milli t) ≤ t
time_of-unix_milli t = omega arith

next_expiry-limit : (now : ℕ) (s : SessionRow) → next_expiry now s ≤ limit_of s
next_expiry-limit now s = ground arith

extend_session-AreBounded :
    (key : String) (now : ℕ) (s : SessionRow) (d : Db)
    → find (λ t. t.id == key) d.sessions ≡ some s
    → AreBounded d
    → AreBounded (extend_session key (unix_milli (next_expiry now s)) d)
unfolding extend_session
extend_session-AreBounded key now s d f h =
    let e = unix_milli (next_expiry now s) in
    let l : time_of e ≤ limit_of s =
      omega (arith, time_of-unix_milli (next_expiry now s), next_expiry-limit now s) in
    (AreDistinct-extended key e d.sessions h.0, extended-IsBounded key e d.sessions s h.0 f l h.1)

authenticate_row-AreBounded :
    (key : String) (now : ℕ) (o : Option (SessionRow × User)) (d : Db)
    → get_session key d ≡ o
    → AreBounded d
    → AreBounded (authenticate_row key now o d).1
unfolding authenticate_row
authenticate_row-AreBounded key now none d g h = h
authenticate_row-AreBounded key now (some (s, u)) d g h =
    let f = joined-found (find (λ t. t.id == key) d.sessions) d s u (unfold get_session in g) in
    elim (Bool-cases (has_ended now s u)) [
      | inl b ↦ rw b h
      | inr b ↦ elim (Bool-cases (extends now s)) [
        | inl c ↦ rw b (rw c (extend_session-AreBounded key now s d f h))
        | inr c ↦ rw b (rw c h)
      ]
    ]

new-IsBounded :
    (row : SessionRow) (now took : ℕ)
    → row.expires_at ≡ unix_milli (now + session_ttl)
    → row.created_at ≡ unix_milli (now + took)
    → IsBounded row
new-IsBounded row now took e c = omega (arith, e, c)

new_session-AreBounded :
    (token_id : Text → String) (token : Text) (u : User) (ip : String) (ua : List ℕ) (now took : ℕ)
    (d : Db)
    → AreBounded d
    → AreBounded (or_same d (new_session token_id token u ip ua now (now + took) d))
unfolding new_session
new_session-AreBounded token_id token u ip ua now took d h =
    let row = new_session_row token_id token u ip ua now (now + took) in
    create_session-AreBounded row _ d (new-IsBounded row now took refl refl) h

authenticate-AreBounded :
    (token_id : Text → String) (token : Text) (now : ℕ) (d : Db)
    → AreBounded d
    → AreBounded (authenticate token_id token now d).1
unfolding authenticate
authenticate-AreBounded token_id token now d h = elim (Bool-cases (bad_token token)) [
  | inl b ↦ rw b h
  | inr b ↦
      rw b
        (authenticate_row-AreBounded (token_id token) now (get_session (token_id token) d) d refl h)
]

session_op-AreBounded :
    (token_id : Text → String) (o : SessionOp) (d : Db)
    → AreBounded d
    → AreBounded (session_op token_id o d)
session_op-AreBounded token_id (signs_in token u ip ua now took) d h =
    unfold session_op in new_session-AreBounded token_id token u ip ua now took d h
session_op-AreBounded token_id (request token now) d h =
    unfold session_op in authenticate-AreBounded token_id token now d h
session_op-AreBounded token_id (logs_out token) d h =
    unfold session_op logout delete_session in
    (AreDistinct-filter _ d.sessions h.0, All-filter IsBounded _ d.sessions h.1)
session_op-AreBounded token_id (prunes now) d h =
    unfold session_op delete_expired_sessions in
    (AreDistinct-filter _ d.sessions h.0, All-filter IsBounded _ d.sessions h.1)

-- Whatever sign-ins, requests, logouts and prunings happen to sessions that have different IDs and
-- expire at most seven days after they were created, their IDs stay different and no request moves
-- an expiry past the seven days.
pub session_ops-AreBounded :
    (token_id : Text → String) (os : List SessionOp) (d : Db)
    → AreBounded d
    → AreBounded (session_ops token_id os d)
unfolding session_ops
session_ops-AreBounded token_id [] d h = h
session_ops-AreBounded token_id (o ∷ os) d h =
    session_ops-AreBounded token_id os (session_op token_id o d)
      (session_op-AreBounded token_id o d h)
