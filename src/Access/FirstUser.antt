-- ===== src/Access/FirstUser.antt =====
-- What a setup that opens a session leaves.
use mock_vision.Prelude.{
  ℕ, suc, String, ◌≡◌, refl, Bool, true, [], ◌∷◌, ◌++◌, Option, none, some, arith, length-append,
  Bool-cases, Option-cases, inl, inr, if◌then◌else◌,
}
use mock_vision.Prelude.Equality.{string_eq, ◌==◌}
use mock_vision.Domain.Text.{Text, text_eq, Unicode}
use mock_vision.Guard.Login.{LoginGuard, allow_ip}
use mock_vision.Access.Db.{Db, User, count_users, create_user, create_session}
use mock_vision.Access.Sessions.{new_session, session_created}
use mock_vision.Access.SignIn.{
  Packages, Panel, Request, SetupRequest, Answer, setup_finished, session_answer, open_session,
  create_first, first_user, plain_code, setup_code_of, setup_required, setup_coded, setup_allowed,
  setup, is_invalid,
}
use mock_vision.Access.Answers.{is_opened}

-- A session that is opened changes neither the users nor the setup code.
open_session-kept :
    (k : Packages) (token : Text) (u : User) (r : Request) (p : Panel)
    → (let q = (open_session k token u r p).1 in
        (count_users q.db ≡ count_users p.db) × (q.setup_code ≡ p.setup_code))
unfolding open_session session_answer new_session session_created create_session count_users
open_session-kept k token u r p = ground arith

users-create_user :
    (fold : Text → Text) (u : User) (d d' : Db)
    → create_user fold u d ≡ some d'
    → count_users d' ≡ suc (count_users d)
unfolding create_user count_users
users-create_user fold u d d' h = ground (arith, length-append d.users (u ∷ []))

-- No user before, one after, and the setup code is gone.
abbrev IsFirst : Db → Panel → Type 0
IsFirst d q = (count_users d ≡ 0) × (count_users q.db ≡ 1) × (q.setup_code ≡ [])

setup_required-none : (d : Db) → setup_required d ≡ true → count_users d ≡ 0
unfolding setup_required
setup_required-none d h = ground arith

abbrev with_first : SetupRequest → Db → Panel → Panel
with_first s d p = record p {
  db = d;
  setup_code = [];
  audit = p.audit ++ (setup_finished, s.id) ∷ [];
}

create_first-IsFirst :
    (k : Packages) (s : SetupRequest) (hash : String) (p : Panel)
    → is_opened (create_first k s hash p).0 ≡ true
    → IsFirst p.db (create_first k s hash p).1
unfolding create_first
create_first-IsFirst k s hash p h =
    let u = first_user s hash in
    elim (Option-cases (create_user k.fold u p.db)) [
      | inl f ↦ absurd (ground (arith, h, f))
      | inr (d, f) ↦ ground (
        arith,
        h,
        f,
        setup_required-none p.db,
        open_session-kept k s.token u s.request (with_first s d p),
        users-create_user k.fold u p.db d f,
      )
    ]

-- The setup code that is asked for: the panel's, or the one that is made.
abbrev pub wanted_code : Option Text → Panel → Option Text
wanted_code made p = if p.setup_code == [] then made else some p.setup_code

setup_code_of-wanted :
    (made : Option Text) (p : Panel) (c : Text) (q : Panel)
    → setup_required p.db ≡ true
    → setup_code_of made p ≡ some (c, q)
    → (q.db ≡ p.db) × (wanted_code made p ≡ some c)
unfolding setup_code_of
setup_code_of-wanted made p c q r h = ground arith

-- What a setup of this panel leaves when it opens a session.
abbrev Opens : Unicode → (ℕ → ℕ) → SetupRequest → (Db → Db) → Panel → Answer × Panel → Type 0
Opens u upper s meanwhile p r =
    is_opened r.0 ≡ true
    → (wanted_code s.made p ≡ some (plain_code u upper s.code)) × IsFirst (meanwhile p.db) r.1

module _ (k : Packages) (u : Unicode) (upper : ℕ → ℕ) (hashed : Bool) (s : SetupRequest)
    (meanwhile : Db → Db) where
  setup_coded-Opens :
      (p : Panel) (o : Option (Text × Panel))
      → setup_required p.db ≡ true
      → setup_code_of s.made p ≡ o
      → Opens u upper s meanwhile p (setup_coded k u upper hashed s meanwhile o p)
  unfolding setup_coded
  setup_coded-Opens p none r e h = absurd (ground (arith, h))
  setup_coded-Opens p (some (c, q)) r e h =
      let w = setup_code_of-wanted s.made p c q r e in
      elim (Option-cases s.hash) [
        | inl f ↦ absurd (ground (arith, h, f))
        | inr (hash, f) ↦ ground (
          arith,
          h,
          f,
          w,
          text_eq.beq_iff c (plain_code u upper s.code),
          create_first-IsFirst k s hash (record q { db = meanwhile q.db }),
        )
      ]

  setup_allowed-Opens :
      (p : Panel) (a : Option ℕ × LoginGuard)
      → setup_required p.db ≡ true
      → Opens u upper s meanwhile p (setup_allowed k u upper hashed s meanwhile a p)
  unfolding setup_allowed
  setup_allowed-Opens p (some wait, g) r h = absurd (ground (arith, h))
  setup_allowed-Opens p (none, g) r h =
      let q = record p { guard = g } in setup_coded-Opens q (setup_code_of s.made q) r refl h

-- If `Setup` opens a session, then it was given the setup code that the panel has or makes, there was
-- no user when it began and none when its transaction began, whatever other requests did to the
-- database in between, and after it there is one user and no setup code any more.
pub setup-opened :
    (k : Packages) (u : Unicode) (upper : ℕ → ℕ) (hashed : Bool) (s : SetupRequest)
    (meanwhile : Db → Db) (p : Panel)
    → is_opened (setup k u upper hashed s meanwhile p).0 ≡ true
    → (let q = (setup k u upper hashed s meanwhile p).1 in
        (wanted_code s.made p ≡ some (plain_code u upper s.code))
        × (count_users p.db ≡ 0)
        × (count_users (meanwhile p.db) ≡ 0)
        × (count_users q.db ≡ 1)
        × (q.setup_code ≡ []))
setup-opened k u upper hashed s meanwhile p h = elim (Bool-cases (setup_required p.db)) [
  | inr b ↦ absurd (unfold setup in ground (arith, h, b))
  | inl b ↦ elim (Bool-cases (is_invalid s.request)) [
    | inl c ↦ absurd (unfold setup in ground (arith, h, b, c))
    | inr c ↦
        let a = allow_ip k.ip_key s.request.ip s.request.now p.guard in
        let o =
          setup_allowed-Opens k u upper hashed s meanwhile p a b
            (unfold setup in rw b at (rw c at h)) in
        unfold setup in rw c (rw b (o.0, setup_required-none p.db b, o.1.0, o.1.1, o.1.2))
  ]
]
