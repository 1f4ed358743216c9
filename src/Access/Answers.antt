-- ===== src/Access/Answers.antt =====
-- What sign-ins answer.
use mock_vision.Prelude.{ℕ, ◌≡◌, refl, ap, ◌∙◌, Bool, true, false, Option, none, some}
use mock_vision.Prelude.Equality.{string_eq}
use mock_vision.Domain.Text.{Text, text_eq}
use mock_vision.Guard.Login.{LoginGuard, locked, allow_ip}
use mock_vision.Access.Db.{User, get_user_by_username}
use mock_vision.Access.SignIn.{
  Packages, Panel, Request, Answer, refused, opened, is_admitted, login, login_unlocked,
  login_allowed, login_checked,
}

abbrev pub is_opened : Answer → Bool
is_opened (refused _) = false
is_opened (opened _ _) = true

-- The panel has a user of this name who is not disabled, with this password.
abbrev admits_user : Packages → Request → Option User → Bool
admits_user k r none = false
admits_user k r (some u) = is_admitted k r u

abbrev pub admits : Packages → Request → Panel → Bool
admits k r p = admits_user k r (get_user_by_username k.fold r.username p.db)

-- The answer and the guard of a login that is not admitted.
abbrev seen_of : Answer × Panel → Answer × LoginGuard
seen_of r = (r.0, r.1.guard)

login_checked-hides :
    (k : Packages) (token : Text) (r : Request) (a b : Option User) (p q : Panel)
    → p.guard ≡ q.guard
    → admits_user k r a ≡ false
    → admits_user k r b ≡ false
    → seen_of (login_checked k token r a p) ≡ seen_of (login_checked k token r b q)
unfolding login_checked
login_checked-hides k token r none none p q g x y = rw g refl
login_checked-hides k token r none (some u) p q g x y = rw y (rw g refl)
login_checked-hides k token r (some u) none p q g x y = rw x (rw g refl)
login_checked-hides k token r (some u) (some v) p q g x y = rw x (rw y (rw g refl))

login_allowed-hides :
    (k : Packages) (hashed : Bool) (token : Text) (r : Request) (a : Option ℕ × LoginGuard)
    (p q : Panel)
    → p.guard ≡ q.guard
    → admits k r p ≡ false
    → admits k r q ≡ false
    → seen_of (login_allowed k hashed token r a p) ≡ seen_of (login_allowed k hashed token r a q)
unfolding login_allowed
login_allowed-hides k hashed token r (some wait, g) p q e x y = refl
login_allowed-hides k false token r (none, g) p q e x y = refl
login_allowed-hides k true token r (none, g) p q e x y =
    login_checked-hides k token r (get_user_by_username k.fold r.username p.db)
      (get_user_by_username k.fold r.username q.db) (record p { guard = g })
      (record q { guard = g }) refl x y

login_unlocked-hides :
    (k : Packages) (hashed : Bool) (token : Text) (r : Request) (l : Option ℕ) (p q : Panel)
    → p.guard ≡ q.guard
    → admits k r p ≡ false
    → admits k r q ≡ false
    → seen_of (login_unlocked k hashed token r l p) ≡ seen_of (login_unlocked k hashed token r l q)
unfolding login_unlocked
login_unlocked-hides k hashed token r (some until) p q e x y = rw e refl
login_unlocked-hides k hashed token r none p q e x y =
    login_allowed-hides k hashed token r (allow_ip k.ip_key r.ip r.now p.guard) p q e x y
    ∙ ap
        (λ (g : LoginGuard).
          seen_of (login_allowed k hashed token r (allow_ip k.ip_key r.ip r.now g) q))
        e

-- Two panels with the same guard that both do not admit the user, be it that they do not know the
-- name, that the password is wrong or that the user is disabled, answer a login the same and keep
-- the same guard.
pub login-hides :
    (k : Packages) (hashed : Bool) (token : Text) (r : Request) (p q : Panel)
    → p.guard ≡ q.guard
    → admits k r p ≡ false
    → admits k r q ≡ false
    → ((login k hashed token r p).0 ≡ (login k hashed token r q).0)
      × ((login k hashed token r p).1.guard ≡ (login k hashed token r q).1.guard)
unfolding login
login-hides k hashed token r p q e x y =
    let l = locked (k.login_key r.username r.ip) r.now p.guard in
    let same : seen_of (login k hashed token r p) ≡ seen_of (login k hashed token r q) =
      login_unlocked-hides k hashed token r l p q e x y
      ∙ ap
          (λ (g : LoginGuard).
            seen_of
              (login_unlocked k hashed token r (locked (k.login_key r.username r.ip) r.now g) q))
          e in
    (ap (λ s. s.0) same, ap (λ s. s.1) same)
