-- ===== src/Access/Lifetime.antt =====
-- How long a session can last.
use mock_vision.Prelude.{
  ℕ, ◌+◌, ◌≡◌, ◌≤◌, refl, ap, String, Bool, false, ◌||◌, List, [], ◌∷◌, ◌++◌, Option, none, some,
  arith, any, map, filter, Bool-cases, inl, inr, All,
}
use mock_vision.Prelude.Equality.{string_eq, ◌==◌}
use mock_vision.Domain.Text.{Text, text_eq}
use mock_vision.Access.Db.{Db, User, SessionRow, extended_row, delete_expired_sessions, find}
use mock_vision.Prelude.Time.{time_of, unix_milli}
use mock_vision.Access.Sessions.{Session, new_session, logout, authenticate, limit_of}

-- The expiry of a row is at most the maximum lifetime after its creation.
abbrev pub IsBounded : SessionRow → Type 0
IsBounded s = time_of s.expires_at ≤ limit_of s

-- What happens to the sessions; the number of a sign-in is how long it took.
pub data SessionOp : Type 0 where
  signs_in : Text → User → String → List ℕ → ℕ → ℕ → SessionOp
  request : Text → ℕ → SessionOp
  logs_out : Text → SessionOp
  prunes : ℕ → SessionOp

abbrev pub or_same : Db → Option (Session × Db) → Db
or_same d none = d
or_same d (some (s, after)) = after

unfoldable pub session_op : (Text → String) → SessionOp → Db → Db
unfolding new_session authenticate logout delete_expired_sessions
session_op h (signs_in token u ip ua now took) d =
    or_same d (new_session h token u ip ua now (now + took) d)
session_op h (request token now) d = (authenticate h token now d).1
session_op h (logs_out token) d = logout h token d
session_op h (prunes now) d = delete_expired_sessions (unix_milli now) d

unfoldable pub session_ops : (Text → String) → List SessionOp → Db → Db
unfolding session_op
session_ops h [] d = d
session_ops h (o ∷ os) d = session_ops h os (session_op h o d)

pub All-filter :
    (P : SessionRow → Type 0) (p : SessionRow → Bool) (xs : List SessionRow)
    → All P xs
    → All P (filter p xs)
All-filter P p [] h = tt
All-filter P p (x ∷ xs) h = elim (Bool-cases (p x)) [
  | inl b ↦ rw b (h.0, All-filter P p xs h.1)
  | inr b ↦ rw b (All-filter P p xs h.1)
]

-- A row that is found passes the test and is one of the rows.
pub find-All :
    (P : SessionRow → Type 0) (p : SessionRow → Bool) (xs : List SessionRow) (s : SessionRow)
    → find p xs ≡ some s
    → All P xs
    → P s
unfolding find
find-All P p [] s e h = absurd (ground (arith, e))
find-All P p (x ∷ xs) s e h = elim (Bool-cases (p x)) [
  | inl b ↦ let q : x ≡ s = ground (arith, rw b at e) in rw⁻¹ q h.0
  | inr b ↦ find-All P p xs s (rw b at e) h.1
]

abbrev has_id : String → List SessionRow → Bool
has_id id = any (λ t. t.id == id)

-- No two rows have the same ID.
unfoldable pub AreDistinct : List SessionRow → Type 0
AreDistinct [] = Unit
AreDistinct (s ∷ ss) = (has_id s.id ss ≡ false) × AreDistinct ss

-- The rows are distinct, and each is bounded.
abbrev pub AreBounded : Db → Type 0
AreBounded d = AreDistinct d.sessions × All IsBounded d.sessions

has_id-append :
    (id : String) (xs : List SessionRow) (x : SessionRow)
    → has_id id (xs ++ x ∷ []) ≡ (has_id id xs || x.id == id)
has_id-append id [] x = ground arith
has_id-append id (y ∷ ys) x = ground (arith, has_id-append id ys x)

pub AreDistinct-append :
    (xs : List SessionRow) (x : SessionRow)
    → has_id x.id xs ≡ false
    → AreDistinct xs
    → AreDistinct (xs ++ x ∷ [])
unfolding AreDistinct
AreDistinct-append [] x h d = (refl, tt)
AreDistinct-append (y ∷ ys) x h d = (
  ground (
    arith,
    has_id-append y.id ys x,
    d.0,
    h,
    string_eq.beq_iff x.id y.id,
    string_eq.beq_iff y.id x.id,
  ),
  AreDistinct-append ys x (ground (arith, h)) d.1,
)

has_id-extended :
    (id key : String) (e : ℕ) (xs : List SessionRow)
    → has_id id (map (extended_row key e) xs) ≡ has_id id xs
has_id-extended id key e [] = refl
has_id-extended id key e (x ∷ xs) = ground (arith, has_id-extended id key e xs)

pub AreDistinct-extended :
    (key : String) (e : ℕ) (xs : List SessionRow)
    → AreDistinct xs
    → AreDistinct (map (extended_row key e) xs)
unfolding AreDistinct
AreDistinct-extended key e [] d = tt
AreDistinct-extended key e (x ∷ xs) d =
    (ground (arith, has_id-extended x.id key e xs, d.0), AreDistinct-extended key e xs d.1)

has_id-filter :
    (id : String) (p : SessionRow → Bool) (xs : List SessionRow)
    → has_id id xs ≡ false
    → has_id id (filter p xs) ≡ false
has_id-filter id p [] h = refl
has_id-filter id p (x ∷ xs) h = ground (arith, has_id-filter id p xs, h)

pub AreDistinct-filter :
    (p : SessionRow → Bool) (xs : List SessionRow) → AreDistinct xs → AreDistinct (filter p xs)
unfolding AreDistinct
AreDistinct-filter p [] d = tt
AreDistinct-filter p (x ∷ xs) d = elim (Bool-cases (p x)) [
  | inl b ↦ rw b (has_id-filter x.id p xs d.0, AreDistinct-filter p xs d.1)
  | inr b ↦ rw b (AreDistinct-filter p xs d.1)
]

extended-other :
    (id : String) (e : ℕ) (xs : List SessionRow)
    → has_id id xs ≡ false
    → map (extended_row id e) xs ≡ xs
extended-other id e [] h = refl
extended-other id e (x ∷ xs) h =
    let rest = extended-other id e xs (ground (arith, h)) in
    let b : (x.id == id) ≡ false = ground (arith, h) in
    rw b (ap (λ (l : List SessionRow). x ∷ l) rest)

-- The row that is extended stays bounded where the new expiry is.
pub extended-IsBounded :
    (id : String) (e : ℕ) (xs : List SessionRow) (s : SessionRow)
    → AreDistinct xs
    → find (λ t. t.id == id) xs ≡ some s
    → time_of e ≤ limit_of s
    → All IsBounded xs
    → All IsBounded (map (extended_row id e) xs)
unfolding AreDistinct find
extended-IsBounded id e [] s d f l h = tt
extended-IsBounded id e (x ∷ xs) s d f l h = elim (Bool-cases (x.id == id)) [
  | inl b ↦
      let q : x ≡ s = ground (arith, rw b at f) in
      let n : has_id id xs ≡ false = rw⁻¹ ((string_eq.beq_iff x.id id).0 b) d.0 in
      let m : time_of e ≤ limit_of x = rw q l in rw b (m, rw (extended-other id e xs n) h.1)
  | inr b ↦ rw b (h.0, extended-IsBounded id e xs s d.1 (rw b at f) l h.1)
]
