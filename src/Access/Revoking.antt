-- ===== src/Access/Revoking.antt =====
-- What becomes of an API token.
use mock_vision.Prelude.{
  ℕ, zero, suc, ◌+◌, ◌≡◌, ◌≤◌, refl, String, true, false, List, [], ◌∷◌, ◌++◌, Option, none, some,
  ◌⊎◌, inl, inr, arith, ltb, any, Bool-cases, nat_beq,
}
use mock_vision.Prelude.Equality.{string_eq, ◌==◌, ==-refl}
use mock_vision.Prelude.GoMap.{is_some}
use mock_vision.Domain.Text.{Text, text_eq, Unicode, byte_length}
use mock_vision.Domain.Labels.{trim_space}
use mock_vision.Access.Db.{
  Db, User, ApiToken, find, clashes, create_api_token, get_api_token_by_hash, token_joined,
  with_user, get_user_by_id,
}
use mock_vision.Access.Tokens.{
  TokenSession, TokenInput, TokenProblem, Fresh, create_token, create_checked, token_created,
  check_token, authenticate_token, use_token, token_lives, bad_secret, secret_of, token_row,
  can_write, normalize_scopes, or_read, scope_write, expires_of, token_ended, null_time_of,
  null_millis_of, token_session, scope_problems, name_problems, days_problems,
}

use_token-lives :
    (ip : String) (now : ℕ) (o : Option (ApiToken × User)) (d : Db)
    → is_some (use_token ip now o d).0 ≡ token_lives now o
unfolding use_token token_lives
use_token-lives ip now none d = refl
use_token-lives ip now (some (t, u)) d = ground arith

-- A request with an API token is let in exactly when the check of the token, which open connections
-- use, passes.
pub authenticate_token-check :
    (hash : Text → String) (secret : Text) (ip : String) (now : ℕ) (d : Db)
    → is_some (authenticate_token hash secret ip now d).0 ≡ check_token hash secret now d
unfolding authenticate_token check_token
authenticate_token-check hash secret ip now d = elim (Bool-cases (bad_secret secret)) [
  | inl b ↦ rw b refl
  | inr b ↦ rw b (use_token-lives ip now (get_api_token_by_hash (hash secret) d) d)
]

find-append_token :
    (h : String) (xs : List ApiToken) (t : ApiToken)
    → any (clashes t) xs ≡ false
    → (t.token_hash == h) ≡ true
    → find (λ x. x.token_hash == h) (xs ++ t ∷ []) ≡ some t
unfolding find
find-append_token h [] t c e = rw e refl
find-append_token h (x ∷ xs) t c e =
    let rest = find-append_token h xs t (ground (arith, c)) e in
    let same = (string_eq.beq_iff t.token_hash h).0 e in
    let other : (t.token_hash == x.token_hash) ≡ false = ground (arith, c) in
    let miss : (x.token_hash == h) ≡ false = ground (
      arith,
      other,
      same,
      string_eq.beq_iff t.token_hash x.token_hash,
      string_eq.beq_iff x.token_hash h,
    ) in
    rw miss rest

-- The tables after a token was created.
create_api_token-found :
    (t : ApiToken) (d after : Db)
    → create_api_token t d ≡ some after
    → (find (λ x. x.token_hash == t.token_hash) after.api_tokens ≡ some t) × (after.users ≡ d.users)
unfolding create_api_token
create_api_token-found t d after h = elim (Bool-cases (any (clashes t) d.api_tokens)) [
  | inl b ↦ absurd (ground (arith, rw b at h))
  | inr b ↦
      let e : record d { api_tokens = d.api_tokens ++ t ∷ [] } ≡ after =
        ground (arith, rw b at h) in
      rw⁻¹ e (find-append_token t.token_hash d.api_tokens t b (==-refl t.token_hash), refl)
]

get_by_hash-some :
    (h : String) (d : Db) (t : ApiToken) (u : User)
    → find (λ x. x.token_hash == h) d.api_tokens ≡ some t
    → get_user_by_id t.user_id d ≡ some u
    → get_api_token_by_hash h d ≡ some (t, u)
unfolding get_api_token_by_hash token_joined with_user
get_by_hash-some h d t u f g = rw f (rw g refl)

token_created-some :
    (secret s : Text) (o : Option Db) (after : Db)
    → token_created secret o ≡ inr (s, after)
    → (s ≡ secret) × (o ≡ some after)
unfolding token_created
token_created-some secret s none after h = absurd (ground (arith, h))
token_created-some secret s (some d) after h = ground (arith, h)

create_checked-some :
    (row : ApiToken) (secret s : Text) (ps : List TokenProblem) (d after : Db)
    → create_checked row secret ps d ≡ inr (s, after)
    → (ps ≡ []) × (s ≡ secret) × (create_api_token row d ≡ some after)
unfolding create_checked
create_checked-some row secret s (p ∷ ps) d after h = absurd (ground (arith, h))
create_checked-some row secret s [] d after h =
    let k = token_created-some secret s (create_api_token row d) after h in (refl, k.0, k.1)

-- The scopes of a token, and what they allow.
normalize_scopes-write :
    (scopes kept : List String)
    → normalize_scopes scopes ≡ some kept
    → any (λ s. s == scope_write) kept ≡ any (λ s. s == scope_write) scopes
unfolding normalize_scopes
normalize_scopes-write scopes kept h = ground (arith, h)

problems-scopes :
    (ps qs : List TokenProblem) (o : Option (List String))
    → ps ++ scope_problems o ++ qs ≡ []
    → is_some o ≡ true
problems-scopes [] qs none h = absurd (ground (arith, h))
problems-scopes [] qs (some s) h = refl
problems-scopes (p ∷ ps) qs o h = absurd (ground (arith, h))

or_read-some : (o : Option (List String)) → is_some o ≡ true → o ≡ some (or_read o)
or_read-some none h = absurd (ground (arith, h))
or_read-some (some s) h = refl

use_token-some :
    (ip : String) (at : ℕ) (t : ApiToken) (u : User) (d : Db)
    → token_ended at t u ≡ false
    → (use_token ip at (some (t, u)) d).0 ≡ some (token_session t u)
unfolding use_token
use_token-some ip at t u d h = rw h refl

authenticate_token-some :
    (hash : Text → String) (secret : Text) (ip : String) (at : ℕ) (t : ApiToken) (u : User) (d : Db)
    → bad_secret secret ≡ false
    → get_api_token_by_hash (hash secret) d ≡ some (t, u)
    → token_ended at t u ≡ false
    → (authenticate_token hash secret ip at d).0 ≡ some (token_session t u)
unfolding authenticate_token
authenticate_token-some hash secret ip at t u d b g e = rw b (rw g (use_token-some ip at t u d e))

-- A token whose expiry is none, or is at least a millisecond ahead, has not ended.
null_millis-ahead :
    (expires at : ℕ)
    → (expires ≡ 0) ⊎ (at + 1_000_000 ≤ expires)
    → (let e = null_time_of (null_millis_of expires) in (nat_beq e 0 ≡ true) ⊎ (ltb e at ≡ false))
null_millis-ahead zero at h = inl refl
null_millis-ahead (suc t) at h = inr (ground (arith, h))

create_token-checked :
    (hash : Text → String) (add_days : ℕ → ℕ → ℕ) (c : Unicode) (user : String) (input : TokenInput)
    (f : Fresh) (now : ℕ) (d : Db) (r : Text × Db)
    → create_token hash add_days c user input f now d ≡ inr r
    → (let name = trim_space c input.name in
        let scopes = normalize_scopes input.scopes in
        let expires = expires_of add_days now input.expires_in_days in
        create_checked
          (token_row hash user f name (or_read scopes) expires now)
          (secret_of f)
          (name_problems c name ++ scope_problems scopes ++ days_problems input.expires_in_days)
          d
        ≡ inr r)
unfolding create_token
create_token-checked hash add_days c user input f now d r h = elim (Bool-cases (user == "")) [
  | inl b ↦ absurd (ground (arith, rw b at h))
  | inr b ↦ rw b at h
]

secret-good : (f : Fresh) → byte_length (secret_of f) ≤ 100 → bad_secret (secret_of f) ≡ false
secret-good f b = ground (arith, b)

not_ended :
    (at : ℕ) (t : ApiToken) (u : User)
    → u.disabled ≡ false
    → (nat_beq (null_time_of t.expires_at) 0 ≡ true) ⊎ (ltb (null_time_of t.expires_at) at ≡ false)
    → token_ended at t u ≡ false
not_ended at t u e x = ground (arith, e, x)

module _ (hash : Text → String) (add_days : ℕ → ℕ → ℕ) (c : Unicode) (user : String)
    (input : TokenInput) (f : Fresh) (now : ℕ) (d : Db) where
  -- A token that is created for a user who is there and not disabled, with a secret of 100 bytes at
  -- most: until a millisecond before it expires, and always if it does not expire, its secret lets
  -- requests of the user in, and they may write exactly when the scope to write was asked for.
  pub create_token-authenticate :
      (s : Text) (after : Db) (u : User) (ip : String) (at : ℕ)
      → create_token hash add_days c user input f now d ≡ inr (s, after)
      → get_user_by_id user d ≡ some u
      → u.id ≡ user
      → u.disabled ≡ false
      → byte_length (secret_of f) ≤ 100
      → (let expires = expires_of add_days now input.expires_in_days in
          (expires ≡ 0) ⊎ (at + 1_000_000 ≤ expires))
      → (t : TokenSession) × ((authenticate_token hash s ip at after).0 ≡ some t)
        × (t.user_id ≡ user)
        × (can_write t ≡ any (λ x. x == scope_write) input.scopes)
  create_token-authenticate s after u ip at h g i e b x =
      let scopes = normalize_scopes input.scopes in
      let expires = expires_of add_days now input.expires_in_days in
      let row = token_row hash user f (trim_space c input.name) (or_read scopes) expires now in
      let made =
        create_checked-some row (secret_of f) s _ d after
          (create_token-checked hash add_days c user input f now d (s, after) h) in
      let found = create_api_token-found row d after made.2 in
      let owner : get_user_by_id user after ≡ some u =
        unfold get_user_by_id in rw found.1 (unfold get_user_by_id in g) in
      let pair = get_by_hash-some (hash (secret_of f)) after row u found.0 owner in
      let lives = not_ended at row u e (null_millis-ahead expires at x) in
      let known = or_read-some scopes (problems-scopes _ _ scopes made.0) in
      (
        token_session row u,
        rw made.1 (
            authenticate_token-some hash (secret_of f) ip at row u after (secret-good f b) pair
              lives),
        i,
        unfold can_write in normalize_scopes-write input.scopes (or_read scopes) known,
      )
