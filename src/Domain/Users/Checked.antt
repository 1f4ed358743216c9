-- ===== src/Domain/Users/Checked.antt =====
-- What `ValidateCameraUsers` accepts.
use mock_vision.Prelude.{
  ℕ, ◌+◌, ◌≡◌, refl, ◌∙◌, Bool, true, false, not, ◌&&◌, ◌||◌, List, [], ◌∷◌, ◌++◌, arith, any,
  length, ltb,
}
use mock_vision.Prelude.Equality.{◌==◌}
use mock_vision.Domain.Text.{Text, text_eq, Unicode, byte_length}
use mock_vision.Domain.Users.{
  CameraUser, UsersProblem, validate_username, validate_camera_users, users_loop, user_problems,
  name_problems, problem_if, is_known_role, is_admin, lowered, bad_rune, is_line_control,
  bad_password, control_in_password, bad_role, duplicated, no_admin,
}

-- A name of 1 to 32 allowed runes, a password of 1 to 64 bytes without line breaks or NUL, and a role
-- that exists.
abbrev pub is_good_user : CameraUser → Bool
is_good_user c =
    not (c.username == [])
    && not (ltb 32 (length c.username))
    && not (any bad_rune c.username)
    && not (c.password == [])
    && not (ltb 64 (byte_length c.password))
    && not (any is_line_control c.password)
    && is_known_role c.role

abbrev pub is_new : Unicode → List Text → CameraUser → Bool
is_new u seen c = not (any (λ t. t == lowered u c.username) seen)

-- No name of the list is, in lower case, among the texts or the name of a user before it.
unfoldable pub are_new : Unicode → List Text → List CameraUser → Bool
are_new u seen [] = true
are_new u seen (c ∷ cs) = is_new u seen c && are_new u (lowered u c.username ∷ seen) cs

abbrev pub all_good : List CameraUser → Bool
all_good cs = not (any (λ c. not (is_good_user c)) cs)

abbrev pub is_empty : List UsersProblem → Bool
is_empty [] = true
is_empty (_ ∷ _) = false

is_empty-append : (ps qs : List UsersProblem) → is_empty (ps ++ qs) ≡ (is_empty ps && is_empty qs)
is_empty-append [] qs = refl
is_empty-append (p ∷ ps) qs = refl

is_empty-problem_if : (b : Bool) (p : UsersProblem) → is_empty (problem_if b p) ≡ not b
is_empty-problem_if true p = refl
is_empty-problem_if false p = refl

good_name :
    (i : ℕ) (name : Text)
    → is_empty (name_problems i (validate_username name))
      ≡ (not (name == []) && not (ltb 32 (length name)) && not (any bad_rune name))
unfolding validate_username
good_name i name = ground arith

is_empty-five :
    (a b c d e : List UsersProblem)
    → is_empty (a ++ b ++ c ++ d ++ e)
      ≡ (is_empty a && is_empty b && is_empty c && is_empty d && is_empty e)
is_empty-five a b c d e = ground (
  arith,
  is_empty-append a (b ++ c ++ d ++ e),
  is_empty-append b (c ++ d ++ e),
  is_empty-append c (d ++ e),
  is_empty-append d e,
)

user_problems-good :
    (u : Unicode) (i : ℕ) (seen : List Text) (c : CameraUser)
    → is_empty (user_problems u i seen c) ≡ (is_good_user c && is_new u seen c)
unfolding user_problems
user_problems-good u i seen c =
    let seen_name = any (λ t. t == lowered u c.username) seen in
    ground (
      arith,
      is_empty-five (name_problems i (validate_username c.username))
          (problem_if (c.password == [] || ltb 64 (byte_length c.password)) (bad_password i))
          (problem_if (any is_line_control c.password) (control_in_password i))
          (problem_if (not (is_known_role c.role)) (bad_role i))
          (problem_if seen_name (duplicated i)),
      good_name i c.username,
    )

and_both : {a b c d : Bool} → a ≡ c → b ≡ d → (a && b) ≡ (c && d)
and_both p q = rw p (rw q refl)

regroup : (g n x m : Bool) → ((g && n) && (not x && m)) ≡ (not (not g || x) && (n && m))
regroup g n x m = ground arith

users_loop-good :
    (u : Unicode) (i : ℕ) (seen : List Text) (cs : List CameraUser)
    → is_empty (users_loop u i seen cs) ≡ (all_good cs && are_new u seen cs)
unfolding users_loop are_new
users_loop-good u i seen [] = refl
users_loop-good u i seen (c ∷ cs) =
    let later = lowered u c.username ∷ seen in
    is_empty-append (user_problems u i seen c) (users_loop u (i + 1) later cs)
    ∙ and_both (user_problems-good u i seen c) (users_loop-good u (i + 1) later cs)
    ∙ regroup (is_good_user c) (is_new u seen c) (any (λ d. not (is_good_user d)) cs)
        (are_new u later cs)

regroup_all : (g n a : Bool) → ((g && n) && not (not a)) ≡ (g && n && a)
regroup_all g n a = ground arith

-- `ValidateCameraUsers` finds no problem exactly when each user has a good name, password and role,
-- no two names differ in case alone, and one user at least is an administrator.
pub validate_camera_users-good :
    (u : Unicode) (cs : List CameraUser)
    → is_empty (validate_camera_users u cs) ≡ (all_good cs && are_new u [] cs && any is_admin cs)
unfolding validate_camera_users
validate_camera_users-good u cs =
    let no_one = not (any is_admin cs) in
    is_empty-append (users_loop u 0 [] cs) (problem_if no_one no_admin)
    ∙ and_both (users_loop-good u 0 [] cs) (is_empty-problem_if no_one no_admin)
    ∙ regroup_all (all_good cs) (are_new u [] cs) (any is_admin cs)
