-- ===== src/Domain/Users.antt =====
-- domain/user.go: the names, passwords and roles of users.
pub mod Checked
use mock_vision.Prelude.{
  ℕ, ◌+◌, ◌≡◌, ◌≤◌, ◌<◌, refl, String, Bool, true, false, not, ◌&&◌, ◌||◌, List, [], ◌∷◌, ◌++◌,
  Option, none, some, arith, ltb, leb, nat_beq, any, length, if◌then◌else◌, All, Bool-cases, inl,
  inr, map, filter,
}
use mock_vision.Prelude.Equality.{◌==◌}
use mock_vision.Domain.Text.{Text, text_eq, Unicode, byte_length}

pub data UserError : Type 0 where
  name_required name_too_long bad_character : UserError
  password_too_short password_too_long : UserError

-- A letter or digit of ASCII, or one of ". _ - @".
abbrev pub is_name_rune : ℕ → Bool
is_name_rune r =
    (leb 97 r && leb r 122)
    || (leb 65 r && leb r 90)
    || (leb 48 r && leb r 57)
    || nat_beq r 46
    || nat_beq r 95
    || nat_beq r 45
    || nat_beq r 64

abbrev pub bad_rune : ℕ → Bool
bad_rune r = not (is_name_rune r)

unfoldable pub validate_username : Text → Option UserError
validate_username name =
    if name == []
    then some name_required
    else if ltb 32 (length name)
    then some name_too_long
    else if any bad_rune name
    then some bad_character
    else none

abbrev pub min_password_length : ℕ
min_password_length = 10

unfoldable pub validate_panel_password : Text → Option UserError
unfolding byte_length
validate_panel_password pw =
    if ltb (length pw) min_password_length
    then some password_too_short
    else if ltb 256 (byte_length pw)
    then some password_too_long
    else none

pub data CameraRole : Type 0 where
  admin operator viewer : CameraRole
  other_role : String → CameraRole

pub record CameraUser : Type 0 where
  pub username : Text
  pub password : Text
  pub role : CameraRole

-- What is wrong with the user at a position, or with all of them.
pub data UsersProblem : Type 0 where
  bad_name : ℕ → UserError → UsersProblem
  bad_password control_in_password bad_role duplicated : ℕ → UsersProblem
  no_admin : UsersProblem

abbrev pub lowered : Unicode → Text → Text
lowered u t = map u.lower t

abbrev pub is_line_control : ℕ → Bool
is_line_control r = nat_beq r 13 || nat_beq r 10 || nat_beq r 0

abbrev pub problem_if : Bool → UsersProblem → List UsersProblem
problem_if true p = p ∷ []
problem_if false p = []

abbrev pub name_problems : ℕ → Option UserError → List UsersProblem
name_problems i none = []
name_problems i (some e) = bad_name i e ∷ []

abbrev pub is_known_role : CameraRole → Bool
is_known_role (other_role _) = false
is_known_role _ = true

abbrev pub is_admin : CameraUser → Bool
is_admin c = elim c.role [ admin ↦ true | _ ↦ false ]

-- The body of the loop at position `i`; `seen` has the names before it.
unfoldable pub user_problems : Unicode → ℕ → List Text → CameraUser → List UsersProblem
unfolding validate_username byte_length
user_problems u i seen c =
    name_problems i (validate_username c.username)
    ++ problem_if (c.password == [] || ltb 64 (byte_length c.password)) (bad_password i)
    ++ problem_if (any is_line_control c.password) (control_in_password i)
    ++ problem_if (not (is_known_role c.role)) (bad_role i)
    ++ problem_if (any (λ t. t == lowered u c.username) seen) (duplicated i)

unfoldable pub users_loop : Unicode → ℕ → List Text → List CameraUser → List UsersProblem
unfolding user_problems
users_loop u i seen [] = []
users_loop u i seen (c ∷ cs) =
    user_problems u i seen c ++ users_loop u (i + 1) (lowered u c.username ∷ seen) cs

unfoldable pub validate_camera_users : Unicode → List CameraUser → List UsersProblem
unfolding users_loop
validate_camera_users u cs = users_loop u 0 [] cs ++ problem_if (not (any is_admin cs)) no_admin
