-- ===== src/Tests/Values.antt =====
-- Values of the domain.
use mock_vision.Prelude.{
  ℕ, ◌≡◌, ◌<◌, refl, true, false, ◌&&◌, List, [], ◌∷◌, some, none, arith, any,
}
use mock_vision.Domain.Text.{Text, Unicode, byte_length}
use mock_vision.Domain.Masks.{
  positions, expand_mask, fits_all, expand_mask-fits, validate_mask, ends_in_one, ends_in_two,
  has_variable,
}
use mock_vision.Domain.Users.{CameraUser, admin, viewer, validate_camera_users, is_admin}
use mock_vision.Domain.Users.Checked.{is_empty, all_good, are_new, validate_camera_users-good}
use mock_vision.Domain.Network.{
  NetIdentity, v4, macvlan, static, validate_identity, first_addr, last_addr, good_prefix,
  address_problems, dns_problems, ip_problems, gateway_problems, bound_problems, is_unusable,
}
use mock_vision.Domain.Network.Accepted.{validate_identity-host}

-- "AA-999\A"
abbrev plate : Text
plate = 65 ∷ 65 ∷ 45 ∷ 57 ∷ 57 ∷ 57 ∷ 92 ∷ 65 ∷ []

abbrev always_zero : ℕ → ℕ → ℕ
always_zero i n = 0

expand_mask-fits_example : fits_all (positions plate) (expand_mask always_zero plate) ≡ true
expand_mask-fits_example = expand_mask-fits always_zero (λ i n l. omega (arith, l)) plate

-- A mask that ends in three backslashes is accepted, though the last one escapes nothing.
three_backslashes : validate_mask (57 ∷ 92 ∷ 92 ∷ 92 ∷ []) ≡ none
unfolding validate_mask ends_in_one ends_in_two has_variable byte_length
three_backslashes = refl

abbrev plain_runes : Unicode
plain_runes = record { lower = λ r. r; is_space = λ r. false; is_control = λ r. false }

abbrev two_users : List CameraUser
two_users =
    record { username = 97 ∷ []; password = 49 ∷ []; role = admin }
    ∷ record { username = 98 ∷ []; password = 50 ∷ []; role = viewer }
    ∷ []

validate_camera_users-good_example :
    is_empty (validate_camera_users plain_runes two_users)
    ≡ (all_good two_users && are_new plain_runes [] two_users && any is_admin two_users)
validate_camera_users-good_example = validate_camera_users-good plain_runes two_users

-- 10.0.0.9/24 behind 10.0.0.1
abbrev identity : NetIdentity
identity = record {
  mode = macvlan;
  mac = some (2 ∷ 0 ∷ 0 ∷ 0 ∷ 0 ∷ 1 ∷ []);
  ip_mode = static;
  ip = v4 167_772_169;
  prefix = 24;
  gateway = v4 167_772_161;
  dns = [];
}

identity_valid : validate_identity identity ≡ []
unfolding validate_identity address_problems dns_problems ip_problems gateway_problems
    bound_problems is_unusable first_addr last_addr
identity_valid = refl

validate_identity-host_example :
    (good_prefix 24 ≡ true)
    × ((a : ℕ) × (identity.ip ≡ v4 a) × (first_addr 24 a < a) × (a < last_addr 24 a))
validate_identity-host_example = validate_identity-host identity identity_valid refl
