-- ===== src/Supervisor/Names.antt =====
-- `netnsName` and `releaseNetns` of supervisor.go. A camera's ID is its text.
use mock_vision.Prelude.{
  ℕ, ◌-◌, Bool, true, not, List, [], ◌∷◌, ◌++◌, Option, none, some, if◌then◌else◌, length, drop,
  filter, map,
}
use mock_vision.Prelude.Equality.{◌==◌}
use mock_vision.Prelude.GoMap.{GoMap, get, put}
use mock_vision.Domain.Text.{Text, text_eq, Unicode}
use mock_vision.Domain.Slug.{slug}

abbrev pub Names : Type 0
Names = GoMap Text Text

-- "sim-" and "sim-cam"
abbrev sim_prefix : Text
sim_prefix = 115 ∷ 105 ∷ 109 ∷ 45 ∷ []

abbrev sim_cam : Text
sim_cam = 115 ∷ 105 ∷ 109 ∷ 45 ∷ 99 ∷ 97 ∷ 109 ∷ []

unfoldable pub release_netns : Text → Names → Names
release_netns id m = filter (λ e. not (e.1 == id)) m

abbrev pub free_for : Text → Option Text → Bool
free_for id none = true
free_for id (some owner) = owner == id

-- The loop over the names to try, and the name that is taken after it.
unfoldable pub reserve : List Text → Text → Text → Names → Text × Names
reserve [] last id m = (last, put last id m)
reserve (n ∷ ns) last id m =
    let rest = reserve ns last id m in if free_for id (get n m) then (n, put n id m) else rest

abbrev last_runes : ℕ → Text → Text
last_runes n id = drop (length id - n) id

abbrev dash : Text
dash = 45 ∷ []

unfoldable pub base_name : Unicode → Text → Text
unfolding slug
base_name u name =
    let base = sim_prefix ++ slug u name 30 in if base == sim_prefix then sim_cam else base

-- The name that no other camera's is meant to be: "sim-" and the whole ID.
abbrev pub own_name : Unicode → Text → Text
own_name u id = sim_prefix ++ map u.lower id

-- The base name, and it with the last 4 and the last 8 characters of the ID.
unfoldable pub names_to_try : Unicode → Text → Text → List Text
unfolding base_name
names_to_try u name id =
    let base = base_name u name in
    let low = map u.lower id in
    base ∷ (base ++ dash ++ last_runes 4 low) ∷ (base ++ dash ++ last_runes 8 low) ∷ []

unfoldable pub netns_name : Unicode → Text → Text → Names → Text × Names
unfolding names_to_try release_netns reserve
netns_name u name id m = reserve (names_to_try u name id) (own_name u id) id (release_netns id m)
