-- ===== src/Tests/Camera.antt =====
-- Cameras: states, retries and names.
use mock_vision.Domain.Labels.{
  max_camera_tags, IsTag, IsDistinct, normalize_tags, normalize_loop, normalize_tags-KeptTags,
}
use mock_vision.Prelude.{
  ◌*◌, ◌^◌, ◌≡◌, refl, false, List, [], ◌∷◌, arith, min, leb, if◌then◌else◌, ◌+◌, nat_beq, length,
  All, ◌≤◌,
}
use mock_vision.Domain.Backoff.{retry_backoff, second, minute, retry_backoff-eq}
use mock_vision.Domain.Text.{Text, Unicode, trim, trim_left, trim_right}
use mock_vision.Domain.Slug.{slug, slug_loop, slug_write, slug_byte}
use mock_vision.Domain.Slug.Shape.{IsSlug, slug-IsSlug}

retry_backoff-eq_example : retry_backoff 5 ≡ min (2 ^ 5 * second) minute
retry_backoff-eq_example = retry_backoff-eq 5 (omega arith) (omega arith)

-- Capital letters of ASCII get their lower case.
abbrev ascii : Unicode
ascii = record {
  lower = λ r. if leb 65 r then (if leb r 90 then r + 32 else r) else r;
  is_space = λ r. false;
  is_control = λ r. false;
}

-- "Gate 1!"
abbrev gate : Text
gate = 71 ∷ 97 ∷ 116 ∷ 101 ∷ 32 ∷ 49 ∷ 33 ∷ []

slug-IsSlug_example : IsSlug 30 (slug ascii gate 30)
slug-IsSlug_example = slug-IsSlug ascii gate 30

-- "gate-1"
slug-gate : slug ascii gate 30 ≡ 103 ∷ 97 ∷ 116 ∷ 101 ∷ 45 ∷ 49 ∷ []
unfolding slug slug_loop slug_write slug_byte trim trim_left trim_right
slug-gate = refl

-- " Gate", "gate" and "Dock"
abbrev raw_tags : List Text
raw_tags =
    (32 ∷ 71 ∷ 97 ∷ 116 ∷ 101 ∷ []) ∷ (103 ∷ 97 ∷ 116 ∷ 101 ∷ []) ∷ (68 ∷ 111 ∷ 99 ∷ 107 ∷ []) ∷ []

-- "Gate" and "Dock"
abbrev tags : List Text
tags = (71 ∷ 97 ∷ 116 ∷ 101 ∷ []) ∷ (68 ∷ 111 ∷ 99 ∷ 107 ∷ []) ∷ []

abbrev spaced : Unicode
spaced = record ascii { is_space = λ r. nat_beq r 32 }

normalize_tags-KeptTags_example :
    (length tags ≤ max_camera_tags) × All (IsTag spaced) tags × IsDistinct spaced tags
unfolding normalize_tags normalize_loop trim trim_left trim_right
normalize_tags-KeptTags_example = normalize_tags-KeptTags spaced raw_tags tags refl
