-- ===== src/Domain/Labels.antt =====
-- The names and tags of cameras: `ValidateCameraName` and `NormalizeTags` of domain/camera.go.
use mock_vision.Prelude.{
  ℕ, ◌≤◌, ◌≡◌, Bool, false, ◌||◌, not, List, [], ◌∷◌, ◌++◌, Option, none, some, arith, ltb, nat_beq,
  any, length, if◌then◌else◌, All, All-append, Bool-cases, inl, inr, map, subst,
}
use mock_vision.Prelude.Equality.{◌==◌}
use mock_vision.Domain.Text.{Text, text_eq, Unicode, trim}

abbrev pub max_camera_name : ℕ
max_camera_name = 64

abbrev pub max_camera_tags : ℕ
max_camera_tags = 20

abbrev pub max_tag : ℕ
max_tag = 32

-- What is wrong with a name.
pub data NameError : Type 0 where
  required padded too_long has_control : NameError

-- strings.TrimSpace
abbrev pub trim_space : Unicode → Text → Text
trim_space u s = trim u.is_space s

unfoldable pub validate_camera_name : Unicode → Text → Option NameError
validate_camera_name u name =
    if trim_space u name == []
    then some required
    else if not (trim_space u name == name)
    then some padded
    else if ltb max_camera_name (length name)
    then some too_long
    else if any u.is_control name
    then some has_control
    else none

abbrev is_comma : ℕ → Bool
is_comma c = nat_beq c 44

-- A tag that is kept is not empty, at most 32 runes long, and has no comma or control character.
abbrev pub bad_tag : Unicode → Text → Bool
bad_tag u t = any u.is_control t || any is_comma t

abbrev pub lower_case : Unicode → Text → Text
lower_case u t = map u.lower t

abbrev seen_tag : Unicode → Text → List Text → Bool
seen_tag u t out = any (λ o. lower_case u o == lower_case u t) out

-- The loop of `NormalizeTags`; `out` is what it has kept.
unfoldable pub normalize_loop : Unicode → List Text → List Text → Option (List Text)
normalize_loop u [] out = some out
normalize_loop u (raw ∷ raws) out =
    let t = trim_space u raw in
    let skip = normalize_loop u raws out in
    let keep = normalize_loop u raws (out ++ t ∷ []) in
    if t == [] || seen_tag u t out
    then skip
    else if ltb max_tag (length t)
    then none
    else if bad_tag u t
    then none
    else keep

unfoldable pub normalize_tags : Unicode → List Text → Option (List Text)
unfolding normalize_loop
normalize_tags u tags = elim (normalize_loop u tags []) [
  | none ↦ none
  | some out ↦ if ltb max_camera_tags (length out) then none else some out
]

-- A tag as it is stored.
abbrev pub IsTag : Unicode → Text → Type 0
IsTag u t = ((t == []) ≡ false) × (length t ≤ max_tag) × (bad_tag u t ≡ false)

-- No two tags are the same but for their case.
abbrev pub IsDistinct : Unicode → List Text → Type 0
IsDistinct u [] = Unit
IsDistinct u (t ∷ ts) =
    All (λ (o : Text). (lower_case u t == lower_case u o) ≡ false) ts × IsDistinct u ts

seen_tag-All :
    (u : Unicode) (t : Text) (out : List Text)
    → seen_tag u t out ≡ false
    → All (λ (o : Text). (lower_case u o == lower_case u t) ≡ false) out
seen_tag-All u t [] h = tt
seen_tag-All u t (o ∷ out) h = (ground (arith, h), seen_tag-All u t out (ground (arith, h)))

IsDistinct-append :
    (u : Unicode) (t : Text) (out : List Text)
    → All (λ (o : Text). (lower_case u o == lower_case u t) ≡ false) out
    → IsDistinct u out
    → IsDistinct u (out ++ t ∷ [])
IsDistinct-append u t [] h d = (tt, tt)
IsDistinct-append u t (o ∷ out) h d = (
  All-append (λ (x : Text). (lower_case u o == lower_case u x) ≡ false) out (t ∷ []) d.0 (h.0, tt),
  IsDistinct-append u t out h.1 d.1,
)

abbrev KeptTags : Unicode → Option (List Text) → Type 0
KeptTags u none = Unit
KeptTags u (some out) = All (IsTag u) out × IsDistinct u out

normalize_loop-KeptTags :
    (u : Unicode) (tags out : List Text)
    → All (IsTag u) out
    → IsDistinct u out
    → KeptTags u (normalize_loop u tags out)
unfolding normalize_loop
normalize_loop-KeptTags u [] out h d = (h, d)
normalize_loop-KeptTags u (raw ∷ raws) out h d =
    let t = trim_space u raw in
    elim (Bool-cases (t == [] || seen_tag u t out)) [
      | inl a ↦ rw a (normalize_loop-KeptTags u raws out h d)
      | inr a ↦ elim (Bool-cases (ltb max_tag (length t))) [
        | inl b ↦ rw a (rw b tt)
        | inr b ↦ elim (Bool-cases (bad_tag u t)) [
          | inl c ↦ rw a (rw b (rw c tt))
          | inr c ↦ rw a (
              rw b (
                rw c (
                  normalize_loop-KeptTags u raws (out ++ t ∷ [])
                    (All-append (IsTag u) out (t ∷ []) h
                      ((ground (arith, a), ground (arith, b), c), tt))
                    (IsDistinct-append u t out (seen_tag-All u t out (ground (arith, a))) d))))
        ]
      ]
    ]

-- The tags that `NormalizeTags` returns are at most 20, each is not empty, at most 32 runes long and
-- without commas or control characters, and no two differ in case alone.
pub normalize_tags-KeptTags :
    (u : Unicode) (tags out : List Text)
    → normalize_tags u tags ≡ some out
    → (length out ≤ max_camera_tags) × All (IsTag u) out × IsDistinct u out
unfolding normalize_tags
normalize_tags-KeptTags u tags out e =
    kept (normalize_loop u tags []) (normalize_loop-KeptTags u tags [] tt tt) e
  where
    kept :
        (o : Option (List Text))
        → KeptTags u o
        → (elim o [
          | none ↦ none
          | some l ↦ if ltb max_camera_tags (length l) then none else some l
        ])
          ≡ some out
        → (length out ≤ max_camera_tags) × All (IsTag u) out × IsDistinct u out
    kept none k e = absurd (ground (arith, e))
    kept (some l) k e = elim (Bool-cases (ltb max_camera_tags (length l))) [
      | inl b ↦ absurd (ground (arith, rw b at e))
      | inr b ↦
          let same : l ≡ out = ground (arith, rw b at e) in
          subst (λ (x : List Text). (length x ≤ max_camera_tags) × All (IsTag u) x × IsDistinct u x)
            same (ground (arith, b), k.0, k.1)
    ]
