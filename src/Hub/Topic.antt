-- ===== src/Hub/Topic.antt =====
-- The topics of hub.go: their names, their buffers and their messages.
use mock_vision.Prelude.{
  ℕ, ◌+◌, ◌-◌, ◌%◌, ◌^◌, String, Bool, true, false, ◌&&◌, ◌||◌, not, List, [], ◌∷◌, ◌++◌, Option,
  none, some, leb, ltb, nat_beq, if◌then◌else◌, length, drop, any,
}
use mock_vision.Prelude.Equality.{◌==◌}
use mock_vision.Domain.Text.{Text, text_eq, byte_length}

pub record Message : Type 0 where
  pub topic : Text
  pub seq : ℕ
  pub type : String
  pub at : ℕ
  pub body : String

pub record TopicState : Type 0 where
  pub seq : ℕ
  pub buf : List Message

-- The zero value of topicState.
abbrev pub no_topic : TopicState
no_topic = record { seq = 0; buf = [] }

abbrev pub node_topic : Text
node_topic = 110 ∷ 111 ∷ 100 ∷ 101 ∷ []

abbrev camera_prefix : Text
camera_prefix = 99 ∷ 97 ∷ 109 ∷ 101 ∷ 114 ∷ 97 ∷ 58 ∷ []

abbrev job_prefix : Text
job_prefix = 106 ∷ 111 ∷ 98 ∷ 58 ∷ []

-- "node", "cameras", "events", "profiles", "audit" and "jobs".
abbrev fixed_topics : List Text
fixed_topics =
    node_topic
    ∷ (99 ∷ 97 ∷ 109 ∷ 101 ∷ 114 ∷ 97 ∷ 115 ∷ [])
    ∷ (101 ∷ 118 ∷ 101 ∷ 110 ∷ 116 ∷ 115 ∷ [])
    ∷ (112 ∷ 114 ∷ 111 ∷ 102 ∷ 105 ∷ 108 ∷ 101 ∷ 115 ∷ [])
    ∷ (97 ∷ 117 ∷ 100 ∷ 105 ∷ 116 ∷ [])
    ∷ (106 ∷ 111 ∷ 98 ∷ 115 ∷ [])
    ∷ []

-- strings.CutPrefix
unfoldable pub cut_prefix : Text → Text → Option Text
cut_prefix [] s = some s
cut_prefix (c ∷ cs) [] = none
cut_prefix (c ∷ cs) (d ∷ s) = let rest = cut_prefix cs s in if nat_beq c d then rest else none

abbrev has_prefix : Text → Text → Bool
has_prefix p s = elim (cut_prefix p s) [ none ↦ false | some _ ↦ true ]

unfoldable pub buffer_size : Text → ℕ
unfolding cut_prefix
buffer_size topic =
    if topic == node_topic
    then 1
    else if has_prefix camera_prefix topic || has_prefix job_prefix topic
    then 200
    else 1000

abbrev id_rune : ℕ → Bool
id_rune r = (leb 48 r && leb r 57) || (leb 65 r && leb r 90)

-- A ULID: 26 bytes, digits and capital letters.
unfoldable pub valid_id : Text → Bool
unfolding byte_length
valid_id id = nat_beq (byte_length id) 26 && not (any (λ r. not (id_rune r)) id)

abbrev valid_job_topic : Option Text → Bool
valid_job_topic none = false
valid_job_topic (some id) = valid_id id

abbrev valid_id_topic : Option Text → Text → Bool
valid_id_topic (some id) name = valid_id id
valid_id_topic none name = valid_job_topic (cut_prefix job_prefix name)

unfoldable pub valid_topic : Text → Bool
unfolding valid_id cut_prefix
valid_topic name =
    if any (λ t. t == name) fixed_topics
    then true
    else valid_id_topic (cut_prefix camera_prefix name) name

-- `Publish` on one topic: the next sequence number, a uint64, and the buffer cut to its size.
unfoldable pub number : TopicState → Text → String → ℕ → String → Message
number t topic type now raw = record {
  topic = topic;
  seq = (t.seq + 1) % 2 ^ 64;
  type = type;
  at = now;
  body = raw;
}

abbrev keep_last : ℕ → List Message → List Message
keep_last max buf = if ltb max (length buf) then drop (length buf - max) buf else buf

unfoldable pub append_message : ℕ → Message → TopicState → TopicState
append_message max m t = record { seq = m.seq; buf = keep_last max (t.buf ++ m ∷ []) }
