-- ===== src/Tests/Panel.antt =====
-- The panel's messages, and the cache of Digest headers.
use mock_vision.Prelude.{
  ℕ, ◌+◌, ◌≡◌, refl, true, List, [], ◌∷◌, ◌++◌, none, some, arith, leb, drop, filter, length,
  if◌then◌else◌,
}
use mock_vision.Prelude.Equality.{nat_eq}
use mock_vision.Prelude.GoMap.{get, put}
use mock_vision.Domain.Text.{Text, text_eq}
use mock_vision.Hub.Topic.{Message, TopicState, node_topic, number, append_message}
use mock_vision.Hub.Client.{Client, subscribed, push}
use mock_vision.Hub.Publish.{Hub, greeting, notice, publish, push_clients, topic_of}
use mock_vision.Hub.Log.{Keeps, append_message-Keeps}
use mock_vision.Hub.Replay.{greeting-Keeps}
use mock_vision.Hub.Delivery.{Publication, publish_all, messages, wanted, publish_all-send}
use mock_vision.Digest.Cache.{Cache, seen, use_nonce, use_entry, use_new, make_room}
use mock_vision.Digest.Bounds.{IsCache, ReturnsCache, use_nonce-IsCache}
use mock_vision.Digest.Refusal.{Header, use_header, use_all, use_all-seen}

abbrev jobs_topic : Text
jobs_topic = 106 ∷ 111 ∷ 98 ∷ 115 ∷ []

abbrev message : ℕ → Message
message n = record { topic = jobs_topic; seq = n; type = "job"; at = n; body = "{}" }

-- Three messages were published, and two are kept.
abbrev log : List Message
log = message 1 ∷ message 2 ∷ message 3 ∷ []

abbrev topic : TopicState
topic = record { seq = 3; buf = message 2 ∷ message 3 ∷ [] }

topic-Keeps : Keeps 2 log topic
topic-Keeps = record { last = refl; buffer = refl; numbered = (refl, (refl, (refl, tt))) }

append_message-Keeps_example :
    let m = number topic jobs_topic "job" 9 "{}" in
    Keeps 2 (log ++ m ∷ []) (append_message 2 m topic)
append_message-Keeps_example =
    append_message-Keeps 2 log topic jobs_topic "job" 9 "{}" (omega arith) (omega arith) topic-Keeps

greeting-Keeps_example : greeting jobs_topic topic (some 2) 9 ≡ (
    if leb (length log) 2
    then notice jobs_topic topic "subscribed" 9 ∷ []
    else if leb (length log) (2 + 2)
    then drop 2 log
    else notice jobs_topic topic "resync" 9 ∷ [])
greeting-Keeps_example =
    greeting-Keeps 2 log topic jobs_topic 2 9 (omega arith) (omega arith) topic-Keeps

abbrev client : Client
client = record {
  topics = (jobs_topic, true) ∷ [];
  send = [];
  reason = none;
  session = "session";
  token_id = "";
}

abbrev client_after : Client
client_after = record client { send = message 4 ∷ [] }

abbrev hub : Hub
hub = record { topics = (jobs_topic, topic) ∷ []; clients = (7, client) ∷ [] }

-- One message on the client's topic, one on another, and one that JSON cannot encode.
abbrev publications : List Publication
publications =
    record { topic = jobs_topic; type = "job"; body = some "{}"; at = 4 }
    ∷ record { topic = node_topic; type = "node"; body = some "{}"; at = 5 }
    ∷ record { topic = jobs_topic; type = "job"; body = none; at = 6 }
    ∷ []

publish_all-send_example :
    client_after.send ≡ client.send ++ filter (wanted client) (messages publications hub)
unfolding publish_all publish push_clients subscribed push get put topic_of number append_message
publish_all-send_example = publish_all-send publications 7 hub client client_after refl refl refl

abbrev nonce : Text
nonce = 110 ∷ []

abbrev count : Text
count = 48 ∷ 49 ∷ []

abbrev cnonce : Text
cnonce = 99 ∷ []

abbrev used_once : Cache
used_once = (nonce, record { first = 5; used = (count ++ 58 ∷ [] ++ cnonce, true) ∷ [] }) ∷ []

abbrev other_header : Header
other_header = record { nonce = 111 ∷ []; nc = count; cnonce = cnonce; at = 6 }

abbrev used_twice : Cache
used_twice =
    used_once
    ++ (111 ∷ [], record { first = 6; used = (count ++ 58 ∷ [] ++ cnonce, true) ∷ [] }) ∷ []

use_all-seen_example : use_nonce nonce count cnonce 9 used_twice ≡ some (seen, used_twice)
unfolding use_all use_header use_nonce use_entry use_new make_room get put
use_all-seen_example =
    use_all-seen nonce count cnonce 5 9 [] used_once used_twice (other_header ∷ []) refl
      (omega arith) refl

used_once-IsCache : IsCache 7 used_once
used_once-IsCache = record {
  small = omega arith;
  past = (omega arith, tt);
  bounded = (omega arith, tt);
}

use_nonce-IsCache_example : ReturnsCache 7 (use_nonce nonce count (100 ∷ []) 7 used_once)
use_nonce-IsCache_example = use_nonce-IsCache nonce count (100 ∷ []) 7 used_once used_once-IsCache
