-- ===== src/Hub/Client.antt =====
-- `wsClient` of ws.go: a connection's topics, the channel `send` and whether it was ended.
use mock_vision.Prelude.{
  ℕ, String, Bool, true, false, not, ◌&&◌, List, [], ◌∷◌, ◌++◌, Option, none, some, leb, ltb,
  if◌then◌else◌, length,
}
use mock_vision.Prelude.Equality.{string_eq}
use mock_vision.Prelude.GoMap.{GoMap, get, put, del, size}
use mock_vision.Domain.Text.{Text, text_eq}
use mock_vision.Hub.Topic.{Message}

pub record Client : Type 0 where
  pub topics : GoMap Text Bool
  pub send : List Message
  pub reason : Option String
  pub session : String
  pub token_id : String

abbrev pub ws_queue : ℕ
ws_queue = 4096

abbrev pub max_topics : ℕ
max_topics = 256

-- What a map of booleans gives for a key: false where it has none.
abbrev pub or_false : Option Bool → Bool
or_false none = false
or_false (some b) = b

unfoldable pub subscribed : Client → Text → Bool
subscribed c topic = or_false (get topic c.topics)

unfoldable pub add_topic : Text → Client → Bool × Client
unfolding subscribed
add_topic topic c =
    if not (subscribed c topic) && leb max_topics (size c.topics)
    then (false, c)
    else (true, record c { topics = put topic true c.topics })

unfoldable pub remove_topic : Text → Client → Client
remove_topic topic c = record c { topics = del topic c.topics }

-- The first reason counts.
unfoldable pub end_client : String → Client → Client
end_client reason c = elim c.reason [ none ↦ record c { reason = some reason } | some _ ↦ c ]

unfoldable pub push : Message → Client → Client
unfolding end_client
push m c =
    if ltb (length c.send) ws_queue
    then record c { send = c.send ++ m ∷ [] }
    else end_client "too slow; reconnect and resync" c

unfoldable pub push_all : List Message → Client → Client
unfolding push
push_all [] c = c
push_all (m ∷ ms) c = push_all ms (push m c)

-- The writing side of `serveWS` takes the oldest message.
unfoldable pub receive : Client → Option Message × Client
receive c = elim c.send [ [] ↦ (none, c) | m ∷ rest ↦ (some m, record c { send = rest }) ]
