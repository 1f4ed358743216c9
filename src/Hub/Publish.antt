-- ===== src/Hub/Publish.antt =====
-- `Hub` of hub.go: publishing, forgetting a topic, and subscribing. The clients are keyed by a
-- number that stands for their pointer. Each operation holds the hub's lock.
use mock_vision.Prelude.{
  ℕ, ◌+◌, ◌%◌, ◌^◌, String, Bool, false, ◌&&◌, List, [], ◌∷◌, Option, none, some, leb, ltb,
  if◌then◌else◌, filter, take,
}
use mock_vision.Prelude.Equality.{◌==◌, nat_eq, string_eq}
use mock_vision.Prelude.GoMap.{GoMap, get, put, del}
use mock_vision.Domain.Text.{Text, text_eq}
use mock_vision.Hub.Topic.{
  Message, TopicState, no_topic, buffer_size, valid_topic, number, append_message,
}
use mock_vision.Hub.Client.{
  Client, max_topics, subscribed, add_topic, remove_topic, push, push_all, end_client,
}

pub record Hub : Type 0 where
  pub topics : GoMap Text TopicState
  pub clients : GoMap ℕ Client

abbrev pub or_new : Option TopicState → TopicState
or_new none = no_topic
or_new (some t) = t

unfoldable pub topic_of : Text → Hub → TopicState
topic_of name h = or_new (get name h.topics)

abbrev push_if : Text → Message → Client → Client
push_if topic m c = if subscribed c topic then push m c else c

unfoldable pub push_clients : Text → Message → GoMap ℕ Client → GoMap ℕ Client
unfolding subscribed push
push_clients topic m [] = []
push_clients topic m ((id, c) ∷ rest) = (id, push_if topic m c) ∷ push_clients topic m rest

-- `Publish`; `raw` is its JSON, if it has one.
unfoldable pub publish : Text → String → Option String → ℕ → Hub → Hub
unfolding topic_of number append_message push_clients
publish topic type none now h = h
publish topic type (some raw) now h =
    let t = topic_of topic h in
    let m = number t topic type now raw in
    record {
      topics = put topic (append_message (buffer_size topic) m t) h.topics;
      clients = push_clients topic m h.clients;
    }

unfoldable pub forget : Text → Hub → Hub
forget topic h = record h { topics = del topic h.topics }

unfoldable pub disconnect : (Client → Bool) → String → GoMap ℕ Client → GoMap ℕ Client
unfolding end_client
disconnect match reason [] = []
disconnect match reason ((id, c) ∷ rest) =
    (id, if match c then end_client reason c else c) ∷ disconnect match reason rest

abbrev pub notice : Text → TopicState → String → ℕ → Message
notice name t type now = record { topic = name; seq = t.seq; type = type; at = now; body = "" }

abbrev pub covers : List Message → ℕ → Bool
covers [] last = false
covers (m ∷ _) last = leb m.seq ((last + 1) % 2 ^ 64)

-- What a client that subscribes receives first.
unfoldable pub greeting : Text → TopicState → Option ℕ → ℕ → List Message
greeting name t none now = notice name t "subscribed" now ∷ []
greeting name t (some last) now =
    if leb t.seq last
    then notice name t "subscribed" now ∷ []
    else if covers t.buf last
    then filter (λ (m : Message). ltb last m.seq) t.buf
    else notice name t "resync" now ∷ []

-- `subscribe`, for a client.
unfoldable pub subscribe : Hub → List Text → GoMap Text ℕ → ℕ → Client → Client
unfolding topic_of add_topic push_all greeting valid_topic
subscribe h [] since now c = c
subscribe h (name ∷ names) since now c =
    let added = add_topic name c in
    let c' =
      if valid_topic name && added.0
      then push_all (greeting name (topic_of name h) (get name since) now) added.1
      else c in
    subscribe h names since now c'

unfoldable remove_topics : List Text → Client → Client
unfolding remove_topic
remove_topics [] c = c
remove_topics (t ∷ ts) c = remove_topics ts (remove_topic t c)

-- `clientOp`, and what the reading side of `serveWS` does with it.
pub record ClientOp : Type 0 where
  pub op : String
  pub topics : List Text
  pub since : GoMap Text ℕ

unfoldable pub client_op : Hub → ClientOp → ℕ → Client → Client
unfolding subscribe remove_topics
client_op h o now c =
    if o.op == "subscribe"
    then subscribe h (take max_topics o.topics) o.since now c
    else if o.op == "unsubscribe"
    then remove_topics o.topics c
    else c

unfoldable pub add_client : ℕ → Client → Hub → Hub
add_client id c h = record h { clients = put id c h.clients }

unfoldable pub remove_client : ℕ → Hub → Hub
remove_client id h = record h { clients = del id h.clients }
