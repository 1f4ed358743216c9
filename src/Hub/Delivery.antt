-- ===== src/Hub/Delivery.antt =====
-- What a connected client receives of all that is published.
use mock_vision.Prelude.{
  ℕ, ◌≡◌, refl, sym, ap, ◌∙◌, String, Bool, true, false, List, [], ◌∷◌, ◌++◌, Option, none, some,
  arith, nat_beq, if◌then◌else◌, filter, Bool-cases, inl, inr, ◌⊎◌,
}
use mathlib.Core.List.{append-nil, append_assoc}
use mock_vision.Prelude.Equality.{nat_eq}
use mock_vision.Prelude.GoMap.{GoMap, get, is_some}
use mock_vision.Domain.Text.{Text, text_eq}
use mock_vision.Hub.Topic.{Message, number}
use mock_vision.Hub.Client.{Client, subscribed, push, push_all, end_client}
use mock_vision.Hub.Publish.{Hub, topic_of, publish, push_clients}

-- One call of `Publish`.
pub record Publication : Type 0 where
  pub topic : Text
  pub type : String
  pub body : Option String
  pub at : ℕ

unfoldable pub publish_all : List Publication → Hub → Hub
unfolding publish
publish_all [] h = h
publish_all (p ∷ ps) h = publish_all ps (publish p.topic p.type p.body p.at h)

abbrev message_of : Publication → Hub → List Message
message_of p h = elim p.body [
  | none ↦ []
  | some raw ↦ number (topic_of p.topic h) p.topic p.type p.at raw ∷ []
]

-- The messages that these calls send, in order.
unfoldable pub messages : List Publication → Hub → List Message
unfolding publish number topic_of
messages [] h = []
messages (p ∷ ps) h = message_of p h ++ messages ps (publish p.topic p.type p.body p.at h)

abbrev pub wanted : Client → Message → Bool
wanted c m = subscribed c m.topic

topics-push : (m : Message) (c : Client) → (push m c).topics ≡ c.topics
unfolding push end_client
topics-push m c = ground arith

get-push_clients :
    (topic : Text) (m : Message) (id : ℕ) (cs : GoMap ℕ Client) {c : Client}
    → get id cs ≡ some c
    → get id (push_clients topic m cs) ≡ some (if subscribed c topic then push m c else c)
unfolding get push_clients
get-push_clients topic m id [] e = absurd (ground arith)
get-push_clients topic m id ((k, d) ∷ cs) {c} e = elim (Bool-cases (nat_beq k id)) [
  | inl b ↦
      let same : some d ≡ some c = rw b at e in
      rw b (
        ap
          (λ (o : Option Client). elim o [
            | none ↦ none
            | some d ↦ some (if subscribed d topic then push m d else d)
          ])
          same)
  | inr b ↦ rw b (get-push_clients topic m id cs (rw b at e))
]

wanted-push : (m x : Message) (c : Client) → wanted (push x c) m ≡ wanted c m
unfolding subscribed
wanted-push m x c = rw (topics-push x c)

-- A client that is pushed a message wants what it wanted.
filter-push :
    (x : Message) (c : Client) (ms : List Message)
    → filter (wanted (push x c)) ms ≡ filter (wanted c) ms
filter-push x c [] = refl
filter-push x c (m ∷ ms) = rw (wanted-push m x c) (rw (filter-push x c ms))

pushed_on :
    (b : Bool) (m : Message) (c : Client) (ms : List Message)
    → push_all (filter (wanted (if b then push m c else c)) ms) (if b then push m c else c)
      ≡ push_all (let rest = filter (wanted c) ms in if b then m ∷ rest else rest) c
unfolding push_all
pushed_on true m c ms = rw (filter-push m c ms)
pushed_on false m c ms = refl

-- After any calls of `Publish`, on any topics, a connected client has been pushed exactly the
-- messages on the topics that it is subscribed to, each once and in the order of the calls.
get-publish_all :
    (ps : List Publication) (id : ℕ) (h : Hub) (c : Client)
    → get id h.clients ≡ some c
    → get id (publish_all ps h).clients ≡ some (push_all (filter (wanted c) (messages ps h)) c)
unfolding publish_all messages push_all
get-publish_all [] id h c e = e
get-publish_all (p ∷ ps) id h c e = published p.body (get-publish_all ps id)
  where
    published :
        (o : Option String)
        → ((h' : Hub) (c' : Client)
            → get id h'.clients ≡ some c'
            → get id (publish_all ps h').clients
              ≡ some (push_all (filter (wanted c') (messages ps h')) c'))
        → get id (publish_all ps (publish p.topic p.type o p.at h)).clients
          ≡ some (
              push_all
                (filter (wanted c) (
                  message_of (record p { body = o }) h
                  ++ messages ps (publish p.topic p.type o p.at h)))
                c)
    published none rest = rest h c e
    published (some raw) rest =
        let m = number (topic_of p.topic h) p.topic p.type p.at raw in
        let h' = publish p.topic p.type (some raw) p.at h in
        rest h' (if subscribed c p.topic then push m c else c)
          (unfold publish in get-push_clients p.topic m id h.clients e)
        ∙ ap some (pushed_on (subscribed c p.topic) m c (messages ps h'))

reason-push :
    (m : Message) (c : Client) → is_some c.reason ≡ true → is_some (push m c).reason ≡ true
unfolding push end_client
reason-push m c e = ground arith

reason-push_all :
    (ms : List Message) (c : Client)
    → is_some c.reason ≡ true
    → is_some (push_all ms c).reason ≡ true
unfolding push_all
reason-push_all [] c e = e
reason-push_all (m ∷ ms) c e = reason-push_all ms (push m c) (reason-push m c e)

-- A push either queues the message or ends the client.
push-cases :
    (m : Message) (c : Client)
    → ((push m c).send ≡ c.send ++ m ∷ []) ⊎ (is_some (push m c).reason ≡ true)
unfolding push end_client
push-cases m c = ground arith

push_all-sent :
    (ms : List Message) (c : Client)
    → is_some (push_all ms c).reason ≡ false
    → (push_all ms c).send ≡ c.send ++ ms
unfolding push_all
push_all-sent [] c e = sym (append-nil c.send)
push_all-sent (m ∷ ms) c e = elim (push-cases m c) [
  | inl sent ↦
      push_all-sent ms (push m c) e
      ∙ ap (λ (l : List Message). l ++ ms) sent
      ∙ append_assoc c.send (m ∷ []) ms
  | inr ended ↦ absurd (ground (arith, e, reason-push_all ms (push m c) ended))
]

-- Nothing is lost in silence: after any calls of `Publish`, on any topics, a client that the hub
-- has not ended has in its queue, after what stood there, every message on the topics that it is
-- subscribed to, each once and in the order of the calls.
pub publish_all-send :
    (ps : List Publication) (id : ℕ) (h : Hub) (c c' : Client)
    → get id h.clients ≡ some c
    → get id (publish_all ps h).clients ≡ some c'
    → c'.reason ≡ none
    → c'.send ≡ c.send ++ filter (wanted c) (messages ps h)
publish_all-send ps id h c c' e e' open_yet =
    let pushed = push_all (filter (wanted c) (messages ps h)) c in
    let same : some pushed ≡ some c' = sym (get-publish_all ps id h c e) ∙ e' in
    let p : pushed ≡ c' = cc same in
    sym (ap (λ (d : Client). d.send) p)
    ∙ push_all-sent (filter (wanted c) (messages ps h)) c
        (ap (λ (d : Client). is_some d.reason) p ∙ ap is_some open_yet)
