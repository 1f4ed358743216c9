-- ===== src/Supervisor/Session/Messages.antt =====
-- `handle` of supervisor.go: the messages of a camera's process. What is stored or published for one
-- is listed as an effect, and a channel of one place is an option that is kept when it is full.
use mock_vision.Prelude.{
  ℕ, ◌+◌, ◌-◌, ◌≡◌, ◌≤◌, String, Bool, true, false, List, [], ◌∷◌, Option, none, some, arith, leb,
  if◌then◌else◌, Bool-cases, inl, inr, refl,
}
use mock_vision.Guard.Bucket.{Bucket, allow_notice}

-- A message as it was decoded; `undecodable` is one of a kind whose decoding is checked.
pub data CameraMessage : Type 0 where
  hello_message heartbeat_message event_message delivery_message : CameraMessage
  state_changed_message notice_message bye_message : CameraMessage
  undecodable unknown_message : CameraMessage
  ready_message : List String → CameraMessage
  failed_message : String → CameraMessage

pub data Effect : Type 0 where
  event_recorded delivery_recorded changes_stored notice_published : Effect

-- `samples` are the times of the samples that were kept, the newest first, and so are `effects`.
pub record Inbox : Type 0 where
  pub hello : Bool
  pub ready : Option (List String)
  pub failed : Option String
  pub last_beat : ℕ
  pub last_sample : ℕ
  pub notices : Bucket
  pub samples : List ℕ
  pub effects : List Effect

abbrev second : ℕ
second = 1_000_000_000

abbrev or_kept : {A : Type 0} → Option A → A → Option A
or_kept none a = some a
or_kept (some b) a = some b

abbrev effect : Effect → Inbox → Inbox
effect e i = record i { effects = e ∷ i.effects }

-- A heartbeat counts as a sample once a second at most.
unfoldable pub beat : ℕ → Inbox → Inbox
beat now i =
    let alive = record i { last_beat = now } in
    if leb second (now - i.last_sample)
    then record alive { last_sample = now; samples = now ∷ i.samples }
    else alive

-- Whether it returns no error, and what it leaves.
unfoldable pub handle_message : ℕ → CameraMessage → Inbox → Bool × Inbox
unfolding beat allow_notice
handle_message now hello_message i = (true, record i { hello = true })
handle_message now (ready_message es) i = (true, record i { ready = or_kept i.ready es })
handle_message now (failed_message reason) i = (true, record i { failed = or_kept i.failed reason })
handle_message now heartbeat_message i = (true, beat now i)
handle_message now event_message i = (true, effect event_recorded i)
handle_message now delivery_message i = (true, effect delivery_recorded i)
handle_message now state_changed_message i = (true, effect changes_stored i)
handle_message now notice_message i =
    let (allowed, bucket) = allow_notice now i.notices in
    let paid = record i { notices = bucket } in
    (true, if allowed then effect notice_published paid else paid)
handle_message now bye_message i = (true, i)
handle_message now undecodable i = (false, i)
handle_message now unknown_message i = (false, i)

unfoldable pub handle_all : List (ℕ × CameraMessage) → Inbox → Inbox
unfolding handle_message
handle_all [] i = i
handle_all ((now, m) ∷ ms) i = handle_all ms (handle_message now m i).1

-- Each sample was kept a second or more after the one before it.
abbrev pub AreSpaced : List ℕ → Type 0
AreSpaced [] = Unit
AreSpaced (a ∷ []) = Unit
AreSpaced (a ∷ b ∷ rest) = (b + second ≤ a) × AreSpaced (b ∷ rest)

-- The newest sample is the last one that was kept.
abbrev IsNewest : ℕ → List ℕ → Type 0
IsNewest last [] = Unit
IsNewest last (a ∷ rest) = a ≡ last

abbrev IsPaced : Inbox → Type 0
IsPaced i = AreSpaced i.samples × IsNewest i.last_sample i.samples

beat-AreSpaced :
    (now last : ℕ) (samples : List ℕ)
    → leb second (now - last) ≡ true
    → AreSpaced samples
    → IsNewest last samples
    → AreSpaced (now ∷ samples)
beat-AreSpaced now last [] h s n = tt
beat-AreSpaced now last (a ∷ rest) h s n = (ground (arith, h, n), s)

beat-IsPaced : (now : ℕ) (i : Inbox) → IsPaced i → IsPaced (beat now i)
unfolding beat
beat-IsPaced now i h = elim (Bool-cases (leb second (now - i.last_sample))) [
  | inl b ↦ rw b (beat-AreSpaced now i.last_sample i.samples b h.0 h.1, refl)
  | inr b ↦ rw b h
]

handle_message-IsPaced :
    (now : ℕ) (m : CameraMessage) (i : Inbox) → IsPaced i → IsPaced (handle_message now m i).1
unfolding handle_message
handle_message-IsPaced now hello_message i h = h
handle_message-IsPaced now (ready_message es) i h = h
handle_message-IsPaced now (failed_message reason) i h = h
handle_message-IsPaced now heartbeat_message i h = beat-IsPaced now i h
handle_message-IsPaced now event_message i h = h
handle_message-IsPaced now delivery_message i h = h
handle_message-IsPaced now state_changed_message i h = h
handle_message-IsPaced now notice_message i h = elim (Bool-cases (allow_notice now i.notices).0) [
  | inl b ↦ rw b h
  | inr b ↦ rw b h
]
handle_message-IsPaced now bye_message i h = h
handle_message-IsPaced now undecodable i h = h
handle_message-IsPaced now unknown_message i h = h

handle_all-IsPaced :
    (ms : List (ℕ × CameraMessage)) (i : Inbox) → IsPaced i → IsPaced (handle_all ms i)
unfolding handle_all
handle_all-IsPaced [] i h = h
handle_all-IsPaced ((now, m) ∷ ms) i h =
    handle_all-IsPaced ms (handle_message now m i).1 (handle_message-IsPaced now m i h)

-- Whatever a camera's process sends, and whenever, from an inbox without samples on: the samples
-- that are kept are a second or more apart.
pub handle_all-AreSpaced :
    (ms : List (ℕ × CameraMessage)) (i : Inbox)
    → i.samples ≡ []
    → AreSpaced (handle_all ms i).samples
handle_all-AreSpaced ms i h = (handle_all-IsPaced ms i (rw h tt, rw h tt)).0
