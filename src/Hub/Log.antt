-- ===== src/Hub/Log.antt =====
-- The buffer of a topic against the whole log of what was published on it: the buffer is the end of
-- the log, and a client that comes back gets from the buffer what the log has after its last message.
use mock_vision.Prelude.{
  ℕ, ◌+◌, ◌-◌, ◌^◌, ◌≤◌, ◌<◌, ◌≡◌, sym, ap, ◌∙◌, inl, inr, String, List, [], ◌∷◌, ◌++◌, arith, ltb,
  if◌then◌else◌, length, drop, length-append, length-drop, drop-append, drop-drop, Bool-cases,
}
use mock_vision.Domain.Text.{Text}
use mock_vision.Hub.Topic.{Message, TopicState, number, append_message}

-- Messages numbered one by one after `low`.
abbrev pub IsNumbered : ℕ → List Message → Type 0
IsNumbered low [] = Unit
IsNumbered low (m ∷ ms) = (m.seq ≡ low + 1) × IsNumbered (low + 1) ms

-- The state of a topic on which the messages of `log` were published, in that order, and which
-- keeps the last `max` of them.
pub record Keeps (max : ℕ) (log : List Message) (t : TopicState) : Type 0 where
  pub last : t.seq ≡ length log
  pub buffer : t.buf ≡ drop (length log - max) log
  pub numbered : IsNumbered 0 log

pub IsNumbered-append :
    (low : ℕ) (ms : List Message) (m : Message)
    → IsNumbered low ms
    → m.seq ≡ low + length ms + 1
    → IsNumbered low (ms ++ m ∷ [])
IsNumbered-append low [] m h e = (omega (arith, e), tt)
IsNumbered-append low (x ∷ ms) m h e =
    (h.0, IsNumbered-append (low + 1) ms m h.1 (omega (arith, e)))

keep :
    (max : ℕ) (log : List Message) (m : Message)
    → 1 ≤ max
    → (let buf = drop (length log - max) log ++ m ∷ [] in
        if ltb max (length buf) then drop (length buf - max) buf else buf)
      ≡ drop (length (log ++ m ∷ []) - max) (log ++ m ∷ [])
keep max log m h =
    let k = length log - max in
    let all = log ++ m ∷ [] in
    let e : drop k log ++ m ∷ [] ≡ drop k all = sym (drop-append k log m (omega arith)) in
    let n : length (drop k all) ≡ length log + 1 - k =
      omega (arith, length-drop k all, length-append log (m ∷ [])) in
    let whole : length all ≡ length log + 1 = omega (arith, length-append log (m ∷ [])) in
    rw e (elim (Bool-cases (ltb max (length (drop k all)))) [
      | inl b ↦ rw b (
          drop-drop (length (drop k all) - max) k all
          ∙ ap (λ (i : ℕ). drop i all) (ground (arith, n, whole, b)))
      | inr b ↦ rw b (ap (λ (i : ℕ). drop i all) (ground (arith, n, whole, b)))
    ])

-- A topic whose state keeps the last `max` messages of a log does so after a further message is
-- published, for the log with that message at its end, as long as the uint64 sequence does not
-- wrap around: the message is numbered after the last, and the oldest is dropped when the buffer
-- is full.
pub append_message-Keeps :
    (max : ℕ) (log : List Message) (t : TopicState) (topic : Text) (type : String) (now : ℕ)
    (raw : String)
    → 1 ≤ max
    → length log + 1 < 2 ^ 64
    → Keeps max log t
    → (let m = number t topic type now raw in Keeps max (log ++ m ∷ []) (append_message max m t))
unfolding number append_message
append_message-Keeps max log t topic type now raw h w k =
    let m = number t topic type now raw in
    let e : m.seq ≡ length log + 1 = unfold number in ground (arith, w, k.last) in
    record {
      last = e ∙ sym (length-append log (m ∷ []));
      buffer = unfold number in rw k.buffer (keep max log m h);
      numbered = IsNumbered-append 0 log m k.numbered (omega (arith, e));
    }
