-- ===== src/Hub/Replay.antt =====
-- What a client that comes back receives, against the log of its topic.
use mock_vision.Prelude.{
  ℕ, zero, suc, ◌+◌, ◌-◌, ◌^◌, ◌≤◌, ◌<◌, ◌≡◌, sym, ap, subst, ◌∙◌, inl, inr, Bool, true, false,
  List, [], ◌∷◌, some, arith, leb, ltb, if◌then◌else◌, length, drop, filter, length-drop, drop-nil,
  drop-drop, Bool-cases,
}
use mock_vision.Domain.Text.{Text}
use mock_vision.Hub.Topic.{Message, TopicState}
use mock_vision.Hub.Publish.{greeting, notice, covers}
use mock_vision.Hub.Log.{IsNumbered, Keeps}

abbrev newer : ℕ → Message → Bool
newer last m = ltb last m.seq

filter-newer :
    (low last : ℕ) (ms : List Message)
    → IsNumbered low ms
    → filter (newer last) ms ≡ drop (last - low) ms
filter-newer low last [] h = sym (drop-nil (last - low))
filter-newer low last (m ∷ ms) h =
    let rest = filter-newer (low + 1) last ms h.1 in
    elim (Bool-cases (ltb last m.seq)) [
      | inl b ↦
          let z : last - low ≡ 0 = ground (arith, b, h.0) in
          let y : last - (low + 1) ≡ 0 = omega (arith, z) in
          rw b (rw z (ap (λ (l : List Message). m ∷ l) (rest ∙ ap (λ (k : ℕ). drop k ms) y)))
      | inr b ↦
          let z : last - low ≡ suc (last - (low + 1)) = ground (arith, b, h.0) in rw b (rw z rest)
    ]

IsNumbered-drop :
    (n low : ℕ) (ms : List Message)
    → n ≤ length ms
    → IsNumbered low ms
    → IsNumbered (low + n) (drop n ms)
IsNumbered-drop zero low ms l h = subst (λ (k : ℕ). IsNumbered k ms) (omega arith) h
IsNumbered-drop (suc n) low [] l h = tt
IsNumbered-drop (suc n) low (m ∷ ms) l h =
    subst (λ (k : ℕ). IsNumbered k (drop n ms)) (omega arith)
      (IsNumbered-drop n (low + 1) ms (omega (arith, l)) h.1)

covers-numbered :
    (low last : ℕ) (ms : List Message)
    → IsNumbered low ms
    → 1 ≤ length ms
    → last + 1 < 2 ^ 64
    → covers ms last ≡ leb low last
covers-numbered low last [] h l w = absurd (omega (arith, l))
covers-numbered low last (m ∷ ms) h l w = ground (arith, h.0, w)

-- For a topic whose state keeps the last `max` messages of a log, a client that comes back and
-- says that the last message it saw was number `last` receives first: where the log has nothing
-- after it, the notice that it is subscribed; where the log has at most `max` messages after it,
-- exactly those messages, each once and in order; and where the buffer no longer covers them, the
-- notice that it must reload.
pub greeting-Keeps :
    (max : ℕ) (log : List Message) (t : TopicState) (name : Text) (last now : ℕ)
    → 1 ≤ max
    → length log < 2 ^ 64
    → Keeps max log t
    → greeting name t (some last) now ≡ (
        if leb (length log) last
        then notice name t "subscribed" now ∷ []
        else if leb (length log) (last + max)
        then drop last log
        else notice name t "resync" now ∷ [])
greeting-Keeps max log t name last now h w k = elim (Bool-cases (leb (length log) last)) [
  | inl b ↦ unfold greeting in rw k.last (rw b)
  | inr b ↦
      let low = length log - max in
      let numbered = IsNumbered-drop low 0 log (omega arith) k.numbered in
      let c : covers t.buf last ≡ leb low last =
        ap (λ (ms : List Message). covers ms last) k.buffer
        ∙ covers-numbered (0 + low) last (drop low log) numbered
            (ground (arith, length-drop low log, h, b)) (ground (arith, w, b))
        ∙ ap (λ (i : ℕ). leb i last) (omega arith) in
      elim (Bool-cases (leb low last)) [
        | inr d ↦
            let e : leb (length log) (last + max) ≡ false = ground (arith, d) in
            unfold greeting in rw k.last (rw b (rw c (rw d (rw e))))
        | inl d ↦
            let e : leb (length log) (last + max) ≡ true = ground (arith, d) in
            let f : filter (newer last) t.buf ≡ drop last log =
              ap (filter (newer last)) k.buffer
              ∙ filter-newer (0 + low) last (drop low log) numbered
              ∙ drop-drop (last - (0 + low)) low log
              ∙ ap (λ (i : ℕ). drop i log) (ground (arith, d)) in
            unfold greeting in rw k.last (rw b (rw c (rw d (rw e f))))
      ]
]
