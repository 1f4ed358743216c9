-- ===== src/Camera/Pacing.antt =====
-- How often a camera emits events of a type.
use mock_vision.Prelude.{
  ℕ, ◌+◌, ◌≡◌, ◌≤◌, ◌<◌, refl, ◌∙◌, String, Bool, true, false, List, [], ◌∷◌, Option, none, some,
  arith, All, leb,
}
use mock_vision.Prelude.Equality.{string_eq, ==-refl}
use mock_vision.Prelude.GoMap.{GoMap, get, get-put}
use mock_vision.Camera.Events.{
  EventSpec, Event, Bus, BusTarget, Emitted, unknown_type, limited, not_told, emitted, emit,
  emit_of, emit_known, is_limited, subscribe, unsubscribe, set_targets,
}

-- What happens to the bus. An emission has the new ID, whether the service was told, and the time.
pub data BusStep : Type 0 where
  emits : String → Bool → ℕ → Event → BusStep
  subscribes : String → ℕ → BusStep
  unsubscribes : String → BusStep
  targets_set : List BusTarget → BusStep

unfoldable pub bus_step : GoMap String EventSpec → BusStep → Bus → Bus
unfolding emit subscribe unsubscribe set_targets
bus_step specs (emits id told now e) b = (emit specs id told now e b).1
bus_step specs (subscribes transport engine) b = subscribe transport engine b
bus_step specs (unsubscribes transport) b = unsubscribe transport b
bus_step specs (targets_set ts) b = set_targets ts b

unfoldable pub bus_steps : GoMap String EventSpec → List BusStep → Bus → Bus
unfolding bus_step
bus_steps specs [] b = b
bus_steps specs (s ∷ ss) b = bus_steps specs ss (bus_step specs s b)

-- The step is not before a time.
abbrev pub IsFrom : ℕ → BusStep → Type 0
IsFrom now (emits id told at e) = now ≤ at
IsFrom now _ = Unit

-- The last event of a type was not before a time.
abbrev pub seen_from : ℕ → Option ℕ → Bool
seen_from now none = false
seen_from now (some last) = leb now last

abbrev SeenFrom : String → ℕ → Bus → Type 0
SeenFrom t now b = seen_from now (get t b.last) ≡ true

emit_known-SeenFrom :
    (t : String) (now : ℕ) (s : EventSpec) (id : String) (told : Bool) (at : ℕ) (e : Event)
    (b : Bus)
    → now ≤ at
    → SeenFrom t now b
    → SeenFrom t now (emit_known s id told at e b).1
unfolding emit_known
emit_known-SeenFrom t now s id told at e b l h =
    let p = get-put e.kind t at b.last in ground (arith, p, l, h)

emit_of-SeenFrom :
    (t : String) (now : ℕ) (o : Option EventSpec) (id : String) (told : Bool) (at : ℕ) (e : Event)
    (b : Bus)
    → now ≤ at
    → SeenFrom t now b
    → SeenFrom t now (emit_of o id told at e b).1
emit_of-SeenFrom t now none id told at e b l h = h
emit_of-SeenFrom t now (some s) id told at e b l h = emit_known-SeenFrom t now s id told at e b l h

bus_steps-SeenFrom :
    (specs : GoMap String EventSpec) (t : String) (now : ℕ) (ss : List BusStep) (b : Bus)
    → All (IsFrom now) ss
    → SeenFrom t now b
    → SeenFrom t now (bus_steps specs ss b)
unfolding bus_steps bus_step emit subscribe unsubscribe set_targets
bus_steps-SeenFrom specs t now [] b a h = h
bus_steps-SeenFrom specs t now (emits id told at e ∷ ss) b a h =
    bus_steps-SeenFrom specs t now ss _ a.1
      (emit_of-SeenFrom t now (get e.kind specs) id told at e b a.0 h)
bus_steps-SeenFrom specs t now (subscribes transport engine ∷ ss) b a h =
    bus_steps-SeenFrom specs t now ss _ a.1 h
bus_steps-SeenFrom specs t now (unsubscribes transport ∷ ss) b a h =
    bus_steps-SeenFrom specs t now ss _ a.1 h
bus_steps-SeenFrom specs t now (targets_set ts ∷ ss) b a h =
    bus_steps-SeenFrom specs t now ss _ a.1 h

-- The event was not refused, be it that the service could be told or not.
abbrev pub is_let_through : Emitted → Bool
is_let_through (unknown_type _) = false
is_let_through (limited _) = false
is_let_through (not_told _) = true
is_let_through (emitted _ _) = true

emit_known-seen :
    (s : EventSpec) (id : String) (told : Bool) (now : ℕ) (e : Event) (b : Bus)
    → is_let_through (emit_known s id told now e b).0 ≡ true
    → SeenFrom e.kind now (emit_known s id told now e b).1
unfolding emit_known
emit_known-seen s id told now e b h =
    let p = get-put e.kind e.kind now b.last in let r = ==-refl e.kind in ground (arith, p, r, h)

is_limited-soon :
    (s : EventSpec) (now at : ℕ) (o : Option ℕ)
    → seen_from now o ≡ true
    → now ≤ at
    → at < now + s.min_interval
    → is_limited s at o ≡ true
unfolding is_limited
is_limited-soon s now at none h l m = absurd (ground (arith, h))
is_limited-soon s now at (some last) h l m = ground (arith, h, l, m)

emit_known-limited :
    (s : EventSpec) (id : String) (told : Bool) (at : ℕ) (e : Event) (b : Bus)
    → is_limited s at (get e.kind b.last) ≡ true
    → emit_known s id told at e b ≡ (limited e, b)
unfolding emit_known
emit_known-limited s id told at e b h = rw h refl

emit-of :
    (specs : GoMap String EventSpec) (s : EventSpec) (id : String) (told : Bool) (at : ℕ)
    (e : Event) (b : Bus)
    → get e.kind specs ≡ some s
    → emit specs id told at e b ≡ emit_known s id told at e b
unfolding emit
emit-of specs s id told at e b h = rw h refl

-- After an event that was let through, and whatever happens to the bus from then on, an event of
-- the same type that comes sooner than the least interval of its type is refused, and changes
-- nothing.
pub emit-paced :
    (specs : GoMap String EventSpec) (s : EventSpec) (e f : Event) (id new : String)
    (told known : Bool) (now at : ℕ) (ss : List BusStep) (b : Bus)
    → get e.kind specs ≡ some s
    → f.kind ≡ e.kind
    → is_let_through (emit specs id told now e b).0 ≡ true
    → All (IsFrom now) ss
    → now ≤ at
    → at < now + s.min_interval
    → (let later = bus_steps specs ss (emit specs id told now e b).1 in
        emit specs new known at f later ≡ (limited f, later))
emit-paced specs s e f id new told known now at ss b g k t a l m =
    let first = emit-of specs s id told now e b g in
    let seen : SeenFrom e.kind now (emit specs id told now e b).1 =
      rw first (emit_known-seen s id told now e b (rw first at t)) in
    let later = bus_steps specs ss (emit specs id told now e b).1 in
    let still = bus_steps-SeenFrom specs e.kind now ss _ a seen in
    let soon : is_limited s at (get f.kind later.last) ≡ true =
      rw k (is_limited-soon s now at (get e.kind later.last) still l m) in
    emit-of specs s new known at f later (rw k g) ∙ emit_known-limited s new known at f later soon
