-- ===== src/Worker/Limits/Sequence.antt =====
-- The numbers of a job's events.
use mock_vision.Prelude.{
  ℕ, ◌+◌, ◌≤◌, ◌<◌, ◌≡◌, refl, true, false, List, [], ◌∷◌, ◌++◌, Option, none, some, arith, nat_beq,
  nat_beq_iff, if◌then◌else◌, All, All-append, All-map, Bool-cases, Option-cases, inl, inr, subst,
  sym,
}
use mock_vision.Prelude.Time.{unix_milli}
use mock_vision.Prelude.Equality.{nat_eq}
use mock_vision.Prelude.GoMap.{get, put, get-put}
use mock_vision.Worker.Job.{EventKind, Payload}
use mock_vision.Worker.Table.{Db, EventRow, insert_job_event, max_job_event_seq}
use mock_vision.Worker.State.{Env, Runner, call_db, last_seq, write_event, event}

-- A job's events are numbered at most `seq`.
abbrev pub AtMost : ℕ → ℕ → EventRow → Type 0
AtMost id seq e = nat_beq e.job_id id ≡ true → e.seq ≤ seq

abbrev pub Remembered : ℕ → Option ℕ → List EventRow → Type 0
Remembered id none es = Unit
Remembered id (some seq) es = All (AtMost id seq) es

-- The events of a job stand in the order of their numbers, and no two have the same.
abbrev pub AfterThis : ℕ → EventRow → EventRow → Type 0
AfterThis id e f = nat_beq f.job_id id ≡ true → e.seq < f.seq

abbrev pub IsGrowing : ℕ → List EventRow → Type 0
IsGrowing id [] = Unit
IsGrowing id (e ∷ es) = (nat_beq e.job_id id ≡ true → All (AfterThis id e) es) × IsGrowing id es

-- The table of events, and the last numbers that the runner has in memory.
pub record IsNumbered (r : Runner) : Type 0 where
  pub memory : (id : ℕ) → Remembered id (get id r.seqs) r.db.events
  pub growing : (id : ℕ) → IsGrowing id r.db.events

AtMost-max : (id : ℕ) (es : List EventRow) → All (AtMost id (max_job_event_seq id es)) es
unfolding max_job_event_seq
AtMost-max id [] = tt
AtMost-max id (e ∷ es) = (
  λ h. ground (arith, h),
  All-map (AtMost id (max_job_event_seq id es)) (AtMost id (max_job_event_seq id (e ∷ es))) es
      (λ f g h. unfold max_job_event_seq in ground (arith, g h)) (AtMost-max id es),
)

IsGrowing-append :
    (id seq : ℕ) (e : EventRow) (es : List EventRow)
    → All (AtMost id seq) es
    → (nat_beq e.job_id id ≡ true → seq < e.seq)
    → IsGrowing id es
    → IsGrowing id (es ++ e ∷ [])
IsGrowing-append id seq e [] h k g = (λ _. tt, tt)
IsGrowing-append id seq e (f ∷ es) h k g = (
  λ same.
      All-append (AfterThis id f) es (e ∷ []) (g.0 same) (λ m. ground (arith, h.0 same, k m), tt),
  IsGrowing-append id seq e es h.1 k g.1,
)

IsGrowing-append_other :
    (id : ℕ) (e : EventRow) (es : List EventRow)
    → nat_beq e.job_id id ≡ false
    → IsGrowing id es
    → IsGrowing id (es ++ e ∷ [])
IsGrowing-append_other id e [] b g = (λ _. tt, tt)
IsGrowing-append_other id e (f ∷ es) b g = (
  λ same.
      All-append (AfterThis id f) es (e ∷ []) (g.0 same) (λ x. absurd (ground (arith, x, b)), tt),
  IsGrowing-append_other id e es b g.1,
)

-- Where the last number of the job is known, writing an event under the next keeps the order.
memory-put :
    (id k seq : ℕ) (o : Option ℕ) (es : List EventRow)
    → All (AtMost id seq) es
    → Remembered k o es
    → Remembered k (if nat_beq id k then some (seq + 1) else o) es
memory-put id k seq o es h m = elim (Bool-cases (nat_beq id k)) [
  | inr b ↦ rw b m
  | inl b ↦ rw b (
      rw⁻¹ ((nat_beq_iff id k).0 b)
        (All-map (AtMost id seq) (AtMost id (seq + 1)) es (λ f g x. ground (arith, g x)) h))
]

Remembered-append :
    (id k seq : ℕ) (e : EventRow) (o : Option ℕ) (es : List EventRow)
    → e.job_id ≡ id
    → e.seq ≡ seq + 1
    → Remembered k (if nat_beq id k then some (seq + 1) else o) es
    → Remembered k (if nat_beq id k then some (seq + 1) else o) (es ++ e ∷ [])
Remembered-append id k seq e o es p q m = elim (Bool-cases (nat_beq id k)) [
  | inl b ↦
      rw b (All-append (AtMost k (seq + 1)) es (e ∷ []) (rw b at m) (λ _. omega (arith, q), tt))
  | inr b ↦ rw b (other b o (rw b at m))
]
  where
    other :
        nat_beq id k ≡ false → (o : Option ℕ) → Remembered k o es → Remembered k o (es ++ e ∷ [])
    other b none m = tt
    other b (some s) m =
        All-append (AtMost k s) es (e ∷ []) m (λ x. absurd (ground (arith, x, p, b)), tt)

-- `insert_job_event` adds the row at the end of the table.
events-insert_job_event :
    (e : EventRow) (d : Db) {d' : Db}
    → insert_job_event e d ≡ some d'
    → d'.events ≡ d.events ++ e ∷ []
unfolding insert_job_event
events-insert_job_event e d h = ground arith

module _ (env : Env) (id seq now : ℕ) (kind : EventKind) (payload : Payload) where
  abbrev next : EventRow
  next = record { job_id = id; seq = seq + 1; at = now; kind = kind; payload = payload }

  -- The number is taken, whether the row is written or not.
  counted :
      (r : Runner)
      → All (AtMost id seq) r.db.events
      → IsNumbered r
      → IsNumbered (record r { seqs = put id (seq + 1) r.seqs })
  counted r h n = record {
    memory = λ k. rw get-put (memory-put id k seq (get k r.seqs) r.db.events h (n.memory k));
    growing = n.growing;
  }

  IsNumbered-write_event :
      (r : Runner)
      → All (AtMost id seq) r.db.events
      → IsNumbered r
      → IsNumbered (write_event env next r)
  IsNumbered-write_event r h n = elim (Bool-cases (env.io_ok r.calls)) [
    | inr b ↦
        let c = counted r h n in
        unfold write_event call_db in rw b (record { memory = c.memory; growing = c.growing })
    | inl b ↦ elim (Option-cases (insert_job_event next r.db)) [
      | inl f ↦
          let c = counted r h n in
          unfold write_event call_db in
          rw b (rw f (record { memory = c.memory; growing = c.growing }))
      | inr (d, f) ↦
          let es = events-insert_job_event next r.db {d' = d} f in
          unfold write_event call_db in
          rw b (
            rw f (record {
              memory = λ k. rw es (
                  rw get-put (
                    Remembered-append id k seq next (get k r.seqs) r.db.events refl refl
                      (memory-put id k seq (get k r.seqs) r.db.events h (n.memory k))));
              growing = λ k. rw es (grown k);
            }))
    ]
  ]
    where
      grown : (k : ℕ) → IsGrowing k (r.db.events ++ next ∷ [])
      grown k = elim (Bool-cases (nat_beq id k)) [
        | inr b ↦ IsGrowing-append_other k next r.db.events b (n.growing k)
        | inl b ↦
            IsGrowing-append k seq next r.db.events
              (subst (λ (i : ℕ). All (AtMost i seq) r.db.events) ((nat_beq_iff id k).0 b) h)
              (λ _. omega arith) (n.growing k)
      ]

-- What `last_seq` finds Bounds the numbers of the job's events.
abbrev Bounds : ℕ → Option ℕ × Runner → Type 0
Bounds id l = IsNumbered l.1 × Remembered id l.0 l.1.db.events

abbrev last_of : Env → ℕ → Option ℕ → Runner → Option ℕ × Runner
last_of env id (some seq) r = (some seq, r)
last_of env id none r =
    let c = call_db env r in (if c.0 then some (max_job_event_seq id r.db.events) else none, c.1)

last_seq-last_of :
    (env : Env) (id : ℕ) (r : Runner) → last_seq env id r ≡ last_of env id (get id r.seqs) r
unfolding last_seq
last_seq-last_of env id r = ground arith

last_of-Bounds :
    (env : Env) (id : ℕ) (o : Option ℕ) (r : Runner)
    → get id r.seqs ≡ o
    → IsNumbered r
    → Bounds id (last_of env id o r)
last_of-Bounds env id (some seq) r e n = (n, rw e at (n.memory id))
last_of-Bounds env id none r e n =
    let counted : IsNumbered (call_db env r).1 =
      unfold call_db in record { memory = n.memory; growing = n.growing } in
    elim (Bool-cases (env.io_ok r.calls)) [
      | inr b ↦ unfold call_db in rw b (counted, tt)
      | inl b ↦ unfold call_db in rw b (counted, AtMost-max id r.db.events)
    ]

-- `event` keeps the numbers of every job's events growing in the order they are written, also where
-- calls of the database fail and after the runner forgot the last number and reads it again from
-- the table: no number is given twice, and none goes back.
pub event-IsNumbered :
    (env : Env) (id : ℕ) (kind : EventKind) (payload : Payload) (now : ℕ) (r : Runner)
    → IsNumbered r
    → IsNumbered (event env id kind payload now r)
unfolding event
event-IsNumbered env id kind payload now r n = told (last_seq env id r) (
    subst (Bounds id) (sym (last_seq-last_of env id r))
      (last_of-Bounds env id (get id r.seqs) r refl n))
  where
    told :
        (l : Option ℕ × Runner)
        → Bounds id l
        → IsNumbered (elim l.0 [
          | none ↦ l.1
          | some seq ↦
              write_event env
                (record {
                  job_id = id;
                  seq = seq + 1;
                  at = unix_milli now;
                  kind = kind;
                  payload = payload;
                })
                l.1
        ])
    told (none, s) b = b.0
    told (some seq, s) b = IsNumbered-write_event env id seq (unix_milli now) kind payload s b.1 b.0
