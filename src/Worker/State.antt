-- ===== src/Worker/State.antt =====
-- The runner of runner.go: its state, and what every operation goes through (`save`, `event`,
-- `finishLocked`, `requeueLocked`). Operations hold r.mu, so each is one step on the state.
-- `io_ok n` says whether the n-th call of the database succeeds; `calls` counts them.
pub mod Frame
use mock_vision.Prelude.{
  ℕ, suc, ◌+◌, String, Bool, true, false, not, ◌&&◌, List, [], ◌∷◌, ◌++◌, Option, none, some,
  if◌then◌else◌,
}
use mock_vision.Prelude.Time.{unix_milli}
use mock_vision.Prelude.Equality.{nat_eq, string_eq}
use mock_vision.Prelude.GoMap.{GoMap, get, put, del, is_some}
use mock_vision.Worker.Job.{
  Status, queued, final, busy, EventKind, status_event, Payload, status_payload, Job, Row, Json,
  job_from, update,
}
use mock_vision.Worker.Table.{Db, EventRow, update_job, insert_job_event, max_job_event_seq}

-- What the operations read and do not change: JSON, the database's luck, and the kinds that are
-- registered, each with whether it has a Cleanup.
pub record Env : Type 0 where
  pub json : Json
  pub io_ok : ℕ → Bool
  pub kinds : GoMap String Bool

-- errCanceled and errShutdown, the causes that end a run's context.
pub data Cause : Type 0 where
  canceled_by_user node_stopped : Cause

pub record Execution : Type 0 where
  pub job : Job
  pub cancel : Option Cause
  pub answer : Option String
  pub last_save : ℕ

-- What is sent to the panel.
pub data Publication : Type 0 where
  job_update : Job → Publication
  job_event : EventRow → Publication
  forget : ℕ → Publication

pub record Runner : Type 0 where
  pub db : Db
  pub calls : ℕ
  pub running : GoMap ℕ Execution
  pub waiters : GoMap ℕ (List ℕ)
  pub closed : List ℕ
  pub seqs : GoMap ℕ ℕ
  pub stopping : Bool
  pub kick : Bool
  pub published : List Publication
  pub cleaned : List ℕ

-- One call of the database: whether it succeeds, and the state that counts it.
unfoldable pub call_db : Env → Runner → Bool × Runner
call_db env r = (env.io_ok r.calls, record r { calls = suc r.calls })

-- The channel `kick` holds one token.
unfoldable pub wake : Runner → Runner
wake r = record r { kick = true }

unfoldable pub known : Env → String → Bool
known env type = is_some (get type env.kinds)

unfoldable pub save : Env → Job → Runner → Bool × Runner
unfolding call_db
save env j r =
    let c = call_db env r in
    if c.0
    then (
      true,
      record r {
        calls = c.1.calls;
        db = record r.db { jobs = update_job (update env.json j) r.db.jobs };
        published = r.published ++ job_update j ∷ [];
      },
    )
    else (false, c.1)

-- The second half of `event`: the sequence number is taken before the row is written.
unfoldable pub write_event : Env → EventRow → Runner → Runner
unfolding call_db
write_event env e r =
    let c = call_db env (record r { seqs = put e.job_id e.seq r.seqs }) in
    if c.0
    then (elim (insert_job_event e r.db) [
      | none ↦ c.1
      | some d ↦ record r {
        calls = c.1.calls;
        seqs = c.1.seqs;
        db = d;
        published = r.published ++ job_event e ∷ [];
      }
    ])
    else c.1

-- The first half of `event`: the last sequence number, from memory or from the table.
unfoldable pub last_seq : Env → ℕ → Runner → Option ℕ × Runner
unfolding call_db
last_seq env id r =
    let c = call_db env r in
    elim (get id r.seqs) [
      | some seq ↦ (some seq, r)
      | none ↦ (if c.0 then some (max_job_event_seq id r.db.events) else none, c.1)
    ]

unfoldable pub event : Env → ℕ → EventKind → Payload → ℕ → Runner → Runner
unfolding last_seq write_event
event env id kind payload now r =
    let l = last_seq env id r in
    elim l.0 [
      | none ↦ l.1
      | some seq ↦
          write_event env
            (record {
              job_id = id;
              seq = seq + 1;
              at = unix_milli now;
              kind = kind;
              payload = payload;
            })
            l.1
    ]

abbrev pub waiting_for : Option (List ℕ) → List ℕ
waiting_for none = []
waiting_for (some chs) = chs

unfoldable pub finish_locked : Job → Runner → Runner
finish_locked j r =
    if busy j.status
    then r
    else let woken = record r {
      closed = r.closed ++ waiting_for (get j.id r.waiters);
      waiters = del j.id r.waiters;
    } in
      if final j.status
      then record woken { seqs = del j.id r.seqs; published = r.published ++ forget j.id ∷ [] }
      else woken

unfoldable pub requeue_locked : Env → ℕ → Job → Runner → Bool × Runner
unfolding save event wake
requeue_locked env now j r =
    let s = save env (record j { status = queued; error = "" }) r in
    if s.0
    then (true, wake (event env j.id status_event (status_payload queued "" "resumed") now s.1))
    else (false, s.1)
