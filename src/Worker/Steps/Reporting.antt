-- ===== src/Worker/Steps/Reporting.antt =====
-- The invariant through what a running handler calls.
use mock_vision.Prelude.{
  ℕ, ◌+◌, ◌≡◌, refl, String, Bool, true, false, Option, none, some, ltb, if◌then◌else◌,
}
use mock_vision.Prelude.Equality.{nat_eq}
use mock_vision.Prelude.GoMap.{get, put}
use mock_vision.Prelude.Int.{ℤ}
use mock_vision.Worker.Job.{
  running, waiting, step_event, question_event, answer_event, log_event, Question, step_payload,
  question_payload, answer_payload, message,
}
use mock_vision.Worker.State.{Env, Execution, Runner}
use mock_vision.Worker.Handle.{
  clamp, progress_every, set_and_save, save_checkpoint, step, progress, logf, ask_begin, Wake,
  answered, timed_out, context_done, ask_settle, ask_end,
}
use mock_vision.Worker.Steps.{
  Report, checkpoint, begin_step, set_progress, log_line, ask, wake_up, report, report_as,
}
use mock_vision.Worker.Steps.Sound.{
  held, IsSound, IsSound-same, IsSound-event, IsSound-save, live_row,
}
use mock_vision.Worker.Steps.Ending.{IsSound-wake}
use mock_vision.Worker.Steps.Submitting.{IsSound-put_back}

pub IsSound-when : (b : Bool) (x y : Runner) → IsSound x → IsSound y → IsSound (if b then x else y)
IsSound-when true x y h k = h
IsSound-when false x y h k = k

module _ (env : Env) (now id : ℕ) (ex : Execution) (r : Runner) (g : get id r.running ≡ some ex)
    (h : IsSound r) where
  IsSound-set_and_save :
      (ex' : Execution)
      → ex'.job.id ≡ ex.job.id
      → held ex'.job.status ≡ true
      → IsSound (set_and_save env id ex' r)
  unfolding set_and_save
  IsSound-set_and_save ex' same k =
      IsSound-save env ex'.job (record r { running = put id ex' r.running }) (λ _. k)
        (IsSound-put_back id ex ex' r h g same k)

  held_now : held ex.job.status ≡ true
  held_now = (live_row id r h g).1

  IsSound-save_checkpoint : (raw : String) → IsSound (save_checkpoint env id raw ex r).1
  unfolding save_checkpoint set_and_save
  IsSound-save_checkpoint raw =
      IsSound-set_and_save (record ex { job = record ex.job { checkpoint = raw } }) refl held_now

  IsSound-step : (name : String) (p : ℤ) → IsSound (step env now id name p ex r)
  unfolding step
  IsSound-step name p = IsSound-event env id step_event (step_payload name (clamp p)) now _ (
      IsSound-set_and_save
        (record ex { job = record ex.job { step = name; progress = clamp p }; last_save = now })
        refl held_now)

  IsSound-progress : (p : ℤ) → IsSound (progress env now id p ex r)
  unfolding progress
  IsSound-progress p =
      let moved = record ex { job = record ex.job { progress = clamp p } } in
      IsSound-when (ltb (clamp p) ex.job.progress) _ _ h (
        IsSound-when (ltb now (ex.last_save + progress_every)) _ _
          (IsSound-same (record r { running = put id moved r.running }) _ refl refl
            (IsSound-put_back id ex moved r h g refl held_now))
          (IsSound-set_and_save (record moved { last_save = now }) refl held_now))

  IsSound-ask_begin : (q : Question) → IsSound (ask_begin env now id q ex r)
  unfolding ask_begin
  IsSound-ask_begin q = IsSound-wake _ (
      IsSound-event env id question_event (question_payload q) now _ (
        IsSound-set_and_save
          (record ex { answer = none; job = record ex.job { status = waiting; question = some q } })
          refl refl))

  IsSound-ask_settle :
      (q : Question) (text by : String) (a : Option String)
      → IsSound (ask_settle env now id q text by (record ex { answer = a }) r).1
  unfolding ask_settle
  IsSound-ask_settle q text by a =
      IsSound-event env id answer_event (answer_payload q.id text by) now _ (
        IsSound-set_and_save
          (record ex { answer = a; job = record ex.job { status = running; question = none } }) refl
          refl)

  IsSound-ask_end : (q : Question) (w : Wake) → IsSound (ask_end env now id q w ex r).1
  unfolding ask_end
  IsSound-ask_end q (answered text) = IsSound-ask_settle q text "user" none
  IsSound-ask_end q timed_out = IsSound-ask_settle q q.default "timeout" ex.answer
  IsSound-ask_end q (context_done cause) = h

  IsSound-report : (rep : Report) → IsSound (report env now id rep ex r)
  unfolding report logf
  IsSound-report (checkpoint raw) = IsSound-save_checkpoint raw
  IsSound-report (begin_step name p) = IsSound-step name p
  IsSound-report (set_progress p) = IsSound-progress p
  IsSound-report (log_line text) = IsSound-event env id log_event (message text) now r h
  IsSound-report (ask q) = IsSound-ask_begin q
  IsSound-report (wake_up q w) = IsSound-ask_end q w

pub IsSound-report_as :
    (env : Env) (now id : ℕ) (rep : Report) (o : Option Execution) (r : Runner)
    → get id r.running ≡ o
    → IsSound r
    → IsSound (report_as env now id rep o r)
unfolding report_as
IsSound-report_as env now id rep none r g h = h
IsSound-report_as env now id rep (some ex) r g h = IsSound-report env now id ex r g h rep
