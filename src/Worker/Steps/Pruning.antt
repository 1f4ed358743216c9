-- ===== src/Worker/Steps/Pruning.antt =====
-- The invariant and the final rows through `Prune`.
use mock_vision.Prelude.{ℕ, suc, ◌≡◌, refl, false, List, [], ◌∷◌, some, ltb}
use mock_vision.Prelude.Int.{pos}
use mock_vision.Prelude.Time.{time_of}
use mock_vision.Worker.Job.{interrupted, Row, null_millis}
use mock_vision.Worker.Table.{list_jobs_by_status, list_finished_jobs_before, before_time}
use mock_vision.Worker.State.{Env, Runner, call_db}
use mock_vision.Worker.Requests.{cancel_stale, delete_all, prune}
use mock_vision.Worker.Steps.Sound.{IsSound, IsSound-same}
use mock_vision.Worker.Steps.Dispatching.{FinalRow}
use mock_vision.Worker.Steps.Submitting.{IsSound-if}
use mock_vision.Worker.Steps.Requesting.{IsSound-cancel}
use mock_vision.Worker.Steps.Reporting.{IsSound-when}
use mock_vision.Worker.Steps.Standing.{Stands, Stands-if, Stands-when}
use mock_vision.Worker.Steps.Refusing.{Stands-cancel}
use mock_vision.Worker.Steps.Deleting.{
  IsSound-delete_all, Stands-delete_all, listed-Unheld, listed-apart,
}

module _ (env : Env) (now before : ℕ) where
  IsSound-cancel_stale :
      (rows : List Row) (r : Runner) → IsSound r → IsSound (cancel_stale env now before rows r)
  unfolding cancel_stale
  IsSound-cancel_stale [] r h = h
  IsSound-cancel_stale (row ∷ rows) r h =
      IsSound-cancel_stale rows _ (
        IsSound-when (ltb (time_of row.created_at) before) _ _ (IsSound-cancel env now row.id r h)
          h)

  pub IsSound-prune : (r : Runner) → IsSound r → IsSound (prune env now before r).1
  unfolding prune call_db
  IsSound-prune r h =
      let c : Runner = record r { calls = suc r.calls } in
      let counted : IsSound c = IsSound-same r c refl refl h in
      let r2 =
        cancel_stale env now before (list_jobs_by_status interrupted (pos 10_000) r.db.jobs) c in
      let h2 =
        IsSound-cancel_stale (list_jobs_by_status interrupted (pos 10_000) r.db.jobs) c counted in
      let d : Runner = record r2 { calls = suc r2.calls } in
      let h3 : IsSound d = IsSound-same r2 d refl refl h2 in
      let t = null_millis (some before) in
      let ids = list_finished_jobs_before t r2.db.jobs in
      let e = IsSound-delete_all env ids d (listed-Unheld t d h2.ordered) h3 in
      IsSound-if (env.io_ok r.calls) _ _
        (IsSound-if (env.io_ok r2.calls) _ _ (IsSound-if (delete_all env ids d).0 _ _ e e) h3)
        counted

  module _ (id : ℕ) (fin : Row) where
    FinalRow-cancel_stale :
        (rows : List Row) (r : Runner)
        → FinalRow id fin r
        → FinalRow id fin (cancel_stale env now before rows r)
    unfolding cancel_stale
    FinalRow-cancel_stale [] r h = h
    FinalRow-cancel_stale (row ∷ rows) r h = FinalRow-cancel_stale rows _ (
      Stands-when env now id fin (ltb (time_of row.created_at) before) _ _
          (Stands-cancel env now id fin row.id r h) h.0,
      h.1,
    )

    -- A final row that did not finish before the time is not deleted.
    pub Stands-prune :
        (r : Runner)
        → IsSound r
        → FinalRow id fin r
        → before_time (null_millis (some before)) fin.finished_at ≡ false
        → Stands id fin (prune env now before r).1
    unfolding prune call_db
    Stands-prune r s h b =
        let c : Runner = record r { calls = suc r.calls } in
        let counted : IsSound c = IsSound-same r c refl refl s in
        let stale = list_jobs_by_status interrupted (pos 10_000) r.db.jobs in
        let r2 = cancel_stale env now before stale c in
        let h2 = IsSound-cancel_stale stale c counted in
        let f2 : FinalRow id fin r2 = FinalRow-cancel_stale stale c h in
        let d : Runner = record r2 { calls = suc r2.calls } in
        let t = null_millis (some before) in
        let ids = list_finished_jobs_before t r2.db.jobs in
        let e =
          Stands-delete_all env id fin ids d (listed-apart t d id fin h2.ordered f2.0 b) f2.0 in
        Stands-if env now id fin (env.io_ok r.calls) _ _
          (Stands-if env now id fin (env.io_ok r2.calls) _ _
            (Stands-if env now id fin (delete_all env ids d).0 _ _ e e) f2.0)
          h.0
