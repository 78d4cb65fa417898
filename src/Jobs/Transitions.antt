-- ===== src/Jobs/Transitions.antt =====
-- jobs/repository.py: the methods of `InMemoryJobRepository` that change the status of a job.
use agentic_alpha_engine.Prelude.{
  String, Bool, true, false, not, ◌&&◌, Option, none, some, List, [], ◌∷◌, String_eq, if◌then◌else◌,
  ◌<>◌, is_some,
}
use agentic_alpha_engine.Dict.{Dict, lookup, insert}
use agentic_alpha_engine.Effects.{
  ok, value_error, Exec, return, raise, from_result, modify, ◌>>=◌, ◌>>◌,
}
use agentic_alpha_engine.Jobs.Contracts.{
  Time, Platform, DateTime, ensure_utc, JobStatus, JobEventType, status_value, status_eqb,
  is_terminal, JobReceipt, check_receipt,
}
use agentic_alpha_engine.Jobs.Repository.{Repository, utc_now, job_at, plain_event, append_event}

module _ (w : Platform) where
  -- `at or utc_now()`
  unfoldable pub timestamp : Option DateTime → Exec (Repository w) Time
  unfolding utc_now
  timestamp none = do now ← utc_now w; return now
  timestamp (some at) = return (ensure_utc at)

  -- the receipt that `update_status` builds
  abbrev pub updated :
      JobReceipt w → JobStatus → Option w.Float → Option String → Time → JobReceipt w
  updated current status progress message now = record current {
    status = status;
    started_at =
        if status_eqb status JobStatus.running && not (is_some current.started_at)
        then some now
        else current.started_at;
    finished_at = if is_terminal status then some now else current.finished_at;
    progress =
        if status_eqb status JobStatus.succeeded
        then w.one_float
        else elim progress [ none ↦ current.progress | some p ↦ p ];
    message = message;
  }

  -- `self._jobs[job_id] = receipt`
  abbrev pub put_job : String → JobReceipt w → Repository w → Repository w
  put_job job_id receipt s = record s { jobs = insert job_id receipt s.jobs }

  unfoldable pub write_status :
      String
      → JobReceipt w
      → JobStatus
      → Option w.Float
      → Option String
      → Option DateTime
      → Exec (Repository w) (JobReceipt w)
  unfolding timestamp
  write_status job_id current status progress message at = do
    now ← timestamp at
    receipt ← from_result (check_receipt w (updated current status progress message now))
    modify (put_job job_id receipt)
    return receipt

  abbrev pub refused_transition : JobStatus → JobStatus → String
  refused_transition current status =
      "terminal job cannot transition from "
      <> status_value current
      <> " to "
      <> status_value status

  unfoldable pub update_status :
      String
      → JobStatus
      → Option w.Float
      → Option String
      → Option DateTime
      → Exec (Repository w) (JobReceipt w)
  unfolding job_at
  update_status job_id status progress message at = do
    current ← job_at w job_id
    if is_terminal current.status && not (status_eqb status current.status)
        then raise (value_error (refused_transition current.status status))
        else write_status job_id current status progress message at

  unfoldable pub update_progress :
      String → w.Float → Option String → Exec (Repository w) (JobReceipt w)
  unfolding job_at
  update_progress job_id progress message = do
    current ← job_at w job_id
    if not (status_eqb current.status JobStatus.running)
        then raise (value_error "progress can only be updated for a running job")
        else update_status job_id JobStatus.running (some progress) message none

  unfoldable pub request_cancel : String → Exec (Repository w) Bool
  request_cancel job_id s = elim (lookup job_id s.jobs) [
    | none ↦ (ok false, s)
    | some current ↦
        if is_terminal current.status
        then (ok false, s)
        else (ok true, put_job job_id (record current { cancel_requested = true }) s)
  ]

  unfoldable pub is_cancel_requested : String → Repository w → Bool
  is_cancel_requested job_id s = elim (lookup job_id s.jobs) [
    | none ↦ false
    | some receipt ↦ receipt.cancel_requested
  ]

  -- one job that was running when the snapshot of the items was taken
  unfoldable pub recover_job : String → Exec (Repository w) (JobReceipt w)
  recover_job job_id = do
    receipt ← update_status job_id JobStatus.queued none (some "worker restart recovery") none
    event ← plain_event w job_id JobEventType.recovered (job_id <> ":recovered") none
    append_event w event
    return receipt

  -- the loop of `recover_incomplete`
  unfoldable pub recover_items :
      Dict String (JobReceipt w) → Exec (Repository w) (List (JobReceipt w))
  recover_items [] = return []
  recover_items ((job_id, receipt) ∷ items) =
      let rest = recover_items items in
      if status_eqb receipt.status JobStatus.running
      then (do first ← recover_job job_id; others ← rest; return (first ∷ others))
      else rest

  unfoldable pub recover_incomplete : Exec (Repository w) (List (JobReceipt w))
  recover_incomplete s = recover_items s.jobs s
