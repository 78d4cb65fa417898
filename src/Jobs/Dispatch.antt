-- ===== src/Jobs/Dispatch.antt =====
-- jobs/dispatch.py: `JobDispatcher`, `CancellationToken` and `JobContext`, over the repository and the
-- queue that they share.
use agentic_alpha_engine.Prelude.{
  ℕ, String, Bool, ◌||◌, Option, none, some, String_eq, ◌==◌, if◌then◌else◌, ◌<>◌,
}
use agentic_alpha_engine.Effects.{
  Result, ok, err, job_cancelled, Exec, return, from_result, ◌>>=◌, ◌>>◌,
}
use agentic_alpha_engine.Jobs.Contracts.{
  Platform, JobStatus, JobEventType, status_eqb, JobReceipt, JobEvent, JobRequest, check_event,
}
use agentic_alpha_engine.Jobs.Queue
use agentic_alpha_engine.Jobs.Queue.{Queue}
use agentic_alpha_engine.Jobs.Repository.{Repository, utc_now, append_event, create_or_get}
use agentic_alpha_engine.Jobs.Transitions.{update_progress, request_cancel, is_cancel_requested}

module _ (w : Platform) where
  pub record Runtime : Type 0 where
    pub repository : Repository w
    pub queue : Queue

  abbrev pub on_repository : {A : Type 0} → Exec (Repository w) A → Exec Runtime A
  on_repository m s = ((m s.repository).0, record s { repository = (m s.repository).1 })

  abbrev pub on_queue : {A : Type 0} → (Queue → A × Queue) → Exec Runtime A
  on_queue f s = (ok (f s.queue).0, record s { queue = (f s.queue).1 })

  -- the Redis key that makes a dispatch happen once
  abbrev pub marker : String → String → String
  marker queue_name job_id = queue_name <> ":submitted:" <> job_id

  -- the message of a job, `QueueMessage(…).encode()`, which raises on what json cannot hold
  abbrev pub message_for : JobReceipt w → w.Payload → Result String
  message_for receipt payload = w.encode receipt.id receipt.kind payload

  unfoldable pub dispatch : String → JobRequest w → JobReceipt w → Exec Runtime ℕ
  dispatch queue_name request receipt = do
    message ← from_result (message_for receipt request.payload)
    on_queue (Queue.eval (marker queue_name receipt.id) message)

  unfoldable pub submit : String → JobRequest w → Exec Runtime (JobReceipt w)
  unfolding dispatch
  submit queue_name request = do
    (receipt, created) ← on_repository (create_or_get w request)
    if created || status_eqb receipt.status JobStatus.queued
        then (do dispatch queue_name request receipt; return receipt)
        else return receipt

  unfoldable pub cancel : String → Exec Runtime Bool
  cancel job_id = on_repository (request_cancel w job_id)

  -- `text or ''`
  abbrev pub or_empty : Option String → String
  or_empty none = ""
  or_empty (some text) = text

  -- `event_key or f"…"`
  abbrev pub progress_key : String → w.Float → Option String → Option String → String
  progress_key job_id progress message event_key =
      if or_empty event_key == ""
      then job_id <> ":progress:" <> w.fixed_12 progress <> ":" <> or_empty message
      else or_empty event_key

  unfoldable pub progress_event :
      String → w.Float → Option String → Option String → Exec (Repository w) (JobEvent w)
  unfolding utc_now
  progress_event job_id progress message event_key = do
    now ← utc_now w
    from_result (
        check_event w (record {
          job_id = job_id;
          event_type = JobEventType.progress;
          event_key = progress_key job_id progress message event_key;
          created_at = now;
          progress = some progress;
          message = message;
          metadata = w.empty_payload;
        }))

  unfoldable pub publish_progress :
      String → w.Float → Option String → Option String → Exec Runtime (JobReceipt w)
  publish_progress job_id progress message event_key = on_repository (do
    event ← progress_event job_id progress message event_key
    append_event w event
    update_progress w job_id progress message)

  unfoldable pub raise_if_cancelled : String → Exec Runtime (Unit {0})
  raise_if_cancelled job_id s =
      if is_cancel_requested w job_id s.repository
      then (err (job_cancelled ("job " <> job_id <> " was cancelled")), s)
      else (ok tt, s)

  -- what a handler is given; its dispatcher and its token stand for the runtime
  pub record JobContext : Type 0 where
    pub job_id : String
    pub kind : String
    pub payload : w.Payload

  -- `JobContext.progress`
  unfoldable pub report_progress :
      JobContext → w.Float → Option String → Option String → Exec Runtime (Unit {0})
  report_progress context value message event_key = do
    raise_if_cancelled context.job_id
    publish_progress context.job_id value message event_key
    return tt

  unfoldable pub check_cancelled : JobContext → Exec Runtime (Unit {0})
  check_cancelled context = raise_if_cancelled context.job_id

  abbrev pub Handler : Type 0
  Handler = JobContext → Exec Runtime (Unit {0})
