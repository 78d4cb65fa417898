-- ===== src/Jobs/Worker.antt =====
-- jobs/worker.py: `JobWorker`, which runs the message at the end of the queue and reclaims what a
-- stopped worker left.
use agentic_alpha_engine.Prelude.{
  ℕ, zero, suc, String, Bool, true, false, Option, none, some, List, [], ◌∷◌, map, String_eq,
  contains, length, if◌then◌else◌, ◌<>◌,
}
use agentic_alpha_engine.Dict.{Dict, lookup}
use agentic_alpha_engine.Effects.{
  job_cancelled, Result, ok, err, Exec, return, gets, from_result, class_name, error_text, ◌>>=◌,
  ◌>>◌,
}
use agentic_alpha_engine.Jobs.Contracts.{Platform, JobStatus, JobEventType, is_terminal, JobReceipt}
use agentic_alpha_engine.Jobs.Queue
use agentic_alpha_engine.Jobs.Queue.{Queue}
use agentic_alpha_engine.Jobs.Repository.{Repository, append_event, plain_event, get, payload}
use agentic_alpha_engine.Jobs.Transitions.{update_status, recover_incomplete}
use agentic_alpha_engine.Jobs.Dispatch.{
  Runtime, on_repository, on_queue, message_for, raise_if_cancelled, JobContext, Handler,
}

module _ (w : Platform) where
  -- a status with its message, and the event that reports it
  unfoldable pub conclude :
      String
      → JobStatus
      → String
      → JobEventType
      → String
      → Option String
      → Exec (Repository w) (Unit {0})
  conclude job_id status message event_type suffix event_message = do
    update_status w job_id status none (some message) none
    event ← plain_event w job_id event_type (job_id <> suffix) event_message
    append_event w event
    return tt

  -- `_fail`
  unfoldable pub fail : String → String → Exec (Repository w) (Unit {0})
  unfolding conclude
  fail job_id message =
      conclude job_id JobStatus.failed message JobEventType.failed ":failed" (some message)

  -- the `except` and `else` clauses: how the outcome of the handler is recorded
  unfoldable pub record_outcome : String → Result (Unit {0}) → Exec (Repository w) (Unit {0})
  unfolding conclude fail
  record_outcome job_id (ok _) =
      conclude job_id JobStatus.succeeded "completed" JobEventType.completed ":completed" none
  record_outcome job_id (err (job_cancelled text)) =
      conclude job_id JobStatus.canceled text JobEventType.canceled ":canceled" none
  record_outcome job_id (err e) = fail job_id (w.describe (class_name e) (error_text e))

  -- `handler(context)` and the check that follows it
  unfoldable pub attempt : Handler w → JobContext w → Exec (Runtime w) (Unit {0})
  attempt handler context = do handler context; raise_if_cancelled w context.job_id

  -- the inner `try`: the handler's outcome is recorded
  unfoldable pub settle : String → Handler w → JobContext w → Exec (Runtime w) (Unit {0})
  unfolding attempt
  settle receipt_id handler context s =
      let (outcome, after) = attempt handler context s in
      on_repository w (record_outcome receipt_id outcome) after

  -- from the STARTED event on
  unfoldable pub execute : String → Handler w → JobContext w → Exec (Runtime w) (Unit {0})
  execute receipt_id handler context = do
    on_repository w
        (conclude receipt_id JobStatus.running "started" JobEventType.started ":started" none)
    settle receipt_id handler context

  module _ (handlers : Dict String (Handler w)) where
    -- the job of a message, once its receipt is found
    unfoldable pub handle_receipt :
        String → w.Payload → JobContext w → JobReceipt w → Exec (Runtime w) (Unit {0})
    unfolding execute fail conclude
    handle_receipt kind payload context receipt =
        if is_terminal receipt.status
        then return tt
        else if receipt.cancel_requested
        then on_repository w (
            conclude receipt.id JobStatus.canceled "cancelled before execution"
              JobEventType.canceled ":canceled" none)
        else elim (lookup kind handlers) [
          | none ↦ on_repository w (fail receipt.id ("no handler registered for job kind " <> kind))
          | some handler ↦ execute receipt.id handler context
        ]

    -- the `try` of `run_once`
    unfoldable pub handle_message : String → Exec (Runtime w) (Unit {0})
    unfolding handle_receipt
    handle_message encoded = do
      (job_id, kind, payload) ← from_result (w.decode encoded)
      found ← gets (λ s. get w job_id s.repository)
      elim found [
        | none ↦ return tt
        | some receipt ↦
            handle_receipt kind payload (record { job_id = job_id; kind = kind; payload = payload })
              receipt
      ]

    -- its `finally`: the message is acknowledged whatever happened
    unfoldable pub acknowledge : String → Runtime w → Runtime w
    acknowledge encoded s = record s { queue = (Queue.lrem encoded s.queue).1 }

    -- `return True` after the `try`
    abbrev pub then_true : Result (Unit {0}) → Result Bool
    then_true (ok _) = ok true
    then_true (err e) = err e

    unfoldable pub serve : String → Exec (Runtime w) Bool
    serve encoded s =
        (then_true (handle_message encoded s).0, acknowledge encoded (handle_message encoded s).1)

    unfoldable pub run_once : Exec (Runtime w) Bool
    run_once s = elim (Queue.brpoplpush s.queue).0 [
      | none ↦ (ok false, s)
      | some encoded ↦ serve encoded (record s { queue = (Queue.brpoplpush s.queue).1 })
    ]

  -- The `while` of `recover`, with fuel: the ids of the reclaimed messages.
  unfoldable pub reclaim : ℕ → Exec (Runtime w) (List String)
  reclaim zero = return []
  reclaim (suc fuel) =
      let rest = reclaim fuel in
      λ s. elim (Queue.rpoplpush s.queue).0 [
        | none ↦ (ok [], s)
        | some encoded ↦
            (do
              (job_id, kind, payload) ← from_result (w.decode encoded)
              others ← rest
              return (job_id ∷ others))
              (record s { queue = (Queue.rpoplpush s.queue).1 })
      ]

  -- the `for` of `recover`: a recovered job whose message was not reclaimed is queued again
  unfoldable pub requeue : List String → List (JobReceipt w) → Exec (Runtime w) (Unit {0})
  requeue reclaimed [] = return tt
  requeue reclaimed (receipt ∷ receipts) =
      let rest = requeue reclaimed receipts in
      if contains reclaimed receipt.id then rest else (do
        found ← on_repository w (payload w receipt.id)
        message ← from_result (message_for w receipt found)
        on_queue w (Queue.lpush message)
        rest)

  unfoldable pub recover : Exec (Runtime w) (List String)
  unfolding reclaim requeue
  recover s =
      (do
        reclaimed ← reclaim (length s.queue.processing)
        receipts ← on_repository w (recover_incomplete w)
        requeue reclaimed receipts
        return (map (λ r. r.id) receipts))
        s
