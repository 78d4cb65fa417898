-- ===== src/Jobs/Service.antt =====
-- What one round of the worker achieves, for handlers that keep to their context.
use agentic_alpha_engine.Prelude.{
  String, ◌≡◌, ◌∙◌, sym, ap, subst, refl, Bool, true, false, inl, inr, Option, none, some, arith,
  String_eq, ◌<>◌, Bool-cases, Option-cases, if◌then◌else◌,
}
use agentic_alpha_engine.Dict.{Dict, lookup}
use agentic_alpha_engine.Effects.{
  value_error, key_error, type_error, runtime_error, job_cancelled, other, Result, ok, err,
  continue,
}
use agentic_alpha_engine.Jobs.Contracts.{Platform, JobStatus, JobEventType, is_terminal, JobReceipt}
use agentic_alpha_engine.Jobs.Queue
use agentic_alpha_engine.Jobs.Queue.{Queue}
use agentic_alpha_engine.Jobs.Repository.{Repository, get}
use agentic_alpha_engine.Jobs.Transitions.{updated}
use agentic_alpha_engine.Jobs.Invariant.{IsConsistent}
use agentic_alpha_engine.Jobs.History.{Reach, here, Reach-trans}
use agentic_alpha_engine.Jobs.Guarantees.{Reach-IsConsistent}
use agentic_alpha_engine.Jobs.Dispatch.{Runtime, raise_if_cancelled, JobContext, Handler}
use agentic_alpha_engine.Jobs.Conclude.{conclude-Evolves, conclude-ok}
use agentic_alpha_engine.Jobs.Worker.{
  conclude, fail, record_outcome, attempt, settle, execute, handle_receipt, handle_message,
  acknowledge, serve, run_once,
}

module _ (w : Platform) where
  -- `job_id` is running
  abbrev pub IsRunning : String → Repository w → Type 0
  IsRunning id s = (r : JobReceipt w) × (lookup id s.jobs ≡ some r) × (r.status ≡ JobStatus.running)

  -- A handler that changes the repository only by its methods, leaves its own job running, and does not
  -- take messages out of hand.
  pub record IsWellBehaved (h : Handler w) : Type 0 where
    pub evolves :
        (context : JobContext w) (s : Runtime w) → Reach w s.repository (h context s).1.repository
    pub keeps_running :
        (context : JobContext w) (s : Runtime w)
        → IsRunning context.job_id s.repository
        → IsRunning context.job_id (h context s).1.repository
    pub keeps_processing :
        (context : JobContext w) (s : Runtime w)
        → (h context s).1.queue.processing ≡ s.queue.processing

  -- the status that records an outcome
  abbrev pub outcome_status : Result (Unit {0}) → JobStatus
  outcome_status (ok _) = JobStatus.succeeded
  outcome_status (err (job_cancelled _)) = JobStatus.canceled
  outcome_status (err _) = JobStatus.failed

  -- `job_id` has ended with `status`
  abbrev pub HasEnded : String → JobStatus → Repository w → Type 0
  HasEnded id status s = (q : JobReceipt w) × (lookup id s.jobs ≡ some q) × (q.status ≡ status)

  repository-raise_if_cancelled : (id : String) (s : Runtime w) → (raise_if_cancelled w id s).1 ≡ s
  unfolding raise_if_cancelled
  repository-raise_if_cancelled id s = ground arith

  -- the check after the handler changes nothing
  pub state-attempt :
      (h : Handler w) (context : JobContext w) (s : Runtime w)
      → (attempt w h context s).1 ≡ (h context s).1
  unfolding attempt
  state-attempt h context s = after (h context s).0 (h context s).1
    where
      after :
          (r : Result (Unit {0})) (t : Runtime w)
          → (continue r (λ _. raise_if_cancelled w context.job_id) t).1 ≡ t
      after (ok _) t = repository-raise_if_cancelled context.job_id t
      after (err e) t = refl

  record_outcome-ok :
      (id : String) (outcome : Result (Unit {0})) (s : Repository w)
      → IsConsistent w s
      → IsRunning id s
      → ((record_outcome w id outcome s).0 ≡ ok tt)
        × HasEnded id (outcome_status outcome) (record_outcome w id outcome s).1
  record_outcome-ok id outcome s c (r, found, running) = go outcome
    where
      open_ : is_terminal r.status ≡ false
      open_ = ap is_terminal running

      ends :
          (status : JobStatus) (message : String) (type : JobEventType) (suffix : String)
          (event_message : Option String)
          → ((conclude w id status message type suffix event_message s).0 ≡ ok tt)
            × HasEnded id status (conclude w id status message type suffix event_message s).1
      ends status message type suffix event_message =
          let (returns, left) =
            conclude-ok w id status message type suffix event_message r s c found open_ in
          (returns, (updated w r status none (some message) (w.clock s.readings), left, refl))

      go :
          (o : Result (Unit {0}))
          → ((record_outcome w id o s).0 ≡ ok tt)
            × HasEnded id (outcome_status o) (record_outcome w id o s).1
      go (ok _) =
          unfold record_outcome in
          ends JobStatus.succeeded "completed" JobEventType.completed ":completed" none
      go (err (job_cancelled text)) =
          unfold record_outcome in
          ends JobStatus.canceled text JobEventType.canceled ":canceled" none
      go (err (value_error m)) =
          unfold record_outcome fail in ends JobStatus.failed _ JobEventType.failed ":failed" _
      go (err (key_error m)) =
          unfold record_outcome fail in ends JobStatus.failed _ JobEventType.failed ":failed" _
      go (err (type_error m)) =
          unfold record_outcome fail in ends JobStatus.failed _ JobEventType.failed ":failed" _
      go (err (runtime_error m)) =
          unfold record_outcome fail in ends JobStatus.failed _ JobEventType.failed ":failed" _
      go (err (other k m)) =
          unfold record_outcome fail in ends JobStatus.failed _ JobEventType.failed ":failed" _

  -- the runtime in which the handler is called
  abbrev pub started : String → Runtime w → Runtime w
  started id s = record s {
    repository =
        (conclude w id JobStatus.running "started" JobEventType.started ":started" none
          s.repository).1;
  }

  -- From the start of an open job: its handler is called, and the job ends as the handler did.
  pub execute-ends :
      (h : Handler w) (context : JobContext w) (r : JobReceipt w) (s : Runtime w)
      → IsWellBehaved h
      → IsConsistent w s.repository
      → lookup context.job_id s.repository.jobs ≡ some r
      → is_terminal r.status ≡ false
      → ((execute w context.job_id h context s).0 ≡ ok tt)
        × HasEnded context.job_id
            (outcome_status (attempt w h context (started context.job_id s)).0)
            (execute w context.job_id h context s).1.repository
  execute-ends h context r s b c found open_ =
      let id = context.job_id in
      let first =
        conclude-ok w id JobStatus.running "started" JobEventType.started ":started" none r
          s.repository c found open_ in
      let evolved =
        (conclude-Evolves w s.repository id JobStatus.running "started" JobEventType.started
            ":started" none).at
          s.repository here in
      let running : IsRunning id (started id s).repository = (
        updated w r JobStatus.running none (some "started") (w.clock s.repository.readings),
        first.1,
        refl,
      ) in
      let same = state-attempt h context (started id s) in
      let c' = Reach-IsConsistent w c (Reach-trans w evolved (b.evolves context (started id s))) in
      let last =
        record_outcome-ok id (attempt w h context (started id s)).0
          (attempt w h context (started id s)).1.repository
          (subst (λ (t : Runtime w). IsConsistent w t.repository) (sym same) c')
          (subst (λ (t : Runtime w). IsRunning id t.repository) (sym same)
            (b.keeps_running context (started id s) running)) in
      unfold execute settle in rw (first.0) last

  -- The message that a worker takes: the last of the queue.
  abbrev pub Taken : String → Runtime w → Type 0
  Taken encoded s = (Queue.brpoplpush s.queue).0 ≡ some encoded

  abbrev pub in_hand : Runtime w → Runtime w
  in_hand s = record s { queue = (Queue.brpoplpush s.queue).1 }

  abbrev pub context_of : String → String → w.Payload → JobContext w
  context_of id kind payload = record { job_id = id; kind = kind; payload = payload }

  module _ (handlers : Dict String (Handler w)) where
    -- The status in which a round leaves the job of its message: a status that was terminal; cancelled,
    -- if that was asked for; failed, with no handler for the kind; or the handler's outcome.
    abbrev pub verdict : String → w.Payload → JobReceipt w → Runtime w → JobStatus
    verdict kind payload r s =
        if is_terminal r.status
        then r.status
        else if r.cancel_requested
        then JobStatus.canceled
        else elim (lookup kind handlers) [
          | none ↦ JobStatus.failed
          | some h ↦ outcome_status (attempt w h (context_of r.id kind payload) (started r.id s)).0
        ]

    handle_receipt-ends :
        (kind : String) (payload : w.Payload) (r : JobReceipt w) (s : Runtime w)
        → ((h : Handler w) → lookup kind handlers ≡ some h → IsWellBehaved h)
        → IsConsistent w s.repository
        → lookup r.id s.repository.jobs ≡ some r
        → ((handle_receipt w handlers kind payload (context_of r.id kind payload) r s).0 ≡ ok tt)
          × HasEnded r.id
              (verdict kind payload r s)
              (handle_receipt w handlers kind payload
                (context_of r.id kind payload)
                r
                s).1.repository
    handle_receipt-ends kind payload r s b c found = elim (Bool-cases (is_terminal r.status)) [
      | inl closed ↦ unfold handle_receipt in rw closed (refl, (r, found, refl))
      | inr open_ ↦ elim (Bool-cases r.cancel_requested) [
        | inl wanted ↦
            let (returns, left) =
              conclude-ok w r.id JobStatus.canceled "cancelled before execution"
                JobEventType.canceled ":canceled" none r s.repository c found open_ in
            unfold handle_receipt in
            rw open_ (
              rw wanted (
                returns,
                (
                  updated w r JobStatus.canceled none (some "cancelled before execution")
                      (w.clock s.repository.readings),
                  left,
                  refl,
                ),
              ))
        | inr unwanted ↦ elim (Option-cases (lookup kind handlers)) [
          | inl absent ↦
              let message = "no handler registered for job kind " <> kind in
              let (returns, left) =
                conclude-ok w r.id JobStatus.failed message JobEventType.failed ":failed"
                  (some message) r s.repository c found open_ in
              unfold handle_receipt fail in
              rw open_ (
                rw unwanted (
                  rw absent (
                    returns,
                    (
                      updated w r JobStatus.failed none (some message)
                          (w.clock s.repository.readings),
                      left,
                      refl,
                    ),
                  )))
          | inr (h, there) ↦
              unfold handle_receipt in
              rw open_ (
                rw unwanted (
                  rw there
                    (execute-ends h (context_of r.id kind payload) r s (b h there) c found open_)))
        ]
      ]
    ]

    handle_message-known :
        (encoded : String) (payload : w.Payload) (kind : String) (r : JobReceipt w) (s : Runtime w)
        → w.decode encoded ≡ ok (r.id, kind, payload)
        → lookup r.id s.repository.jobs ≡ some r
        → handle_message w handlers encoded s
          ≡ handle_receipt w handlers kind payload (context_of r.id kind payload) r s
    handle_message-known encoded payload kind r s decoded found =
        unfold handle_message get in rw (decoded) (rw (found) refl)

    run_once-Taken :
        (encoded : String) (s : Runtime w)
        → Taken encoded s
        → run_once w handlers s ≡ serve w handlers encoded (in_hand s)
    run_once-Taken encoded s took = unfold run_once in rw (took, run_once) refl

    serve-returns :
        (encoded : String) (s : Runtime w)
        → (handle_message w handlers encoded s).0 ≡ ok tt
        → (serve w handlers encoded s).0 ≡ ok true
    serve-returns encoded s h = unfold serve in rw (h) refl

    -- In a consistent runtime whose handlers are well behaved, a round that takes the message of a job
    -- that exists returns `True` and leaves the job with the status of `verdict`.
    pub run_once-ends :
        (encoded : String) (payload : w.Payload) (kind : String) (r : JobReceipt w) (s : Runtime w)
        → ((h : Handler w) → lookup kind handlers ≡ some h → IsWellBehaved h)
        → IsConsistent w s.repository
        → Taken encoded s
        → w.decode encoded ≡ ok (r.id, kind, payload)
        → lookup r.id s.repository.jobs ≡ some r
        → ((run_once w handlers s).0 ≡ ok true)
          × HasEnded r.id (verdict kind payload r (in_hand s)) (run_once w handlers s).1.repository
    run_once-ends encoded payload kind r s b c took decoded found =
        let (returns, ended) = handle_receipt-ends kind payload r (in_hand s) b c found in
        let same = handle_message-known encoded payload kind r (in_hand s) decoded found in
        let served = run_once-Taken encoded s took in
        (
          ap (λ p. p.0) served ∙ serve-returns encoded (in_hand s) (ap (λ p. p.0) same ∙ returns),
          subst
              (λ (p : Result Bool × Runtime w).
                HasEnded r.id (verdict kind payload r (in_hand s)) p.1.repository)
              (sym served)
              (unfold serve acknowledge in
                subst
                  (λ (p : Result (Unit {0}) × Runtime w).
                    HasEnded r.id (verdict kind payload r (in_hand s)) p.1.repository)
                  (sym same) ended),
        )
