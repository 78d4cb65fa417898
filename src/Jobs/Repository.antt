-- ===== src/Jobs/Repository.antt =====
-- jobs/repository.py: `InMemoryJobRepository`. Each method is an action on the repository, which also
-- counts the readings of the process's clock, so that `utc_now()` is the next one.
use agentic_alpha_engine.Prelude.{
  ℕ, suc, String, Bool, true, false, not, ◌||◌, Option, none, some, List, [], ◌∷◌, ◌++◌, ◌==◌,
  String_eq, contains, if◌then◌else◌, ◌<>◌, sorted, ×_ord, ℕ_ord, String_ord,
}
use agentic_alpha_engine.Dict.{Dict, lookup, insert, has_key, values}
use agentic_alpha_engine.Effects.{
  Result, ok, err, value_error, key_error, Exec, return, from_result, modify, ◌>>=◌, ◌>>◌,
}
use agentic_alpha_engine.Jobs.Contracts.{
  Time, Platform, JobStatus, JobEventType, JobRequest, JobReceipt, JobEvent, payload_digest,
  check_receipt,
}

module _ (w : Platform) where
  pub record Repository : Type 0 where
    pub jobs : Dict String (JobReceipt w)
    pub payloads : Dict String w.Payload
    pub by_key : Dict String String
    pub events : Dict String (List (JobEvent w))
    pub event_keys : List String
    pub readings : ℕ

  -- `InMemoryJobRepository()`
  abbrev pub init : Repository
  init = record {
    jobs = [];
    payloads = [];
    by_key = [];
    events = [];
    event_keys = [];
    readings = 0;
  }

  unfoldable pub utc_now : Exec Repository Time
  utc_now s = (ok (w.clock s.readings), record s { readings = suc s.readings })

  -- `self._jobs[job_id]`
  unfoldable pub job_at : String → Exec Repository (JobReceipt w)
  job_at job_id s = elim (lookup job_id s.jobs) [
    | none ↦ (err (key_error job_id), s)
    | some receipt ↦ (ok receipt, s)
  ]

  unfoldable pub append_event : JobEvent w → Exec Repository Bool
  append_event event s =
      if contains s.event_keys event.event_key
      then (ok false, s)
      else if not (has_key event.job_id s.jobs)
      then (err (key_error ("unknown job " <> event.job_id)), s)
      else let s' = record s { event_keys = event.event_key ∷ s.event_keys } in
        elim (lookup event.job_id s.events) [
          | none ↦ (err (key_error event.job_id), s')
          | some log ↦
              (ok true, record s' { events = insert event.job_id (log ++ event ∷ []) s.events })
        ]

  -- `JobEvent(job_id, event_type, event_key=…)`, stamped by the clock
  unfoldable pub plain_event :
      String → JobEventType → String → Option String → Exec Repository (JobEvent w)
  unfolding utc_now
  plain_event job_id event_type event_key message = do
    now ← utc_now
    return (record {
      job_id = job_id;
      event_type = event_type;
      event_key = event_key;
      created_at = now;
      progress = none;
      message = message;
      metadata = w.empty_payload;
    })

  -- the receipt that `create_or_get` builds for a new job
  abbrev pub new_receipt : JobRequest w → Time → JobReceipt w
  new_receipt request now = record {
    id = request.job_id;
    kind = request.kind;
    status = JobStatus.queued;
    idempotency_key = request.idempotency_key;
    payload_digest = payload_digest w request;
    created_at = now;
    started_at = none;
    finished_at = none;
    progress = w.zero_float;
    message = none;
    cancel_requested = false;
  }

  -- the four assignments of `create_or_get`
  abbrev pub store_new : JobRequest w → JobReceipt w → Repository → Repository
  store_new request receipt s = record s {
    jobs = insert receipt.id receipt s.jobs;
    payloads = insert receipt.id request.payload s.payloads;
    by_key = insert request.idempotency_key receipt.id s.by_key;
    events = insert receipt.id [] s.events;
  }

  unfoldable pub create_new : JobRequest w → Exec Repository (JobReceipt w × Bool)
  unfolding utc_now plain_event
  create_new request = do
    now ← utc_now
    receipt ← from_result (check_receipt w (new_receipt request now))
    modify (store_new request receipt)
    event ← plain_event receipt.id JobEventType.queued (receipt.id <> ":queued") none
    append_event event
    return (receipt, true)

  -- the reuse of a key: the same job, or an error
  unfoldable pub reuse : JobRequest w → JobReceipt w → Result (JobReceipt w × Bool)
  reuse request prior =
      if not (prior.payload_digest == payload_digest w request) || not (prior.kind == request.kind)
      then err (value_error "idempotency key was already used with a different job")
      else ok (prior, false)

  unfoldable pub create_or_get : JobRequest w → Exec Repository (JobReceipt w × Bool)
  unfolding job_at
  create_or_get request s = elim (lookup request.idempotency_key s.by_key) [
    | none ↦ create_new request s
    | some prior_id ↦ (job_at prior_id >>= λ prior. from_result (reuse request prior)) s
  ]

  unfoldable pub payload : String → Exec Repository w.Payload
  payload job_id s = elim (lookup job_id s.payloads) [
    | none ↦ (err (key_error job_id), s)
    | some found ↦ (ok found, s)
  ]

  unfoldable pub get : String → Repository → Option (JobReceipt w)
  get job_id s = lookup job_id s.jobs

  -- an empty job id is falsy
  unfoldable pub find_by_idempotency : String → Repository → Option (JobReceipt w)
  find_by_idempotency key s = elim (lookup key s.by_key) [
    | none ↦ none
    | some job_id ↦ if job_id == "" then none else lookup job_id s.jobs
  ]

  unfoldable pub list_events : String → Repository → List (JobEvent w)
  list_events job_id s = elim (lookup job_id s.events) [ none ↦ [] | some log ↦ log ]

  -- `sorted(self._jobs.values(), key=lambda receipt: (receipt.created_at, receipt.id))`
  abbrev pub job_order : JobReceipt w → Time × String
  job_order receipt = (receipt.created_at, receipt.id)

  unfoldable pub list_jobs : Repository → List (JobReceipt w)
  list_jobs s = sorted job_order (values s.jobs)
