-- ===== src/Jobs/Outcomes.antt =====
-- What the methods of the job repository return and change, one lemma for each.
use agentic_alpha_engine.Prelude.{
  ℕ, suc, String, ◌≡◌, ◌∙◌, refl, Bool, true, false, not, ◌&&◌, inl, inr, Option, none, some, List,
  [], ◌∷◌, ◌++◌, arith, String_eq, ◌==◌, ==_iff, contains, Bool-cases, Option-cases, ◌<>◌,
}
use agentic_alpha_engine.Dict.{lookup, insert, lookup-insert_self}
use agentic_alpha_engine.Effects.{
  Error, Result, ok, err, value_error, key_error, return, from_result, modify, ◌>>=◌, ◌>>◌,
}
use agentic_alpha_engine.Jobs.Contracts.{
  Time, Platform, DateTime, ensure_utc, JobStatus, JobEventType, status_eqb, is_terminal,
  JobReceipt, JobEvent, JobRequest, in_unit, check_receipt, payload_digest,
}
use agentic_alpha_engine.Jobs.Repository.{
  Repository, job_at, append_event, new_receipt, store_new, create_new, reuse, create_or_get,
}
use agentic_alpha_engine.Jobs.Transitions.{
  updated, put_job, refused_transition, write_status, update_status, update_progress,
}

module _ (w : Platform) where
  -- the repository after further readings of the clock
  abbrev pub tick : ℕ → Repository w → Repository w
  tick n s = record s { readings = n }

  -- A status write: refused with nothing but the clock changed, or one receipt replaced by one with
  -- the new status, which the status before allows.
  pub data Written (id : String) (status : JobStatus) (s : Repository w)
      (out : Result (JobReceipt w) × Repository w) : Type 0 where
    refused : (e : Error) (n : ℕ) → out ≡ (err e, tick n s) → Written id status s out
    wrote :
        (current : JobReceipt w) (progress : Option w.Float) (message : Option String) (now : Time)
        (n : ℕ)
        → lookup id s.jobs ≡ some current
        → (is_terminal current.status && not (status_eqb status current.status)) ≡ false
        → in_unit w (updated w current status progress message now).progress ≡ true
        → out ≡ (
          ok (updated w current status progress message now),
          tick n (put_job w id (updated w current status progress message now) s),
        )
        → Written id status s out

  module _ (id : String) (status : JobStatus) (progress : Option w.Float) (message : Option String)
      (s : Repository w) where
    stamped-Written :
        (current : JobReceipt w) (now : Time) (n : ℕ)
        → lookup id s.jobs ≡ some current
        → (is_terminal current.status && not (status_eqb status current.status)) ≡ false
        → (out : Result (JobReceipt w) × Repository w)
        → out
          ≡ (from_result (check_receipt w (updated w current status progress message now))
                >>= λ receipt. modify (put_job w id receipt) >> return receipt)
              (tick n s)
        → Written id status s out
    stamped-Written current now n found allowed out e =
        let next = updated w current status progress message now in
        elim (Bool-cases (in_unit w next.progress)) [
          | inl h ↦
              wrote current progress message now n found allowed h
                (e ∙ (unfold check_receipt in rw (h) refl))
          | inr h ↦
              refused (value_error "job progress must be between 0 and 1") n
                (e ∙ (unfold check_receipt in rw (h) refl))
        ]

    write_status-Written :
        (current : JobReceipt w) (at : Option DateTime)
        → lookup id s.jobs ≡ some current
        → (is_terminal current.status && not (status_eqb status current.status)) ≡ false
        → Written id status s (write_status w id current status progress message at s)
    write_status-Written current none found allowed =
        stamped-Written current (w.clock s.readings) (suc s.readings) found allowed _
          (unfold write_status in refl)
    write_status-Written current (some at) found allowed =
        stamped-Written current (ensure_utc at) s.readings found allowed _
          (unfold write_status in refl)

    -- what `update_status` does
    pub update_status-Written :
        (at : Option DateTime)
        → Written id status s (update_status w id status progress message at s)
    update_status-Written at = elim (Option-cases (lookup id s.jobs)) [
      | inl absent ↦ refused (key_error id) s.readings (unfold update_status in rw (absent, job_at))
      | inr (current, found) ↦
          elim (Bool-cases (is_terminal current.status && not (status_eqb status current.status))) [
            | inl closed ↦
                refused (value_error (refused_transition w current.status status)) s.readings
                  (unfold update_status in rw (found, job_at, closed))
            | inr open_ ↦
                unfold update_status in
                rw (found, job_at, open_) (write_status-Written current at found open_)
          ]
    ]

  -- what `update_progress` does
  pub update_progress-Written :
      (id : String) (progress : w.Float) (message : Option String) (s : Repository w)
      → Written id JobStatus.running s (update_progress w id progress message s)
  update_progress-Written id progress message s = elim (Option-cases (lookup id s.jobs)) [
    | inl absent ↦ refused (key_error id) s.readings (unfold update_progress in rw (absent, job_at))
    | inr (current, found) ↦ elim (Bool-cases (status_eqb current.status JobStatus.running)) [
      | inl running ↦
          unfold update_progress in
          rw (found, job_at, running)
            (update_status-Written id JobStatus.running (some progress) message s none)
      | inr other ↦
          refused (value_error "progress can only be updated for a running job") s.readings
            (unfold update_progress in rw (found, job_at, other))
    ]
  ]

  -- the repository with one more event in the log of its job
  abbrev pub logged : JobEvent w → List (JobEvent w) → Repository w → Repository w
  logged event log s = record s {
    event_keys = event.event_key ∷ s.event_keys;
    events = insert event.job_id (log ++ event ∷ []) s.events;
  }

  -- what `append_event` does
  pub data Appended (event : JobEvent w) (s : Repository w) (out : Result Bool × Repository w)
      : Type 0 where
    duplicate :
        contains s.event_keys event.event_key ≡ true → out ≡ (ok false, s) → Appended event s out
    unknown_job :
        (e : Error) → lookup event.job_id s.jobs ≡ none → out ≡ (err e, s) → Appended event s out
    no_log :
        (e : Error)
        → lookup event.job_id s.events ≡ none
        → out ≡ (err e, record s { event_keys = event.event_key ∷ s.event_keys })
        → Appended event s out
    appended :
        (receipt : JobReceipt w) (log : List (JobEvent w))
        → contains s.event_keys event.event_key ≡ false
        → lookup event.job_id s.jobs ≡ some receipt
        → lookup event.job_id s.events ≡ some log
        → out ≡ (ok true, logged event log s)
        → Appended event s out

  pub append_event-Appended :
      (event : JobEvent w) (s : Repository w) → Appended event s (append_event w event s)
  unfolding append_event
  append_event-Appended event s = elim (Bool-cases (contains s.event_keys event.event_key)) [
    | inl old ↦ duplicate old (rw old)
    | inr new ↦ elim (Option-cases (lookup event.job_id s.jobs)) [
      | inl absent ↦ unknown_job (key_error ("unknown job " <> event.job_id)) absent (ground arith)
      | inr (receipt, known) ↦ elim (Option-cases (lookup event.job_id s.events)) [
        | inl missing ↦ no_log (key_error event.job_id) missing (ground arith)
        | inr (log, found) ↦ appended receipt log new known found (ground arith)
      ]
    ]
  ]

  -- with the job and its log there, `append_event` returns
  pub append_event-ok :
      (event : JobEvent w) (s : Repository w) {receipt : JobReceipt w} {log : List (JobEvent w)}
      → lookup event.job_id s.jobs ≡ some receipt
      → lookup event.job_id s.events ≡ some log
      → (append_event w event s).0 ≡ ok (not (contains s.event_keys event.event_key))
  unfolding append_event
  append_event-ok event s known found = ground arith

  -- what `create_or_get` does
  pub data Created (request : JobRequest w) (s : Repository w)
      (out : Result (JobReceipt w × Bool) × Repository w) : Type 0 where
    rejected :
        (id : String) (e : Error)
        → lookup request.idempotency_key s.by_key ≡ some id
        → out ≡ (err e, s)
        → Created request s out
    reused :
        (id : String) (prior : JobReceipt w)
        → lookup request.idempotency_key s.by_key ≡ some id
        → lookup id s.jobs ≡ some prior
        → prior.payload_digest ≡ payload_digest w request
        → prior.kind ≡ request.kind
        → out ≡ (ok (prior, false), s)
        → Created request s out
    created :
        (now : Time) (n : ℕ) (event : JobEvent w)
        → lookup request.idempotency_key s.by_key ≡ none
        → event.job_id ≡ request.job_id
        → event.event_type ≡ JobEventType.queued
        → event.event_key ≡ request.job_id <> ":queued"
        → out ≡ (
          ok (new_receipt w request now, true),
          (append_event w event (tick n (store_new w request (new_receipt w request now) s))).1,
        )
        → Created request s out

  pub zero-in_unit : in_unit w w.zero_float ≡ true
  unfolding in_unit
  zero-in_unit = rw (w.zero-le-zero, w.zero-le-one)

  reuse-Created :
      (request : JobRequest w) (s : Repository w) (id : String) (prior : JobReceipt w)
      → lookup request.idempotency_key s.by_key ≡ some id
      → lookup id s.jobs ≡ some prior
      → Created request s (reuse w request prior, s)
  unfolding reuse
  reuse-Created request s id prior named found =
      elim (Bool-cases (prior.payload_digest == payload_digest w request)) [
        | inl same ↦ elim (Bool-cases (prior.kind == request.kind)) [
          | inl alike ↦
              reused id prior named found ((==_iff _ _).0 same) ((==_iff _ _).0 alike)
                (rw (same, alike))
          | inr other ↦
              rejected id (value_error "idempotency key was already used with a different job")
                named (rw (same, other))
        ]
        | inr other ↦
            rejected id (value_error "idempotency key was already used with a different job") named
              (rw other)
      ]

  -- the QUEUED event of a new job
  abbrev pub queued_event : JobRequest w → Time → JobEvent w
  queued_event request now = record {
    job_id = request.job_id;
    event_type = JobEventType.queued;
    event_key = request.job_id <> ":queued";
    created_at = now;
    progress = none;
    message = none;
    metadata = w.empty_payload;
  }

  create_new-Created :
      (request : JobRequest w) (s : Repository w)
      → lookup request.idempotency_key s.by_key ≡ none
      → Created request s (create_new w request s)
  create_new-Created request s fresh =
      let now = w.clock s.readings in
      let event = queued_event request (w.clock (suc s.readings)) in
      let stored =
        tick (suc (suc s.readings)) (store_new w request (new_receipt w request now) s) in
      created now (suc (suc s.readings)) event fresh refl refl refl (
        unfold create_new check_receipt in
        rw zero-in_unit (
          rw
            (append_event-ok event stored
              (lookup-insert_self request.job_id (new_receipt w request now) s.jobs)
              (lookup-insert_self {V = List (JobEvent w)} request.job_id [] s.events))
            refl))

  pub create_or_get-Created :
      (request : JobRequest w) (s : Repository w) → Created request s (create_or_get w request s)
  create_or_get-Created request s = elim (Option-cases (lookup request.idempotency_key s.by_key)) [
    | inl fresh ↦
        unfold create_or_get in rw (fresh, create_or_get) (create_new-Created request s fresh)
    | inr (id, named) ↦ elim (Option-cases (lookup id s.jobs)) [
      | inl absent ↦
          rejected id (key_error id) named
            (unfold create_or_get in rw (named, create_or_get, absent, job_at))
      | inr (prior, found) ↦
          unfold create_or_get in
          rw (named, create_or_get, found, job_at) (reuse-Created request s id prior named found)
    ]
  ]

  -- an event is no change of the jobs and their keys
  pub jobs-append_event :
      (event : JobEvent w) (s : Repository w) → (append_event w event s).1.jobs ≡ s.jobs
  unfolding append_event
  jobs-append_event event s = ground arith

  pub by_key-append_event :
      (event : JobEvent w) (s : Repository w) → (append_event w event s).1.by_key ≡ s.by_key
  unfolding append_event
  by_key-append_event event s = ground arith

  pub one-in_unit : in_unit w w.one_float ≡ true
  unfolding in_unit
  one-in_unit = rw (w.zero-le-one, w.one-le-one)
