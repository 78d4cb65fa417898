-- ===== src/Jobs/Conclude.antt =====
-- The worker's status writes succeed on an open job and end it.
use agentic_alpha_engine.Prelude.{
  ℕ, suc, String, ◌≡◌, ◌∙◌, ap, refl, true, false, Option, none, some, String_eq, ◌<>◌,
}
use agentic_alpha_engine.Dict.{lookup, lookup-insert_self}
use agentic_alpha_engine.Effects.{ok, Exec, Keeps, Keeps-bind, Keeps-return}
use agentic_alpha_engine.Jobs.Contracts.{
  Platform, JobStatus, JobEventType, is_terminal, JobReceipt, JobEvent, in_unit, check_receipt,
}
use agentic_alpha_engine.Jobs.Repository.{Repository, job_at, append_event, plain_event}
use agentic_alpha_engine.Jobs.Transitions.{updated, put_job, write_status, update_status}
use agentic_alpha_engine.Jobs.Outcomes.{tick, append_event-ok, jobs-append_event, one-in_unit}
use agentic_alpha_engine.Jobs.Invariant.{IsConsistent}
use agentic_alpha_engine.Jobs.History.{reads_clock, appends, sets_status, Reach, next}
use agentic_alpha_engine.Jobs.Worker.{conclude}

module _ (w : Platform) where
  -- Every action of the worker on the repository is a history of steps.
  abbrev pub Evolves : {A : Type 0} → Repository w → Exec (Repository w) A → Type 0
  Evolves s₀ m = Keeps (Reach w s₀) m

  module _ (s₀ : Repository w) where
    pub update_status-Evolves :
        (id : String) (status : JobStatus) (message : Option String)
        → Evolves s₀ (update_status w id status none message none)
    update_status-Evolves id status message = record {
      at = λ s r. next r (sets_status id status none message none refl);
    }

    pub plain_event-Evolves :
        (id : String) (type : JobEventType) (key : String) (message : Option String)
        → Evolves s₀ (plain_event w id type key message)
    unfolding plain_event
    plain_event-Evolves id type key message = record {
      at = λ s r. next r (reads_clock (suc s.readings) refl);
    }

    pub append_event-Evolves : (event : JobEvent w) → Evolves s₀ (append_event w event)
    append_event-Evolves event = record { at = λ s r. next r (appends event refl) }

    pub conclude-Evolves :
        (id : String) (status : JobStatus) (message : String) (type : JobEventType)
        (suffix : String) (event_message : Option String)
        → Evolves s₀ (conclude w id status message type suffix event_message)
    unfolding conclude
    conclude-Evolves id status message type suffix event_message =
        Keeps-bind _ _ (update_status-Evolves id status (some message)) λ _.
          Keeps-bind _ _ (plain_event-Evolves id type (id <> suffix) event_message)
            λ event. Keeps-bind _ _ (append_event-Evolves event) λ _. Keeps-return tt

  -- An open job takes a new status, when its progress is kept or set to one.
  pub update_status-ok :
      (id : String) (status : JobStatus) (message : Option String) (current : JobReceipt w)
      (s : Repository w)
      → lookup id s.jobs ≡ some current
      → is_terminal current.status ≡ false
      → in_unit w current.progress ≡ true
      → let next = updated w current status none message (w.clock s.readings) in
        update_status w id status none message none s
        ≡ (ok next, tick w (suc s.readings) (put_job w id next s))
  update_status-ok id status message current s found open_ range =
      unfold update_status in
      rw (found, job_at, open_)
        (unfold write_status check_receipt in
          rw (kept_range current status message (w.clock s.readings) range) refl)
    where
      kept_range :
          (current : JobReceipt w) (status : JobStatus) (message : Option String) (now : ℕ)
          → in_unit w current.progress ≡ true
          → in_unit w (updated w current status none message now).progress ≡ true
      kept_range current JobStatus.queued message now h = h
      kept_range current JobStatus.running message now h = h
      kept_range current JobStatus.succeeded message now h = one-in_unit w
      kept_range current JobStatus.failed message now h = h
      kept_range current JobStatus.canceled message now h = h

  -- what the event of a conclusion is
  abbrev report : String → JobEventType → String → Option String → Repository w → JobEvent w
  report id type suffix event_message s = record {
    job_id = id;
    event_type = type;
    event_key = id <> suffix;
    created_at = w.clock s.readings;
    progress = none;
    message = event_message;
    metadata = w.empty_payload;
  }

  -- On an open job of a consistent repository `conclude` returns, and leaves the job with the status.
  pub conclude-ok :
      (id : String) (status : JobStatus) (message : String) (type : JobEventType) (suffix : String)
      (event_message : Option String) (current : JobReceipt w) (s : Repository w)
      → IsConsistent w s
      → lookup id s.jobs ≡ some current
      → is_terminal current.status ≡ false
      → let next = updated w current status none (some message) (w.clock s.readings) in
        ((conclude w id status message type suffix event_message s).0 ≡ ok tt)
        × (lookup id (conclude w id status message type suffix event_message s).1.jobs ≡ some next)
  conclude-ok id status message type suffix event_message current s c found open_ =
      let next = updated w current status none (some message) (w.clock s.readings) in
      let written = tick w (suc s.readings) (put_job w id next s) in
      let event = report id type suffix event_message written in
      let stored = tick w (suc (suc s.readings)) written in
      let here_ = lookup-insert_self id next s.jobs in
      let (log, kept) = c.has_log id current found in
      let updates =
        update_status-ok id status (some message) current s found open_
          (c.receipts id current found).1.in_range in
      unfold conclude in
      rw updates (
        (unfold plain_event in rw (append_event-ok w event stored here_ kept) refl),
        (unfold plain_event in
            rw (append_event-ok w event stored here_ kept)
              (ap (lookup id) (jobs-append_event w event stored) ∙ here_)),
      )
