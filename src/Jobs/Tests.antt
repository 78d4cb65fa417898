-- ===== src/Jobs/Tests.antt =====
-- Runs of the jobs on a small platform, and each theorem at an input that meets its hypotheses.
use agentic_alpha_engine.Prelude.{
  String, ◌≡◌, sym, refl, subst, Bool, true, false, not, ◌||◌, none, some, [], ◌∷◌, String_eq, ◌==◌,
  ◌<>◌, contains, if◌then◌else◌,
}
use agentic_alpha_engine.Dict.{Dict, lookup, insert}
use agentic_alpha_engine.Effects.{ok, err, type_error}
use agentic_alpha_engine.Jobs.Contracts.{
  Platform, JobStatus, JobReceipt, JobRequest, payload_digest, check_receipt, check_event, in_unit,
}
use agentic_alpha_engine.Jobs.Queue
use agentic_alpha_engine.Jobs.Repository.{
  Repository, init, create_or_get, create_new, reuse, plain_event, append_event, get,
}
use agentic_alpha_engine.Jobs.Transitions.{
  update_status, write_status, update_progress, request_cancel, is_cancel_requested,
}
use agentic_alpha_engine.Jobs.Invariant.{IsConsistent, init-IsConsistent}
use agentic_alpha_engine.Jobs.History.{IsFresh, Reach, here, next, creates, cancels, Extends}
use agentic_alpha_engine.Jobs.Guarantees.{Reach-IsConsistent, Reach-Extends}
use agentic_alpha_engine.Jobs.Dispatch.{
  Runtime, JobContext, cancel, dispatch, submit, report_progress, publish_progress, progress_event,
  raise_if_cancelled, Handler,
}
use agentic_alpha_engine.Jobs.Worker.{
  run_once, handle_message, handle_receipt, acknowledge, serve, execute, settle, attempt,
  record_outcome, conclude, fail,
}
use agentic_alpha_engine.Jobs.Service.{IsWellBehaved, HasEnded, verdict, in_hand, run_once-ends}
use agentic_alpha_engine.Jobs.Submission.{submit_once}
use agentic_alpha_engine.Jobs.Reports.{Report, report_all, report_all-IsWellBehaved}
use agentic_alpha_engine.Jobs.Acknowledge.{run_once-acknowledges}

-- floats 0 and 1, texts for payloads, and the job id for a message
abbrev platform : Platform
platform = record {
  Payload = String;
  empty_payload = "{}";
  sha256_of = λ p. p;
  encode = λ id kind payload.
      if payload == "bytes" then err (type_error "not JSON serializable") else ok id;
  decode = λ text. ok (text, "demo", "{}");
  Float = Bool;
  float_le = λ a b. not a || b;
  zero_float = false;
  one_float = true;
  zero-le-zero = refl;
  zero-le-one = refl;
  one-le-one = refl;
  fixed_12 = λ a. "0";
  is_blank = λ s. s == "";
  describe = λ c t. c <> ": " <> t;
  clock = λ n. n;
}

abbrev demo : JobRequest platform
demo = record { kind = "demo"; payload = "{}"; idempotency_key = "k1"; job_id = "j1" }

abbrev demo_again : JobRequest platform
demo_again = record { kind = "demo"; payload = "{}"; idempotency_key = "k1"; job_id = "j9" }

abbrev bytes : JobRequest platform
bytes = record { kind = "demo"; payload = "bytes"; idempotency_key = "k2"; job_id = "j2" }

abbrev created_state : Repository platform
created_state = (create_or_get platform demo (init platform)).1

abbrev cancel_state : Repository platform
cancel_state = (request_cancel platform "j1" created_state).1

program : Unit {0}
unfolding create_or_get create_new reuse plain_event append_event update_status write_status
    update_progress request_cancel is_cancel_requested cancel dispatch submit run_once serve
    handle_message handle_receipt acknowledge execute settle attempt record_outcome conclude fail
    report_all report_progress publish_progress progress_event raise_if_cancelled check_receipt
    check_event in_unit payload_digest lookup insert contains Queue.eval Queue.lrem Queue.brpoplpush
    Queue.remove get
program = tt

demo-IsFresh : IsFresh platform demo (init platform)
unfolding lookup
demo-IsFresh h = refl

abbrev demo_receipt : JobReceipt platform
demo_receipt = record {
  id = "j1";
  kind = "demo";
  status = JobStatus.queued;
  idempotency_key = "k1";
  payload_digest = "{}";
  created_at = 0;
  started_at = none;
  finished_at = none;
  progress = false;
  message = none;
  cancel_requested = false;
}

to_created : Reach platform (init platform) created_state
to_created = next here (creates demo demo-IsFresh refl)

to_cancel : Reach platform created_state cancel_state
to_cancel = next here (cancels "j1" refl)

Reach-Extends_example : Extends platform created_state cancel_state
Reach-Extends_example =
    Reach-Extends platform (Reach-IsConsistent platform (init-IsConsistent platform) to_created)
      to_cancel

found_key : lookup "k1" created_state.by_key ≡ some "j1"
unfolding program
found_key = refl

demo_again_digest : payload_digest platform demo_again ≡ payload_digest platform demo
unfolding payload_digest
demo_again_digest = refl

-- a handler that reports once
abbrev report : Report platform
report = record { value = true; message = some "half"; event_key = some "step-1" }

abbrev handlers : Dict String (Handler platform)
handlers = ("demo", report_all platform (report ∷ [])) ∷ []

abbrev idle : Runtime platform
idle = record { repository = init platform; queue = Queue.empty }

-- A payload that json cannot hold is filed, and its submission raises.
not_json : (submit platform "alpha:jobs" bytes idle).0 ≡ err (type_error "not JSON serializable")
unfolding program
not_json = refl

-- the demo job is filed, and its dispatch was lost
abbrev undispatched : Runtime platform
undispatched = record { repository = created_state; queue = Queue.empty }

abbrev queued_state : Runtime platform
queued_state = (submit platform "alpha:jobs" demo idle).1

only_entry : {A : Type 0} (b : Bool) (x h : A) → (if b then some x else none) ≡ some h → x ≡ h
only_entry true x h e = cc
only_entry false x h e = cc

handlers-IsWellBehaved :
    (kind : String) (h : Handler platform)
    → lookup kind handlers ≡ some h
    → IsWellBehaved platform h
unfolding lookup
handlers-IsWellBehaved kind h e =
    subst (IsWellBehaved platform) (only_entry (◌==◌ {A = String} "demo" kind) _ h e)
      (report_all-IsWellBehaved platform (report ∷ []))

queued_job : lookup "j1" queued_state.repository.jobs ≡ some demo_receipt
unfolding program
queued_job = refl

queued_message : (Queue.brpoplpush queued_state.queue).0 ≡ some "j1"
unfolding program
queued_message = refl

queued_repository : queued_state.repository ≡ created_state
unfolding program
queued_repository = refl

queued-IsConsistent : IsConsistent platform queued_state.repository
queued-IsConsistent =
    subst (IsConsistent platform) (sym queued_repository)
      (Reach-IsConsistent platform (init-IsConsistent platform) to_created)

run_once-ends_example :
    ((run_once platform handlers queued_state).0 ≡ ok true)
    × HasEnded platform "j1"
        (verdict platform handlers "demo" "{}" demo_receipt (in_hand platform queued_state))
        (run_once platform handlers queued_state).1.repository
run_once-ends_example =
    run_once-ends platform handlers "j1" "{}" "demo" demo_receipt queued_state
      (handlers-IsWellBehaved "demo") queued-IsConsistent queued_message refl queued_job

demo_succeeds :
    verdict platform handlers "demo" "{}" demo_receipt (in_hand platform queued_state)
    ≡ JobStatus.succeeded
unfolding program
demo_succeeds = refl

run_once-acknowledges_example :
    (run_once platform handlers queued_state).1.queue.processing ≡ queued_state.queue.processing
run_once-acknowledges_example =
    run_once-acknowledges platform handlers queued_state handlers-IsWellBehaved

returned : (submit platform "alpha:jobs" demo idle).0 ≡ ok demo_receipt
unfolding program
returned = refl

submit_once_example :
    (submit platform "alpha:jobs" demo_again queued_state).1.queue ≡ queued_state.queue
submit_once_example =
    submit_once platform "alpha:jobs" demo demo_again demo_receipt idle queued_state
      (init-IsConsistent platform) demo-IsFresh returned refl here (λ m h. h) refl refl
      demo_again_digest

abbrev demo_context : JobContext platform
demo_context = record { job_id = "j1"; kind = "demo"; payload = "{}" }

abbrev cancelled : Runtime platform
cancelled = (cancel platform "j1" undispatched).1
