-- ===== src/Jobs/Submission.antt =====
-- Submissions: a job's message is dispatched once, and a lost dispatch is made up for.
use agentic_alpha_engine.Prelude.{
  String, ◌≡◌, ◌∙◌, sym, ap, subst, refl, Bool, true, false, ◌||◌, ◌∷◌, arith, String_eq, ==_iff,
  contains, contains-cons, Bool-cases, inl, inr,
}
use agentic_alpha_engine.Effects.{Result, Error, ok, err, ok_injective, result_cases}
use agentic_alpha_engine.Jobs.Contracts.{
  Platform, JobStatus, status_eqb, JobReceipt, JobRequest, payload_digest,
}
use agentic_alpha_engine.Jobs.Queue
use agentic_alpha_engine.Jobs.Queue.{Queue}
use agentic_alpha_engine.Jobs.Repository.{create_or_get}
use agentic_alpha_engine.Jobs.Invariant.{IsConsistent}
use agentic_alpha_engine.Jobs.History.{IsFresh, Reach}
use agentic_alpha_engine.Jobs.Guarantees.{resubmission}
use agentic_alpha_engine.Jobs.Dispatch.{Runtime, marker, message_for, dispatch, submit}

-- the marker is set after `eval`, which pushes nothing where it was set
pub eval-marks :
    (m value : String) (q : Queue) → contains (Queue.eval m value q).1.enqueue_markers m ≡ true
eval-marks m value q =
    unfold Queue.eval in ground (arith, contains-cons m m q.enqueue_markers, ==_iff m m)

pub eval-marked :
    (m value : String) (q : Queue)
    → contains q.enqueue_markers m ≡ true
    → Queue.eval m value q ≡ (0, q)
eval-marked m value q h = unfold Queue.eval in rw h

pub eval-unmarked :
    (m value : String) (q : Queue)
    → contains q.enqueue_markers m ≡ false
    → (Queue.eval m value q).1.items ≡ value ∷ q.items
eval-unmarked m value q h = unfold Queue.eval in rw h

module _ (w : Platform) (queue_name : String) where
  -- whether a submission dispatches the job of its receipt
  abbrev dispatches : JobReceipt w → Bool → Bool
  dispatches receipt created = created || status_eqb receipt.status JobStatus.queued

  -- the runtime after a submission that dispatched nothing, and after one that sent a message
  abbrev unsent : JobRequest w → Runtime w → Runtime w
  unsent request s = record s { repository = (create_or_get w request s.repository).1 }

  abbrev sent : JobRequest w → JobReceipt w → String → Runtime w → Runtime w
  sent request receipt message s = record {
    repository = (create_or_get w request s.repository).1;
    queue = (Queue.eval (marker w queue_name receipt.id) message s.queue).1;
  }

  module _ (request : JobRequest w) (receipt : JobReceipt w) (created : Bool) (s : Runtime w)
      (h : (create_or_get w request s.repository).0 ≡ ok (receipt, created)) where
    submit-unsent :
        dispatches receipt created ≡ false
        → submit w queue_name request s ≡ (ok receipt, unsent request s)
    submit-unsent off = unfold submit in rw (h) (rw off refl)

    submit-failed :
        (e : Error)
        → dispatches receipt created ≡ true
        → message_for w receipt request.payload ≡ err e
        → submit w queue_name request s ≡ (err e, unsent request s)
    submit-failed e on failed = unfold submit dispatch in rw (h) (rw on (rw failed refl))

    submit-sent :
        (message : String)
        → dispatches receipt created ≡ true
        → message_for w receipt request.payload ≡ ok message
        → submit w queue_name request s ≡ (ok receipt, sent request receipt message s)
    submit-sent message on encoded = unfold submit dispatch in rw (h) (rw on (rw encoded refl))

  submit-raised :
      (request : JobRequest w) (e : Error) (s : Runtime w)
      → (create_or_get w request s.repository).0 ≡ err e
      → (submit w queue_name request s).0 ≡ err e
  submit-raised request e s h = unfold submit in rw (h) refl

  queued-dispatches :
      (receipt : JobReceipt w) (created : Bool)
      → receipt.status ≡ JobStatus.queued
      → dispatches receipt created ≡ true
  queued-dispatches receipt true queued = refl
  queued-dispatches receipt false queued = rw queued

  ok-err : {A : Type 0} {a : A} {e : Error} → ok a ≡ err e → ⊥
  ok-err h = cc

  -- A submission that returned a queued receipt has sent a message.
  returned-sent :
      (request : JobRequest w) (receipt : JobReceipt w) (s : Runtime w)
      → (submit w queue_name request s).0 ≡ ok receipt
      → receipt.status ≡ JobStatus.queued
      → (created : Bool) × (message : String) × ((create_or_get w request s.repository).0
          ≡ ok (receipt, created))
        × (submit w queue_name request s ≡ (ok receipt, sent request receipt message s))
  returned-sent request receipt s returned queued =
      elim (result_cases (create_or_get w request s.repository).0) [
        | inr (e, failed) ↦ absurd (ok-err (sym returned ∙ submit-raised request e s failed))
        | inl ((r, created), got) ↦ elim (Bool-cases (dispatches r created)) [
          | inl on ↦ elim (result_cases (message_for w r request.payload)) [
            | inr (e, failed) ↦ absurd (
                ok-err (
                  sym returned ∙ ap (λ p. p.0) (submit-failed request r created s got e on failed)))
            | inl (message, encoded) ↦
                let done = submit-sent request r created s got message on encoded in
                let same = ok_injective (sym (ap (λ p. p.0) done) ∙ returned) in
                (
                  created,
                  message,
                  got ∙ ap (λ x. ok (x, created)) same,
                  done ∙ ap (λ x. answer x (sent request x message s)) same,
                )
          ]
          | inr off ↦
              let done = submit-unsent request r created s got off in
              let same = ok_injective (sym (ap (λ p. p.0) done) ∙ returned) in
              absurd (contrary r created off same)
        ]
      ]
    where
      answer : JobReceipt w → Runtime w → Result (JobReceipt w) × Runtime w
      answer x t = (ok x, t)

      contrary :
          (r : JobReceipt w) (created : Bool) → dispatches r created ≡ false → r ≡ receipt → ⊥
      contrary r created off same = ground (
        arith,
        off,
        queued-dispatches r created (ap (λ (x : JobReceipt w). x.status) same ∙ queued),
      )

  -- After a submission that returned a queued receipt, a later submission of the same job, with any
  -- history of the repository in between and with the markers kept, pushes nothing on the queue.
  pub submit_once :
      (request again : JobRequest w) (receipt : JobReceipt w) (s u : Runtime w)
      → IsConsistent w s.repository
      → IsFresh w request s.repository
      → (submit w queue_name request s).0 ≡ ok receipt
      → receipt.status ≡ JobStatus.queued
      → Reach w (submit w queue_name request s).1.repository u.repository
      → ((m : String)
          → contains (submit w queue_name request s).1.queue.enqueue_markers m ≡ true
          → contains u.queue.enqueue_markers m ≡ true)
      → again.idempotency_key ≡ request.idempotency_key
      → again.kind ≡ request.kind
      → payload_digest w again ≡ payload_digest w request
      → (submit w queue_name again u).1.queue ≡ u.queue
  submit_once request again receipt s u c fresh returned queued later marks key kind digest =
      let (created, message, got, first) = returned-sent request receipt s returned queued in
      let (q, repeats, f) =
        resubmission w request again receipt created c fresh got
          (subst (λ (p : Result (JobReceipt w) × Runtime w). Reach w p.1.repository u.repository)
            first later)
          key kind digest in
      let marked = marks (marker w queue_name receipt.id) (
        subst
          (λ (p : Result (JobReceipt w) × Runtime w).
            contains p.1.queue.enqueue_markers (marker w queue_name receipt.id) ≡ true)
          (sym first) (eval-marks (marker w queue_name receipt.id) message s.queue)) in
      unmoved q (ap (λ p. p.0) repeats) (
        subst (λ i. contains u.queue.enqueue_markers (marker w queue_name i) ≡ true) (sym f.same_id)
          marked)
    where
      unmoved :
          (q : JobReceipt w)
          → (create_or_get w again u.repository).0 ≡ ok (q, false)
          → contains u.queue.enqueue_markers (marker w queue_name q.id) ≡ true
          → (submit w queue_name again u).1.queue ≡ u.queue
      unmoved q got marked = elim (Bool-cases (dispatches q false)) [
        | inr off ↦ ap (λ p. p.1.queue) (submit-unsent again q false u got off)
        | inl on ↦ elim (result_cases (message_for w q again.payload)) [
          | inr (e, failed) ↦ ap (λ p. p.1.queue) (submit-failed again q false u got e on failed)
          | inl (message, encoded) ↦
              ap (λ p. p.1.queue) (submit-sent again q false u got message on encoded)
              ∙ ap (λ p. p.1) (eval-marked (marker w queue_name q.id) message u.queue marked)
        ]
      ]
