-- ===== src/Jobs/Acknowledge.antt =====
-- The worker's `finally`: no message stays in the processing list after a round.
use agentic_alpha_engine.Prelude.{
  String, ◌≡◌, ◌∙◌, ap, refl, Option, none, some, List, ◌∷◌, arith, String_eq, ==_iff, inl, inr,
  Bool-cases, Option-cases,
}
use agentic_alpha_engine.Dict.{Dict, lookup}
use agentic_alpha_engine.Effects.{
  Result, Exec, return, Keeps, Keeps-bind, Keeps-return, Keeps-gets, from_result,
}
use agentic_alpha_engine.Jobs.Contracts.{Platform, JobStatus, JobEventType, is_terminal, JobReceipt}
use agentic_alpha_engine.Jobs.Queue
use agentic_alpha_engine.Jobs.Queue.{Queue}
use agentic_alpha_engine.Jobs.Repository.{Repository, get}
use agentic_alpha_engine.Jobs.Dispatch.{Runtime, on_repository, JobContext, Handler}
use agentic_alpha_engine.Jobs.Worker.{
  conclude, attempt, settle, execute, handle_receipt, handle_message, acknowledge, serve, run_once,
}
use agentic_alpha_engine.Jobs.Service.{IsWellBehaved, state-attempt}

-- a message that was taken is the head of the processing list, and `lrem` takes it off again
pub lrem-brpoplpush :
    (q : Queue) (encoded : String) (r : Queue)
    → (Queue.brpoplpush q).0 ≡ some encoded
    → r.processing ≡ (Queue.brpoplpush q).1.processing
    → (Queue.lrem encoded r).1.processing ≡ q.processing
lrem-brpoplpush q encoded r took same =
    first_off (encoded) q.processing r (same ∙ in_front q encoded took)
  where
    in_front :
        (q : Queue) (encoded : String)
        → (Queue.brpoplpush q).0 ≡ some encoded
        → (Queue.brpoplpush q).1.processing ≡ encoded ∷ q.processing
    in_front q encoded took = unfold Queue.brpoplpush in ground arith

    first_off :
        (encoded : String) (rest : List String) (r : Queue)
        → r.processing ≡ encoded ∷ rest
        → (Queue.lrem encoded r).1.processing ≡ rest
    first_off encoded rest r e = unfold Queue.lrem in ground (arith, ==_iff encoded encoded)

module _ (w : Platform) (k : List String) where
  abbrev InHand : Runtime w → Type 0
  InHand s = s.queue.processing ≡ k

  on_repository-InHand : {A : Type 0} (m : Exec (Repository w) A) → Keeps InHand (on_repository w m)
  on_repository-InHand m = record { at = λ s h. h }

  from_result-InHand : {A : Type 0} (r : Result A) → Keeps InHand (from_result {S = Runtime w} r)
  from_result-InHand r = record { at = λ s h. h }

  attempt-InHand :
      (h : Handler w) (context : JobContext w)
      → IsWellBehaved w h
      → Keeps InHand (attempt w h context)
  attempt-InHand h context b = record {
    at = λ s e.
        ap (λ (t : Runtime w). t.queue.processing) (state-attempt w h context s)
        ∙ b.keeps_processing context s
        ∙ e;
  }

  execute-InHand :
      (id : String) (h : Handler w) (context : JobContext w)
      → IsWellBehaved w h
      → Keeps InHand (execute w id h context)
  unfolding execute settle
  execute-InHand id h context b =
      Keeps-bind
        (on_repository w
          (conclude w id JobStatus.running "started" JobEventType.started ":started" none))
        (λ _. settle w id h context) (on_repository-InHand _)
        λ _. record { at = λ s e. (attempt-InHand h context b).at s e }

  module _ (handlers : Dict String (Handler w))
      (behaved : (kind : String) (h : Handler w)
        → lookup kind handlers ≡ some h
        → IsWellBehaved w h) where
    handle_receipt-InHand :
        (kind : String) (payload : w.Payload) (context : JobContext w) (r : JobReceipt w)
        → Keeps InHand (handle_receipt w handlers kind payload context r)
    handle_receipt-InHand kind payload context r = record {
      at = λ s e. elim (Bool-cases (is_terminal r.status)) [
        | inl closed ↦ unfold handle_receipt in rw closed e
        | inr open_ ↦ elim (Bool-cases r.cancel_requested) [
          | inl wanted ↦ unfold handle_receipt in rw open_ (rw wanted e)
          | inr unwanted ↦ elim (Option-cases (lookup kind handlers)) [
            | inl absent ↦ unfold handle_receipt in rw open_ (rw unwanted (rw absent e))
            | inr (h, there) ↦
                unfold handle_receipt in
                rw open_ (
                  rw unwanted
                    (rw there ((execute-InHand r.id h context (behaved kind h there)).at s e)))
          ]
        ]
      ];
    }

    found-InHand :
        (kind : String) (payload : w.Payload) (context : JobContext w)
        (found : Option (JobReceipt w))
        → Keeps InHand (elim found [
          | none ↦ return tt
          | some receipt ↦ handle_receipt w handlers kind payload context receipt
        ])
    found-InHand kind payload context none = Keeps-return tt
    found-InHand kind payload context (some r) = handle_receipt-InHand kind payload context r

    handle_message-InHand : (encoded : String) → Keeps InHand (handle_message w handlers encoded)
    unfolding handle_message
    handle_message-InHand encoded =
        Keeps-bind _ _ (from_result-InHand (w.decode encoded)) λ (id, kind, payload).
          Keeps-bind _ _ (Keeps-gets (λ s. get w id s.repository)) λ found.
            found-InHand kind payload (record { job_id = id; kind = kind; payload = payload }) found

-- Whatever becomes of its message, a round with well-behaved handlers leaves the processing list as it
-- was before the round: the message that was taken is acknowledged even where the round raises.
pub run_once-acknowledges :
    (w : Platform) (handlers : Dict String (Handler w)) (s : Runtime w)
    → ((kind : String) (h : Handler w) → lookup kind handlers ≡ some h → IsWellBehaved w h)
    → (run_once w handlers s).1.queue.processing ≡ s.queue.processing
run_once-acknowledges w handlers s behaved = elim (Option-cases (Queue.brpoplpush s.queue).0) [
  | inl empty ↦ unfold run_once in rw (empty, run_once)
  | inr (encoded, took) ↦
      let after =
        (handle_message-InHand w (Queue.brpoplpush s.queue).1.processing handlers behaved
            encoded).at
          (record s { queue = (Queue.brpoplpush s.queue).1 }) refl in
      unfold run_once in
      rw (took, run_once) (unfold serve acknowledge in lrem-brpoplpush s.queue encoded _ took after)
]
