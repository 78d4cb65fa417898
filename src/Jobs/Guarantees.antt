-- ===== src/Jobs/Guarantees.antt =====
-- What the job repository promises over any history of calls.
use agentic_alpha_engine.Prelude.{
  String, ◌≡◌, ◌∙◌, sym, ap, subst, refl, Bool, true, false, ◌⊎◌, inl, inr, some, arith, String_eq,
  ==_iff, Option-cases, Bool-cases,
}
use agentic_alpha_engine.Dict.{lookup, lookup-insert_self}
use agentic_alpha_engine.Effects.{Result, ok}
use agentic_alpha_engine.Jobs.Contracts.{
  Platform, JobStatus, is_terminal, JobReceipt, JobRequest, payload_digest,
}
use agentic_alpha_engine.Jobs.Repository.{Repository, new_receipt, store_new, reuse, create_or_get}
use agentic_alpha_engine.Jobs.Transitions.{put_job, request_cancel}
use agentic_alpha_engine.Jobs.Outcomes.{
  tick, append_event-Appended, Created, rejected, reused, created, update_status-Written,
  update_progress-Written, create_or_get-Created, jobs-append_event, by_key-append_event,
}
use agentic_alpha_engine.Jobs.Invariant.{
  IsValid, IsConsistent, put_job-IsConsistent, Appended-IsConsistent, Written-IsConsistent,
  tick-IsConsistent,
}
use agentic_alpha_engine.Jobs.History.{
  IsFresh, Step, reads_clock, creates, appends, sets_status, sets_progress, cancels, Reach, here,
  next, Follows, Extends, Extends-refl, Extends-trans, tick-Extends, put_job-Extends,
  Appended-Extends, Written-Extends,
}
use agentic_alpha_engine.Jobs.Creation.{Created-IsConsistent, Created-Extends}

module _ (w : Platform) where
  abbrev marked : JobReceipt w → JobReceipt w
  marked r = record r { cancel_requested = true }

  -- what `request_cancel` does
  pub request_cancel_cases :
      (id : String) (s : Repository w)
      → (request_cancel w id s ≡ (ok false, s))
        ⊎ ((r : JobReceipt w) × (lookup id s.jobs ≡ some r)
            × (is_terminal r.status ≡ false)
            × (request_cancel w id s ≡ (ok true, put_job w id (marked r) s)))
  unfolding request_cancel
  request_cancel_cases id s = elim (Option-cases (lookup id s.jobs)) [
    | inl absent ↦ inl (ground arith)
    | inr (r, found) ↦ elim (Bool-cases (is_terminal r.status)) [
      | inl closed ↦ inl (ground arith)
      | inr open_ ↦ inr (r, found, open_, ground arith)
    ]
  ]

  marked-IsValid : (r : JobReceipt w) → IsValid w r → IsValid w (marked r)
  marked-IsValid r v = record {
    in_range = v.in_range;
    ended = v.ended;
    begun = v.begun;
    done = v.done;
  }

  marked-Follows : (r : JobReceipt w) → Follows w r (marked r)
  marked-Follows r = record {
    same_id = refl;
    same_kind = refl;
    same_key = refl;
    same_digest = refl;
    same_creation = refl;
    final = λ h. refl;
    still_canceled = λ h. refl;
  }

  pub Step-IsConsistent : {s t : Repository w} → Step w s t → IsConsistent w s → IsConsistent w t
  Step-IsConsistent (reads_clock n e) c = subst (IsConsistent w) (sym e) (tick-IsConsistent w n c)
  Step-IsConsistent {s} (creates request fresh e) c =
      subst (IsConsistent w) (sym e)
        (Created-IsConsistent w request fresh (create_or_get-Created w request s) c)
  Step-IsConsistent {s} (appends event e) c =
      subst (IsConsistent w) (sym e)
        (Appended-IsConsistent w event (append_event-Appended w event s) c)
  Step-IsConsistent {s} (sets_status id status progress message at e) c =
      subst (IsConsistent w) (sym e) (
        Written-IsConsistent w id status (update_status-Written w id status progress message s at)
          c)
  Step-IsConsistent {s} (sets_progress id progress message e) c = subst (IsConsistent w) (sym e) (
      Written-IsConsistent w id JobStatus.running (update_progress-Written w id progress message s)
        c)
  Step-IsConsistent {s} (cancels id e) c = elim (request_cancel_cases id s) [
    | inl same ↦ subst (IsConsistent w) (sym (e ∙ ap (λ p. p.1) same)) c
    | inr (r, found, open_, done) ↦ subst (IsConsistent w) (sym (e ∙ ap (λ p. p.1) done)) (
        put_job-IsConsistent w id r (marked r) s.readings found refl refl
          (marked-IsValid r (c.receipts id r found).1) c)
  ]

  Step-Extends : {s t : Repository w} → Step w s t → IsConsistent w s → Extends w s t
  Step-Extends {s} (reads_clock n e) c = subst (Extends w s) (sym e) (tick-Extends w n s)
  Step-Extends {s} (creates request fresh e) c =
      subst (Extends w s) (sym e)
        (Created-Extends w request fresh (create_or_get-Created w request s) c)
  Step-Extends {s} (appends event e) c =
      subst (Extends w s) (sym e) (Appended-Extends w event (append_event-Appended w event s))
  Step-Extends {s} (sets_status id status progress message at e) c =
      subst (Extends w s) (sym e)
        (Written-Extends w id status (update_status-Written w id status progress message s at))
  Step-Extends {s} (sets_progress id progress message e) c =
      subst (Extends w s) (sym e)
        (Written-Extends w id JobStatus.running (update_progress-Written w id progress message s))
  Step-Extends {s} (cancels id e) c = elim (request_cancel_cases id s) [
    | inl same ↦ subst (Extends w s) (sym (e ∙ ap (λ p. p.1) same)) (Extends-refl w s)
    | inr (r, found, open_, done) ↦
        subst (Extends w s) (sym (e ∙ ap (λ p. p.1) done))
          (put_job-Extends w id r (marked r) s.readings s found (marked-Follows r))
  ]

  pub Reach-IsConsistent : {s t : Repository w} → IsConsistent w s → Reach w s t → IsConsistent w t
  Reach-IsConsistent c here = c
  Reach-IsConsistent c (next r st) = Step-IsConsistent st (Reach-IsConsistent c r)

  -- From a consistent repository no history of calls with fresh ids loses a key, changes a job's
  -- identity, leaves a terminal status, withdraws a cancel request or removes a logged event.
  pub Reach-Extends : {s t : Repository w} → IsConsistent w s → Reach w s t → Extends w s t
  Reach-Extends {s} c here = Extends-refl w s
  Reach-Extends c (next r st) =
      Extends-trans w (Reach-Extends c r) (Step-Extends st (Reach-IsConsistent c r))

  -- what a successful call leaves: the key leads to the returned job
  create_or_get-filed :
      (request : JobRequest w) (receipt : JobReceipt w) (b : Bool) {s : Repository w}
      {out : Result (JobReceipt w × Bool) × Repository w}
      → Created w request s out
      → out.0 ≡ ok (receipt, b)
      → (id : String) × (lookup request.idempotency_key out.1.by_key ≡ some id)
        × (lookup id out.1.jobs ≡ some receipt)
        × (receipt.payload_digest ≡ payload_digest w request)
        × (receipt.kind ≡ request.kind)
  create_or_get-filed request receipt b (rejected id e named o) h = cc
  create_or_get-filed request receipt b (reused id prior named found digest kind o) h =
      (id, cc, cc, cc, cc)
  create_or_get-filed request receipt b {s} (created now n event unused _ _ _ o) h =
      let stored = tick w n (store_new w request (new_receipt w request now) s) in
      (
        request.job_id,
        ap (λ p. lookup request.idempotency_key p.1.by_key) o
            ∙ ap (lookup request.idempotency_key) (by_key-append_event w event stored)
            ∙ lookup-insert_self request.idempotency_key request.job_id s.by_key,
        ap (λ p. lookup request.job_id p.1.jobs) o
            ∙ ap (lookup request.job_id) (jobs-append_event w event stored)
            ∙ lookup-insert_self request.job_id (new_receipt w request now) s.jobs
            ∙ cc,
        cc,
        cc,
      )

  -- the key leads to a job of the same kind and payload, so the call returns it
  pub create_or_get-known :
      (again : JobRequest w) (s : Repository w) (id : String) (prior : JobReceipt w)
      → lookup again.idempotency_key s.by_key ≡ some id
      → lookup id s.jobs ≡ some prior
      → prior.payload_digest ≡ payload_digest w again
      → prior.kind ≡ again.kind
      → create_or_get w again s ≡ (ok (prior, false), s)
  unfolding create_or_get reuse
  create_or_get-known again s id prior named found digest kind =
      ground
        (arith, ==_iff prior.payload_digest (payload_digest w again), ==_iff prior.kind again.kind)

  -- the job of a receipt, as it is after any history of calls, and a later submission of it
  pub resubmission-found :
      (request again : JobRequest w) (receipt : JobReceipt w) (b : Bool) {s u : Repository w}
      → IsConsistent w s
      → IsFresh w request s
      → (create_or_get w request s).0 ≡ ok (receipt, b)
      → Reach w (create_or_get w request s).1 u
      → again.idempotency_key ≡ request.idempotency_key
      → again.kind ≡ request.kind
      → payload_digest w again ≡ payload_digest w request
      → (q : JobReceipt w) × (lookup receipt.id u.jobs ≡ some q)
        × (create_or_get w again u ≡ (ok (q, false), u))
        × Follows w receipt q
  resubmission-found request again receipt b {s} {u} c fresh returned later key kind digest =
      let done = create_or_get-Created w request s in
      let (id, named, found, digest', kind') =
        create_or_get-filed request receipt b done returned in
      let consistent = Created-IsConsistent w request fresh done c in
      let kept = Reach-Extends consistent later in
      let (q, there, f) = kept.jobs_kept id receipt found in
      (
        q,
        subst (λ i. lookup i u.jobs ≡ some q) (sym (consistent.receipts id receipt found).0) there,
        create_or_get-known again u id q
            (subst (λ k. lookup k u.by_key ≡ some id) (sym key) (kept.keys_kept _ id named)) there
            (f.same_digest ∙ digest' ∙ sym digest) (f.same_kind ∙ kind' ∙ sym kind),
        f,
      )

  pub resubmission :
      (request again : JobRequest w) (receipt : JobReceipt w) (b : Bool) {s u : Repository w}
      → IsConsistent w s
      → IsFresh w request s
      → (create_or_get w request s).0 ≡ ok (receipt, b)
      → Reach w (create_or_get w request s).1 u
      → again.idempotency_key ≡ request.idempotency_key
      → again.kind ≡ request.kind
      → payload_digest w again ≡ payload_digest w request
      → (q : JobReceipt w) × (create_or_get w again u ≡ (ok (q, false), u)) × Follows w receipt q
  resubmission request again receipt b c fresh returned later key kind digest =
      let (q, there, repeats, f) =
        resubmission-found request again receipt b c fresh returned later key kind digest in
      (q, repeats, f)
