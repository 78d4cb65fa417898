-- ===== src/Jobs/History.antt =====
-- Every way in which the job repository is changed, as a step relation, and what no history of steps
-- can undo.
use agentic_alpha_engine.Prelude.{
  ℕ, String, ◌≡◌, ◌∙◌, sym, ap, subst, refl, Bool, true, false, not, ◌&&◌, inl, inr, Option, none,
  some, List, [], ◌∷◌, ◌++◌, arith, String_eq,
}
use mathlib.Core.List.{append-nil, append_assoc}
use agentic_alpha_engine.Dict.{lookup, lookup-insert_kept}
use agentic_alpha_engine.Effects.{Result}
use agentic_alpha_engine.Jobs.Contracts.{
  Time, Platform, DateTime, JobStatus, status_eqb, status_eqb→eq, is_terminal, JobReceipt, JobEvent,
  JobRequest,
}
use agentic_alpha_engine.Jobs.Repository.{Repository, create_or_get, append_event}
use agentic_alpha_engine.Jobs.Transitions.{
  updated, put_job, update_status, update_progress, request_cancel,
}
use agentic_alpha_engine.Jobs.Outcomes.{
  tick, Written, refused, wrote, Appended, duplicate, unknown_job, no_log, appended,
}

module _ (w : Platform) where
  -- A request for a new key brings an id that no job has: `uuid4()` unless the caller chose one.
  abbrev pub IsFresh : JobRequest w → Repository w → Type 0
  IsFresh request s =
      lookup request.idempotency_key s.by_key ≡ none → lookup request.job_id s.jobs ≡ none

  -- One call of a method, by whichever client, or a reading of the clock.
  pub data Step (s t : Repository w) : Type 0 where
    reads_clock : (n : ℕ) → t ≡ tick w n s → Step s t
    creates :
        (request : JobRequest w) → IsFresh request s → t ≡ (create_or_get w request s).1 → Step s t
    appends : (event : JobEvent w) → t ≡ (append_event w event s).1 → Step s t
    sets_status :
        (id : String) (status : JobStatus) (progress : Option w.Float) (message : Option String)
        (at : Option DateTime)
        → t ≡ (update_status w id status progress message at s).1
        → Step s t
    sets_progress :
        (id : String) (progress : w.Float) (message : Option String)
        → t ≡ (update_progress w id progress message s).1
        → Step s t
    cancels : (id : String) → t ≡ (request_cancel w id s).1 → Step s t

  pub data Reach (s : Repository w) : Repository w → Type 0 where
    here : Reach s s
    next : {t u : Repository w} → Reach s t → Step t u → Reach s u

  pub Reach-trans : {s t u : Repository w} → Reach s t → Reach t u → Reach s u
  Reach-trans r here = r
  Reach-trans r (next q st) = next (Reach-trans r q) st

  -- `r` became `q`: the identity stays, a terminal status stays, and so does a cancel request.
  pub record Follows (r q : JobReceipt w) : Type 0 where
    pub same_id : q.id ≡ r.id
    pub same_kind : q.kind ≡ r.kind
    pub same_key : q.idempotency_key ≡ r.idempotency_key
    pub same_digest : q.payload_digest ≡ r.payload_digest
    pub same_creation : q.created_at ≡ r.created_at
    pub final : is_terminal r.status ≡ true → q.status ≡ r.status
    pub still_canceled : r.cancel_requested ≡ true → q.cancel_requested ≡ true

  pub Follows-refl : (r : JobReceipt w) → Follows r r
  Follows-refl r = record {
    same_id = refl;
    same_kind = refl;
    same_key = refl;
    same_digest = refl;
    same_creation = refl;
    final = λ h. refl;
    still_canceled = λ h. h;
  }

  pub Follows-trans : {r q p : JobReceipt w} → Follows r q → Follows q p → Follows r p
  Follows-trans {r} {q} f g = record {
    same_id = g.same_id ∙ f.same_id;
    same_kind = g.same_kind ∙ f.same_kind;
    same_key = g.same_key ∙ f.same_key;
    same_digest = g.same_digest ∙ f.same_digest;
    same_creation = g.same_creation ∙ f.same_creation;
    final = λ h. g.final (subst (λ x. is_terminal x ≡ true) (sym (f.final h)) h) ∙ f.final h;
    still_canceled = λ h. g.still_canceled (f.still_canceled h);
  }

  -- `t` has all that `s` has: the keys and their jobs, each job with its identity and its outcome, and
  -- each log, to which events were only added.
  pub record Extends (s t : Repository w) : Type 0 where
    pub keys_kept :
        (key id : String) → lookup key s.by_key ≡ some id → lookup key t.by_key ≡ some id
    pub jobs_kept :
        (id : String) (r : JobReceipt w)
        → lookup id s.jobs ≡ some r
        → (q : JobReceipt w) × (lookup id t.jobs ≡ some q) × Follows r q
    pub logs_kept :
        (id : String) (log : List (JobEvent w))
        → lookup id s.events ≡ some log
        → (more : List (JobEvent w)) × (lookup id t.events ≡ some (log ++ more))

  pub Extends-refl : (s : Repository w) → Extends s s
  Extends-refl s = record {
    keys_kept = λ key id h. h;
    jobs_kept = λ id r h. (r, h, Follows-refl r);
    logs_kept = λ id log h. ([], rw append-nil h);
  }

  pub tick-Extends : (n : ℕ) (s : Repository w) → Extends s (tick w n s)
  tick-Extends n s = record {
    keys_kept = λ key id h. h;
    jobs_kept = λ id r h. (r, h, Follows-refl r);
    logs_kept = λ id log h. ([], rw append-nil h);
  }

  pub Extends-trans : {s t u : Repository w} → Extends s t → Extends t u → Extends s u
  Extends-trans e f = record {
    keys_kept = λ key id h. f.keys_kept key id (e.keys_kept key id h);
    jobs_kept = λ id r h.
        let (q, there, fq) = e.jobs_kept id r h in
        let (p, then_, fp) = f.jobs_kept id q there in (p, then_, Follows-trans fq fp);
    logs_kept = λ id log h.
        let (more, there) = e.logs_kept id log h in
        let (rest, then_) = f.logs_kept id (log ++ more) there in
        (more ++ rest, rw (← append_assoc) then_);
  }

  pub put_job-Extends :
      (id : String) (current r : JobReceipt w) (n : ℕ) (s : Repository w)
      → lookup id s.jobs ≡ some current
      → Follows current r
      → Extends s (tick w n (put_job w id r s))
  put_job-Extends id current r n s found f = record {
    keys_kept = λ key j h. h;
    jobs_kept = λ j u h. elim (lookup-insert_kept id j r s.jobs h) [
      | inl (same, now) ↦
          (r, now, subst (λ x. Follows x r) (one_value id j current u s found same h) f)
      | inr now ↦ (u, now, Follows-refl u)
    ];
    logs_kept = λ j log h. ([], rw append-nil h);
  }
    where
      one_value :
          (id j : String) (current u : JobReceipt w) (s : Repository w)
          → lookup id s.jobs ≡ some current
          → id ≡ j
          → lookup j s.jobs ≡ some u
          → current ≡ u
      one_value id j current u s found same h = cc

  updated-Follows :
      (current : JobReceipt w) (status : JobStatus) (progress : Option w.Float)
      (message : Option String) (now : Time)
      → (is_terminal current.status && not (status_eqb status current.status)) ≡ false
      → Follows current (updated w current status progress message now)
  updated-Follows current status progress message now allowed = record {
    same_id = refl;
    same_kind = refl;
    same_key = refl;
    same_digest = refl;
    same_creation = refl;
    final = λ h. ground (arith, status_eqb→eq status current.status);
    still_canceled = λ h. h;
  }

  pub Written-Extends :
      (id : String) (status : JobStatus) {s : Repository w}
      {out : Result (JobReceipt w) × Repository w}
      → Written w id status s out
      → Extends s out.1
  Written-Extends id status {s} (refused e n o) =
      subst (λ p. Extends s p.1) (sym o) (tick-Extends n s)
  Written-Extends id status {s} (wrote current progress message now n found allowed range o) =
      subst (λ p. Extends s p.1) (sym o)
        (put_job-Extends id current (updated w current status progress message now) n s found
          (updated-Follows current status progress message now allowed))

  pub Appended-Extends :
      (event : JobEvent w) {s : Repository w} {out : Result Bool × Repository w}
      → Appended w event s out
      → Extends s out.1
  Appended-Extends event {s} (duplicate _ o) = subst (λ p. Extends s p.1) (sym o) (Extends-refl s)
  Appended-Extends event {s} (unknown_job e _ o) =
      subst (λ p. Extends s p.1) (sym o) (Extends-refl s)
  Appended-Extends event {s} (no_log e _ o) =
      subst (λ p. Extends s p.1) (sym o)
        (record {
          keys_kept = λ key id h. h;
          jobs_kept = λ id r h. (r, h, Follows-refl r);
          logs_kept = λ id log h. ([], rw append-nil h);
        })
  Appended-Extends event {s} (appended receipt log new known found o) =
      subst (λ p. Extends s p.1) (sym o)
        (record {
          keys_kept = λ key id h. h;
          jobs_kept = λ id r h. (r, h, Follows-refl r);
          logs_kept = λ id l h.
              elim (lookup-insert_kept event.job_id id (log ++ event ∷ []) s.events h) [
                | inl (same, now) ↦ (
                  event ∷ [],
                  now ∙ ap (λ x. some (x ++ event ∷ [])) (one_log id log l s found same h),
                )
                | inr now ↦ ([], rw append-nil now)
              ];
        })
    where
      one_log :
          (id : String) (log l : List (JobEvent w)) (s : Repository w)
          → lookup event.job_id s.events ≡ some log
          → event.job_id ≡ id
          → lookup id s.events ≡ some l
          → log ≡ l
      one_log id log l s found same h = cc
