-- ===== src/Jobs/Invariant.antt =====
-- The invariant of the job repository: receipts are well formed and filed under their own id, every
-- idempotency key leads to its job, and every job has a log of distinct, registered events.
use agentic_alpha_engine.Prelude.{
  ℕ, String, ◌≡◌, ◌≢◌, ◌∙◌, sym, subst, refl, Bool, true, false, not, ◌&&◌, inl, inr, Option, none,
  some, List, [], ◌∷◌, ◌++◌, map, arith, String_eq, ==_iff, contains, contains-cons, is_some, All,
  All-append, All-map,
}
use mathlib.Core.List.{map-append}
use agentic_alpha_engine.Dict.{
  Dict, lookup, lookup-insert, lookup-insert_absent, lookup-insert_cases, lookup-insert_kept,
}
use agentic_alpha_engine.Effects.{Result}
use agentic_alpha_engine.Jobs.Contracts.{
  Time, Platform, JobStatus, status_eqb, status_eqb→eq, is_terminal, JobReceipt, JobEvent, in_unit,
}
use agentic_alpha_engine.Jobs.Repository.{Repository, init}
use agentic_alpha_engine.Jobs.Transitions.{updated, put_job}
use agentic_alpha_engine.Jobs.Outcomes.{
  tick, Written, refused, wrote, logged, Appended, duplicate, unknown_job, no_log, appended,
}

-- no text stands twice
abbrev pub Distinct : List String → Type 0
Distinct [] = Unit
Distinct (x ∷ xs) = All (λ y. x ≢ y) xs × Distinct xs

pub Distinct-append :
    (xs : List String) (y : String) → Distinct xs → All (λ x. x ≢ y) xs → Distinct (xs ++ y ∷ [])
Distinct-append [] y d h = (tt, tt)
Distinct-append (x ∷ xs) y d h =
    (All-append (λ z. x ≢ z) xs (y ∷ []) d.0 (h.0, tt), Distinct-append xs y d.1 h.1)

module _ (w : Platform) where
  -- A receipt: its progress is in range, it has an end exactly when its status is terminal, a running
  -- job has a start, and a job that succeeded is at one.
  pub record IsValid (r : JobReceipt w) : Type 0 where
    pub in_range : in_unit w r.progress ≡ true
    pub ended : is_terminal r.status ≡ is_some r.finished_at
    pub begun : r.status ≡ JobStatus.running → is_some r.started_at ≡ true
    pub done : r.status ≡ JobStatus.succeeded → r.progress ≡ w.one_float

  -- an event of job `id` whose key is registered
  pub record IsFiled (id : String) (keys : List String) (event : JobEvent w) : Type 0 where
    pub owner : event.job_id ≡ id
    pub registered : contains keys event.event_key ≡ true

  abbrev pub event_keys_of : List (JobEvent w) → List String
  event_keys_of = map (λ e. e.event_key)

  pub record IsConsistent (s : Repository w) : Type 0 where
    pub receipts :
        (id : String) (r : JobReceipt w) → lookup id s.jobs ≡ some r → (r.id ≡ id) × IsValid r
    pub indexed :
        (key id : String)
        → lookup key s.by_key ≡ some id
        → (r : JobReceipt w) × (lookup id s.jobs ≡ some r) × (r.idempotency_key ≡ key)
    pub has_log :
        (id : String) (r : JobReceipt w)
        → lookup id s.jobs ≡ some r
        → (log : List (JobEvent w)) × (lookup id s.events ≡ some log)
    pub no_stray : (id : String) → lookup id s.jobs ≡ none → lookup id s.events ≡ none
    pub filed :
        (id : String) (log : List (JobEvent w))
        → lookup id s.events ≡ some log
        → All (IsFiled id s.event_keys) log
    pub distinct :
        (id : String) (log : List (JobEvent w))
        → lookup id s.events ≡ some log
        → Distinct (event_keys_of log)

  pub init-IsConsistent : IsConsistent (init w)
  unfolding lookup
  init-IsConsistent = record {
    receipts = λ id r h. cc;
    indexed = λ key id h. cc;
    has_log = λ id r h. cc;
    no_stray = λ id h. refl;
    filed = λ id log h. cc;
    distinct = λ id log h. cc;
  }

  pub updated-IsValid :
      (current : JobReceipt w) (status : JobStatus) (progress : Option w.Float)
      (message : Option String) (now : Time)
      → IsValid current
      → (is_terminal current.status && not (status_eqb status current.status)) ≡ false
      → in_unit w (updated w current status progress message now).progress ≡ true
      → IsValid (updated w current status progress message now)
  updated-IsValid current status progress message now v allowed range = record {
    in_range = range;
    ended = ground (arith, v.ended, status_eqb→eq status current.status);
    begun = λ h. ground arith;
    done = λ h. ground arith;
  }

  owner_key :
      (id j : String) (current u : JobReceipt w) (jobs : Dict String (JobReceipt w))
      → lookup id jobs ≡ some current
      → id ≡ j
      → lookup j jobs ≡ some u
      → current.idempotency_key ≡ u.idempotency_key
  owner_key id j current u jobs found here there = ground arith

  -- A receipt may be replaced by a valid one with the same id and key.
  pub put_job-IsConsistent :
      (id : String) (current r : JobReceipt w) (n : ℕ) {s : Repository w}
      → lookup id s.jobs ≡ some current
      → r.id ≡ current.id
      → r.idempotency_key ≡ current.idempotency_key
      → IsValid r
      → IsConsistent s
      → IsConsistent (tick w n (put_job w id r s))
  put_job-IsConsistent id current r n {s} found same key v c = record {
    receipts = λ j u h. elim (lookup-insert_cases id j r s.jobs h) [
      | inl (here, e) ↦
          subst (λ t. (t.id ≡ j) × IsValid t) e (same ∙ (c.receipts id current found).0 ∙ here, v)
      | inr old ↦ c.receipts j u old
    ];
    indexed = λ k j h.
        let (u, there, owns) = c.indexed k j h in
        elim (lookup-insert_kept id j r s.jobs there) [
          | inl (here, now) ↦
              (r, now, key ∙ owner_key id j current u s.jobs found here there ∙ owns)
          | inr now ↦ (u, now, owns)
        ];
    has_log = λ j u h. elim (lookup-insert_cases id j r s.jobs h) [
      | inl (here, e) ↦
          subst (λ i. (log : List (JobEvent w)) × (lookup i s.events ≡ some log)) here
            (c.has_log id current found)
      | inr old ↦ c.has_log j u old
    ];
    no_stray = λ j h. c.no_stray j (lookup-insert_absent id j r s.jobs h);
    filed = c.filed;
    distinct = c.distinct;
  }

  pub tick-IsConsistent : (n : ℕ) {s : Repository w} → IsConsistent s → IsConsistent (tick w n s)
  tick-IsConsistent n c = record {
    receipts = c.receipts;
    indexed = c.indexed;
    has_log = c.has_log;
    no_stray = c.no_stray;
    filed = c.filed;
    distinct = c.distinct;
  }

  pub Written-IsConsistent :
      (id : String) (status : JobStatus) {s : Repository w}
      {out : Result (JobReceipt w) × Repository w}
      → Written w id status s out
      → IsConsistent s
      → IsConsistent out.1
  Written-IsConsistent id status {s} (refused e n o) c =
      subst (λ p. IsConsistent p.1) (sym o) (tick-IsConsistent n c)
  Written-IsConsistent id status {s} (wrote current progress message now n found allowed range o)
        c =
      let (named, valid) = c.receipts id current found in
      subst (λ p. IsConsistent p.1) (sym o)
        (put_job-IsConsistent id current (updated w current status progress message now) n found
          refl refl (updated-IsValid current status progress message now valid allowed range) c)

  -- More keys registered keep what is filed.
  IsFiled-cons :
      (id key : String) (keys : List String) (event : JobEvent w)
      → IsFiled id keys event
      → IsFiled id (key ∷ keys) event
  IsFiled-cons id key keys event f = record {
    owner = f.owner;
    registered = ground (arith, f.registered, contains-cons key event.event_key keys);
  }

  register-IsConsistent :
      (key : String) {s : Repository w}
      → IsConsistent s
      → IsConsistent (record s { event_keys = key ∷ s.event_keys })
  register-IsConsistent key {s} c = record {
    receipts = c.receipts;
    indexed = c.indexed;
    has_log = c.has_log;
    no_stray = c.no_stray;
    filed = λ id log h. All-map (IsFiled-cons id key s.event_keys) log (c.filed id log h);
    distinct = c.distinct;
  }

  -- A key that is not registered is the key of no filed event.
  unregistered_ne :
      (id key : String) (keys : List String) (log : List (JobEvent w))
      → contains keys key ≡ false
      → All (IsFiled id keys) log
      → All (λ k. k ≢ key) (event_keys_of log)
  unregistered_ne id key keys [] h f = tt
  unregistered_ne id key keys (e ∷ log) h f =
      ((λ p. ground (arith, f.0.registered, h)), unregistered_ne id key keys log h f.1)

  event_keys-append :
      (log : List (JobEvent w)) (event : JobEvent w)
      → event_keys_of (log ++ event ∷ []) ≡ event_keys_of log ++ event.event_key ∷ []
  event_keys-append log event = map-append _ log (event ∷ [])

  logged-IsConsistent :
      (event : JobEvent w) (receipt : JobReceipt w) (log : List (JobEvent w)) {s : Repository w}
      → lookup event.job_id s.jobs ≡ some receipt
      → contains s.event_keys event.event_key ≡ false
      → lookup event.job_id s.events ≡ some log
      → IsConsistent s
      → IsConsistent (logged w event log s)
  logged-IsConsistent event receipt log {s} known new found c =
      let r = register-IsConsistent event.event_key c in
      record {
        receipts = c.receipts;
        indexed = c.indexed;
        has_log = λ id u h.
            let (old, there) = c.has_log id u h in
            elim (lookup-insert_kept event.job_id id (log ++ event ∷ []) s.events there) [
              | inl (_, now) ↦ (log ++ event ∷ [], now)
              | inr now ↦ (old, now)
            ];
        no_stray = λ id h. ground (
          arith,
          lookup-insert event.job_id id (log ++ event ∷ []) s.events,
          ==_iff event.job_id id,
          c.no_stray id h,
        );
        filed = λ id l h.
            elim (lookup-insert_cases event.job_id id (log ++ event ∷ []) s.events h) [
              | inl (here, e) ↦ subst (All (IsFiled id (event.event_key ∷ s.event_keys))) e (
                  All-append _ log (event ∷ [])
                    (r.filed id log (subst (λ i. lookup i s.events ≡ some log) here found))
                    (
                      record {
                        owner = here;
                        registered = ground (
                          arith,
                          contains-cons event.event_key event.event_key s.event_keys,
                          ==_iff event.event_key event.event_key,
                        );
                      },
                      tt,
                    ))
              | inr old ↦ r.filed id l old
            ];
        distinct = λ id l h.
            elim (lookup-insert_cases event.job_id id (log ++ event ∷ []) s.events h) [
              | inl (here, e) ↦
                  subst (λ x. Distinct (event_keys_of x)) e
                    (rw (event_keys-append log event) (
                      Distinct-append (event_keys_of log) event.event_key
                        (c.distinct event.job_id log found)
                        (unregistered_ne event.job_id event.event_key s.event_keys log new
                          (c.filed event.job_id log found))))
              | inr old ↦ c.distinct id l old
            ];
      }

  pub Appended-IsConsistent :
      (event : JobEvent w) {s : Repository w} {out : Result Bool × Repository w}
      → Appended w event s out
      → IsConsistent s
      → IsConsistent out.1
  Appended-IsConsistent event (duplicate _ o) c = subst (λ p. IsConsistent p.1) (sym o) c
  Appended-IsConsistent event (unknown_job e _ o) c = subst (λ p. IsConsistent p.1) (sym o) c
  Appended-IsConsistent event (no_log e _ o) c =
      subst (λ p. IsConsistent p.1) (sym o) (register-IsConsistent event.event_key c)
  Appended-IsConsistent event (appended receipt log new known found o) c =
      subst (λ p. IsConsistent p.1) (sym o)
        (logged-IsConsistent event receipt log known new found c)
