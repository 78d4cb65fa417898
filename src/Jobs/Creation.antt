-- ===== src/Jobs/Creation.antt =====
-- A new job, or the reuse of an idempotency key: what `create_or_get` keeps.
use agentic_alpha_engine.Prelude.{
  String, ◌≡◌, sym, subst, refl, Bool, inl, inr, none, some, List, [], arith, String_eq, ==_iff,
}
use mathlib.Core.List.{append-nil}
use agentic_alpha_engine.Dict.{
  lookup, lookup-insert, lookup-insert_self, lookup-insert_cases, lookup-insert_kept,
}
use agentic_alpha_engine.Effects.{Result}
use agentic_alpha_engine.Jobs.Contracts.{Time, Platform, JobReceipt, JobEvent, JobRequest}
use agentic_alpha_engine.Jobs.Repository.{Repository, new_receipt, store_new}
use agentic_alpha_engine.Jobs.Outcomes.{
  append_event-Appended, Created, rejected, reused, created, zero-in_unit,
}
use agentic_alpha_engine.Jobs.Invariant.{
  IsValid, IsConsistent, Appended-IsConsistent, tick-IsConsistent, IsFiled, event_keys_of, Distinct,
}
use agentic_alpha_engine.Jobs.History.{
  IsFresh, Follows-refl, Extends, Extends-refl, Extends-trans, tick-Extends, Appended-Extends,
}
use agentic_alpha_engine.Prelude.{All}

module _ (w : Platform) where
  new_receipt-IsValid :
      (request : JobRequest w) (now : Time) → IsValid w (new_receipt w request now)
  new_receipt-IsValid request now = record {
    in_range = zero-in_unit w;
    ended = refl;
    begun = λ h. cc;
    done = λ h. cc;
  }

  module _ (request : JobRequest w) (now : Time) (s : Repository w)
      (unused : lookup request.idempotency_key s.by_key ≡ none)
      (fresh : lookup request.job_id s.jobs ≡ none) where
    store_new-IsConsistent :
        IsConsistent w s → IsConsistent w (store_new w request (new_receipt w request now) s)
    store_new-IsConsistent c =
        let r = new_receipt w request now in
        let id = request.job_id in
        record {
          receipts = λ j u h. elim (lookup-insert_cases id j r s.jobs h) [
            | inl (same, e) ↦
                subst (λ x. (x.id ≡ j) × IsValid w x) e (same, new_receipt-IsValid request now)
            | inr old ↦ c.receipts j u old
          ];
          indexed = λ key j h.
              elim (lookup-insert_cases request.idempotency_key key id s.by_key h) [
                | inl (same, e) ↦ (r, rw (← e) (lookup-insert_self id r s.jobs), same)
                | inr old ↦
                    let (u, there, owns) = c.indexed key j old in
                    elim (lookup-insert_kept id j r s.jobs there) [
                      | inl (same, now_) ↦ absurd (clash j u same there)
                      | inr now_ ↦ (u, now_, owns)
                    ]
              ];
          has_log = λ j u h. elim (lookup-insert_cases id j r s.jobs h) [
            | inl (same, e) ↦
                ([], rw (← same) (lookup-insert_self {V = List (JobEvent w)} id [] s.events))
            | inr old ↦
                let (log, there) = c.has_log j u old in
                elim (lookup-insert_kept id j [] s.events there) [
                  | inl (same, now_) ↦ ([], now_)
                  | inr now_ ↦ (log, now_)
                ]
          ];
          no_stray = λ j h. ground (
            arith,
            lookup-insert id j r s.jobs,
            lookup-insert {V = List (JobEvent w)} id j [] s.events,
            ==_iff id j,
            c.no_stray j,
          );
          filed = λ j log h. elim (lookup-insert_cases id j [] s.events h) [
            | inl (same, e) ↦ subst (All (IsFiled w j s.event_keys)) e tt
            | inr old ↦ c.filed j log old
          ];
          distinct = λ j log h. elim (lookup-insert_cases id j [] s.events h) [
            | inl (same, e) ↦ subst (λ l. Distinct (event_keys_of w l)) e tt
            | inr old ↦ c.distinct j log old
          ];
        }
      where
        clash : (j : String) (u : JobReceipt w) → request.job_id ≡ j → lookup j s.jobs ≡ some u → ⊥
        clash j u same there = cc

    store_new-Extends :
        IsConsistent w s → Extends w s (store_new w request (new_receipt w request now) s)
    store_new-Extends c =
        let r = new_receipt w request now in
        let id = request.job_id in
        record {
          keys_kept = λ key j h. ground (
            arith,
            lookup-insert request.idempotency_key key id s.by_key,
            ==_iff request.idempotency_key key,
          );
          jobs_kept = λ j u h.
              (u, ground (arith, lookup-insert id j r s.jobs, ==_iff id j), Follows-refl w u);
          logs_kept = λ j log h. (
            [],
            rw append-nil (
                ground (
                  arith,
                  lookup-insert {V = List (JobEvent w)} id j [] s.events,
                  ==_iff id j,
                  c.no_stray id fresh,
                )),
          );
        }

  pub Created-IsConsistent :
      (request : JobRequest w) {s : Repository w}
      {out : Result (JobReceipt w × Bool) × Repository w}
      → IsFresh w request s
      → Created w request s out
      → IsConsistent w s
      → IsConsistent w out.1
  Created-IsConsistent request fresh (rejected id e _ o) c =
      subst (λ p. IsConsistent w p.1) (sym o) c
  Created-IsConsistent request fresh (reused id prior _ _ _ _ o) c =
      subst (λ p. IsConsistent w p.1) (sym o) c
  Created-IsConsistent request {s} fresh (created now n event unused _ _ _ o) c =
      subst (λ p. IsConsistent w p.1) (sym o)
        (Appended-IsConsistent w event (append_event-Appended w event _)
          (tick-IsConsistent w n (store_new-IsConsistent request now s unused (fresh unused) c)))

  pub Created-Extends :
      (request : JobRequest w) {s : Repository w}
      {out : Result (JobReceipt w × Bool) × Repository w}
      → IsFresh w request s
      → Created w request s out
      → IsConsistent w s
      → Extends w s out.1
  Created-Extends request {s} fresh (rejected id e _ o) c =
      subst (λ p. Extends w s p.1) (sym o) (Extends-refl w s)
  Created-Extends request {s} fresh (reused id prior _ _ _ _ o) c =
      subst (λ p. Extends w s p.1) (sym o) (Extends-refl w s)
  Created-Extends request {s} fresh (created now n event unused _ _ _ o) c =
      subst (λ p. Extends w s p.1) (sym o)
        (Extends-trans w
          (Extends-trans w (store_new-Extends request now s unused (fresh unused) c)
            (tick-Extends w n _))
          (Appended-Extends w event (append_event-Appended w event _)))
