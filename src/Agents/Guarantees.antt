-- ===== src/Agents/Guarantees.antt =====
-- agents/orchestrator.py: what a history keeps of the run it started from.
use agentic_alpha_engine.Prelude.{
  ◌≡◌, refl, sym, subst, ap, ◌∙◌, String, Bool, true, false, inl, inr, Option, none, some, arith,
  List, [], ◌∷◌, ◌++◌, All, contains, String_eq,
}
use mathlib.Core.List.{append-nil, append_assoc}
use agentic_alpha_engine.Effects.{ok_injective}
use agentic_alpha_engine.Agents.Contracts.{Engine, RunStatus, NextAction, RunEvent, AgentRun}
use agentic_alpha_engine.Agents.Policy.{transitions}
use agentic_alpha_engine.Agents.Orchestrator.{is_closed, last_action, new_event, with_event}
use agentic_alpha_engine.Agents.Recorded.{
  Recorded, closed, looped, paused, recorded, record_action-Recorded,
}
use agentic_alpha_engine.Agents.Histories.{
  Approved, IsRoute, last_from, last_from-none, validate_transition-Approved, Step, records,
  resumes, Reach, here, next, resume-running,
}

IsRoute-append :
    (previous : Option String) (xs ys : List RunEvent)
    → IsRoute previous xs
    → IsRoute (last_from previous xs) ys
    → IsRoute previous (xs ++ ys)
unfolding IsRoute last_from
IsRoute-append previous [] ys hx hy = hy
IsRoute-append previous (x ∷ xs) ys hx hy = (hx.0, IsRoute-append (some x.action) xs ys hx.1 hy)

last_from-append :
    (previous : Option String) (xs ys : List RunEvent)
    → last_from previous (xs ++ ys) ≡ last_from (last_from previous xs) ys
unfolding last_from
last_from-append previous [] ys = refl
last_from-append previous (x ∷ xs) ys = last_from-append (some x.action) xs ys

last_action-append :
    (xs ys : List RunEvent) → last_action (xs ++ ys) ≡ last_from (last_action xs) ys
last_action-append xs ys =
    sym (last_from-none (xs ++ ys))
    ∙ last_from-append none xs ys
    ∙ ap (λ p. last_from p ys) (last_from-none xs)

-- The run, later: the same identity and budget, its events continued, unchanged once it was closed.
pub record Extends (run out : AgentRun) : Type 0 where
  pub same_id : out.id ≡ run.id
  pub same_budget : out.budget ≡ run.budget
  pub same_creation : out.created_at ≡ run.created_at
  pub final : is_closed run.status ≡ true → out ≡ run
  pub more : List RunEvent
  pub grown : out.events ≡ run.events ++ more
  pub route : IsRoute (last_action run.events) more

Extends-refl : (run : AgentRun) → Extends run run
unfolding IsRoute
Extends-refl run = record {
  same_id = refl;
  same_budget = refl;
  same_creation = refl;
  final = λ h. refl;
  more = [];
  grown = sym (append-nil run.events);
  route = tt;
}

Extends-trans : {a b c : AgentRun} → Extends a b → Extends b c → Extends a c
Extends-trans {a} {b} {c} e f = record {
  same_id = f.same_id ∙ e.same_id;
  same_budget = f.same_budget ∙ e.same_budget;
  same_creation = f.same_creation ∙ e.same_creation;
  final = λ h. f.final (subst (λ r. is_closed r.status ≡ true) (sym (e.final h)) h) ∙ e.final h;
  more = e.more ++ f.more;
  grown = f.grown ∙ ap (λ l. l ++ f.more) e.grown ∙ append_assoc a.events e.more f.more;
  route = IsRoute-append (last_action a.events) e.more f.more e.route (
      subst (λ p. IsRoute p f.more) (ap last_action e.grown ∙ last_action-append a.events e.more)
        f.route);
}

Extends-status :
    (run : AgentRun) (status : RunStatus)
    → is_closed run.status ≡ false
    → Extends run (record run { status = status })
unfolding IsRoute
Extends-status run status opened = record {
  same_id = refl;
  same_budget = refl;
  same_creation = refl;
  final = λ h. ground arith;
  more = [];
  grown = sym (append-nil run.events);
  route = tt;
}

module _ (w : Engine) where
  with_event-Extends :
      (run : AgentRun) (action : NextAction) (event : RunEvent) (retry : Bool)
      → is_closed run.status ≡ false
      → Approved (last_action run.events) event.action
      → Extends run (with_event w run action event retry)
  unfolding IsRoute
  with_event-Extends run action event retry opened approved = record {
    same_id = refl;
    same_budget = refl;
    same_creation = refl;
    final = λ h. ground arith;
    more = event ∷ [];
    grown = refl;
    route = (approved, tt);
  }

  Recorded-Extends :
      (run : AgentRun) (action : NextAction) (input_text : String) (retry : Bool) (out : AgentRun)
      → Recorded w run action input_text retry out
      → Extends run out
  Recorded-Extends run action input_text retry out (closed c o) =
      subst (Extends run) (sym o) (Extends-refl run)
  Recorded-Extends run action input_text retry out (looped c l o) =
      subst (Extends run) (sym o) (Extends-status run RunStatus.loop_detected c)
  Recorded-Extends run action input_text retry out (paused c o) =
      subst (Extends run) (sym o) (Extends-status run RunStatus.paused c)
  Recorded-Extends run action input_text retry out (recorded at c few v steps calls o) =
      subst (Extends run) (sym o) (
        with_event-Extends run action (new_event w run action (w.sha256 input_text) at) retry c
          (validate_transition-Approved w _ _ _ v))

  Step-Extends : (run out : AgentRun) → Step w run out → Extends run out
  Step-Extends run out (records action input_text ledger retry s e) =
      let (out', e', how) = record_action-Recorded w run action input_text ledger retry s in
      subst (Extends run) (ok_injective (sym e' ∙ e))
        (Recorded-Extends run action input_text retry out' how)
  Step-Extends run out (resumes e) =
      let (was, now) = resume-running w run out e in
      subst (Extends run) (sym now) (Extends-status run RunStatus.running (ap is_closed was))

  -- A history keeps a run's identity, budget and events and only adds approved events after them; a
  -- run that was completed, failed or stopped as a loop is not changed by any history at all.
  pub run_history : {run out : AgentRun} → Reach w run out → Extends run out
  run_history here = Extends-refl _
  run_history (next r step) = Extends-trans (run_history r) (Step-Extends _ _ step)

pauses_only : (a : String) → Approved (some "pause_for_review") a → a ≡ "pause_for_review"
unfolding transitions contains
pauses_only a (inl h) = ground arith
pauses_only a (inr h) = ground arith

only_pauses :
    (events : List RunEvent)
    → IsRoute (some "pause_for_review") events
    → All (λ e. e.action ≡ "pause_for_review") events
unfolding IsRoute
only_pauses [] route = tt
only_pauses (e ∷ events) (first, rest) =
    let same = pauses_only e.action first in
    (same, only_pauses events (subst (λ a. IsRoute (some a) events) same rest))

module _ (w : Engine) where
  -- After a recorded pause_for_review nothing else is recorded: whatever history follows, with
  -- resumptions or without, every later event is a pause_for_review again.
  pub paused_for_good :
      {run out : AgentRun}
      → last_action run.events ≡ some "pause_for_review"
      → Reach w run out
      → (more : List RunEvent) × (out.events ≡ run.events ++ more)
        × All (λ e. e.action ≡ "pause_for_review") more
  paused_for_good pause r =
      let kept = run_history w r in
      (
        kept.more,
        kept.grown,
        only_pauses kept.more (subst (λ p. IsRoute p kept.more) pause kept.route),
      )
