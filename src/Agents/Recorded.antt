-- ===== src/Agents/Recorded.antt =====
-- agents/orchestrator.py: what `record_action` returns, case by case.
use agentic_alpha_engine.Prelude.{
  ◌≡◌, refl, String, Bool, true, false, inl, inr, Option, none, some, ◌≤◌, ◌<◌, arith, leb, leb→le,
  leb-false, Bool-cases, Option-cases, if◌then◌else◌, String_eq,
}
use agentic_alpha_engine.Dict.{lookup}
use agentic_alpha_engine.Effects.{ok}
use agentic_alpha_engine.Agents.Contracts.{
  Time, Engine, RunStatus, action_value, NextAction, RunEvent, AgentRun,
}
use agentic_alpha_engine.Agents.Policy.{validate_transition, budget_reason, read_clock, is_late}
use agentic_alpha_engine.Agents.Orchestrator.{
  State, is_closed, last_action, repeats_of, new_event, with_event, counts_as_retry, record_action,
  within_budget, record_event, append_if, append,
}

module _ (w : Engine) where
  -- `out` is the run that recording the action gives.
  pub data Recorded (run : AgentRun) (action : NextAction) (input_text : String) (retry : Bool)
      (out : AgentRun) : Type 0 where
    closed : is_closed run.status ≡ true → out ≡ run → Recorded run action input_text retry out
    looped :
        is_closed run.status ≡ false
        → 2 ≤ repeats_of (action_value action.action) (w.sha256 input_text) run.events
        → out ≡ record run { status = RunStatus.loop_detected }
        → Recorded run action input_text retry out
    paused :
        is_closed run.status ≡ false
        → out ≡ record run { status = RunStatus.paused }
        → Recorded run action input_text retry out
    recorded :
        (at : Time)
        → is_closed run.status ≡ false
        → repeats_of (action_value action.action) (w.sha256 input_text) run.events < 2
        → validate_transition w
            (last_action run.events)
            (action_value action.action)
            (counts_as_retry w run action (w.sha256 input_text) retry)
          ≡ none
        → run.steps < run.budget.max_steps
        → run.llm_calls < run.budget.max_llm_calls
        → out ≡ with_event w run action (new_event w run action (w.sha256 input_text) at) retry
        → Recorded run action input_text retry out

  -- No reason to stop means that a step and a model call are left.
  pub budget_reason-none :
      (run : AgentRun) (now : Option Time) (s : w.World)
      → (budget_reason w run now s).0 ≡ ok none
      → (run.steps < run.budget.max_steps) × (run.llm_calls < run.budget.max_llm_calls)
  unfolding budget_reason
  budget_reason-none run now s h = ground arith

  abbrev late_reason : AgentRun → Time → Option String
  late_reason run at = if is_late run at then some "workflow wall-clock budget exhausted" else none

  read_clock-ok :
      (now : Option Time) (s : w.World)
      → (at : Time) × (s' : w.World) × (read_clock w now s ≡ (ok at, s'))
  unfolding read_clock
  read_clock-ok none s = ((w.now s).0, (w.now s).1, refl)
  read_clock-ok (some at) s = (at, s, refl)

  budget_reason-ok :
      (run : AgentRun) (now : Option Time) (s : w.World)
      → (reason : Option String) × ((budget_reason w run now s).0 ≡ ok reason)
  unfolding budget_reason
  budget_reason-ok run now s =
      let (at, s', r) = read_clock-ok now s in
      elim (Bool-cases (leb run.budget.max_steps run.steps)) [
        | inl e ↦ (some "workflow step budget exhausted", rw e refl)
        | inr e ↦ elim (Bool-cases (leb run.budget.max_llm_calls run.llm_calls)) [
          | inl f ↦ (some "LLM call budget exhausted", rw (e, f) refl)
          | inr f ↦ (late_reason run at, rw (e, f, r) refl)
        ]
      ]

  append_if-ok :
      (ledger : Bool) (id : String) (event : RunEvent) (s : State w)
      → (b : Bool) × ((append_if w ledger id event s).0 ≡ ok b)
  unfolding append
  append_if-ok false id event s = (false, refl)
  append_if-ok true id event s = elim (Option-cases (lookup event.idempotency_key s.ledger)) [
    | inl e ↦ (w.rowcount_is_one 1, rw (append, e) refl)
    | inr (row, e) ↦ (w.rowcount_is_one 0, rw (append, e) refl)
  ]

  record_event-Recorded :
      (run : AgentRun) (action : NextAction) (digest : String) (ledger retry : Bool) (s : State w)
      → (at : Time) × ((record_event w run action digest ledger retry s).0
          ≡ ok (with_event w run action (new_event w run action digest at) retry))
  unfolding record_event
  record_event-Recorded run action digest ledger retry s =
      let at = (w.now s.world).0 in
      let (b, e) =
        append_if-ok ledger run.id (new_event w run action digest at)
          (record s { world = (w.now s.world).1 }) in
      (at, rw e refl)

  -- `within_budget` pauses the run, or records the event with a step and a call left.
  data Allowed (run : AgentRun) (action : NextAction) (digest : String) (retry : Bool)
      (out : AgentRun) : Type 0 where
    refused : out ≡ record run { status = RunStatus.paused } → Allowed run action digest retry out
    allowed :
        (at : Time)
        → run.steps < run.budget.max_steps
        → run.llm_calls < run.budget.max_llm_calls
        → out ≡ with_event w run action (new_event w run action digest at) retry
        → Allowed run action digest retry out

  within_budget-reason :
      (run : AgentRun) (action : NextAction) (digest : String) (ledger retry : Bool) (s : State w)
      → (reason : Option String) → (budget_reason w run none s.world).0 ≡ ok reason
      → (out : AgentRun) × ((within_budget w run action digest ledger retry s).0 ≡ ok out)
        × Allowed run action digest retry out
  unfolding within_budget
  within_budget-reason run action digest ledger retry s (some text) b =
      (record run { status = RunStatus.paused }, rw b refl, refused refl)
  within_budget-reason run action digest ledger retry s none b =
      let (steps, calls) = budget_reason-none run none s.world b in
      let later = record s { world = (budget_reason w run none s.world).1 } in
      let (at, e) = record_event-Recorded run action digest ledger retry later in
      (
        with_event w run action (new_event w run action digest at) retry,
        rw b e,
        allowed at steps calls refl,
      )

  -- Recording an action always returns a run, and this is it.
  pub record_action-Recorded :
      (run : AgentRun) (action : NextAction) (input_text : String) (ledger retry : Bool)
      (s : State w)
      → (out : AgentRun) × ((record_action w run action input_text ledger retry s).0 ≡ ok out)
        × Recorded run action input_text retry out
  unfolding record_action
  record_action-Recorded run action input_text ledger retry s =
      let name = action_value action.action in
      let digest = w.sha256 input_text in
      let again = counts_as_retry w run action digest retry in
      elim (Bool-cases (is_closed run.status)) [
        | inl c ↦ (run, rw c refl, closed c refl)
        | inr c ↦ elim (Bool-cases (leb 2 (repeats_of name digest run.events))) [
          | inl l ↦ (
            record run { status = RunStatus.loop_detected },
            rw (c, l) refl,
            looped c (leb→le _ _ l) refl,
          )
          | inr l ↦
              elim (Option-cases (validate_transition w (last_action run.events) name again)) [
                | inr (error, v) ↦
                    (record run { status = RunStatus.paused }, rw (c, l, v) refl, paused c refl)
                | inl v ↦
                    let (reason, b) = budget_reason-ok run none s.world in
                    let (out, e, how) =
                      within_budget-reason run action digest ledger retry s reason b in
                    (
                      out,
                      rw (c, l, v) e,
                      elim how [
                        | refused o ↦ paused c o
                        | allowed at steps calls o ↦ recorded at c (leb-false _ _ l) v steps calls o
                      ],
                    )
              ]
        ]
      ]
