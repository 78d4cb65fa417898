-- ===== src/Agents/Orchestrator.antt =====
-- agents/orchestrator.py: `RunEventLedger` and `OrchestratorAgent`.
use Prim.Native.Nat.{ℕ}
use agentic_alpha_engine.Prelude.{
  ◌+◌, suc, String, Bool, true, false, not, ◌&&◌, ◌||◌, Option, none, some, List, [], ◌∷◌, ◌++◌,
  String_eq, ◌==◌, leb, ltb, if◌then◌else◌, ◌<>◌, is_some,
}
use agentic_alpha_engine.Dict.{Dict, lookup, insert}
use agentic_alpha_engine.Effects.{
  Result, ok, err, value_error, other, error_text, Exec, return, from_result, ◌>>=◌,
}
use agentic_alpha_engine.Agents.Contracts.{
  Time, Engine, RunStatus, ActionName, action_value, NextAction, RunEvent, AgentRun, next_action,
}
use agentic_alpha_engine.Agents.Policy.{
  is_action, validate_transition, budget_reason, idempotency_key,
}

-- a row of the table `orchestrator_events`, by its primary key
abbrev pub Ledger : Type 0
Ledger = Dict String (String × RunEvent)

-- `status in {"completed", "failed", "loop_detected"}`
abbrev pub is_closed : RunStatus → Bool
is_closed RunStatus.completed = true
is_closed RunStatus.failed = true
is_closed RunStatus.loop_detected = true
is_closed _ = false

-- `run.events[-1].action if run.events else None`
unfoldable pub last_action : List RunEvent → Option String
last_action [] = none
last_action (e ∷ []) = some e.action
last_action (_ ∷ e ∷ events) = last_action (e ∷ events)

-- how often the action was recorded with this digest
unfoldable pub repeats_of : String → String → List RunEvent → ℕ
repeats_of action digest [] = 0
repeats_of action digest (e ∷ events) =
    let rest = repeats_of action digest events in
    if e.action == action && e.input_hash == digest then suc rest else rest

-- `parse` of the literal type `NextAction.action`
unfoldable pub parse_action : String → Option ActionName
parse_action text =
    if text == "extraction"
    then some ActionName.extraction
    else if text == "graph_adjudicator"
    then some ActionName.graph_adjudicator
    else if text == "alpha_generator"
    then some ActionName.alpha_generator
    else if text == "backtester"
    then some ActionName.backtester
    else if text == "gatekeeper"
    then some ActionName.gatekeeper
    else if text == "portfolio_optimiser"
    then some ActionName.portfolio_optimiser
    else if text == "monitor"
    then some ActionName.monitor
    else if text == "research"
    then some ActionName.research
    else if text == "complete"
    then some ActionName.complete
    else if text == "pause_for_review"
    then some ActionName.pause_for_review
    else none

-- the status after an action
abbrev pub status_after : ActionName → RunStatus
status_after ActionName.complete = RunStatus.completed
status_after ActionName.pause_for_review = RunStatus.paused
status_after _ = RunStatus.running

module _ (w : Engine) where
  -- The outside world, and the ledger's table.
  pub record State : Type 0 where
    pub world : w.World
    pub ledger : Ledger

  abbrev pub on_world : {A : Type 0} → Exec w.World A → Exec State A
  on_world m s = ((m s.world).0, record s { world = (m s.world).1 })

  -- `RunEventLedger.append`: on a conflict of keys nothing is inserted
  unfoldable pub append : String → RunEvent → Exec State Bool
  append run_id event s = elim (lookup event.idempotency_key s.ledger) [
    | some row ↦ (ok (w.rowcount_is_one 0), s)
    | none ↦ (
      ok (w.rowcount_is_one 1),
      record s { ledger = insert event.idempotency_key (run_id, event) s.ledger },
    )
  ]

  abbrev pub append_if : Bool → String → RunEvent → Exec State Bool
  append_if true run_id event = append run_id event
  append_if false run_id event = return false

  -- `NextAction.model_validate(raw)`
  unfoldable pub model_validate : w.Answer → Result NextAction
  model_validate raw = elim (w.read_action raw) [
    | err e ↦ err e
    | ok (action, reason) ↦ elim (parse_action action) [
      | none ↦ err (other "ValidationError" (w.invalid action reason))
      | some name ↦ next_action w name reason
    ]
  ]

  -- the answer of the model, or a pause where the policy refuses it
  unfoldable pub approve : Option String → NextAction → Exec State NextAction
  approve previous action =
      elim (validate_transition w previous (action_value action.action) false) [
        | none ↦ return action
        | some error ↦
            from_result (next_action w ActionName.pause_for_review ("route rejected: " <> error))
      ]

  -- the body of the `try` of `choose_next`
  unfoldable pub ask : Option String → String → Exec State NextAction
  ask previous context = do
    raw ← on_world (w.complete_json context)
    action ← from_result (model_validate raw)
    approve previous action

  -- its `except`
  unfoldable pub or_pause : Result NextAction × State → Result NextAction × State
  or_pause (ok action, s) = (ok action, s)
  or_pause (err error, s) =
      (next_action w ActionName.pause_for_review ("invalid model route: " <> error_text error), s)

  -- after the budget check
  unfoldable pub choose_within : Option String → AgentRun → String → Exec State NextAction
  choose_within (some text) run context s = (next_action w ActionName.pause_for_review text, s)
  choose_within none run context s = or_pause (ask (last_action run.events) context s)

  unfoldable pub choose_next : AgentRun → String → Exec State NextAction
  choose_next run context = do
    reason ← on_world (budget_reason w run none)
    choose_within reason run context

  abbrev pub new_event : AgentRun → NextAction → String → Time → RunEvent
  new_event run action digest at = record {
    at = at;
    action = action_value action.action;
    input_hash = digest;
    idempotency_key = idempotency_key w run.id (action_value action.action) digest;
    detail = action.reason;
  }

  abbrev pub with_event : AgentRun → NextAction → RunEvent → Bool → AgentRun
  with_event run action event retry = record run {
    status = status_after action.action;
    steps = suc run.steps;
    llm_calls = run.llm_calls + (if retry then 0 else 1);
    events = run.events ++ event ∷ [];
  }

  abbrev pub read_now : Exec State Time
  read_now = on_world (λ s. (ok (w.now s).0, (w.now s).1))

  -- the event and the run that holds it
  unfoldable pub record_event : AgentRun → NextAction → String → Bool → Bool → Exec State AgentRun
  record_event run action digest ledger retry = do
    at ← read_now
    _ ← append_if ledger run.id (new_event run action digest at)
    return (with_event run action (new_event run action digest at) retry)

  -- the budget check, and what follows it
  unfoldable pub within_budget : AgentRun → NextAction → String → Bool → Bool → Exec State AgentRun
  within_budget run action digest ledger retry = do
    reason ← on_world (budget_reason w run none)
    elim reason [
      | some text ↦ return (record run { status = RunStatus.paused })
      | none ↦ record_event run action digest ledger retry
    ]

  -- the `retry` that `record_action` passes to the policy
  abbrev pub counts_as_retry : AgentRun → NextAction → String → Bool → Bool
  counts_as_retry run action digest retry =
      retry
      || is_action (last_action run.events) (action_value action.action)
        && ltb (repeats_of (action_value action.action) digest run.events) 2

  -- `ledger` tells whether one was given
  unfoldable pub record_action : AgentRun → NextAction → String → Bool → Bool → Exec State AgentRun
  record_action run action input_text ledger retry =
      let digest = w.sha256 input_text in
      if is_closed run.status
      then return run
      else if leb 2 (repeats_of (action_value action.action) digest run.events)
      then return (record run { status = RunStatus.loop_detected })
      else if is_some (
          validate_transition w (last_action run.events) (action_value action.action)
            (counts_as_retry run action digest retry))
      then return (record run { status = RunStatus.paused })
      else within_budget run action digest ledger retry

-- `status == "paused"`
abbrev pub is_paused : RunStatus → Bool
is_paused RunStatus.paused = true
is_paused _ = false

unfoldable pub resume : AgentRun → Result AgentRun
resume run =
    if not (is_paused run.status)
    then err (value_error "only a paused run can be resumed")
    else ok (record run { status = RunStatus.running })
