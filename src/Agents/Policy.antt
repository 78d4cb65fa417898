-- ===== src/Agents/Policy.antt =====
-- agents/orchestrator.py: the action lists and `OrchestratorPolicy`.
use agentic_alpha_engine.Prelude.{
  ◌+◌, ◌*◌, String, Bool, false, not, Option, none, some, List, [], ◌∷◌, String_eq, ◌==◌, contains,
  leb, ltb, if◌then◌else◌, ◌<>◌,
}
use agentic_alpha_engine.Effects.{ok, Exec, return, ◌>>=◌}
use agentic_alpha_engine.Agents.Contracts.{Time, Engine, AgentRun}

-- `_ALLOWED_ACTIONS`
unfoldable pub allowed_actions : List String
allowed_actions =
    "extraction" ∷ "graph_adjudicator" ∷ "alpha_generator" ∷ "backtester" ∷ "gatekeeper"
    ∷ "portfolio_optimiser" ∷ "monitor" ∷ "research" ∷ "complete" ∷ "pause_for_review" ∷ []

-- the actions that may follow any action that has a successor
abbrev pub stops : List String
stops = "complete" ∷ "pause_for_review" ∷ []

-- `_TRANSITIONS.get(previous, set())`, where a missing key is one that no test meets
unfoldable pub transitions : Option String → List String
transitions none = "extraction" ∷ "alpha_generator" ∷ "monitor" ∷ "research" ∷ stops
transitions (some previous) =
    if previous == "extraction"
    then "graph_adjudicator" ∷ "alpha_generator" ∷ stops
    else if previous == "graph_adjudicator"
    then "alpha_generator" ∷ stops
    else if previous == "alpha_generator"
    then "backtester" ∷ stops
    else if previous == "backtester"
    then "gatekeeper" ∷ stops
    else if previous == "gatekeeper"
    then "portfolio_optimiser" ∷ "alpha_generator" ∷ stops
    else if previous == "portfolio_optimiser"
    then stops
    else if previous == "monitor"
    then "gatekeeper" ∷ "research" ∷ stops
    else if previous == "research"
    then "extraction" ∷ "monitor" ∷ stops
    else []

-- `previous == proposed`, where `previous` may be None
abbrev pub is_action : Option String → String → Bool
is_action none proposed = false
is_action (some previous) proposed = previous == proposed

-- `previous or 'start'`
abbrev pub or_start : Option String → String
or_start none = "start"
or_start (some previous) = if previous == "" then "start" else previous

-- `total_seconds` of the elapsed time is above the budget's seconds
abbrev pub is_late : AgentRun → Time → Bool
is_late run current = ltb (run.created_at + run.budget.max_runtime_seconds * 1000000) current

module _ (w : Engine) where
  -- None where the transition is approved, else the reason why not
  unfoldable pub validate_transition : Option String → String → Bool → Option String
  validate_transition previous proposed retry =
      if not (contains allowed_actions proposed)
      then some ("action " <> w.repr proposed <> " is not allowlisted")
      else if retry
      then (if not (is_action previous proposed)
          then some "retry must repeat the failed action"
          else none)
      else if not (contains (transitions previous) proposed)
      then some ("transition " <> or_start previous <> " -> " <> proposed <> " is not approved")
      else none

  -- `now or datetime.now(UTC)`, the clock being read only when the other budgets allow a step
  unfoldable pub read_clock : Option Time → Exec w.World Time
  read_clock none s = (ok (w.now s).0, (w.now s).1)
  read_clock (some at) s = (ok at, s)

  unfoldable pub budget_reason : AgentRun → Option Time → Exec w.World (Option String)
  unfolding read_clock
  budget_reason run now =
      if leb run.budget.max_steps run.steps
      then return (some "workflow step budget exhausted")
      else if leb run.budget.max_llm_calls run.llm_calls
      then return (some "LLM call budget exhausted")
      else do
        current ← read_clock now
        return (if is_late run current then some "workflow wall-clock budget exhausted" else none)

  -- `f"{run_id}:{action}:{input_hash}"` under sha256
  unfoldable pub idempotency_key : String → String → String → String
  idempotency_key run_id action input_hash = w.sha256 (run_id <> ":" <> action <> ":" <> input_hash)
