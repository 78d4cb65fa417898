-- ===== src/Agents/Workflow.antt =====
-- agents/orchestrator_runtime.py: the nodes and edges of the workflow's graph, and its run.
use Prim.Native.Nat.{ℕ}
use agentic_alpha_engine.Prelude.{
  ◌+◌, ◌*◌, suc, zero, String, Bool, true, false, not, ◌&&◌, Option, none, some, [], String_eq,
  ◌==◌, if◌then◌else◌, ◌<>◌,
}
use agentic_alpha_engine.Effects.{
  Error, Result, ok, err, value_error, key_error, type_error, runtime_error, job_cancelled, other,
  error_text, Exec, return, from_result, ◌>>=◌,
}
use agentic_alpha_engine.Agents.Contracts.{
  Time, Engine, RunStatus, ActionName, action_value, AgentRun, RunBudget, ResultStatus, AgentResult,
  AgentRequest, next_action,
}
use agentic_alpha_engine.Agents.Orchestrator.{State, on_world, read_now, choose_next, record_action}

-- `_RUNNABLE_ACTIONS`
abbrev pub is_runnable : ActionName → Bool
is_runnable ActionName.complete = false
is_runnable ActionName.pause_for_review = false
is_runnable _ = true

-- an instance of `RetryableActionError`
abbrev pub is_retryable : Error → Bool
is_retryable (other class message) = class == "RetryableActionError"
is_retryable (value_error m) = false
is_retryable (key_error m) = false
is_retryable (type_error m) = false
is_retryable (runtime_error m) = false
is_retryable (job_cancelled m) = false

-- the statuses at which `route_next` ends
abbrev pub is_over : RunStatus → Bool
is_over RunStatus.pending = false
is_over RunStatus.running = false
is_over _ = true

-- the text of a result's status
abbrev pub result_value : ResultStatus → String
result_value ResultStatus.completed = "completed"
result_value ResultStatus.paused = "paused"
result_value ResultStatus.failed = "failed"

abbrev pub is_completed : ResultStatus → Bool
is_completed ResultStatus.completed = true
is_completed _ = false

-- a node of the graph
pub data Node : Type 0 where
  route_node : Node
  node : ActionName → Node

module _ (w : Engine) where
  -- `handlers.get(name)`
  abbrev pub Handlers : Type 0
  Handlers = ActionName → Option (AgentRequest w → Exec w.World AgentResult)

  -- A missing `failure` is the empty text, which is as false.
  pub record OrchestratorState : Type 0 where
    pub run : AgentRun
    pub context : String
    pub payload : w.Payload
    pub current_action : Option ActionName
    pub last_result : Option AgentResult
    pub failure : String

  -- `state.get("failure") and state.get("current_action") in _RUNNABLE_ACTIONS`
  abbrev pub current_is_runnable : Option ActionName → Bool
  current_is_runnable none = false
  current_is_runnable (some name) = is_runnable name

  abbrev pub is_retrying : OrchestratorState → Bool
  is_retrying state = not (state.failure == "") && current_is_runnable state.current_action

  unfoldable pub route : Bool → OrchestratorState → Exec (State w) OrchestratorState
  route ledger state = if is_retrying state then return state else do
    action ← choose_next w state.run state.context
    updated ← record_action w state.run action state.context ledger false
    return (record state { run = updated; current_action = some action.action })

  -- a pause, with its reason and the text it is recorded for
  unfoldable pub pause_run : String → String → Bool → AgentRun → Exec (State w) AgentRun
  pause_run reason input_text ledger run = do
    pause ← from_result (next_action w ActionName.pause_for_review reason)
    record_action w run pause input_text ledger false

  -- the three ends of an action node: an exception that may be retried, another one, a result
  unfoldable pub retry_action :
      Bool → ActionName → OrchestratorState → String → Exec (State w) OrchestratorState
  retry_action ledger name state error = do
    retry ← from_result (next_action w name ("retryable failure: " <> error))
    updated ← record_action w state.run retry state.context ledger true
    return (record state { run = updated; current_action = some name; failure = error })

  unfoldable pub fail_action :
      Bool → ActionName → OrchestratorState → String → Exec (State w) OrchestratorState
  fail_action ledger name state error = do
    updated ←
        pause_run ("handler failed: " <> error) ("failure:" <> action_value name <> ":" <> error)
          ledger state.run
    return (record state { run = updated; failure = error })

  unfoldable pub take_result :
      Bool → ActionName → OrchestratorState → AgentResult → Exec (State w) OrchestratorState
  take_result ledger name state result =
      if is_completed result.status
      then return (record state { last_result = some result; failure = "" })
      else do
        updated ←
            pause_run (action_value name <> " returned " <> result_value result.status)
              ("result:" <> action_value name <> ":" <> result.message) ledger state.run
        return (record state { run = updated; last_result = some result })

  unfoldable pub after_handler :
      Bool → ActionName → OrchestratorState → Result AgentResult → Exec (State w) OrchestratorState
  after_handler ledger name state (ok result) = take_result ledger name state result
  after_handler ledger name state (err e) =
      if is_retryable e
      then retry_action ledger name state (error_text e)
      else fail_action ledger name state (error_text e)

  abbrev pub request_of : ActionName → OrchestratorState → AgentRequest w
  request_of name state = record { run_id = state.run.id; agent = name; payload = state.payload }

  -- The missing handler is recorded without the ledger.
  unfoldable pub missing_handler : ActionName → OrchestratorState → Exec (State w) OrchestratorState
  missing_handler name state = do
    updated ←
        pause_run ("no handler registered for " <> action_value name)
          ("missing-handler:" <> action_value name) false state.run
    return (record state { run = updated })

  unfoldable pub action_node :
      Handlers → Bool → ActionName → OrchestratorState → Exec (State w) OrchestratorState
  action_node handlers ledger name state = elim (handlers name) [
    | none ↦ missing_handler name state
    | some handler ↦ λ s.
        let (result, s') = on_world w (handler (request_of name state)) s in
        after_handler ledger name state result s'
  ]

  -- the next action node, or none for END
  unfoldable pub route_next : OrchestratorState → Option ActionName
  route_next state = if is_over state.run.status then none else elim state.current_action [
    | none ↦ none
    | some name ↦ if is_runnable name then some name else none
  ]

  -- At most so many nodes run, one after another along the edges: none where the limit is reached
  -- before END.
  unfoldable pub invoke :
      Handlers → Bool → ℕ → Node → OrchestratorState → Exec (State w) (Option OrchestratorState)
  invoke handlers ledger zero at state = return none
  invoke handlers ledger (suc limit) route_node state = route ledger state >>= λ next.
      elim (route_next next) [
        | none ↦ return (some next)
        | some name ↦ invoke handlers ledger limit (node name) next
      ]
  invoke handlers ledger (suc limit) (node name) state =
      action_node handlers ledger name state >>= λ next.
      invoke handlers ledger limit route_node next

  -- `AgentRun(id=..., status="pending", ...)`
  abbrev pub new_run : String → RunBudget → Time → AgentRun
  new_run run_id budget at = record {
    id = run_id;
    status = RunStatus.pending;
    created_at = at;
    budget = budget;
    steps = 0;
    llm_calls = 0;
    events = [];
  }

  unfoldable pub recursion_limit : RunBudget → ℕ
  recursion_limit budget = budget.max_steps * 3 + 4

  unfoldable pub run_bounded_workflow :
      Handlers
      → String
      → String
      → w.Payload
      → RunBudget
      → Bool
      → Exec (State w) (Option OrchestratorState)
  run_bounded_workflow handlers run_id context payload budget ledger = do
    at ← read_now w
    invoke handlers ledger (recursion_limit budget) route_node (record {
      run = new_run run_id budget at;
      context = context;
      payload = payload;
      current_action = none;
      last_result = none;
      failure = "";
    })
