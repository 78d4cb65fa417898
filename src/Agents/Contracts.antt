-- ===== src/Agents/Contracts.antt =====
-- agents/contracts.py: what the orchestrator and the agents exchange.
use Prim.Native.String.{count}
use agentic_alpha_engine.Prelude.{ℕ, String, Bool, ◌&&◌, List, leb, if◌then◌else◌}
use agentic_alpha_engine.Effects.{Result, Error, other, ok, err, value_error, Exec}

-- An instant in UTC, in microseconds.
abbrev pub Time : Type 0
Time = ℕ

-- What the orchestrator takes from elsewhere: payloads, the model's answer and its two fields
-- (`read_action` fails where one is missing or no string), sha256, `repr` of a text, pydantic's
-- text for a refused value, the clock and the model, which act on a world, and the driver's `rowcount == 1`.
pub record Engine : Type 1 where
  pub Payload : Type 0
  pub Answer : Type 0
  pub World : Type 0
  pub read_action : Answer → Result (String × String)
  pub sha256 : String → String
  pub repr : String → String
  pub invalid : String → String → String
  pub now : World → Time × World
  pub complete_json : String → Exec World Answer
  pub rowcount_is_one : ℕ → Bool

pub data RunStatus : Type 0 where
  pending running paused completed failed loop_detected : RunStatus

-- `NextAction.action`
pub data ActionName : Type 0 where
  extraction graph_adjudicator alpha_generator backtester : ActionName
  gatekeeper portfolio_optimiser monitor research complete pause_for_review : ActionName

unfoldable pub action_value : ActionName → String
action_value ActionName.extraction = "extraction"
action_value ActionName.graph_adjudicator = "graph_adjudicator"
action_value ActionName.alpha_generator = "alpha_generator"
action_value ActionName.backtester = "backtester"
action_value ActionName.gatekeeper = "gatekeeper"
action_value ActionName.portfolio_optimiser = "portfolio_optimiser"
action_value ActionName.monitor = "monitor"
action_value ActionName.research = "research"
action_value ActionName.complete = "complete"
action_value ActionName.pause_for_review = "pause_for_review"

pub record RunBudget : Type 0 where
  pub max_steps : ℕ
  pub max_retries_per_action : ℕ
  pub max_llm_calls : ℕ
  pub max_runtime_seconds : ℕ

pub record NextAction : Type 0 where
  pub action : ActionName
  pub reason : String

pub record RunEvent : Type 0 where
  pub at : Time
  pub action : String
  pub input_hash : String
  pub idempotency_key : String
  pub detail : String

pub record AgentRun : Type 0 where
  pub id : String
  pub status : RunStatus
  pub created_at : Time
  pub budget : RunBudget
  pub steps : ℕ
  pub llm_calls : ℕ
  pub events : List RunEvent

pub data ResultStatus : Type 0 where
  completed paused failed : ResultStatus

pub record AgentResult : Type 0 where
  pub status : ResultStatus
  pub message : String
  pub latency_ms : ℕ

-- `ge` and `le` of a field
abbrev pub between : ℕ → ℕ → ℕ → Bool
between low high n = leb low n && leb n high

-- `RunBudget(...)`: the values of the fields as given, in the order of the class
unfoldable pub make_budget : String → ℕ → ℕ → ℕ → ℕ → Result RunBudget
make_budget text steps retries calls seconds =
    if between 1 100 steps
      && between 0 10 retries
      && between 0 1000 calls
      && between 1 86400 seconds
    then ok (record {
      max_steps = steps;
      max_retries_per_action = retries;
      max_llm_calls = calls;
      max_runtime_seconds = seconds;
    })
    else err (value_error text)

module _ (w : Engine) where
  pub record AgentRequest : Type 0 where
    pub run_id : String
    pub agent : ActionName
    pub payload : w.Payload

  -- pydantic's exception for an action, a subclass of ValueError
  abbrev pub invalid_action : ActionName → String → Error
  invalid_action action reason = other "ValidationError" (w.invalid (action_value action) reason)

  -- `NextAction(action=..., reason=...)`, whose reason has 1 to 500 characters
  unfoldable pub next_action : ActionName → String → Result NextAction
  next_action action reason =
      if between 1 500 (count reason)
      then ok (record { action = action; reason = reason })
      else err (invalid_action action reason)
