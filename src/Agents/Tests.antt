-- ===== src/Agents/Tests.antt =====
-- Runs of the orchestrator on a small engine, and each theorem at an input that meets its hypotheses.
use Prim.Native.Nat.{ℕ}
use agentic_alpha_engine.Prelude.{
  ◌<>◌, ◌≡◌, refl, String, true, false, ◌⊎◌, Option, none, some, arith, suc, List, [], ◌∷◌, ◌++◌,
  All, contains, String_eq, ◌==◌, if◌then◌else◌, is_some,
}
use agentic_alpha_engine.Dict.{lookup, insert}
use agentic_alpha_engine.Effects.{Result, ok, err, runtime_error, Returns}
use agentic_alpha_engine.Agents.Contracts.{
  Engine, RunStatus, ActionName, action_value, NextAction, RunEvent, AgentRun, RunBudget,
  ResultStatus, next_action,
}
use agentic_alpha_engine.Agents.Policy.{
  allowed_actions, transitions, validate_transition, budget_reason, read_clock, idempotency_key,
}
use agentic_alpha_engine.Agents.Orchestrator.{
  State, last_action, repeats_of, parse_action, append, model_validate, ask, approve, or_pause,
  choose_next, choose_within, record_action, record_event, within_budget, resume,
}
use agentic_alpha_engine.Agents.Histories.{
  IsRoute, IsSound, Reach, here, next, records, resumes, Reach-IsSound,
}
use agentic_alpha_engine.Agents.Guarantees.{Extends, run_history, paused_for_good}
use agentic_alpha_engine.Agents.Choice.{choose_next_safe}
use agentic_alpha_engine.Agents.Workflow.{
  Handlers, OrchestratorState, new_run, route, route_next, action_node, after_handler, take_result,
  retry_action, fail_action, missing_handler, pause_run, invoke, recursion_limit,
  run_bounded_workflow,
}
use agentic_alpha_engine.Agents.Supersteps.{workflow_ends}

-- a text of 512 characters
abbrev doubled : String → String
doubled text = text <> text

abbrev long_text : String
long_text =
    doubled (doubled (doubled "0123456789012345678901234567890123456789012345678901234567890123"))

-- a clock that advances by one, and a model that proposes what the context says
abbrev engine : Engine
engine = record {
  Payload = Unit {0};
  Answer = String × String;
  World = ℕ;
  read_action = λ answer. ok answer;
  sha256 = λ s. s;
  repr = λ s. s;
  invalid = λ a r. "invalid";
  now = λ n. (n, suc n);
  complete_json = λ context n.
      if context == "offline"
      then (err (runtime_error "timeout"), n)
      else if context == "talkative"
      then (err (runtime_error long_text), n)
      else (ok (context, "the context says so"), n);
  rowcount_is_one = λ n. false;
}

abbrev budget : RunBudget
budget = record {
  max_steps = 3;
  max_retries_per_action = 2;
  max_llm_calls = 20;
  max_runtime_seconds = 900;
}

abbrev run0 : AgentRun
run0 = new_run engine "r" budget 0

abbrev state0 : State engine
state0 = record { world = 0; ledger = [] }

abbrev research : NextAction
research = record { action = ActionName.research; reason = "look it up" }

abbrev pause : NextAction
pause = record { action = ActionName.pause_for_review; reason = "stop" }

program : Unit {0}
unfolding allowed_actions transitions validate_transition budget_reason read_clock idempotency_key
    last_action repeats_of parse_action append model_validate ask approve or_pause choose_next
    choose_within record_action record_event within_budget resume next_action action_value contains
    lookup insert route route_next action_node after_handler take_result retry_action fail_action
    missing_handler pause_run invoke recursion_limit run_bounded_workflow
program = tt

abbrev run1 : AgentRun
run1 = record run0 {
  status = RunStatus.running;
  steps = 1;
  llm_calls = 1;
  events =
      record {
        at = 1;
        action = "research";
        input_hash = "in";
        idempotency_key = "r:research:in";
        detail = "look it up";
      }
      ∷ [];
}

abbrev run2 : AgentRun
run2 = record run1 {
  status = RunStatus.paused;
  steps = 2;
  llm_calls = 2;
  events =
      run1.events
      ++ record {
        at = 1;
        action = "pause_for_review";
        input_hash = "in";
        idempotency_key = "r:pause_for_review:in";
        detail = "stop";
      }
        ∷ [];
}

run0-run1 : (record_action engine run0 research "in" true false state0).0 ≡ ok run1
unfolding program
run0-run1 = refl

run1-run2 : (record_action engine run1 pause "in" true false state0).0 ≡ ok run2
unfolding program
run1-run2 = refl

resumed : resume run2 ≡ ok (record run2 { status = RunStatus.running })
unfolding program
resumed = refl

to_run2 : Reach engine run0 run2
to_run2 =
    next (next here (records research "in" true false state0 run0-run1))
      (records pause "in" true false state0 run1-run2)

run0-IsSound : IsSound engine run0
unfolding IsRoute repeats_of
run0-IsSound = record {
  steps_count = refl;
  steps_bound = omega arith;
  calls_steps = omega arith;
  calls_bound = omega arith;
  route = tt;
  repeats = λ a d. omega arith;
  keyed = tt;
}

Reach-IsSound_example : IsSound engine run2
Reach-IsSound_example = Reach-IsSound engine {run = run0} {out = run2} to_run2 run0-IsSound

run_history_example : Extends run0 run2
run_history_example = run_history engine {run = run0} {out = run2} to_run2

run2-pause : last_action run2.events ≡ some "pause_for_review"
unfolding program
run2-pause = refl

abbrev run3 : AgentRun
run3 = record run2 { status = RunStatus.running }

to_run3 : Reach engine run2 run3
to_run3 = next here (resumes resumed)

paused_for_good_example :
    (more : List RunEvent) × (run3.events ≡ run2.events ++ more)
    × All (λ e. e.action ≡ "pause_for_review") more
paused_for_good_example = paused_for_good engine {run = run2} {out = run3} run2-pause to_run3

chosen :
    (choose_next engine run0 "research" state0).0
    ≡ ok (record { action = ActionName.research; reason = "the context says so" })
unfolding program
chosen = refl

choose_next_safe_example :
    (ActionName.research ≡ ActionName.pause_for_review)
    ⊎ (contains (transitions none) (action_value ActionName.research) ≡ true)
unfolding last_action
choose_next_safe_example =
    choose_next_safe engine run0 "research" state0
      (record { action = ActionName.research; reason = "the context says so" }) chosen

quoted :
    (choose_next engine run0 "offline" state0).0
    ≡ ok (record { action = ActionName.pause_for_review; reason = "invalid model route: timeout" })
unfolding program
quoted = refl

-- research answers, and nothing else has a handler
abbrev handlers : Handlers engine
handlers ActionName.research = some (λ request n.
    (ok (record { status = ResultStatus.completed; message = "done"; latency_ms = 1 }), n))
handlers _ = none

workflow_ends_example :
    Returns
      (λ o. is_some o ≡ true)
      (run_bounded_workflow engine handlers "r" "research" tt budget true)
workflow_ends_example = workflow_ends engine handlers "r" "research" tt budget true

-- the status at the end, with the number of steps
abbrev ended : Result (Option (OrchestratorState engine)) → Option (RunStatus × ℕ)
ended (ok (some state)) = some (state.run.status, state.run.steps)
ended (ok none) = none
ended (err e) = none

-- After one research the model's second proposal of it is refused, and the run pauses.
ends_paused :
    ended (run_bounded_workflow engine handlers "r" "research" tt budget true state0).0
    ≡ some (RunStatus.paused, 2)
unfolding program
ends_paused = refl
