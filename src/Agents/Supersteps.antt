-- ===== src/Agents/Supersteps.antt =====
-- agents/orchestrator_runtime.py: the workflow reaches END within the recursion limit.
use Prim.Native.Nat.{ℕ}
use agentic_alpha_engine.Prelude.{
  ◌≡◌, refl, sym, subst, ap, ◌∙◌, String, Bool, true, false, ◌⊎◌, inl, inr, none, some, arith, ◌≤◌,
  ◌+◌, ◌*◌, suc, zero, String_eq, Bool-cases, Option-cases, is_some, ◌<>◌,
}
use agentic_alpha_engine.Effects.{
  Result, ok, err, error_text, from_result, Returns, Returns-bind, Returns-then, ok_injective,
}
use agentic_alpha_engine.Agents.Contracts.{
  Time, Engine, RunStatus, ActionName, action_value, NextAction, AgentRun, RunBudget, AgentResult,
  next_action,
}
use agentic_alpha_engine.Agents.Orchestrator.{
  is_closed, status_after, choose_next, record_action, read_now, on_world,
}
use agentic_alpha_engine.Agents.Recorded.{
  Recorded, closed, looped, paused, recorded, record_action-Recorded,
}
use agentic_alpha_engine.Agents.Choice.{next_action-ok}
use agentic_alpha_engine.Agents.Workflow.{
  is_over, is_completed, result_value, is_retryable, Handlers, OrchestratorState, is_retrying,
  route, pause_run, retry_action, fail_action, take_result, after_handler, request_of,
  missing_handler, action_node, route_next, Node, route_node, node, invoke, new_run,
  recursion_limit, run_bounded_workflow,
}

-- What a recorded action does to the run: it stops the run, or it uses up one of its steps.
pub data Moved (run out : AgentRun) : Type 0 where
  stopped :
      is_over out.status ≡ true → out.steps ≡ run.steps → out.budget ≡ run.budget → Moved run out
  advanced :
      out.steps ≡ suc run.steps
      → suc run.steps ≤ run.budget.max_steps
      → out.budget ≡ run.budget
      → Moved run out

closed-over : (status : RunStatus) → is_closed status ≡ true → is_over status ≡ true
closed-over status h = ground arith

-- `limit` nodes are enough for the steps that the run has left, with `spare` to go.
pub record HasRoom (spare limit : ℕ) (run : AgentRun) : Type 0 where
  pub bound : run.steps ≤ run.budget.max_steps
  pub room : run.budget.max_steps * 2 + spare ≤ limit + run.steps * 2

advanced-HasRoom :
    (spare limit : ℕ) (run out : AgentRun)
    → HasRoom spare (suc limit) run
    → out.steps ≡ suc run.steps
    → suc run.steps ≤ run.budget.max_steps
    → out.budget ≡ run.budget
    → HasRoom (suc spare) limit out
advanced-HasRoom spare limit run out h steps left budget = record {
  bound = ground arith;
  room = let same = ap (λ b. b.max_steps) budget in omega (arith, steps, h.room, same);
}

later-HasRoom :
    (spare limit : ℕ) (run : AgentRun)
    → HasRoom (suc spare) (suc limit) run
    → HasRoom spare limit run
later-HasRoom spare limit run h = record { bound = h.bound; room = omega (arith, h.room) }

less-HasRoom :
    (spare limit : ℕ) (run : AgentRun) → HasRoom (suc spare) limit run → HasRoom spare limit run
less-HasRoom spare limit run h = record { bound = h.bound; room = omega (arith, h.room) }

Moved-HasRoom :
    (spare limit : ℕ) (run out : AgentRun)
    → Moved run out
    → HasRoom (suc spare) (suc limit) run
    → HasRoom spare limit out
Moved-HasRoom spare limit run out (stopped o steps budget) h = record {
  bound = let same = ap (λ b. b.max_steps) budget in omega (arith, steps, h.bound, same);
  room = let same = ap (λ b. b.max_steps) budget in omega (arith, steps, h.room, same);
}
Moved-HasRoom spare limit run out (advanced steps left budget) h = less-HasRoom spare limit out (
    less-HasRoom (suc spare) limit out
      (advanced-HasRoom (suc spare) limit run out h steps left budget))

no-HasRoom : (spare : ℕ) (run : AgentRun) → HasRoom (suc spare) 0 run → ⊥
no-HasRoom spare run h = omega (arith, h.room, h.bound)

module _ (w : Engine) where
  Recorded-Moved :
      (run : AgentRun) (action : NextAction) (input_text : String) (retry : Bool) (out : AgentRun)
      → Recorded w run action input_text retry out
      → Moved run out
  Recorded-Moved run action input_text retry out (closed c o) =
      stopped (ap (λ r. is_over r.status) o ∙ closed-over run.status c) (ap (λ r. r.steps) o)
        (ap (λ r. r.budget) o)
  Recorded-Moved run action input_text retry out (looped c l o) =
      stopped (ap (λ r. is_over r.status) o) (ap (λ r. r.steps) o) (ap (λ r. r.budget) o)
  Recorded-Moved run action input_text retry out (paused c o) =
      stopped (ap (λ r. is_over r.status) o) (ap (λ r. r.steps) o) (ap (λ r. r.budget) o)
  Recorded-Moved run action input_text retry out (recorded at c few v steps calls o) =
      advanced (ap (λ r. r.steps) o) (ground arith) (ap (λ r. r.budget) o)

  -- A pause that is recorded stops the run.
  Recorded-pause :
      (run : AgentRun) (action : NextAction) (input_text : String) (retry : Bool) (out : AgentRun)
      → action.action ≡ ActionName.pause_for_review
      → Recorded w run action input_text retry out
      → is_over out.status ≡ true
  Recorded-pause run action input_text retry out p (closed c o) =
      ap (λ r. is_over r.status) o ∙ closed-over run.status c
  Recorded-pause run action input_text retry out p (looped c l o) = ap (λ r. is_over r.status) o
  Recorded-pause run action input_text retry out p (paused c o) = ap (λ r. is_over r.status) o
  Recorded-pause run action input_text retry out p (recorded at c few v steps calls o) =
      ap (λ r. is_over r.status) o ∙ ap (λ a. is_over (status_after a)) p

  record_action-Moved :
      (run : AgentRun) (action : NextAction) (input_text : String) (ledger retry : Bool)
      → Returns (Moved run) (record_action w run action input_text ledger retry)
  record_action-Moved run action input_text ledger retry = record {
    holds = λ s out h.
        let (out', e, how) = record_action-Recorded w run action input_text ledger retry s in
        subst (Moved run) (ok_injective (sym e ∙ h))
          (Recorded-Moved run action input_text retry out' how);
  }

  abbrev IsOver : AgentRun → Type 0
  IsOver run = is_over run.status ≡ true

  -- stopped, and at no fewer steps
  abbrev Halted : AgentRun → AgentRun → Type 0
  Halted run out = IsOver out × Moved run out

  pause_run-Halted :
      (reason input_text : String) (ledger : Bool) (run : AgentRun)
      → Returns (Halted run) (pause_run w reason input_text ledger run)
  unfolding pause_run
  pause_run-Halted reason input_text ledger run =
      Returns-then {Q = λ a. a.action ≡ ActionName.pause_for_review}
        (from_result (next_action w ActionName.pause_for_review reason)) _
        (record { holds = λ s a h. next_action-ok w ActionName.pause_for_review reason a h })
        (λ pause p. record {
          holds = λ s out h.
              let (out', e, how) = record_action-Recorded w run pause input_text ledger false s in
              subst (Halted run) (ok_injective (sym e ∙ h)) (
                Recorded-pause run pause input_text false out' p how,
                Recorded-Moved run pause input_text false out' how,
              );
        })

  -- The state before a route node: over or not passing a retry on, with room for one node beside the
  -- steps left, or with room for three.
  data RouteReady (limit : ℕ) (state : OrchestratorState w) : Type 0 where
    over : IsOver state.run → HasRoom 1 limit state.run → RouteReady limit state
    retrying : HasRoom 3 limit state.run → RouteReady limit state
    ready : HasRoom 1 limit state.run → is_retrying w state ≡ false → RouteReady limit state

  -- the state after it: over, or with room for an action node and a route node
  abbrev RouteDone : ℕ → OrchestratorState w → Type 0
  RouteDone limit state = IsOver state.run ⊎ HasRoom 2 limit state.run

  RouteReady-HasRoom :
      (limit : ℕ) (state : OrchestratorState w) → RouteReady limit state → HasRoom 1 limit state.run
  RouteReady-HasRoom limit state (over o h) = h
  RouteReady-HasRoom limit state (retrying h) = less-HasRoom 1 limit _ (less-HasRoom 2 limit _ h)
  RouteReady-HasRoom limit state (ready h r) = h

  passed_on :
      (limit : ℕ) (state : OrchestratorState w)
      → is_retrying w state ≡ true
      → RouteReady (suc limit) state
      → RouteDone limit state
  passed_on limit state r (over o h) = inl o
  passed_on limit state r (retrying h) = inr (later-HasRoom 2 limit _ h)
  passed_on limit state r (ready h n) = ground arith

  Moved-RouteDone :
      (limit : ℕ) (run out : AgentRun)
      → HasRoom 1 (suc limit) run
      → Moved run out
      → IsOver out ⊎ HasRoom 2 limit out
  Moved-RouteDone limit run out h (stopped o steps budget) = inl o
  Moved-RouteDone limit run out h (advanced steps left budget) =
      inr (advanced-HasRoom 1 limit run out h steps left budget)

  route-RouteDone :
      (ledger : Bool) (limit : ℕ) (state : OrchestratorState w)
      → RouteReady (suc limit) state
      → Returns (RouteDone limit) (route w ledger state)
  unfolding route
  route-RouteDone ledger limit state h = elim (Bool-cases (is_retrying w state)) [
    | inl r ↦ rw r (record {
      holds = λ s out e. subst (RouteDone limit) (ok_injective e) (passed_on limit state r h);
    })
    | inr r ↦ rw r (
        Returns-bind (choose_next w state.run state.context) _ (λ action.
          Returns-then (record_action w state.run action state.context ledger false) _
            (record_action-Moved state.run action state.context ledger false)
            (λ updated moved. record {
              holds = λ s out e. subst (RouteDone limit) (ok_injective e) (
                  Moved-RouteDone limit state.run updated (RouteReady-HasRoom (suc limit) state h)
                    moved);
            })))
  ]

  Halted-RouteReady :
      (limit : ℕ) (run : AgentRun) (next : OrchestratorState w)
      → HasRoom 2 (suc limit) run
      → Halted run next.run
      → RouteReady limit next
  Halted-RouteReady limit run next h (o, moved) =
      over o (Moved-HasRoom 1 limit run next.run moved h)

  retry_action-RouteReady :
      (ledger : Bool) (name : ActionName) (limit : ℕ) (state : OrchestratorState w) (error : String)
      → HasRoom 2 (suc limit) state.run
      → Returns (RouteReady limit) (retry_action w ledger name state error)
  unfolding retry_action
  retry_action-RouteReady ledger name limit state error h =
      Returns-bind (from_result (next_action w name ("retryable failure: " <> error))) _ (λ retry.
        Returns-then (record_action w state.run retry state.context ledger true) _
          (record_action-Moved state.run retry state.context ledger true)
          (λ updated moved. record {
            holds =
                λ s out e. subst (RouteReady limit) (ok_injective e) (ready_after updated moved);
          }))
    where
      ready_after :
          (updated : AgentRun)
          → Moved state.run updated
          → RouteReady limit
              (record state { run = updated; current_action = some name; failure = error })
      ready_after updated (stopped o steps budget) =
          over o (Moved-HasRoom 1 limit state.run updated (stopped o steps budget) h)
      ready_after updated (advanced steps left budget) =
          retrying (advanced-HasRoom 2 limit state.run updated h steps left budget)

  take_result-RouteReady :
      (ledger : Bool) (name : ActionName) (limit : ℕ) (state : OrchestratorState w)
      (result : AgentResult)
      → HasRoom 2 (suc limit) state.run
      → Returns (RouteReady limit) (take_result w ledger name state result)
  unfolding take_result
  take_result-RouteReady ledger name limit state result h =
      elim (Bool-cases (is_completed result.status)) [
        | inl c ↦ rw c (record {
          holds = λ s out e.
              subst (RouteReady limit) (ok_injective e)
                (ready (later-HasRoom 1 limit state.run h) refl);
        })
        | inr c ↦ rw c (
            Returns-then
              (pause_run w (action_value name <> " returned " <> result_value result.status)
                ("result:" <> action_value name <> ":" <> result.message) ledger state.run)
              _ (pause_run-Halted _ _ ledger state.run)
              (λ updated halted. record {
                holds = λ s out e.
                    subst (RouteReady limit) (ok_injective e)
                      (Halted-RouteReady limit state.run _ h halted);
              }))
      ]

  fail_action-RouteReady :
      (ledger : Bool) (name : ActionName) (limit : ℕ) (state : OrchestratorState w) (error : String)
      → HasRoom 2 (suc limit) state.run
      → Returns (RouteReady limit) (fail_action w ledger name state error)
  unfolding fail_action
  fail_action-RouteReady ledger name limit state error h =
      Returns-then
        (pause_run w ("handler failed: " <> error) ("failure:" <> action_value name <> ":" <> error)
          ledger state.run)
        _ (pause_run-Halted _ _ ledger state.run)
        (λ updated halted. record {
          holds = λ s out e.
              subst (RouteReady limit) (ok_injective e)
                (Halted-RouteReady limit state.run _ h halted);
        })

  missing_handler-RouteReady :
      (name : ActionName) (limit : ℕ) (state : OrchestratorState w)
      → HasRoom 2 (suc limit) state.run
      → Returns (RouteReady limit) (missing_handler w name state)
  unfolding missing_handler
  missing_handler-RouteReady name limit state h =
      Returns-then
        (pause_run w ("no handler registered for " <> action_value name)
          ("missing-handler:" <> action_value name) false state.run)
        _ (pause_run-Halted _ _ false state.run)
        (λ updated halted. record {
          holds = λ s out e.
              subst (RouteReady limit) (ok_injective e)
                (Halted-RouteReady limit state.run _ h halted);
        })

  after_handler-RouteReady :
      (ledger : Bool) (name : ActionName) (limit : ℕ) (state : OrchestratorState w)
      (result : Result AgentResult)
      → HasRoom 2 (suc limit) state.run
      → Returns (RouteReady limit) (after_handler w ledger name state result)
  unfolding after_handler
  after_handler-RouteReady ledger name limit state (ok result) h =
      take_result-RouteReady ledger name limit state result h
  after_handler-RouteReady ledger name limit state (err e) h = elim (Bool-cases (is_retryable e)) [
    | inl r ↦ rw r (retry_action-RouteReady ledger name limit state (error_text e) h)
    | inr r ↦ rw r (fail_action-RouteReady ledger name limit state (error_text e) h)
  ]

  action_node-RouteReady :
      (handlers : Handlers w) (ledger : Bool) (name : ActionName) (limit : ℕ)
      (state : OrchestratorState w)
      → HasRoom 2 (suc limit) state.run
      → Returns (RouteReady limit) (action_node w handlers ledger name state)
  unfolding action_node
  action_node-RouteReady handlers ledger name limit state h = elim (Option-cases (handlers name)) [
    | inl n ↦ rw (action_node, n) (missing_handler-RouteReady name limit state h)
    | inr (handler, f) ↦
        rw (action_node, f)
          (record {
            holds = λ s out e.
                let called = on_world w (handler (request_of w name state)) s in
                (after_handler-RouteReady ledger name limit state called.0 h).holds called.1 out e;
          })
  ]

  route_next-over : (state : OrchestratorState w) → IsOver state.run → route_next w state ≡ none
  unfolding route_next
  route_next-over state o = rw o refl

  -- the limit is enough, at either kind of node
  IsEnough : ℕ → Node → OrchestratorState w → Type 0
  IsEnough limit route_node state = RouteReady limit state
  IsEnough limit (node name) state = HasRoom 2 limit state.run

  room_of :
      (limit : ℕ) (next : OrchestratorState w) (name : ActionName)
      → route_next w next ≡ some name
      → RouteDone limit next
      → HasRoom 2 limit next.run
  room_of limit next name n (inl o) = let stop = route_next-over next o in ground arith
  room_of limit next name n (inr h) = h

  invoke-some :
      (handlers : Handlers w) (ledger : Bool) (limit : ℕ) (at : Node) (state : OrchestratorState w)
      → IsEnough limit at state
      → Returns (λ o. is_some o ≡ true) (invoke w handlers ledger limit at state)
  unfolding invoke IsEnough
  invoke-some handlers ledger zero route_node state h =
      absurd (no-HasRoom 0 state.run (RouteReady-HasRoom 0 state h))
  invoke-some handlers ledger zero (node name) state h = absurd (no-HasRoom 1 state.run h)
  invoke-some handlers ledger (suc limit) route_node state h =
      Returns-then (route w ledger state) _ (route-RouteDone ledger limit state h) (λ next done.
        elim (Option-cases (route_next w next)) [
          | inl n ↦ rw n (record { holds = λ s out e. ap is_some (ok_injective (sym e)) })
          | inr (name, n) ↦
              rw n (
                invoke-some handlers ledger limit (node name) next (room_of limit next name n done))
        ])
  invoke-some handlers ledger (suc limit) (node name) state h =
      Returns-then (action_node w handlers ledger name state) _
        (action_node-RouteReady handlers ledger name limit state h)
        (λ next ready_. invoke-some handlers ledger limit route_node next ready_)

  -- Whatever the model, the handlers and the clock do, a workflow that returns has reached END: the
  -- recursion limit, three nodes for each step of the budget and four more, is never met.
  pub workflow_ends :
      (handlers : Handlers w) (run_id context : String) (payload : w.Payload) (budget : RunBudget)
      (ledger : Bool)
      → Returns
          (λ o. is_some o ≡ true)
          (run_bounded_workflow w handlers run_id context payload budget ledger)
  unfolding run_bounded_workflow recursion_limit IsEnough
  workflow_ends handlers run_id context payload budget ledger = Returns-bind (read_now w) _ (λ at.
      let state = start at in
      invoke-some handlers ledger (budget.max_steps * 3 + 4) route_node state (enough at))
    where
      start : Time → OrchestratorState w
      start at = record {
        run = new_run w run_id budget at;
        context = context;
        payload = payload;
        current_action = none;
        last_result = none;
        failure = "";
      }

      enough : (at : Time) → IsEnough (budget.max_steps * 3 + 4) route_node (start at)
      enough at = ready (record { bound = omega arith; room = omega arith }) refl
