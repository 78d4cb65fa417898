-- ===== src/Agents/Choice.antt =====
-- agents/orchestrator.py: what `choose_next` answers.
use Prim.Native.String.{count}
use agentic_alpha_engine.Prelude.{
  ◌≡◌, refl, sym, subst, ◌∙◌, String, true, false, ◌⊎◌, inl, inr, Option, none, some, arith, ◌≤◌,
  ◌<◌, contains, String_eq, Option-cases, refl, ◌<>◌, ◌<>◌,
}
use agentic_alpha_engine.Effects.{
  Returns, Returns-bind, from_result, Error, Result, ok, err, error_text, ok_injective,
}
use agentic_alpha_engine.Agents.Contracts.{
  Engine, ActionName, action_value, NextAction, AgentRun, invalid_action, next_action,
}
use agentic_alpha_engine.Agents.Policy.{transitions, validate_transition, budget_reason}
use agentic_alpha_engine.Agents.Orchestrator.{
  State, last_action, on_world, model_validate, ask, approve, or_pause, choose_within, choose_next,
}

module _ (w : Engine) where
  -- the action is approved after the last one of the run
  abbrev pub Approves : Option String → NextAction → Type 0
  Approves previous action = contains (transitions previous) (action_value action.action) ≡ true

  -- a pause, or an approved action
  abbrev IsSafe : Option String → NextAction → Type 0
  IsSafe previous action = (action.action ≡ ActionName.pause_for_review) ⊎ Approves previous action

  pub next_action-ok :
      (name : ActionName) (reason : String) (action : NextAction)
      → next_action w name reason ≡ ok action
      → action.action ≡ name
  unfolding next_action
  next_action-ok name reason action h = ground arith

  validate_transition-Approves :
      (previous : Option String) (action : NextAction)
      → validate_transition w previous (action_value action.action) false ≡ none
      → Approves previous action
  unfolding validate_transition
  validate_transition-Approves previous action h = ground arith

  approve-passed :
      (previous : Option String) (action : NextAction) (s : State w)
      → validate_transition w previous (action_value action.action) false ≡ none
      → (approve w previous action s).0 ≡ ok action
  unfolding approve
  approve-passed previous action s v = rw (approve, v) refl

  approve-refused :
      (previous : Option String) (action : NextAction) (s : State w) (e : String)
      → validate_transition w previous (action_value action.action) false ≡ some e
      → (approve w previous action s).0
        ≡ next_action w ActionName.pause_for_review ("route rejected: " <> e)
  unfolding approve
  approve-refused previous action s e v = rw (approve, v) refl

  approve-IsSafe :
      (previous : Option String) (action : NextAction)
      → Returns (IsSafe previous) (approve w previous action)
  approve-IsSafe previous action = record {
    holds = λ s out h.
        elim (Option-cases (validate_transition w previous (action_value action.action) false)) [
          | inl v ↦ inr (
              subst (Approves previous)
                (ok_injective (sym (approve-passed previous action s v) ∙ h))
                (validate_transition-Approves previous action v))
          | inr (e, v) ↦ inl (
              next_action-ok ActionName.pause_for_review ("route rejected: " <> e) out
                (sym (approve-refused previous action s e v) ∙ h))
        ];
  }

  -- The body of the `try` answers with a safe action.
  ask-IsSafe :
      (previous : Option String) (context : String)
      → Returns (IsSafe previous) (ask w previous context)
  unfolding ask
  ask-IsSafe previous context = Returns-bind (on_world w (w.complete_json context)) _ (λ raw.
      Returns-bind (from_result (model_validate w raw)) _
        (λ action. approve-IsSafe previous action))

  or_pause-IsSafe :
      (previous : Option String) (r : Result NextAction × State w)
      → ((a : NextAction) → r.0 ≡ ok a → IsSafe previous a)
      → (action : NextAction) → (or_pause w r).0 ≡ ok action
      → IsSafe previous action
  unfolding or_pause
  or_pause-IsSafe previous (ok a, s) h action e = h action e
  or_pause-IsSafe previous (err error, s) h action e = inl (
      next_action-ok ActionName.pause_for_review ("invalid model route: " <> error_text error)
        action e)

  choose_within-IsSafe :
      (reason : Option String) (run : AgentRun) (context : String)
      → Returns (IsSafe (last_action run.events)) (choose_within w reason run context)
  unfolding choose_within
  choose_within-IsSafe (some text) run context = record {
    holds = λ s action h. inl (next_action-ok ActionName.pause_for_review text action h);
  }
  choose_within-IsSafe none run context = record {
    holds = λ s action h.
        let previous = last_action run.events in
        or_pause-IsSafe previous (ask w previous context s) ((ask-IsSafe previous context).holds s)
          action h;
  }

  -- Whatever the model answers or raises, an action that `choose_next` returns is pause_for_review or
  -- one that the transition table lists after the run's last action.
  pub choose_next_safe :
      (run : AgentRun) (context : String) (s : State w) (action : NextAction)
      → (choose_next w run context s).0 ≡ ok action
      → (action.action ≡ ActionName.pause_for_review)
        ⊎ (contains (transitions (last_action run.events)) (action_value action.action) ≡ true)
  unfolding choose_next
  choose_next_safe run context s action h =
      (Returns-bind (on_world w (budget_reason w run none)) _
          (λ reason. choose_within-IsSafe reason run context)).holds
        s action h

  -- The reasons of the budget's check.
  data IsShort : Option String → Type 0 where
    no_reason : IsShort none
    short : (text : String) → 1 ≤ count text → count text ≤ 500 → IsShort (some text)

  -- A choice that raises: the body of the `try`, run at a state, raised with a text that is too long for
  -- the reason of the pause.
  pub record QuotesTooMuch (run : AgentRun) (context : String) (at : State w) (e : Error)
      : Type 0 where
    pub raised : Error
    pub in_try : (ask w (last_action run.events) context at).0 ≡ err raised
    pub too_long : 500 < count ("invalid model route: " <> error_text raised)
    pub invalid :
        e
        ≡ invalid_action w ActionName.pause_for_review
            ("invalid model route: " <> error_text raised)
