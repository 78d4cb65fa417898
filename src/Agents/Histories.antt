-- ===== src/Agents/Histories.antt =====
-- agents/orchestrator.py: what holds of a run after any history of recorded actions and resumptions.
use agentic_alpha_engine.Prelude.{
  ◌≡◌, refl, sym, subst, ap, ◌∙◌, String, Bool, true, false, ◌&&◌, ◌⊎◌, inl, inr, Option, none,
  some, ◌≤◌, ◌<◌, ◌+◌, arith, List, [], ◌∷◌, ◌++◌, length, length-append, All, All-append, contains,
  String_eq, ◌==◌, ==_iff, Bool-cases, and_left, and_right,
}
use agentic_alpha_engine.Effects.{ok, ok_injective}
use agentic_alpha_engine.Agents.Contracts.{
  Time, Engine, RunStatus, action_value, NextAction, RunEvent, AgentRun,
}
use agentic_alpha_engine.Agents.Policy.{
  transitions, is_action, validate_transition, idempotency_key,
}
use agentic_alpha_engine.Agents.Orchestrator.{
  State, last_action, repeats_of, new_event, with_event, record_action, resume,
}
use agentic_alpha_engine.Agents.Recorded.{
  Recorded, closed, looped, paused, recorded, record_action-Recorded,
}

-- the action is one that the table lists after the previous one, or repeats it
abbrev pub Approved : Option String → String → Type 0
Approved previous next = (contains (transitions previous) next ≡ true) ⊎ (previous ≡ some next)

-- every event's action is approved after the one before it
unfoldable pub IsRoute : Option String → List RunEvent → Type 0
IsRoute previous [] = Unit
IsRoute previous (e ∷ events) = Approved previous e.action × IsRoute (some e.action) events

unfoldable pub last_from : Option String → List RunEvent → Option String
last_from previous [] = previous
last_from previous (e ∷ events) = last_from (some e.action) events

last_from-cons :
    (e : RunEvent) (events : List RunEvent)
    → last_from (some e.action) events ≡ last_action (e ∷ events)
unfolding last_from last_action
last_from-cons e [] = refl
last_from-cons e (f ∷ events) = last_from-cons f events

pub last_from-none : (events : List RunEvent) → last_from none events ≡ last_action events
unfolding last_from last_action
last_from-none [] = refl
last_from-none (e ∷ events) = last_from-cons e events

pub IsRoute-snoc :
    (previous : Option String) (events : List RunEvent) (e : RunEvent)
    → IsRoute previous events
    → Approved (last_from previous events) e.action
    → IsRoute previous (events ++ e ∷ [])
unfolding IsRoute last_from
IsRoute-snoc previous [] e route next = (next, tt)
IsRoute-snoc previous (f ∷ events) e route next =
    (route.0, IsRoute-snoc (some f.action) events e route.1 next)

repeats_of-append :
    (action digest : String) (xs ys : List RunEvent)
    → repeats_of action digest (xs ++ ys)
      ≡ repeats_of action digest xs + repeats_of action digest ys
unfolding repeats_of
repeats_of-append action digest [] ys = omega arith
repeats_of-append action digest (x ∷ xs) ys = ground (arith, repeats_of-append action digest xs ys)

-- Recording one more event keeps every count at two or less where its own count was below two.
repeats_of-snoc :
    (events : List RunEvent) (e : RunEvent)
    → repeats_of e.action e.input_hash events < 2
    → ((action digest : String) → repeats_of action digest events ≤ 2)
    → (action digest : String) → repeats_of action digest (events ++ e ∷ []) ≤ 2
unfolding repeats_of
repeats_of-snoc events e below all action digest =
    elim (Bool-cases (e.action == action && e.input_hash == digest)) [
      | inl same ↦
          let here =
            subst (λ a. repeats_of a e.input_hash events < 2)
              ((==_iff e.action action).0 (and_left _ _ same)) below in
          let there =
            subst (λ d. repeats_of action d events < 2)
              ((==_iff e.input_hash digest).0 (and_right _ _ same)) here in
          ground (arith, repeats_of-append action digest events (e ∷ []))
      | inr differs ↦
          ground (arith, repeats_of-append action digest events (e ∷ []), all action digest)
    ]

is_action-eq :
    (previous : Option String) (a : String) → is_action previous a ≡ true → previous ≡ some a
is_action-eq none a h = ground arith
is_action-eq (some p) a h = ap some ((==_iff p a).0 h)

module _ (w : Engine) where
  -- A transition that the policy lets pass is approved.
  pub validate_transition-Approved :
      (previous : Option String) (proposed : String) (retry : Bool)
      → validate_transition w previous proposed retry ≡ none
      → Approved previous proposed
  unfolding validate_transition
  validate_transition-Approved previous proposed true h =
      inr (is_action-eq previous proposed (ground arith))
  validate_transition-Approved previous proposed false h = inl (ground arith)

  -- The run's accounts and its events agree with its budget and with the policy.
  pub record IsSound (run : AgentRun) : Type 0 where
    pub steps_count : run.steps ≡ length run.events
    pub steps_bound : run.steps ≤ run.budget.max_steps
    pub calls_steps : run.llm_calls ≤ run.steps
    pub calls_bound : run.llm_calls ≤ run.budget.max_llm_calls
    pub route : IsRoute none run.events
    pub repeats : (action digest : String) → repeats_of action digest run.events ≤ 2
    pub keyed :
        All (λ e. e.idempotency_key ≡ idempotency_key w run.id e.action e.input_hash) run.events

  -- A run goes on by a recorded action, with any ledger and in any world, or by being resumed.
  pub data Step (run out : AgentRun) : Type 0 where
    records :
        (action : NextAction) (input_text : String) (ledger retry : Bool) (s : State w)
        → (record_action w run action input_text ledger retry s).0 ≡ ok out
        → Step run out
    resumes : resume run ≡ ok out → Step run out

  pub data Reach (run : AgentRun) : AgentRun → Type 0 where
    here : Reach run run
    next : {mid out : AgentRun} → Reach run mid → Step mid out → Reach run out

  with_event-IsSound :
      (run : AgentRun) (action : NextAction) (digest : String) (at : Time) (retry : Bool)
      → IsSound run
      → repeats_of (action_value action.action) digest run.events < 2
      → Approved (last_action run.events) (action_value action.action)
      → run.steps < run.budget.max_steps
      → run.llm_calls < run.budget.max_llm_calls
      → IsSound (with_event w run action (new_event w run action digest at) retry)
  with_event-IsSound run action digest at retry sound few approved steps calls =
      let event = new_event w run action digest at in
      record {
        steps_count = omega (arith, sound.steps_count, length-append run.events (event ∷ []));
        steps_bound = omega arith;
        calls_steps = ground (arith, sound.calls_steps);
        calls_bound = ground arith;
        route =
            IsRoute-snoc none run.events event sound.route
              (subst (λ p. Approved p event.action) (sym (last_from-none run.events)) approved);
        repeats = repeats_of-snoc run.events event few sound.repeats;
        keyed = All-append _ run.events (event ∷ []) sound.keyed (refl, tt);
      }

  with_status-IsSound :
      (run : AgentRun) (status : RunStatus) → IsSound run → IsSound (record run { status = status })
  with_status-IsSound run status sound = record {
    steps_count = sound.steps_count;
    steps_bound = sound.steps_bound;
    calls_steps = sound.calls_steps;
    calls_bound = sound.calls_bound;
    route = sound.route;
    repeats = sound.repeats;
    keyed = sound.keyed;
  }

  Recorded-IsSound :
      (run : AgentRun) (action : NextAction) (input_text : String) (retry : Bool) (out : AgentRun)
      → Recorded w run action input_text retry out
      → IsSound run
      → IsSound out
  Recorded-IsSound run action input_text retry out (closed c o) sound = subst IsSound (sym o) sound
  Recorded-IsSound run action input_text retry out (looped c l o) sound =
      subst IsSound (sym o) (with_status-IsSound run RunStatus.loop_detected sound)
  Recorded-IsSound run action input_text retry out (paused c o) sound =
      subst IsSound (sym o) (with_status-IsSound run RunStatus.paused sound)
  Recorded-IsSound run action input_text retry out (recorded at c few v steps calls o) sound =
      subst IsSound (sym o) (
        with_event-IsSound run action (w.sha256 input_text) at retry sound few
          (validate_transition-Approved _ _ _ v) steps calls)

  pub resume-running :
      (run out : AgentRun)
      → resume run ≡ ok out
      → (run.status ≡ RunStatus.paused) × (out ≡ record run { status = RunStatus.running })
  unfolding resume
  resume-running run out h = ground arith

  pub Step-IsSound : (run out : AgentRun) → Step run out → IsSound run → IsSound out
  Step-IsSound run out (records action input_text ledger retry s e) sound =
      let (out', e', how) = record_action-Recorded w run action input_text ledger retry s in
      subst IsSound (ok_injective (sym e' ∙ e))
        (Recorded-IsSound run action input_text retry out' how sound)
  Step-IsSound run out (resumes e) sound =
      subst IsSound (sym (resume-running run out e).1)
        (with_status-IsSound run RunStatus.running sound)

  -- Whatever is recorded and resumed, in any order, ledger and world, a run that is sound stays so:
  -- as many steps as events and no more than the budget's, no more model calls than steps or than
  -- the budget's, every event approved after the one before or repeating it, no action recorded more
  -- than twice with one input, and each event under its idempotency key.
  pub Reach-IsSound : {run out : AgentRun} → Reach run out → IsSound run → IsSound out
  Reach-IsSound here sound = sound
  Reach-IsSound (next r step) sound = Step-IsSound _ _ step (Reach-IsSound r sound)
