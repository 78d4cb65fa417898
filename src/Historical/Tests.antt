-- ===== src/Historical/Tests.antt =====
-- historical/: a replay of an event, its view, and each theorem at an input.
use Prim.Native.Nat.{ℕ}
use agentic_alpha_engine.Prelude.{
  ◌≡◌, refl, String, String_eq, true, false, Option, none, some, List, [], ◌∷◌, arith, keep, sorted,
  ◌==◌, text_le,
}
use agentic_alpha_engine.Dict.{lookup, insert}
use agentic_alpha_engine.Effects.{Result, ok, err, value_error}
use agentic_alpha_engine.Graph.Contracts.{earlier, compare_times}
use agentic_alpha_engine.Scenario.Contracts.{
  in_unit, all_in_unit, ScenarioResult, is_effective, propagated_severity, as_path_edge,
}
use agentic_alpha_engine.Scenario.Propagation.{
  effective_edges, rounds, add_edges, update, relax, relax_all, expand, propagate, impact_of,
  impacts_of, result_of, scenario,
}
use agentic_alpha_engine.Scenario.Fuel.{enough}
use agentic_alpha_engine.Scenario.Strongest.{Reports}
use agentic_alpha_engine.Scenario.Registry.{Files}
use agentic_alpha_engine.Scenario.Scoring.{
  scored_weight, scored_edge, is_selected, scored_edges, score,
}
use agentic_alpha_engine.Scenario.Tests.{hundredths, hundredths_laws, time, endless, full}
use agentic_alpha_engine.Scenario.RegistryTests.{
  digits, registry, snapshot, is_reviewed, weight_laws,
}
use agentic_alpha_engine.Historical.Records.{
  EventKind, evidence_fields, event_fields, evidence_was_available_after_observation,
  historical_event, replay_is_time_consistent, scenario_run,
}
use agentic_alpha_engine.Historical.Replay.{
  Archive, Event, Run, Candidate, candidates_of, newest, choose, select_as_of, publish_run, run_of,
  record_run, replay,
}
use agentic_alpha_engine.Historical.View.{
  ScenarioGraphNode, ScenarioGraphView, impacts_by, view_node, checked_node, view_nodes, view_edge,
  checked_edge, view_edges, build_scenario_graph_view,
}
use agentic_alpha_engine.Historical.Receipts.{Receipt, replay-Receipt, replay-Returns}

abbrev archive : Archive hundredths
archive = record {
  is_digest = λ text. true;
  in_directory = λ path. path == "s1.json";
  read_snapshot = λ text. ok snapshot;
  sha256 = λ text. digits;
  dump_run = λ run. "run";
}

abbrev event : Event hundredths archive
event = record {
  event_id = "e";
  title = "t";
  event_kind = EventKind.capacity_disruption;
  description = "d";
  shock_entity_id = "tsmc";
  shock_severity = 100;
  observed_at = time 2;
  available_at = time 3;
  evidence = record { observation_id = "o"; source_url = "u"; content_sha256 = digits } ∷ [];
}

abbrev files : Files
files = ("s1.json", "s1") ∷ ("readme", "r") ∷ []

abbrev chosen : Candidate hundredths archive
chosen = record { path = "s1.json"; text = "s1"; snapshot = snapshot }

program : Unit {0}
unfolding in_unit all_in_unit is_effective effective_edges propagated_severity as_path_edge rounds
    add_edges update relax relax_all expand propagate impact_of impacts_of result_of scenario
    scored_weight scored_edge is_selected score evidence_fields event_fields
    evidence_was_available_after_observation historical_event replay_is_time_consistent scenario_run
    compare_times candidates_of newest choose select_as_of publish_run record_run replay impacts_by
    view_node checked_node view_nodes view_edge checked_edge view_edges build_scenario_graph_view
    lookup insert keep sorted text_le
program = tt

abbrev kept : Option (Result (Run hundredths archive) × Files) → Option Files
kept none = none
kept (some (r, after)) = some after

abbrev run_at : ℕ → Option (Result (Run hundredths archive) × Files)
run_at n = replay hundredths archive 3 "id" (time 9) event (time n) "run.json" 2 files

event_is_valid : historical_event hundredths archive.is_digest event ≡ ok event
unfolding program
event_is_valid = refl

too_early :
    run_at 2
    ≡ some (err (value_error "event evidence was unavailable at the requested replay time"), files)
unfolding program
too_early = refl

written : kept (run_at 5) ≡ some (insert "run.json" "run" files)
unfolding program
written = refl

abbrev result : ScenarioResult hundredths
result = record {
  shock_entity = "tsmc";
  shock_severity = 100;
  as_of_time = time 5;
  impacts = record { entity = "nvda"; severity = 75; confidence = 90; path = [] } ∷ [];
  limitations = [];
}

abbrev severities : List (ScenarioGraphNode hundredths) → List (String × ℕ)
severities [] = []
severities (n ∷ ns) = (n.id, n.severity) ∷ severities ns

abbrev shown : Result (ScenarioGraphView hundredths) → List (String × ℕ)
shown (ok view) = severities view.nodes
shown (err e) = []

viewed :
    shown (build_scenario_graph_view hundredths registry snapshot result)
    ≡ ("tsmc", 100) ∷ ("nvda", 75) ∷ []
unfolding program
viewed = refl

known : compare_times earlier (time 5) event.available_at ≡ ok false
unfolding program
known = refl

selected : select_as_of hundredths archive (time 5) files ≡ ok chosen
unfolding program
selected = refl

free : lookup "run.json" files ≡ none
unfolding program
free = refl

replay-Returns_example :
    (run : Run hundredths archive) × (replay hundredths archive
        (enough hundredths (scored_edges hundredths snapshot none) "tsmc" 100 (time 5) 2)
        "id"
        (time 9)
        event
        (time 5)
        "run.json"
        2
        files
      ≡ some (ok run, insert "run.json" "run" files))
    × (run.event ≡ event)
    × Reports hundredths (scored_edges hundredths snapshot none) (time 5) "tsmc" 100 2 run.result
replay-Returns_example =
    replay-Returns hundredths archive hundredths_laws weight_laws "id" (time 9) event (time 5)
      "run.json" 2 files chosen known selected refl refl refl (is_reviewed, tt) (endless 1, tt) full
      (omega arith) free

abbrev or_result : Option (Result (ScenarioResult hundredths)) → ScenarioResult hundredths
or_result none = result
or_result (some (err e)) = result
or_result (some (ok r)) = r

abbrev run_5 : Run hundredths archive
run_5 =
    run_of hundredths archive "id" event chosen (time 5) (time 9)
      (or_result (score hundredths snapshot 3 "tsmc" 100 (time 5) 2 none))

returned : run_at 5 ≡ some (ok run_5, insert "run.json" "run" files)
unfolding program
returned = refl

replay-Receipt_example :
    Receipt hundredths archive event (time 5) "run.json" files (insert "run.json" "run" files) run_5
replay-Receipt_example =
    replay-Receipt hundredths archive 3 "id" (time 9) event (time 5) "run.json" 2 files
      (insert "run.json" "run" files) run_5 returned
