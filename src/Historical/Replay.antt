-- ===== src/Historical/Replay.antt =====
-- historical/replay.py: the choice of a snapshot, the replay of an event and its write-once receipt.
use Prim.Native.Nat.{ℕ}
use agentic_alpha_engine.Prelude.{
  String, String_eq, ×_ord, ℕ_ord, String_ord, Ord, Bool, true, false, not, Option, none, some,
  List, [], ◌∷◌, keep, sorted, ◌<>◌, if◌then◌else◌,
}
use agentic_alpha_engine.Dict.{insert, has_key}
use agentic_alpha_engine.Effects.{Result, ok, err, value_error, other, Exec, raise}
use agentic_alpha_engine.Graph.Contracts.{DateTime, at_most, earlier, compare_times}
use agentic_alpha_engine.Scenario.Contracts.{Platform, ScenarioResult}
use agentic_alpha_engine.Scenario.Registry.{GraphSnapshot, Files}
use agentic_alpha_engine.Scenario.Scoring.{score}
use agentic_alpha_engine.Historical.Records.{HistoricalEvent, HistoricalScenarioRun, scenario_run}

-- What a replay takes from elsewhere: the files of the snapshots' directory, their reading and SHA-256,
-- the pattern of a digest, and the text of a receipt.
pub record Archive (w : Platform) : Type 0 where
  pub is_digest : String → Bool
  pub in_directory : String → Bool
  pub read_snapshot : String → Result (GraphSnapshot w)
  pub sha256 : String → String
  pub dump_run : HistoricalScenarioRun w is_digest → String

module _ (w : Platform) (a : Archive w) where
  abbrev pub Event : Type 0
  Event = HistoricalEvent w a.is_digest

  abbrev pub Run : Type 0
  Run = HistoricalScenarioRun w a.is_digest

  -- a path, the text there and the snapshot read from it
  pub record Candidate : Type 0 where
    pub path : String
    pub text : String
    pub snapshot : GraphSnapshot w

  abbrev pub add_if : Bool → Candidate → Result (List Candidate) → Result (List Candidate)
  add_if known candidate (err e) = err e
  add_if true candidate (ok found) = ok (candidate ∷ found)
  add_if false candidate (ok found) = ok found

  -- the loop over the files of the directory
  unfoldable pub candidates_of : DateTime → List (String × String) → Result (List Candidate)
  candidates_of as_of_time [] = ok []
  candidates_of as_of_time ((path, text) ∷ files) =
      let rest = candidates_of as_of_time files in
      elim (a.read_snapshot text) [
        | err e ↦ err e
        | ok snapshot ↦ elim (compare_times at_most snapshot.created_at as_of_time) [
          | err e ↦ err e
          | ok known ↦ add_if known (record { path = path; text = text; snapshot = snapshot }) rest
        ]
      ]

  -- `(candidate[1].created_at, candidate[1].snapshot_id)`
  abbrev pub candidate_key : Candidate → ℕ × String
  candidate_key c = ((c.snapshot).created_at.instant, (c.snapshot).snapshot_id)

  abbrev pub candidate_order : Ord (ℕ × String)
  candidate_order = ×_ord

  abbrev pub candidate_le : Candidate → Candidate → Bool
  candidate_le c d = candidate_order.le (candidate_key c) (candidate_key d)

  -- `max(candidates, key=...)`: the first of the greatest
  unfoldable pub newest : Candidate → List Candidate → Candidate
  newest c [] = c
  newest c (d ∷ ds) = newest (if candidate_le d c then c else d) ds

  unfoldable pub choose : List Candidate → Result Candidate
  choose [] =
      err (other "LookupError" "no graph snapshot was available at the requested as-of time")
  choose (c ∷ cs) = ok (newest c cs)

  -- `sorted(self._directory.glob("*.json"))`
  abbrev pub directory : Files → List (String × String)
  directory files = sorted (λ p. p.0) (keep (λ p. a.in_directory p.0) files)

  unfoldable pub select_as_of : DateTime → Files → Result Candidate
  select_as_of as_of_time files =
      if not as_of_time.has_zone
      then err (value_error "as_of_time must include a timezone")
      else elim (candidates_of as_of_time (directory files)) [
        | err e ↦ err e
        | ok found ↦ choose found
      ]

  -- `ScenarioRunStore.publish_new`
  unfoldable pub publish_run : String → Run → Exec Files Run
  publish_run path run files =
      if has_key path files
      then raise
          (other "FileExistsError" ("refusing to overwrite immutable scenario run: " <> path)) files
      else (ok run, insert path (a.dump_run run) files)

  -- the receipt of a result
  abbrev pub run_of : String → Event → Candidate → DateTime → DateTime → ScenarioResult w → Run
  run_of id event c as_of_time now result = record {
    scenario_run_id = id;
    event = event;
    graph_snapshot_id = (c.snapshot).snapshot_id;
    graph_snapshot_sha256 = a.sha256 c.text;
    as_of_time = as_of_time;
    created_at = now;
    result = result;
  }

  unfoldable pub record_run : String → Run → Exec Files Run
  record_run path run files = elim (scenario_run w a.is_digest run) [
    | err e ↦ (err e, files)
    | ok valid ↦ publish_run path valid files
  ]

  abbrev pub recorded :
      String
      → String
      → Event
      → Candidate
      → DateTime
      → DateTime
      → Files
      → Option (Result (ScenarioResult w))
      → Option (Result Run × Files)
  recorded path id event c as_of_time now files none = none
  recorded path id event c as_of_time now files (some (err e)) = some (err e, files)
  recorded path id event c as_of_time now files (some (ok result)) =
      some (record_run path (run_of id event c as_of_time now result) files)

  -- `HistoricalScenarioReplayer.replay`; the fuel is for the score, `id` and `now` are uuid4() and the
  -- clock
  unfoldable pub replay :
      ℕ → String → DateTime → Event → DateTime → String → ℕ → Files → Option (Result Run × Files)
  replay fuel id now event as_of_time run_path max_hops files =
      elim (compare_times earlier as_of_time event.available_at) [
        | err e ↦ some (err e, files)
        | ok true ↦
            some (
              err (value_error "event evidence was unavailable at the requested replay time"),
              files,
            )
        | ok false ↦ elim (select_as_of as_of_time files) [
          | err e ↦ some (err e, files)
          | ok c ↦ recorded run_path id event c as_of_time now files (
              score w c.snapshot fuel event.shock_entity_id event.shock_severity as_of_time max_hops
                none)
        ]
      ]
