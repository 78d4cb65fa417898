-- ===== src/Historical/Receipts.antt =====
-- historical/replay.py: what a replay that returned has used and written, and when it returns.
use Prim.Native.Nat.{ℕ, ◌≤◌}
use Prim.Native.String.{count}
use mathlib.Core.Option.{some-injective}
use agentic_alpha_engine.Prelude.{
  ◌≡◌, refl, sym, ap, subst, ◌∙◌, ◌<>◌, inl, inr, String, String_eq, Bool, true, false, Option,
  none, some, ==_iff, leb, ◌&&◌, arith, All, Bool-cases, Option-cases,
}
use agentic_alpha_engine.Dict.{lookup, insert}
use agentic_alpha_engine.Effects.{Error, Result, ok, err, other, ok_injective, result_cases}
use agentic_alpha_engine.Graph.Contracts.{compare_times, DateTime, at_most, earlier}
use agentic_alpha_engine.Scenario.Contracts.{Platform, in_unit, ScenarioResult}
use agentic_alpha_engine.Scenario.Registry.{Files, reviewed_edge}
use agentic_alpha_engine.Scenario.Scoring.{score, scored_edges, WeightLaws, score-Reports}
use agentic_alpha_engine.Scenario.Walks.{UnitLaws}
use agentic_alpha_engine.Scenario.Adjacency.{Comparable}
use agentic_alpha_engine.Scenario.Fuel.{enough}
use agentic_alpha_engine.Scenario.Strongest.{Reports}
use agentic_alpha_engine.Historical.Records.{same_float, replay_is_time_consistent, scenario_run}
use agentic_alpha_engine.Historical.Replay.{
  Archive, Event, Run, Candidate, select_as_of, publish_run, run_of, record_run, recorded, replay,
}
use agentic_alpha_engine.Historical.Selected as Choice

module _ (w : Platform) (a : Archive w) where
  -- What a replay that returned `run` has used, and the files it left.
  pub record Receipt (event : Event w a) (at : DateTime) (path : String) (files after : Files)
      (run : Run w a) : Type 0 where
    pub chosen : Candidate w a
    pub selected : Choice.Selected w a at files chosen
    pub event_known : at_most (event.available_at) at ≡ true
    pub of_event : run.event ≡ event
    pub of_snapshot : run.graph_snapshot_id ≡ (chosen.snapshot).snapshot_id
    pub of_text : run.graph_snapshot_sha256 ≡ a.sha256 chosen.text
    pub fresh : lookup path files ≡ none
    pub written : after ≡ insert path (a.dump_run run) files

  scenario_run-ok : (given run : Run w a) → scenario_run w a.is_digest given ≡ ok run → given ≡ run
  unfolding scenario_run replay_is_time_consistent
  scenario_run-ok given run h = ground (arith, h)

  publish_run-free :
      (path : String) (run : Run w a) (files : Files)
      → lookup path files ≡ none
      → publish_run w a path run files ≡ (ok run, insert path (a.dump_run run) files)
  unfolding publish_run
  publish_run-free path run files h = ground (arith, h)

  publish_run-taken :
      (path text : String) (run : Run w a) (files : Files)
      → lookup path files ≡ some text
      → (e : Error) × (publish_run w a path run files ≡ (err e, files))
  unfolding publish_run
  publish_run-taken path text run files h = (
    other "FileExistsError" ("refusing to overwrite immutable scenario run: " <> path),
    ground (arith, h),
  )

  publish_run-ok :
      (path : String) (given run : Run w a) (files after : Files)
      → publish_run w a path given files ≡ (ok run, after)
      → (given ≡ run) × (lookup path files ≡ none) × (after ≡ insert path (a.dump_run run) files)
  publish_run-ok path given run files after h = elim (Option-cases (lookup path files)) [
    | inr (t, taken) ↦
        let (e, failed) = publish_run-taken path t given files taken in
        absurd (clash e (ap (λ r. r.0) (sym failed ∙ h)))
    | inl free ↦
        let both = sym (publish_run-free path given files free) ∙ h in
        let same = ok_injective (ap (λ r. r.0) both) in
        (same, free, sym (ap (λ r. r.1) both) ∙ ap (λ r. insert path (a.dump_run r) files) same)
  ]
    where
      clash : (e : Error) → err e ≡ ok run → ⊥
      clash e is = ground (arith, is)

  record_run-ok :
      (path : String) (given run : Run w a) (files after : Files)
      → record_run w a path given files ≡ (ok run, after)
      → (given ≡ run) × (lookup path files ≡ none) × (after ≡ insert path (a.dump_run run) files)
  unfolding record_run
  record_run-ok path given run files after h =
      elim (result_cases (scenario_run w a.is_digest given)) [
        | inr (e, failed) ↦ absurd (ground (arith, h, failed))
        | inl (valid, is) ↦
            let (same, free, written) =
              publish_run-ok path valid run files after (stored valid is) in
            (scenario_run-ok given valid is ∙ same, free, written)
      ]
    where
      stored :
          (valid : Run w a)
          → scenario_run w a.is_digest given ≡ ok valid
          → publish_run w a path valid files ≡ (ok run, after)
      stored valid is = ground (arith, h, is)

  recorded-ok :
      (path id : String) (event : Event w a) (c : Candidate w a) (at now : DateTime)
      (files after : Files) (run : Run w a) (o : Option (Result (ScenarioResult w)))
      → recorded w a path id event c at now files o ≡ some (ok run, after)
      → (result : ScenarioResult w) × (run_of w a id event c at now result ≡ run)
        × (lookup path files ≡ none)
        × (after ≡ insert path (a.dump_run run) files)
  recorded-ok path id event c at now files after run none h = absurd (ground (arith, h))
  recorded-ok path id event c at now files after run (some (err e)) h = absurd (ground (arith, h))
  recorded-ok path id event c at now files after run (some (ok result)) h =
      let (same, free, written) =
        record_run-ok path (run_of w a id event c at now result) run files after
          (some-injective _ _ h) in
      (result, same, free, written)

  -- A replay that returned has used an event that was available by the time, and a snapshot of the
  -- directory that was created by it and is the newest of those; its receipt is of these, and is the
  -- only file it wrote, where there was none.
  pub replay-Receipt :
      (fuel : ℕ) (id : String) (now : DateTime) (event : Event w a) (at : DateTime) (path : String)
      (max_hops : ℕ) (files after : Files) (run : Run w a)
      → replay w a fuel id now event at path max_hops files ≡ some (ok run, after)
      → Receipt event at path files after run
  unfolding replay
  replay-Receipt fuel id now event at path max_hops files after run h =
      elim (result_cases (compare_times earlier at event.available_at)) [
        | inr (e, failed) ↦ absurd (ground (arith, h, failed))
        | inl (b, compared) ↦ elim (Bool-cases b) [
          | inl late ↦ absurd (too_late b compared late)
          | inr known ↦ elim (result_cases (select_as_of w a at files)) [
            | inr (e, failed) ↦ absurd (none_found b e compared known failed)
            | inl (c, selected) ↦
                let (result, same, free, written) =
                  recorded-ok path id event c at now files after run _
                    (scored b c compared known selected) in
                record {
                  chosen = c;
                  selected = Choice.select_as_of-Selected w a at files c selected;
                  event_known = in_time (
                      Choice.compare_times-ok w a earlier at event.available_at b compared ∙ known);
                  of_event = ap (λ (r : Run w a). r.event) (sym same);
                  of_snapshot = ap (λ (r : Run w a). r.graph_snapshot_id) (sym same);
                  of_text = ap (λ (r : Run w a). r.graph_snapshot_sha256) (sym same);
                  fresh = free;
                  written = written;
                }
          ]
        ]
      ]
    where
      too_late : (b : Bool) → compare_times earlier at event.available_at ≡ ok b → b ≡ true → ⊥
      too_late b compared late = ground (arith, h, compared, late)

      none_found :
          (b : Bool) (e : Error)
          → compare_times earlier at event.available_at ≡ ok b
          → b ≡ false
          → select_as_of w a at files ≡ err e
          → ⊥
      none_found b e compared known failed = ground (arith, h, compared, known, failed)

      scored :
          (b : Bool) (c : Candidate w a)
          → compare_times earlier at event.available_at ≡ ok b
          → b ≡ false
          → select_as_of w a at files ≡ ok c
          → recorded w a path id event c at now files
              (score w c.snapshot fuel event.shock_entity_id event.shock_severity at max_hops none)
            ≡ some (ok run, after)
      scored b c compared known selected = ground (arith, h, compared, known, selected)

      in_time : earlier at event.available_at ≡ false → at_most event.available_at at ≡ true
      in_time early = ground (arith, early)

  same_float_self : (x y : w.Float) → x ≡ y → same_float w a.is_digest x y ≡ true
  same_float_self x y is =
      subst (λ z. same_float w a.is_digest x z ≡ true) is
        (ground (arith, (w.float_ord).le_total x x))

  -- The receipt of a result of the event at the time is valid.
  scenario_run-valid :
      (id : String) (event : Event w a) (c : Candidate w a) (at now : DateTime)
      (result : ScenarioResult w)
      → at.has_zone ≡ true
      → now.has_zone ≡ true
      → earlier at event.available_at ≡ false
      → (leb 1 (count (c.snapshot).snapshot_id) && a.is_digest (a.sha256 c.text)) ≡ true
      → result.as_of_time ≡ at
      → result.shock_entity ≡ event.shock_entity_id
      → result.shock_severity ≡ event.shock_severity
      → scenario_run w a.is_digest (run_of w a id event c at now result)
        ≡ ok (run_of w a id event c at now result)
  unfolding scenario_run replay_is_time_consistent
  scenario_run-valid id event c at now result zoned zoned' known named of_time of_entity
        of_severity =
      ground (
        arith,
        zoned,
        zoned',
        known,
        named,
        ap (λ (t : DateTime). t.instant) of_time,
        (==_iff result.shock_entity event.shock_entity_id).1 of_entity,
        same_float_self result.shock_severity event.shock_severity of_severity,
      )

  record_run-written :
      (path : String) (run : Run w a) (files : Files)
      → scenario_run w a.is_digest run ≡ ok run
      → lookup path files ≡ none
      → record_run w a path run files ≡ (ok run, insert path (a.dump_run run) files)
  unfolding record_run
  record_run-written path run files valid free =
      rw (record_run, valid) (publish_run-free path run files free)

  module _ (unit_laws : UnitLaws w) (laws : WeightLaws w) where
    -- A replay at a time with a zone returns when the clock's time has one, its event, of a severity in
    -- [0, 1], was available by the time, a snapshot is selected, of reviewed edges whose times all have
    -- zones, with a name and a digest of its text, there is at least one hop and its path is free. Its
    -- receipt then is of the event, and has the result that reports the walks of the snapshot's edges.
    pub replay-Returns :
        (id : String) (now : DateTime) (event : Event w a) (at : DateTime) (path : String)
        (max_hops : ℕ) (files : Files) (c : Candidate w a)
        → compare_times earlier at event.available_at ≡ ok false
        → select_as_of w a at files ≡ ok c
        → at.has_zone ≡ true
        → now.has_zone ≡ true
        → (leb 1 (count (c.snapshot).snapshot_id) && a.is_digest (a.sha256 c.text)) ≡ true
        → All (λ e. reviewed_edge w e ≡ ok e) (c.snapshot).edges
        → All (λ e. Comparable at e.effective_from e.effective_to) (c.snapshot).edges
        → in_unit w event.shock_severity ≡ true
        → 1 ≤ max_hops
        → lookup path files ≡ none
        → (run : Run w a) × (replay w a
              (enough w
                (scored_edges w c.snapshot none)
                event.shock_entity_id
                event.shock_severity
                at
                max_hops)
              id
              now
              event
              at
              path
              max_hops
              files
            ≡ some (ok run, insert path (a.dump_run run) files))
          × (run.event ≡ event)
          × Reports w
              (scored_edges w c.snapshot none)
              at
              event.shock_entity_id
              event.shock_severity
              max_hops
              run.result
    unfolding replay
    replay-Returns id now event at path max_hops files c known selected zoned zoned' named reviewed
          zones unit hops free =
        let (result, scored, reports, all, whole) =
          score-Reports w unit_laws laws c.snapshot none reviewed event.shock_entity_id
            event.shock_severity at max_hops zones unit hops in
        let run = run_of w a id event c at now result in
        let valid =
          scenario_run-valid id event c at now result zoned zoned'
            (Choice.compare_times-ok w a earlier at event.available_at false known) named
            reports.of_time reports.of_entity reports.of_severity in
        (
          run,
          rw (replay, known, selected, scored)
              (ap some (record_run-written path run files valid free)),
          refl,
          reports,
        )
