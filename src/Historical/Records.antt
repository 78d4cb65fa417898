-- ===== src/Historical/Records.antt =====
-- historical/records.py: events and the receipts of their replays, with their validators.
use Prim.Native.String.{count}
use agentic_alpha_engine.Prelude.{
  String, String_eq, Bool, true, not, ◌&&◌, ◌||◌, List, [], ◌∷◌, length, leb, nat_eqb, ◌==◌,
  if◌then◌else◌,
}
use agentic_alpha_engine.Effects.{Result, ok, err, value_error, other}
use agentic_alpha_engine.Graph.Contracts.{DateTime, earlier}
use agentic_alpha_engine.Scenario.Contracts.{Platform, validated, in_unit, float_le, ScenarioResult}

pub record ScenarioEvidence : Type 0 where
  pub observation_id : String
  pub source_url : String
  pub content_sha256 : String

pub data EventKind : Type 0 where
  capacity_disruption geographic_or_regulatory demand_shock competitive_change : EventKind
  other_kind : EventKind

-- `a == b` on times
abbrev pub same_time : DateTime → DateTime → Bool
same_time a b = nat_eqb a.instant b.instant

module _ (w : Platform) (is_digest : String → Bool) where
  pub record HistoricalEvent : Type 0 where
    pub event_id : String
    pub title : String
    pub event_kind : EventKind
    pub description : String
    pub shock_entity_id : String
    pub shock_severity : w.Float
    pub observed_at : DateTime
    pub available_at : DateTime
    pub evidence : List ScenarioEvidence

  -- `Field(pattern=r"^[0-9a-f]{64}$")`, by its test `is_digest`
  unfoldable pub evidence_fields : List ScenarioEvidence → Bool
  evidence_fields [] = true
  evidence_fields (e ∷ es) =
      leb 1 (count e.source_url) && is_digest e.content_sha256 && evidence_fields es

  unfoldable pub event_fields : HistoricalEvent → Bool
  event_fields event =
      leb 1 (count event.event_id)
      && leb 1 (count event.title)
      && leb 1 (count event.description)
      && leb 1 (count event.shock_entity_id)
      && in_unit w event.shock_severity
      && leb 1 (length event.evidence)
      && evidence_fields event.evidence

  unfoldable pub evidence_was_available_after_observation : HistoricalEvent → Result HistoricalEvent
  evidence_was_available_after_observation event =
      if not (event.observed_at).has_zone || not (event.available_at).has_zone
      then err (value_error "event timestamps must include a timezone")
      else if earlier event.available_at event.observed_at
      then err (value_error "event available_at cannot precede observed_at")
      else ok event

  -- pydantic's construction of an event: its fields, then its validator
  unfoldable pub historical_event : HistoricalEvent → Result HistoricalEvent
  historical_event event =
      if not (event_fields event)
      then err (other "ValidationError" (w.invalid "HistoricalEvent" (event.shock_severity ∷ [])))
      else validated w "HistoricalEvent" (event.shock_severity ∷ [])
          (evidence_was_available_after_observation event)

  pub record HistoricalScenarioRun : Type 0 where
    pub scenario_run_id : String
    pub event : HistoricalEvent
    pub graph_snapshot_id : String
    pub graph_snapshot_sha256 : String
    pub as_of_time : DateTime
    pub created_at : DateTime
    pub result : ScenarioResult w

  -- `a == b` on floats
  abbrev pub same_float : w.Float → w.Float → Bool
  same_float a b = float_le w a b && float_le w b a

  unfoldable pub replay_is_time_consistent : HistoricalScenarioRun → Result HistoricalScenarioRun
  replay_is_time_consistent run =
      if not (run.as_of_time).has_zone || not (run.created_at).has_zone
      then err (value_error "scenario-run timestamps must include a timezone")
      else if earlier run.as_of_time (run.event).available_at
      then err (value_error "event evidence was unavailable at the scenario as-of time")
      else if not (same_time (run.result).as_of_time run.as_of_time)
      then err (value_error "scenario result must use the recorded as-of time")
      else if not ((run.result).shock_entity == (run.event).shock_entity_id)
      then err (value_error "scenario result shock entity must match the event")
      else if not (same_float (run.result).shock_severity (run.event).shock_severity)
      then err (value_error "scenario result shock severity must match the event")
      else ok run

  -- pydantic's construction of a receipt
  unfoldable pub scenario_run : HistoricalScenarioRun → Result HistoricalScenarioRun
  scenario_run run =
      if not (leb 1 (count run.graph_snapshot_id) && is_digest run.graph_snapshot_sha256)
      then err (other "ValidationError" (w.invalid "HistoricalScenarioRun" []))
      else validated w "HistoricalScenarioRun" [] (replay_is_time_consistent run)
