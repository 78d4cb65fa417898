-- ===== src/Historical/View.antt =====
-- historical/view.py: the graph view of a scenario.
use agentic_alpha_engine.Prelude.{
  String, String_eq, Bool, Option, none, some, List, [], ◌∷◌, ◌==◌, if◌then◌else◌,
}
use agentic_alpha_engine.Dict.{Dict, lookup, insert}
use agentic_alpha_engine.Effects.{Result, ok, err, other}
use agentic_alpha_engine.Scenario.Contracts.{Platform, all_in_unit, ScenarioImpact, ScenarioResult}
use agentic_alpha_engine.Scenario.Registry.{
  EntityRecord, EntityRegistry, ReviewedGraphEdge, GraphSnapshot, RelationshipType,
}

module _ (w : Platform) where
  pub record ScenarioGraphNode : Type 0 where
    pub id : String
    pub label : String
    pub tradeable : Bool
    pub severity : w.Float
    pub confidence : w.Float

  pub record ScenarioGraphEdge : Type 0 where
    pub id : String
    pub source : String
    pub target : String
    pub relationship_type : RelationshipType
    pub dependency_strength : w.Float
    pub substitutability : w.Float
    pub confidence : w.Float
    pub freshness : w.Float
    pub evidence_url : String

  pub record ScenarioGraphView : Type 0 where
    pub snapshot_id : String
    pub as_of_time : String
    pub nodes : List ScenarioGraphNode
    pub edges : List ScenarioGraphEdge

  -- `{impact.entity: impact for impact in scenario.impacts}`
  unfoldable pub impacts_by :
      List (ScenarioImpact w) → Dict String (ScenarioImpact w) → Dict String (ScenarioImpact w)
  impacts_by [] d = d
  impacts_by (i ∷ is) d = impacts_by is (insert i.entity i d)

  unfoldable pub view_node :
      ScenarioResult w → Option (ScenarioImpact w) → EntityRecord → ScenarioGraphNode
  view_node scenario none entity = record {
    id = entity.entity_id;
    label = entity.legal_name;
    tradeable = entity.tradeable;
    severity =
        if entity.entity_id == scenario.shock_entity then scenario.shock_severity else w.float_0;
    confidence = if entity.entity_id == scenario.shock_entity then w.float_1 else w.float_0;
  }
  view_node scenario (some impact) entity = record {
    id = entity.entity_id;
    label = entity.legal_name;
    tradeable = entity.tradeable;
    severity = impact.severity;
    confidence = impact.confidence;
  }

  -- the constructor of `ScenarioGraphNode` validates
  unfoldable pub checked_node : ScenarioGraphNode → Result ScenarioGraphNode
  checked_node node =
      if all_in_unit w (node.severity ∷ node.confidence ∷ [])
      then ok node
      else err (
          other "ValidationError"
            (w.invalid "ScenarioGraphNode" (node.severity ∷ node.confidence ∷ [])))

  unfoldable pub view_nodes :
      ScenarioResult w
      → Dict String (ScenarioImpact w)
      → List EntityRecord
      → Result (List ScenarioGraphNode)
  view_nodes scenario impacts [] = ok []
  view_nodes scenario impacts (entity ∷ entities) =
      let rest = view_nodes scenario impacts entities in
      elim (checked_node (view_node scenario (lookup entity.entity_id impacts) entity)) [
        | err e ↦ err e
        | ok node ↦ elim rest [ err e ↦ err e | ok nodes ↦ ok (node ∷ nodes) ]
      ]

  unfoldable pub view_edge : ReviewedGraphEdge w → ScenarioGraphEdge
  view_edge edge = record {
    id = edge.edge_id;
    source = edge.upstream_entity_id;
    target = edge.downstream_entity_id;
    relationship_type = edge.relationship_type;
    dependency_strength = edge.dependency_strength;
    substitutability = edge.substitutability;
    confidence = edge.confidence;
    freshness = edge.freshness;
    evidence_url = (edge.evidence).source_url;
  }

  unfoldable pub checked_edge : ScenarioGraphEdge → Result ScenarioGraphEdge
  checked_edge edge =
      let values =
        edge.dependency_strength ∷ edge.substitutability ∷ edge.confidence ∷ edge.freshness ∷ [] in
      if all_in_unit w values
      then ok edge
      else err (other "ValidationError" (w.invalid "ScenarioGraphEdge" values))

  unfoldable pub view_edges : List (ReviewedGraphEdge w) → Result (List ScenarioGraphEdge)
  view_edges [] = ok []
  view_edges (edge ∷ edges) =
      let rest = view_edges edges in
      elim (checked_edge (view_edge edge)) [
        | err e ↦ err e
        | ok shown ↦ elim rest [ err e ↦ err e | ok more ↦ ok (shown ∷ more) ]
      ]

  unfoldable pub build_scenario_graph_view :
      EntityRegistry → GraphSnapshot w → ScenarioResult w → Result ScenarioGraphView
  build_scenario_graph_view registry snapshot scenario =
      elim (view_nodes scenario (impacts_by scenario.impacts []) registry.entities) [
        | err e ↦ err e
        | ok nodes ↦ elim (view_edges snapshot.edges) [
          | err e ↦ err e
          | ok edges ↦ ok (record {
            snapshot_id = snapshot.snapshot_id;
            as_of_time = (scenario.as_of_time).isoformat;
            nodes = nodes;
            edges = edges;
          })
        ]
      ]
