-- ===== src/Graph/Tests.antt =====
-- Publications and replays of small snapshots, and each theorem at an input that meets its hypotheses.
use Prim.Native.Nat.{ℕ}
use agentic_alpha_engine.Prelude.{
  ◌≡◌, refl, String, true, none, ◌≤◌, [], ◌∷◌, All, String_eq, sorted, some, contains, is_unique,
  text_le, Pairwise,
}
use agentic_alpha_engine.Dict.{lookup, insert, values}
use agentic_alpha_engine.Effects.{ok, err, value_error}
use agentic_alpha_engine.Graph.Contracts.{
  RelationSemantics, GraphRelationship, NodeKind, GraphNode, DateTime, at_most, Library,
  ContractBase, GraphEdgeState, TemporalGraphSnapshot, LifecycleStatus, EligibilityStatus, aware,
  effective_overlap, knowledge_overlap, is_visible, filter_visible, visible_edge_states,
}
use agentic_alpha_engine.Graph.Repository.{
  Snapshots, receipt_of, publish, get_snapshot, of_workspace, list_snapshots, last_of, replay_time,
  known_by, replay_of, replay,
}
use agentic_alpha_engine.Graph.Publication.{Publishes, here, next, publish_kept}
use agentic_alpha_engine.Graph.Selection.{precedes}
use agentic_alpha_engine.Graph.Visibility.{shown_together}
use agentic_alpha_engine.Graph.Validation.{
  index_by, missing_instrument, Pair, pair_of, any_clash, check_pair, check_edge, check_edges,
  relations_of, validate_edges, validate_graph,
}
use agentic_alpha_engine.Graph.Apart.{HasPair, validate_graph-Apart}
use agentic_alpha_engine.Graph.Replay.{seen_at, replay_latest}

abbrev library : Library
library = record { Float = ℕ; Attributes = Unit {0}; repr = λ s. s; repr_pair = λ s t. s }

abbrev time : ℕ → DateTime
time n = record { instant = n; isoformat = "t"; has_zone = true }

abbrev base : ContractBase
base = record { schema_version = "1"; version = 1; created_at = time 0 }

-- an edge in effect from one instant and known from another
abbrev edge : String → ℕ → ℕ → GraphEdgeState library
edge id start known = record {
  base = base;
  edge_id = id;
  relationship_id = "supplies";
  source_node_id = "a";
  target_node_id = "b";
  effective_from = time start;
  effective_to = none;
  knowledge_from = time known;
  knowledge_to = none;
  evidence_ids = "e" ∷ [];
  confidence = 1;
  economic_exposure = 1;
  propagation_coefficient = 1;
  lifecycle_status = LifecycleStatus.active;
  strategy_eligible = EligibilityStatus.eligible;
  attributes = tt;
}

abbrev snapshot : String → ℕ → TemporalGraphSnapshot library
snapshot id published = record {
  base = base;
  snapshot_id = id;
  workspace_id = "w";
  universe_id = "u";
  universe_instrument_ids = "a" ∷ [];
  parent_snapshot_id = none;
  published_at = time published;
  as_of_time = time published;
  knowledge_time = time published;
  nodes = [];
  relationships = [];
  edge_states = edge "e1" 1 1 ∷ edge "e2" 1 6 ∷ [];
  source_run_id = none;
}

abbrev sha256 : TemporalGraphSnapshot library → String
sha256 s = s.snapshot_id

abbrev first : Snapshots library sha256
first = (publish library sha256 (snapshot "s1" 3) []).1

abbrev second : Snapshots library sha256
second = (publish library sha256 (snapshot "s2" 5) first).1

program : Unit {0}
unfolding lookup insert publish receipt_of get_snapshot of_workspace list_snapshots last_of
    replay_time known_by replay_of replay visible_edge_states filter_visible is_visible aware sorted
    index_by missing_instrument pair_of any_clash check_pair check_edge check_edges validate_edges
    validate_graph is_unique contains effective_overlap knowledge_overlap text_le
program = tt

published :
    (publish library sha256 (snapshot "s1" 3) []).0
    ≡ ok (receipt_of library sha256 (snapshot "s1" 3))
unfolding program
published = refl

to_second : Publishes library sha256 first second
to_second = next (snapshot "s2" 5) here

publish_kept_example :
    (y : TemporalGraphSnapshot library) × (sha256 y ≡ sha256 (snapshot "s1" 3))
    × (receipt_of library sha256 (snapshot "s1" 3) ≡ receipt_of library sha256 y)
    × (get_snapshot library sha256 "s1" second ≡ ok y)
publish_kept_example =
    publish_kept library sha256 (snapshot "s1" 3) [] second
      (receipt_of library sha256 (snapshot "s1" 3)) published to_second

-- At knowledge time 4 only the first snapshot is known, and of its edges only the first.
replayed :
    replay library sha256 "w" (time 9) (time 4) second
    ≡ ok (seen_at library sha256 (snapshot "s1" 3) (time 9) (time 4))
unfolding program
replayed = refl

edges_at_4 :
    (seen_at library sha256 (snapshot "s1" 3) (time 9) (time 4)).edge_states ≡ edge "e1" 1 1 ∷ []
unfolding program
edges_at_4 = refl

abbrev shown : TemporalGraphSnapshot library
shown = seen_at library sha256 (snapshot "s1" 3) (time 9) (time 4)

replay_latest_example :
    (source : TemporalGraphSnapshot library) × (source.workspace_id ≡ "w")
    × (source.published_at.instant ≤ 4)
    × All
        (λ x.
          x.workspace_id ≡ "w"
          → at_most x.published_at (time 4) ≡ true
          → precedes library sha256 x source ≡ true)
        (values second)
    × (shown ≡ seen_at library sha256 source (time 9) (time 4))
    × All (λ e. (e.effective_from.instant ≤ 9) × (e.knowledge_from.instant ≤ 4)) shown.edge_states
replay_latest_example = replay_latest library sha256 "w" (time 9) (time 4) second shown replayed

shown_1 : is_visible library (time 9) (time 4) (edge "e1" 1 1) ≡ true
unfolding program
shown_1 = refl

shown_3 : is_visible library (time 9) (time 4) (edge "e3" 2 3) ≡ true
unfolding program
shown_3 = refl

shown_together_example :
    (effective_overlap library (edge "e1" 1 1) (edge "e3" 2 3) ≡ true)
    × (knowledge_overlap library (edge "e1" 1 1) (edge "e3" 2 3) ≡ true)
shown_together_example =
    shown_together library (time 9) (time 4) (edge "e1" 1 1) (edge "e3" 2 3) shown_1 shown_3

abbrev supplies : GraphRelationship library
supplies = record {
  base = base;
  relationship_id = "supplies";
  name = "supplies";
  semantics = RelationSemantics.symmetric;
  description = "";
}

abbrev node : String → GraphNode library
node id = record {
  base = base;
  node_id = id;
  kind = NodeKind.instrument;
  label = id;
  properties = tt;
  lifecycle_status = LifecycleStatus.active;
  strategy_eligible = true;
}

-- The second edge is in effect where the first no longer is, with its endpoints exchanged.
abbrev succession : TemporalGraphSnapshot library
succession = record (snapshot "s3" 7) {
  nodes = node "a" ∷ node "b" ∷ [];
  relationships = supplies ∷ [];
  edge_states =
      record (edge "e1" 1 1) { effective_to = some (time 4) }
      ∷ record (edge "e2" 4 4) { source_node_id = "b"; target_node_id = "a" }
      ∷ [];
}

succession_is_valid : validate_graph library succession ≡ ok succession
unfolding program
succession_is_valid = refl

-- The edges of `snapshot` overlap.
overlap_is_refused :
    validate_graph library (record succession { edge_states = edge "e1" 1 1 ∷ edge "e2" 1 6 ∷ [] })
    ≡ err (value_error "snapshot contains overlapping bitemporal intervals for edge endpoints")
unfolding program
overlap_is_refused = refl

validate_graph-Apart_example :
    (succession ≡ succession)
    × Pairwise
        (λ e f.
          (p : Pair)
          → HasPair library (relations_of library succession) e p
          → HasPair library (relations_of library succession) f p
          → ⊥)
        (filter_visible library (time 4) (time 5) succession.edge_states)
validate_graph-Apart_example =
    validate_graph-Apart library (time 4) (time 5) succession succession succession_is_valid
