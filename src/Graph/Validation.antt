-- ===== src/Graph/Validation.antt =====
-- temporal_graph/contracts.py: `TemporalGraphSnapshot.validate_graph`.
use agentic_alpha_engine.Prelude.{
  String, Bool, true, false, not, ◌&&◌, ◌||◌, Option, none, some, List, [], ◌∷◌, ◌++◌, map,
  String_eq, ×_eq, contains, is_unique, text_le, if◌then◌else◌, ◌<>◌,
}
use agentic_alpha_engine.Dict.{Dict, lookup, insert}
use agentic_alpha_engine.Effects.{Result, ok, err, value_error}
use agentic_alpha_engine.Graph.Contracts.{
  Library, RelationSemantics, is_instrument, GraphNode, GraphRelationship, GraphEdgeState,
  TemporalGraphSnapshot, effective_overlap, knowledge_overlap,
}

-- `{key(item): item for item in items}`
unfoldable pub index_by : {A : Type 0} → (A → String) → List A → Dict String A → Dict String A
index_by key [] d = d
index_by key (x ∷ xs) d = index_by key xs (insert (key x) x d)

abbrev pub Pair : Type 0
Pair = String × (String × String)

-- `min` and `max` of two texts
abbrev pub min_text : String → String → String
min_text a b = if text_le a b then a else b

abbrev pub max_text : String → String → String
max_text a b = if text_le b a then a else b

abbrev pub is_symmetric : RelationSemantics → Bool
is_symmetric RelationSemantics.symmetric = true
is_symmetric RelationSemantics.directed = false

module _ (w : Library) where
  -- the first instrument with no instrument node
  unfoldable pub missing_instrument : Dict String (GraphNode w) → List String → Option String
  missing_instrument nodes [] = none
  missing_instrument nodes (id ∷ ids) =
      let rest = missing_instrument nodes ids in
      elim (lookup id nodes) [
        | none ↦ some id
        | some node ↦ if is_instrument node.kind then rest else some id
      ]

  -- the endpoints that an edge is compared by, under its relationship
  unfoldable pub pair_of : GraphRelationship w → GraphEdgeState w → Pair
  pair_of relationship edge =
      if is_symmetric relationship.semantics
      then (
        edge.relationship_id,
        (
          min_text edge.source_node_id edge.target_node_id,
          max_text edge.source_node_id edge.target_node_id,
        ),
      )
      else (edge.relationship_id, (edge.source_node_id, edge.target_node_id))

  -- `seen_pairs`
  abbrev pub SeenPairs : Type 0
  SeenPairs = Dict Pair (List (GraphEdgeState w))

  abbrev pub or_empty : Option (List (GraphEdgeState w)) → List (GraphEdgeState w)
  or_empty none = []
  or_empty (some edges) = edges

  -- `seen_pairs.get(pair, [])`
  abbrev pub seen_at : Pair → SeenPairs → List (GraphEdgeState w)
  seen_at pair seen = or_empty (lookup pair seen)

  abbrev pub clashes : GraphEdgeState w → GraphEdgeState w → Bool
  clashes prior edge = effective_overlap w prior edge && knowledge_overlap w prior edge

  unfoldable pub any_clash : List (GraphEdgeState w) → GraphEdgeState w → Bool
  any_clash [] edge = false
  any_clash (prior ∷ priors) edge = clashes prior edge || any_clash priors edge

  abbrev pub Relations : Type 0
  Relations = Dict String (GraphRelationship w)

  -- one round of the loop over the edges, under the edge's relationship
  unfoldable pub check_pair : Pair → SeenPairs → GraphEdgeState w → Result SeenPairs
  check_pair pair seen edge =
      if any_clash (seen_at pair seen) edge
      then err (value_error "snapshot contains overlapping bitemporal intervals for edge endpoints")
      else ok (insert pair (seen_at pair seen ++ edge ∷ []) seen)

  unfoldable pub check_edge :
      List String → Relations → SeenPairs → GraphEdgeState w → Result SeenPairs
  check_edge nodes relations seen edge =
      if not (contains nodes edge.source_node_id) || not (contains nodes edge.target_node_id)
      then err (value_error ("edge " <> edge.edge_id <> " has an unregistered endpoint"))
      else elim (lookup edge.relationship_id relations) [
        | none ↦ err (value_error ("edge " <> edge.edge_id <> " has an unregistered relationship"))
        | some relationship ↦ check_pair (pair_of relationship edge) seen edge
      ]

  unfoldable pub check_edges :
      List String → Relations → List (GraphEdgeState w) → SeenPairs → Result SeenPairs
  check_edges nodes relations [] seen = ok seen
  check_edges nodes relations (edge ∷ edges) seen = elim (check_edge nodes relations seen edge) [
    | err e ↦ err e
    | ok seen' ↦ check_edges nodes relations edges seen'
  ]

  abbrev pub relations_of : TemporalGraphSnapshot w → Relations
  relations_of snapshot = index_by (λ r. r.relationship_id) snapshot.relationships []

  abbrev pub nodes_of : TemporalGraphSnapshot w → Dict String (GraphNode w)
  nodes_of snapshot = index_by (λ n. n.node_id) snapshot.nodes []

  abbrev pub node_ids : TemporalGraphSnapshot w → List String
  node_ids snapshot = map (λ n. n.node_id) snapshot.nodes

  -- the checks of the edges, and the snapshot
  unfoldable pub validate_edges : TemporalGraphSnapshot w → Result (TemporalGraphSnapshot w)
  validate_edges snapshot =
      elim (check_edges (node_ids snapshot) (relations_of snapshot) snapshot.edge_states []) [
        | err e ↦ err e
        | ok seen ↦ ok snapshot
      ]

  unfoldable pub validate_graph : TemporalGraphSnapshot w → Result (TemporalGraphSnapshot w)
  validate_graph snapshot =
      if not (is_unique (node_ids snapshot))
      then err (value_error "snapshot contains duplicate node IDs")
      else if not (is_unique snapshot.universe_instrument_ids)
      then err (value_error "snapshot contains duplicate universe instrument IDs")
      else elim (missing_instrument (nodes_of snapshot) snapshot.universe_instrument_ids) [
        | some id ↦ err (value_error ("universe instrument " <> id <> " has no instrument node"))
        | none ↦
            if not (is_unique (map (λ r. r.relationship_id) snapshot.relationships))
            then err (value_error "snapshot contains duplicate relationship IDs")
            else if not (is_unique (map (λ e. e.edge_id) snapshot.edge_states))
            then err (value_error "snapshot contains duplicate edge IDs")
            else validate_edges snapshot
      ]
