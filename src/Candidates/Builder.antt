-- ===== src/Candidates/Builder.antt =====
-- candidate_graph.py: `CandidateGraphBuilder`.
use Prim.Native.Nat.{ℕ, suc, ◌+◌}
use agentic_alpha_engine.Prelude.{
  String, String_eq, ×_eq, Bool, false, not, ◌&&◌, none, some, List, [], ◌∷◌, ◌++◌, ltb, length,
  contains, ◌<>◌, ◌==◌, keep, if◌then◌else◌,
}
use agentic_alpha_engine.Dict.{Dict, lookup, insert, has_key, values}
use agentic_alpha_engine.Effects.{Result, ok, err, value_error, other}
use agentic_alpha_engine.Scenario.Contracts.{Platform}
use agentic_alpha_engine.Scenario.Registry.{EntityRecord, EntityRegistry, entity_ids}
use agentic_alpha_engine.Candidates.Contracts.{
  Texts, type_value, is_eligible, anchor, discovered, is_discovered, approved, candidate,
  CandidateGraphEntity, checked_entity, DiscoveredRelationship, CandidateGraphEdge, checked_edge,
  CandidateEvidenceGraph,
}

-- the node of an entity of the registry
abbrev pub anchor_of : EntityRecord → CandidateGraphEntity
anchor_of entity = record {
  entity_id = entity.entity_id;
  display_name = entity.legal_name;
  kind = anchor;
  tradeable = entity.tradeable;
  discovery_depth = 0;
  status = approved;
}

abbrev pub slug_or_unknown : String → String
slug_or_unknown slug = if slug == "" then "unknown" else slug

-- `next(item for item in entities if item.entity_id == resolved)`
unfoldable pub entity_with : String → List EntityRecord → Result EntityRecord
entity_with id [] = err (other "StopIteration" "")
entity_with id (e ∷ es) = let rest = entity_with id es in if e.entity_id == id then ok e else rest

abbrev pub Nodes : Type 0
Nodes = Dict String CandidateGraphEntity

-- the anchors, by their ids
unfoldable pub anchors : List EntityRecord → Nodes → Result Nodes
anchors [] d = ok d
anchors (e ∷ es) d = elim (checked_entity (anchor_of e)) [
  | err x ↦ err x
  | ok node ↦ anchors es (insert e.entity_id node d)
]

-- the discovered nodes among some
abbrev pub discovered_among : List CandidateGraphEntity → List CandidateGraphEntity
discovered_among = keep (λ n. is_discovered n.kind)

module _ (t : Texts) where
  -- the aliases of one entity, then of all
  unfoldable pub add_aliases : String → List String → Dict String String → Dict String String
  add_aliases id [] d = d
  add_aliases id (alias ∷ aliases) d = add_aliases id aliases (insert (t.casefold alias) id d)

  unfoldable pub aliases_of : List EntityRecord → Dict String String → Dict String String
  aliases_of [] d = d
  aliases_of (e ∷ es) d =
      aliases_of es (add_aliases e.entity_id (e.entity_id ∷ e.legal_name ∷ e.aliases) d)

  abbrev pub normalized : String → String
  normalized name = t.strip (t.casefold name)

  abbrev pub candidate_id : String → String
  candidate_id name = "candidate:" <> slug_or_unknown (t.slug (normalized name))

  abbrev pub discovered_of : String → CandidateGraphEntity
  discovered_of name = record {
    entity_id = candidate_id name;
    display_name = t.strip name;
    kind = discovered;
    tradeable = false;
    discovery_depth = 1;
    status = candidate;
  }

  -- `_resolve`; the node has the id
  unfoldable pub resolve : EntityRegistry → String → Result CandidateGraphEntity
  resolve registry name = elim (lookup (normalized name) (aliases_of registry.entities [])) [
    | none ↦ checked_entity (discovered_of name)
    | some resolved ↦ elim (entity_with resolved registry.entities) [
      | err e ↦ err e
      | ok entity ↦ checked_entity (anchor_of entity)
    ]
  ]

  module _ (w : Platform) where
    abbrev pub EdgeKey : Type 0
    EdgeKey = (String × String) × (String × String)

    pub record Building : Type 0 where
      pub nodes : Nodes
      pub edges : List (CandidateGraphEdge w)
      pub edge_keys : List EdgeKey
      pub ignored : ℕ

    abbrev pub ignore : Building → Building
    ignore b = record b { ignored = suc b.ignored }

    abbrev pub edge_key : String → String → DiscoveredRelationship w → EdgeKey
    edge_key source target r = ((source, target), (type_value r.relationship_type, r.source_url))

    abbrev pub edge_of : String → String → DiscoveredRelationship w → CandidateGraphEdge w
    edge_of source target r = record {
      source_entity_id = source;
      target_entity_id = target;
      relationship_type = r.relationship_type;
      scenario_eligible = is_eligible r.relationship_type;
      evidence_quote = r.evidence_quote;
      source_url = r.source_url;
      available_at = r.available_at;
      rationale = r.rationale;
      suggested_confidence = r.suggested_confidence;
      origin = r.origin;
    }

    -- `nodes[source_id] = source_node` and `nodes[target_id] = target_node`
    abbrev pub with_nodes : CandidateGraphEntity → CandidateGraphEntity → Building → Building
    with_nodes source target b = record b {
      nodes = insert target.entity_id target (insert source.entity_id source b.nodes);
    }

    -- the edge, unless its key is there
    unfoldable pub add_edge :
        CandidateGraphEntity
        → CandidateGraphEntity
        → DiscoveredRelationship w
        → Building
        → Result Building
    add_edge source target r b =
        if contains b.edge_keys (edge_key source.entity_id target.entity_id r)
        then ok b
        else elim (checked_edge w (edge_of source.entity_id target.entity_id r)) [
          | err e ↦ err e
          | ok edge ↦ ok (record b {
            edges = b.edges ++ edge ∷ [];
            edge_keys = edge_key source.entity_id target.entity_id r ∷ b.edge_keys;
          })
        ]

    -- the discovered ends that are no nodes yet
    abbrev pub new_nodes :
        CandidateGraphEntity → CandidateGraphEntity → Nodes → List CandidateGraphEntity
    new_nodes source target nodes =
        keep (λ n. not (has_key n.entity_id nodes)) (discovered_among (source ∷ target ∷ []))

    abbrev pub is_full : ℕ → CandidateGraphEntity → CandidateGraphEntity → Nodes → Bool
    is_full maximum source target nodes =
        ltb maximum
          (length (discovered_among (values nodes)) + length (new_nodes source target nodes))

    -- the body of the loop, after both ends are resolved
    unfoldable pub connect :
        ℕ
        → EntityRegistry
        → CandidateGraphEntity
        → CandidateGraphEntity
        → DiscoveredRelationship w
        → Building
        → Result Building
    connect maximum registry source target r b =
        if not (contains (entity_ids registry) source.entity_id)
          && not (contains (entity_ids registry) target.entity_id)
        then ok (ignore b)
        else if is_full maximum source target b.nodes
        then ok (ignore b)
        else add_edge source target r (with_nodes source target b)

    unfoldable pub add_relationship :
        ℕ → EntityRegistry → DiscoveredRelationship w → Building → Result Building
    add_relationship maximum registry r b = elim (resolve registry r.source_entity_name) [
      | err e ↦ err e
      | ok source ↦ elim (resolve registry r.target_entity_name) [
        | err e ↦ err e
        | ok target ↦ connect maximum registry source target r b
      ]
    ]

    unfoldable pub add_all :
        ℕ → EntityRegistry → List (DiscoveredRelationship w) → Building → Result Building
    add_all maximum registry [] b = ok b
    add_all maximum registry (r ∷ rs) b = elim (add_relationship maximum registry r b) [
      | err e ↦ err e
      | ok next ↦ add_all maximum registry rs next
    ]

    abbrev pub finished : EntityRegistry → Building → CandidateEvidenceGraph w
    finished registry b = record {
      registry_id = registry.registry_id;
      nodes = values b.nodes;
      edges = b.edges;
      ignored_relationship_count = b.ignored;
    }

    -- `CandidateGraphBuilder(registry, maximum_discovered_entities=maximum).build(relationships)`
    unfoldable pub build :
        ℕ → EntityRegistry → List (DiscoveredRelationship w) → Result (CandidateEvidenceGraph w)
    build maximum registry relationships =
        if ltb maximum 1
        then err (value_error "maximum_discovered_entities must be positive")
        else elim (anchors registry.entities []) [
          | err e ↦ err e
          | ok nodes ↦
              elim (add_all maximum registry relationships
                (record { nodes = nodes; edges = []; edge_keys = []; ignored = 0 })) [
                  | err e ↦ err e
                  | ok b ↦ ok (finished registry b)
                ]
        ]
