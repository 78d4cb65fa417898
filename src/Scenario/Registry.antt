-- ===== src/Scenario/Registry.antt =====
-- graph_registry.py: the entity registry, reviewed edges, snapshots and their publisher.
use Prim.Native.String.{count}
use agentic_alpha_engine.Prelude.{
  String, String_eq, String_ord, sorted, ◌<>◌, Bool, true, false, not, ◌&&◌, Option, List, [], ◌∷◌,
  map, keep, leb, nat_eqb, ◌==◌, contains, is_unique, length, if◌then◌else◌,
}
use agentic_alpha_engine.Dict.{Dict, insert, has_key}
use agentic_alpha_engine.Effects.{Error, Result, ok, err, value_error, other, Exec, raise, modify}
use agentic_alpha_engine.Graph.Contracts.{DateTime}
use agentic_alpha_engine.Scenario.Contracts.{Platform, all_in_unit, validated}

pub data RelationshipType : Type 0 where
  manufacturing_dependency equipment_dependency packaging_dependency : RelationshipType
  customer_concentration competitive_substitution ip_or_license : RelationshipType
  geographic_or_regulatory : RelationshipType

pub data Decision : Type 0 where
  approved rejected : Decision

abbrev pub is_approved : Decision → Bool
is_approved approved = true
is_approved rejected = false

pub record EntityRecord : Type 0 where
  pub entity_id : String
  pub legal_name : String
  pub aliases : List String
  pub cik : Option String
  pub ticker : Option String
  pub tradeable : Bool

pub record EntityRegistry : Type 0 where
  pub registry_id : String
  pub created_at : DateTime
  pub entities : List EntityRecord

-- `{entity.entity_id for entity in self.entities}`
abbrev pub entity_ids : EntityRegistry → List String
entity_ids registry = map (λ e. e.entity_id) registry.entities

unfoldable pub entity_ids_are_unique : EntityRegistry → Result EntityRegistry
entity_ids_are_unique registry =
    if not (is_unique (entity_ids registry))
    then err (value_error "entity registry contains duplicate entity IDs")
    else ok registry

pub record GraphEvidence : Type 0 where
  pub source_url : String
  pub filing_accession : String
  pub filing_date : DateTime
  pub snapshot_sha256 : String
  pub evidence_quote : String
  pub extraction_proposal_id : String

pub record ReviewDecision : Type 0 where
  pub reviewed_by : String
  pub reviewed_at : DateTime
  pub decision : Decision
  pub rationale : String

-- the bounds on the lengths of the fields
unfoldable pub evidence_fields : GraphEvidence → Bool
evidence_fields evidence =
    nat_eqb (count evidence.snapshot_sha256) 64
    && leb 10 (count evidence.evidence_quote)
    && leb 1 (count evidence.extraction_proposal_id)

unfoldable pub review_fields : ReviewDecision → Bool
review_fields review = leb 1 (count review.reviewed_by) && leb 10 (count review.rationale)

-- the files, by their paths
abbrev pub Files : Type 0
Files = Dict String String

module _ (w : Platform) where
  pub record ReviewedGraphEdge : Type 0 where
    pub edge_id : String
    pub upstream_entity_id : String
    pub downstream_entity_id : String
    pub relationship_type : RelationshipType
    pub dependency_strength : w.Float
    pub substitutability : w.Float
    pub confidence : w.Float
    pub capacity_stress : w.Float
    pub geographic_regulatory_stress : w.Float
    pub freshness : w.Float
    pub evidence_support : w.Float
    pub effective_from : DateTime
    pub effective_to : Option DateTime
    pub evidence : GraphEvidence
    pub review : ReviewDecision

  -- the floats that are bounded by [0, 1]
  abbrev pub edge_floats : ReviewedGraphEdge → List w.Float
  edge_floats edge =
      edge.dependency_strength ∷ edge.substitutability ∷ edge.confidence ∷ edge.capacity_stress
      ∷ edge.geographic_regulatory_stress ∷ edge.freshness ∷ edge.evidence_support ∷ []

  unfoldable pub edge_fields : ReviewedGraphEdge → Bool
  edge_fields edge =
      leb 1 (count edge.edge_id)
      && leb 1 (count edge.upstream_entity_id)
      && leb 1 (count edge.downstream_entity_id)
      && all_in_unit w (edge_floats edge)
      && evidence_fields edge.evidence
      && review_fields edge.review

  unfoldable pub approved_and_non_self_referential : ReviewedGraphEdge → Result ReviewedGraphEdge
  approved_and_non_self_referential edge =
      if edge.upstream_entity_id == edge.downstream_entity_id
      then err (value_error "graph edge cannot connect an entity to itself")
      else if not (is_approved edge.review.decision)
      then err (value_error "only approved edges may appear in a graph snapshot")
      else ok edge

  -- pydantic's construction of an edge: its fields, then its validator
  unfoldable pub reviewed_edge : ReviewedGraphEdge → Result ReviewedGraphEdge
  reviewed_edge edge =
      if not (edge_fields edge)
      then err (other "ValidationError" (w.invalid "ReviewedGraphEdge" (edge_floats edge)))
      else validated w "ReviewedGraphEdge" (edge_floats edge)
          (approved_and_non_self_referential edge)

  pub record GraphSnapshot : Type 0 where
    pub snapshot_id : String
    pub created_at : DateTime
    pub entity_registry_id : String
    pub edges : List ReviewedGraphEdge
    pub edges_sha256 : String

  -- `json.dumps` of the edges, with all fields and without the temporal ones; SHA-256; the text of a
  -- snapshot; and `repr` of a list
  pub record Formats : Type 0 where
    pub dumps : List ReviewedGraphEdge → String
    pub legacy_dumps : List ReviewedGraphEdge → String
    pub sha256 : String → String
    pub dump_snapshot : GraphSnapshot → String
    pub repr_list : List String → String

  module _ (f : Formats) where
    unfoldable pub edges_digest : List ReviewedGraphEdge → String
    edges_digest edges = f.sha256 (f.dumps edges)

    unfoldable pub legacy_edges_digest : List ReviewedGraphEdge → String
    legacy_edges_digest edges = f.sha256 (f.legacy_dumps edges)

    unfoldable pub digest_matches_edges : GraphSnapshot → Result GraphSnapshot
    digest_matches_edges snapshot =
        if contains (edges_digest snapshot.edges ∷ legacy_edges_digest snapshot.edges ∷ [])
          snapshot.edges_sha256
        then ok snapshot
        else err (value_error "graph snapshot edge digest does not match its contents")

    -- the fields of a snapshot that was built, then its validator
    unfoldable pub snapshot_of : GraphSnapshot → Result GraphSnapshot
    snapshot_of snapshot =
        if not (
          leb 1 (count snapshot.snapshot_id)
          && leb 1 (count snapshot.entity_registry_id)
          && leb 1 (length snapshot.edges)
          && nat_eqb (count snapshot.edges_sha256) 64)
        then err (other "ValidationError" (w.invalid "GraphSnapshot" []))
        else validated w "GraphSnapshot" [] (digest_matches_edges snapshot)

    -- `{upstream, downstream} - entity_ids`
    unfoldable pub unknown_of : EntityRegistry → ReviewedGraphEdge → List String
    unknown_of registry edge =
        keep (λ id. not (contains (entity_ids registry) id))
          (if edge.upstream_entity_id == edge.downstream_entity_id
            then edge.upstream_entity_id ∷ []
            else edge.upstream_entity_id ∷ edge.downstream_entity_id ∷ [])

    abbrev pub unregistered : List String → Error
    unregistered unknown =
        value_error
          ("edge references unregistered entity IDs: " <> f.repr_list (sorted (λ id. id) unknown))

    -- the loop over the edges: the unknown entities of the first edge that has some
    unfoldable pub first_unknown : EntityRegistry → List ReviewedGraphEdge → List String
    first_unknown registry [] = []
    first_unknown registry (edge ∷ edges) =
        let rest = first_unknown registry edges in
        elim (unknown_of registry edge) [ [] ↦ rest | id ∷ ids ↦ id ∷ ids ]

    unfoldable pub build_snapshot :
        EntityRegistry → String → DateTime → List ReviewedGraphEdge → Result GraphSnapshot
    build_snapshot registry snapshot_id created_at [] =
        err (value_error "a graph snapshot requires at least one reviewed edge")
    build_snapshot registry snapshot_id created_at (edge ∷ edges) =
        elim (first_unknown registry (edge ∷ edges)) [
          | id ∷ ids ↦ err (unregistered (id ∷ ids))
          | [] ↦ snapshot_of (record {
            snapshot_id = snapshot_id;
            created_at = created_at;
            entity_registry_id = registry.registry_id;
            edges = edge ∷ edges;
            edges_sha256 = edges_digest (edge ∷ edges);
          })
        ]

    unfoldable pub publish_new : String → GraphSnapshot → Exec Files (Unit {0})
    publish_new path snapshot files =
        if has_key path files
        then raise (other "FileExistsError" ("refusing to overwrite immutable snapshot: " <> path))
            files
        else modify (insert path (f.dump_snapshot snapshot)) files
