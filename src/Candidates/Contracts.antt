-- ===== src/Candidates/Contracts.antt =====
-- candidate_graph.py: discovered relationships and the records of the candidate graph.
use Prim.Native.Nat.{ℕ}
use Prim.Native.String.{count}
use agentic_alpha_engine.Prelude.{
  String, String_eq, Bool, true, false, not, ◌&&◌, Option, List, [], ◌∷◌, leb, ◌==◌, if◌then◌else◌,
}
use agentic_alpha_engine.Effects.{Result, ok, err, value_error, other}
use agentic_alpha_engine.Graph.Contracts.{DateTime}
use agentic_alpha_engine.Scenario.Contracts.{Platform, in_unit}

-- What is used of `str` and `re`: case folding, stripping, lower case, search and the slug of a name.
pub record Texts : Type 0 where
  pub casefold : String → String
  pub strip : String → String
  pub lower : String → String
  pub is_within : String → String → Bool
  pub slug : String → String

pub data CandidateRelationshipType : Type 0 where
  manufacturing_dependency equipment_dependency packaging_dependency : CandidateRelationshipType
  customer_concentration competitive_substitution ip_or_license : CandidateRelationshipType
  geographic_or_regulatory strategic_collaboration : CandidateRelationshipType

abbrev pub type_value : CandidateRelationshipType → String
type_value CandidateRelationshipType.manufacturing_dependency = "manufacturing_dependency"
type_value CandidateRelationshipType.equipment_dependency = "equipment_dependency"
type_value CandidateRelationshipType.packaging_dependency = "packaging_dependency"
type_value CandidateRelationshipType.customer_concentration = "customer_concentration"
type_value CandidateRelationshipType.competitive_substitution = "competitive_substitution"
type_value CandidateRelationshipType.ip_or_license = "ip_or_license"
type_value CandidateRelationshipType.geographic_or_regulatory = "geographic_or_regulatory"
type_value CandidateRelationshipType.strategic_collaboration = "strategic_collaboration"

-- `relationship_type in _SCENARIO_ELIGIBLE_TYPES`
abbrev pub is_eligible : CandidateRelationshipType → Bool
is_eligible CandidateRelationshipType.manufacturing_dependency = true
is_eligible CandidateRelationshipType.equipment_dependency = true
is_eligible CandidateRelationshipType.packaging_dependency = true
is_eligible _ = false

pub data EvidenceBasis : Type 0 where
  full_text discovery_summary unknown : EvidenceBasis

pub data EntityKind : Type 0 where
  anchor discovered : EntityKind

abbrev pub is_discovered : EntityKind → Bool
is_discovered anchor = false
is_discovered discovered = true

pub data EntityStatus : Type 0 where
  approved candidate : EntityStatus

-- the origin of a relationship's evidence
pub record Origin : Type 0 where
  pub source_tier : String
  pub source_kind : String
  pub source_adapter : String
  pub observation_id : Option String
  pub evidence_basis : EvidenceBasis

pub record CandidateGraphEntity : Type 0 where
  pub entity_id : String
  pub display_name : String
  pub kind : EntityKind
  pub tradeable : Bool
  pub discovery_depth : ℕ
  pub status : EntityStatus

-- the constructor of `CandidateGraphEntity` validates
unfoldable pub checked_entity : CandidateGraphEntity → Result CandidateGraphEntity
checked_entity e =
    if leb 1 (count e.entity_id) && leb 1 (count e.display_name)
    then ok e
    else err (other "ValidationError" "CandidateGraphEntity")

module _ (w : Platform) where
  pub record DiscoveredRelationship : Type 0 where
    pub source_entity_name : String
    pub target_entity_name : String
    pub relationship_type : CandidateRelationshipType
    pub evidence_quote : String
    pub passage_text : String
    pub source_url : String
    pub available_at : DateTime
    pub rationale : String
    pub suggested_confidence : w.Float
    pub origin : Origin

  unfoldable pub relationship_fields : DiscoveredRelationship → Bool
  relationship_fields r =
      leb 1 (count r.source_entity_name)
      && leb 1 (count r.target_entity_name)
      && leb 10 (count r.evidence_quote)
      && leb 10 (count r.passage_text)
      && leb 1 (count r.source_url)
      && leb 1 (count r.rationale)
      && in_unit w r.suggested_confidence

  unfoldable pub evidence_must_be_verbatim :
      Texts → DiscoveredRelationship → Result DiscoveredRelationship
  evidence_must_be_verbatim t r =
      if not (t.is_within (t.lower r.evidence_quote) (t.lower r.passage_text))
      then err (value_error "evidence_quote must be present in passage_text")
      else if t.casefold r.source_entity_name == t.casefold r.target_entity_name
      then err (value_error "candidate relationship cannot be self-referential")
      else ok r

  -- pydantic's construction of a relationship
  unfoldable pub discovered_relationship :
      Texts → DiscoveredRelationship → Result DiscoveredRelationship
  discovered_relationship t r =
      if not (relationship_fields r)
      then err (
          other "ValidationError"
            (w.invalid "DiscoveredRelationship" (r.suggested_confidence ∷ [])))
      else evidence_must_be_verbatim t r

  pub record CandidateGraphEdge : Type 0 where
    pub source_entity_id : String
    pub target_entity_id : String
    pub relationship_type : CandidateRelationshipType
    pub scenario_eligible : Bool
    pub evidence_quote : String
    pub source_url : String
    pub available_at : DateTime
    pub rationale : String
    pub suggested_confidence : w.Float
    pub origin : Origin

  -- the constructor of `CandidateGraphEdge` validates
  unfoldable pub checked_edge : CandidateGraphEdge → Result CandidateGraphEdge
  checked_edge e =
      if leb 1 (count e.source_entity_id)
        && leb 1 (count e.target_entity_id)
        && leb 10 (count e.evidence_quote)
        && leb 1 (count e.source_url)
        && leb 1 (count e.rationale)
        && in_unit w e.suggested_confidence
      then ok e
      else err
          (other "ValidationError" (w.invalid "CandidateGraphEdge" (e.suggested_confidence ∷ [])))

  pub record CandidateEvidenceGraph : Type 0 where
    pub registry_id : String
    pub nodes : List CandidateGraphEntity
    pub edges : List CandidateGraphEdge
    pub ignored_relationship_count : ℕ
