-- ===== src/Scenario/RegistryTests.antt =====
-- graph_registry.py: a snapshot built, published and scored, and each theorem at an input.
use Prim.Native.Nat.{◌≤◌}
use mathlib.Core.List.{Memᴰ}
use agentic_alpha_engine.Prelude.{
  ◌≡◌, refl, String, String_eq, Bool, Option, ◌==◌, true, false, none, some, [], ◌∷◌, All, arith,
  contains, keep, length, ◌<>◌,
}
use agentic_alpha_engine.Dict.{lookup, insert}
use agentic_alpha_engine.Effects.{ok, err, other, value_error}
use agentic_alpha_engine.Scenario.Contracts.{in_unit, all_in_unit, ScenarioResult}
use agentic_alpha_engine.Scenario.Fuel.{enough}
use agentic_alpha_engine.Scenario.Strongest.{Reports}
use agentic_alpha_engine.Scenario.Registry.{
  RelationshipType, Decision, EntityRegistry, evidence_fields, review_fields, ReviewedGraphEdge,
  edge_fields, approved_and_non_self_referential, reviewed_edge, GraphSnapshot, Formats,
  edges_digest, legacy_edges_digest, digest_matches_edges, snapshot_of, unknown_of, first_unknown,
  build_snapshot, Files, publish_new,
}
use agentic_alpha_engine.Scenario.Publishing.{
  Registered, nothing, further, build_snapshot-Registered, publish_new-once,
}
use agentic_alpha_engine.Scenario.Scoring.{
  score, type_value, scored_edge, scored_edges, WeightLaws, Wanted, Selected, score-Reports,
}
use agentic_alpha_engine.Scenario.Tests.{hundredths, hundredths_laws, time, endless, full}

abbrev pub digits : String
digits = "0123456789012345678901234567890123456789012345678901234567890123"

abbrev formats : Formats hundredths
formats = record {
  dumps = λ edges. "edges";
  legacy_dumps = λ edges. "legacy";
  sha256 = λ text. digits;
  dump_snapshot = λ snapshot. snapshot.snapshot_id;
  repr_list = λ texts. "[]";
}

abbrev pub reviewed : ReviewedGraphEdge hundredths
reviewed = record {
  edge_id = "e1";
  upstream_entity_id = "tsmc";
  downstream_entity_id = "nvda";
  relationship_type = RelationshipType.manufacturing_dependency;
  dependency_strength = 80;
  substitutability = 25;
  confidence = 90;
  capacity_stress = 50;
  geographic_regulatory_stress = 0;
  freshness = 100;
  evidence_support = 100;
  effective_from = time 1;
  effective_to = none;
  evidence = record {
    source_url = "url";
    filing_accession = "a";
    filing_date = time 1;
    snapshot_sha256 = digits;
    evidence_quote = "a quoted sentence";
    extraction_proposal_id = "p";
  };
  review = record {
    reviewed_by = "r";
    reviewed_at = time 1;
    decision = Decision.approved;
    rationale = "a rationale";
  };
}

abbrev pub registry : EntityRegistry
registry = record {
  registry_id = "r1";
  created_at = time 0;
  entities =
      record {
        entity_id = "tsmc";
        legal_name = "TSMC";
        aliases = "t" ∷ [];
        cik = none;
        ticker = none;
        tradeable = false;
      }
      ∷ record {
        entity_id = "nvda";
        legal_name = "NVIDIA";
        aliases = "n" ∷ [];
        cik = none;
        ticker = none;
        tradeable = true;
      }
      ∷ [];
}

abbrev pub snapshot : GraphSnapshot hundredths
snapshot = record {
  snapshot_id = "s1";
  created_at = time 2;
  entity_registry_id = "r1";
  edges = reviewed ∷ [];
  edges_sha256 = digits;
}

program : Unit {0}
unfolding in_unit all_in_unit evidence_fields review_fields edge_fields
    approved_and_non_self_referential reviewed_edge edges_digest legacy_edges_digest
    digest_matches_edges snapshot_of unknown_of first_unknown build_snapshot publish_new lookup
    insert contains keep
program = tt

built : build_snapshot hundredths formats registry "s1" (time 2) (reviewed ∷ []) ≡ ok snapshot
unfolding program
built = refl

no_edges :
    build_snapshot hundredths formats registry "s1" (time 2) []
    ≡ err (value_error "a graph snapshot requires at least one reviewed edge")
unfolding program
no_edges = refl

build_snapshot-Registered_example :
    (snapshot.edges ≡ reviewed ∷ [])
    × (1 ≤ length (reviewed ∷ []))
    × All (Registered hundredths formats registry) (reviewed ∷ [])
    × (snapshot.edges_sha256 ≡ edges_digest hundredths formats (reviewed ∷ []))
    × (digest_matches_edges hundredths formats snapshot ≡ ok snapshot)
build_snapshot-Registered_example =
    build_snapshot-Registered hundredths formats registry "s1" (time 2) (reviewed ∷ []) snapshot
      built

abbrev published : Files
published = (publish_new hundredths formats "a.json" snapshot []).1

abbrev later : Files
later = (publish_new hundredths formats "b.json" snapshot published).1

returned : (publish_new hundredths formats "a.json" snapshot []).0 ≡ ok tt
unfolding program
returned = refl

publish_new-once_example :
    (lookup "a.json" later ≡ some "s1")
    × ((again : GraphSnapshot hundredths)
        → publish_new hundredths formats "a.json" again later ≡ (
          err (other "FileExistsError" ("refusing to overwrite immutable snapshot: " <> "a.json")),
          later,
        ))
publish_new-once_example =
    publish_new-once hundredths formats "a.json" snapshot [] later returned
      (further "b.json" snapshot nothing)

pub is_reviewed : reviewed_edge hundredths reviewed ≡ ok reviewed
unfolding program
is_reviewed = refl

pub weight_laws : WeightLaws hundredths
weight_laws = record {
  half_positive = ground arith;
  times_positive = λ a b h k. ground arith;
  plus_positive = λ a b h k. ground arith;
}

-- only the dependencies on manufacturing
abbrev manufacturing : Option (RelationshipType → Bool)
manufacturing = some (λ t. type_value t == "manufacturing_dependency")

score-Reports_example :
    (result : ScenarioResult hundredths) × (score hundredths snapshot
        (enough hundredths (scored_edges hundredths snapshot manufacturing) "tsmc" 100 (time 5) 2)
        "tsmc"
        100
        (time 5)
        2
        manufacturing
      ≡ some (ok result))
    × Reports hundredths
        (scored_edges hundredths snapshot manufacturing)
        (time 5)
        "tsmc"
        100
        2
        result
    × All
        (Selected hundredths hundredths_laws weight_laws snapshot manufacturing)
        (scored_edges hundredths snapshot manufacturing)
    × All
        (λ e.
          Wanted hundredths hundredths_laws weight_laws snapshot manufacturing e
          → Memᴰ (scored_edge hundredths e) (scored_edges hundredths snapshot manufacturing))
        snapshot.edges
score-Reports_example =
    score-Reports hundredths hundredths_laws weight_laws snapshot manufacturing (is_reviewed, tt)
      "tsmc" 100 (time 5) 2 (endless 1, tt) full (omega arith)
