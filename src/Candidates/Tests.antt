-- ===== src/Candidates/Tests.antt =====
-- candidate_graph.py: a small candidate graph, and each theorem at an input.
use Prim.Native.Char.{code}
use Prim.Native.String.append
use agentic_alpha_engine.Prelude.{
  ◌≡◌, ◌≢◌, ap, ◌∙◌, nat_eqb, Bool, refl, String, String_eq, true, false, none, List, [], ◌∷◌,
  arith, contains, keep, ==_iff, ◌<>◌,
}
use agentic_alpha_engine.Dict.{lookup, insert}
use agentic_alpha_engine.Effects.{Result, ok, err}
use agentic_alpha_engine.Scenario.Contracts.{in_unit}
use agentic_alpha_engine.Scenario.Registry.{EntityRegistry}
use agentic_alpha_engine.Scenario.Tests.{hundredths, time}
use agentic_alpha_engine.Candidates.Contracts.{
  Texts, CandidateRelationshipType, EvidenceBasis, checked_entity, DiscoveredRelationship,
  relationship_fields, evidence_must_be_verbatim, discovered_relationship, CandidateGraphEdge,
  checked_edge, CandidateEvidenceGraph,
}
use agentic_alpha_engine.Candidates.Builder.{
  slug_or_unknown, candidate_id, entity_with, anchors, add_aliases, aliases_of, resolve, add_edge,
  connect, add_relationship, add_all, build,
}
use agentic_alpha_engine.Candidates.Capped.{Apart, Capped, build-Capped}

abbrev texts : Texts
texts = record {
  casefold = λ s. s;
  strip = λ s. s;
  lower = λ s. s;
  is_within = λ s t. true;
  slug = λ s. s;
}

abbrev registry : EntityRegistry
registry = record {
  registry_id = "r";
  created_at = time 0;
  entities =
      record {
        entity_id = "tsm";
        legal_name = "TSMC";
        aliases = "Taiwan Semi" ∷ [];
        cik = none;
        ticker = none;
        tradeable = true;
      }
      ∷ [];
}

abbrev relation : String → String → DiscoveredRelationship hundredths
relation source target = record {
  source_entity_name = source;
  target_entity_name = target;
  relationship_type = CandidateRelationshipType.packaging_dependency;
  evidence_quote = "a long quote";
  passage_text = "a long quote in a passage";
  source_url = "u";
  available_at = time 1;
  rationale = "r";
  suggested_confidence = 50;
  origin = record {
    source_tier = "t";
    source_kind = "k";
    source_adapter = "a";
    observation_id = none;
    evidence_basis = EvidenceBasis.unknown;
  };
}

program : Unit {0}
unfolding in_unit checked_entity relationship_fields evidence_must_be_verbatim
    discovered_relationship checked_edge entity_with anchors add_aliases aliases_of resolve add_edge
    connect add_relationship add_all build lookup insert contains keep
program = tt

abbrev ends : Result (CandidateEvidenceGraph hundredths) → List (String × String)
ends (ok g) = pairs g.edges
  where
    pairs : List (CandidateGraphEdge hundredths) → List (String × String)
    pairs [] = []
    pairs (e ∷ es) = (e.source_entity_id, e.target_entity_id) ∷ pairs es
ends (err e) = []

-- The second relationship has no anchor, the third would be one entity too many.
abbrev found : List (DiscoveredRelationship hundredths)
found = relation "TSMC" "ase" ∷ relation "ase" "amkor" ∷ relation "amkor" "tsm" ∷ []

joined : ends (build texts hundredths 1 registry found) ≡ ("tsm", "candidate:ase") ∷ []
unfolding program
joined = refl

-- Two names of one anchor pass the test on names, and make an edge from the anchor to itself.
names_pass :
    discovered_relationship hundredths texts (relation "TSMC" "Taiwan Semi")
    ≡ ok (relation "TSMC" "Taiwan Semi")
unfolding program
names_pass = refl

self_edge :
    ends (build texts hundredths 1 registry (relation "TSMC" "Taiwan Semi" ∷ []))
    ≡ ("tsm", "tsm") ∷ []
unfolding program
self_edge = refl

-- whether a text starts with a "c"
starts_with_c : String → Bool
starts_with_c String.[] = false
starts_with_c (String.◌∷◌ c s) = nat_eqb (code c) 99

starts-append : (s t : String) → starts_with_c s ≡ true → starts_with_c (s <> t) ≡ true
unfolding starts_with_c
starts-append String.[] t h = absurd (ground (arith, h))
starts-append (String.◌∷◌ c s) t h = ap starts_with_c (append.cons c s t) ∙ h

is_c : starts_with_c "candidate:" ≡ true
unfolding starts_with_c
is_c = refl

is_t : starts_with_c "tsm" ≡ false
unfolding starts_with_c
is_t = refl

names_differ : (name : String) → ◌≢◌ {A = String} "tsm" ("candidate:" <> name)
names_differ name is =
    ground (arith, ap starts_with_c is, is_t, starts-append "candidate:" name is_c)

apart : Apart texts hundredths 1 registry
unfolding contains
apart name =
    ground (arith, ==_iff "tsm" (candidate_id texts name), names_differ (slug_or_unknown name))

abbrev or_empty : Result (CandidateEvidenceGraph hundredths) → CandidateEvidenceGraph hundredths
or_empty (ok g) = g
or_empty (err e) = record {
  registry_id = "";
  nodes = [];
  edges = [];
  ignored_relationship_count = 0;
}

abbrev graph : CandidateEvidenceGraph hundredths
graph = or_empty (build texts hundredths 1 registry found)

built : build texts hundredths 1 registry found ≡ ok graph
unfolding program
built = refl

build-Capped_example : Capped texts hundredths 1 registry graph
build-Capped_example = build-Capped texts hundredths 1 registry apart found graph built
