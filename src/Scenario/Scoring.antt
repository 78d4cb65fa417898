-- ===== src/Scenario/Scoring.antt =====
-- graph_registry.py: `RippleRiskScorer.score`, a scenario on the edges of a snapshot.
use Prim.Native.Nat.{ℕ, ◌≤◌}
use mathlib.Core.List.{Memᴰ}
use mathlib.Core.List.Memᴰ
use agentic_alpha_engine.Prelude.{
  ◌≡◌, refl, subst, String, String_eq, Bool, true, Option, none, some, List, map, arith, All,
  All-mem, mem-All, keep, mem-keep, keep-mem, Option-cases, inl, inr, if◌then◌else◌,
}
use agentic_alpha_engine.Effects.{Result, ok}
use agentic_alpha_engine.Graph.Contracts.{DateTime}
use agentic_alpha_engine.Scenario.Contracts.{
  Platform, float_le, in_unit, all_in_unit, SupplyChainEdge, ScenarioResult,
}
use agentic_alpha_engine.Scenario.Propagation.{scenario}
use agentic_alpha_engine.Scenario.Registry.{
  RelationshipType, ReviewedGraphEdge, GraphSnapshot, edge_fields, edge_floats, reviewed_edge,
  is_approved, approved_and_non_self_referential,
}
use agentic_alpha_engine.Scenario.Walks.{UnitLaws, Bounded}
use agentic_alpha_engine.Scenario.Adjacency.{Comparable}
use agentic_alpha_engine.Scenario.Fuel.{enough}
use agentic_alpha_engine.Scenario.Strongest.{Reports, Bounded-Reports}

-- the value of a relationship type
abbrev pub type_value : RelationshipType → String
type_value RelationshipType.manufacturing_dependency = "manufacturing_dependency"
type_value RelationshipType.equipment_dependency = "equipment_dependency"
type_value RelationshipType.packaging_dependency = "packaging_dependency"
type_value RelationshipType.customer_concentration = "customer_concentration"
type_value RelationshipType.competitive_substitution = "competitive_substitution"
type_value RelationshipType.ip_or_license = "ip_or_license"
type_value RelationshipType.geographic_or_regulatory = "geographic_or_regulatory"

module _ (w : Platform) where
  -- `min(a, b)`
  abbrev pub float_min : w.Float → w.Float → w.Float
  float_min a b = if float_le w a b then a else b

  unfoldable pub scored_weight : ReviewedGraphEdge w → w.Float
  scored_weight edge = float_min w.float_1 (
      w.times (w.times edge.dependency_strength edge.freshness) (
        w.plus (w.plus w.float_1 (w.times w.float_half edge.capacity_stress))
          (w.times w.float_half edge.geographic_regulatory_stress)))

  unfoldable pub scored_edge : ReviewedGraphEdge w → SupplyChainEdge w
  scored_edge edge = record {
    source = edge.upstream_entity_id;
    target = edge.downstream_entity_id;
    relationship = type_value edge.relationship_type;
    source_url = (edge.evidence).source_url;
    weight = scored_weight edge;
    substitutability = edge.substitutability;
    confidence = edge.confidence;
    effective_from = edge.effective_from;
    effective_to = edge.effective_to;
  }

  -- `relationship_types is None or edge.relationship_type in relationship_types`; the set by its test
  unfoldable pub is_selected : Option (RelationshipType → Bool) → ReviewedGraphEdge w → Bool
  is_selected none edge = true
  is_selected (some types) edge = types edge.relationship_type

  abbrev pub scored_edges :
      GraphSnapshot w → Option (RelationshipType → Bool) → List (SupplyChainEdge w)
  scored_edges snapshot types = map scored_edge (keep (is_selected types) snapshot.edges)

  unfoldable pub score :
      GraphSnapshot w
      → ℕ
      → String
      → w.Float
      → DateTime
      → ℕ
      → Option (RelationshipType → Bool)
      → Option (Result (ScenarioResult w))
  score snapshot fuel shock_entity_id severity as_of_time max_hops types =
      scenario w (scored_edges snapshot types) fuel shock_entity_id severity as_of_time max_hops

-- What the proofs use of the floats that are not negative.
pub record WeightLaws (w : Platform) : Type 0 where
  pub half_positive : float_le w w.float_0 w.float_half ≡ true
  pub times_positive :
      (a b : w.Float)
      → float_le w w.float_0 a ≡ true
      → float_le w w.float_0 b ≡ true
      → float_le w w.float_0 (w.times a b) ≡ true
  pub plus_positive :
      (a b : w.Float)
      → float_le w w.float_0 a ≡ true
      → float_le w w.float_0 b ≡ true
      → float_le w w.float_0 (w.plus a b) ≡ true

module _ (w : Platform) (unit_laws : UnitLaws w) (laws : WeightLaws w) where
  positive : (a : w.Float) → in_unit w a ≡ true → float_le w w.float_0 a ≡ true
  unfolding in_unit
  positive a h = ground (arith, h)

  float_min-InUnit :
      (b : w.Float) → float_le w w.float_0 b ≡ true → in_unit w (float_min w w.float_1 b) ≡ true
  unfolding in_unit
  float_min-InUnit b h = ground (arith, h, unit_laws.one-InUnit, (w.float_ord).le_total w.float_1 b)

  reviewed-InUnit :
      (e : ReviewedGraphEdge w) → reviewed_edge w e ≡ ok e → all_in_unit w (edge_floats w e) ≡ true
  unfolding reviewed_edge edge_fields
  reviewed-InUnit e h = ground (arith, h)

  half_of :
      (a : w.Float) → in_unit w a ≡ true → float_le w w.float_0 (w.times w.float_half a) ≡ true
  half_of a h = laws.times_positive w.float_half a laws.half_positive (positive a h)

  -- The floats of an edge that is scored are in [0, 1].
  scored_edge-Bounded :
      (e : ReviewedGraphEdge w) → reviewed_edge w e ≡ ok e → Bounded w (scored_edge w e)
  unfolding scored_edge scored_weight all_in_unit
  scored_edge-Bounded e h = record {
    weight_in = float_min-InUnit _ (
        laws.times_positive _ _
          (laws.times_positive e.dependency_strength e.freshness
            (positive e.dependency_strength (ground (arith, reviewed-InUnit e h)))
            (positive e.freshness (ground (arith, reviewed-InUnit e h))))
          (laws.plus_positive _ _
            (laws.plus_positive w.float_1 _ (positive w.float_1 unit_laws.one-InUnit)
              (half_of e.capacity_stress (ground (arith, reviewed-InUnit e h))))
            (half_of e.geographic_regulatory_stress (ground (arith, reviewed-InUnit e h)))));
    substitutability_in = ground (arith, reviewed-InUnit e h);
    confidence_in = ground (arith, reviewed-InUnit e h);
  }

  module _ (snapshot : GraphSnapshot w) (types : Option (RelationshipType → Bool)) where
    -- an edge of a type that is asked for, where types are
    abbrev pub Wanted : ReviewedGraphEdge w → Type 0
    Wanted e =
        (asked : RelationshipType → Bool) → types ≡ some asked → asked e.relationship_type ≡ true

    -- an edge of the snapshot, approved and of a type that is asked for
    abbrev pub Selected : SupplyChainEdge w → Type 0
    Selected s =
        (e : ReviewedGraphEdge w) × Memᴰ e snapshot.edges
        × (is_approved (e.review).decision ≡ true)
        × Wanted e
        × (s ≡ scored_edge w e)

    selected-Wanted : (e : ReviewedGraphEdge w) → is_selected w types e ≡ true → Wanted e
    unfolding is_selected
    selected-Wanted e h asked is = ground (arith, h, is)

    Wanted-selected : (e : ReviewedGraphEdge w) → Wanted e → is_selected w types e ≡ true
    unfolding is_selected
    Wanted-selected e wanted = elim (Option-cases types) [
      | inl free ↦ ground (arith, free)
      | inr (asked, is) ↦ ground (arith, is, wanted asked is)
    ]

    reviewed-Approved :
        (e : ReviewedGraphEdge w)
        → reviewed_edge w e ≡ ok e
        → is_approved (e.review).decision ≡ true
    unfolding reviewed_edge approved_and_non_self_referential
    reviewed-Approved e h = ground (arith, h)

    module _ (reviewed : All (λ e. reviewed_edge w e ≡ ok e) snapshot.edges) where
      scored_edges-All :
          (P : SupplyChainEdge w → Type 0)
          → ((e : ReviewedGraphEdge w)
              → Memᴰ e snapshot.edges
              → is_selected w types e ≡ true
              → P (scored_edge w e))
          → All P (scored_edges w snapshot types)
      scored_edges-All P f = mem-All P (scored_edges w snapshot types) (λ s m.
          let (e, n, is) =
            Memᴰ.of_map (scored_edge w) (keep (is_selected w types) snapshot.edges) m in
          let (selected, there) = mem-keep (is_selected w types) snapshot.edges n in
          subst P is (f e there selected))

      scored_zones :
          (at : DateTime) (e : ReviewedGraphEdge w)
          → Comparable at e.effective_from e.effective_to
          → Comparable at (scored_edge w e).effective_from (scored_edge w e).effective_to
      unfolding scored_edge
      scored_zones at e c = c

      scored_edges_complete :
          All
            (λ e. Wanted e → Memᴰ (scored_edge w e) (scored_edges w snapshot types))
            snapshot.edges
      scored_edges_complete = mem-All _ snapshot.edges (λ e m wanted.
          Memᴰ.map (scored_edge w)
            (keep-mem (is_selected w types) snapshot.edges (Wanted-selected e wanted) m))

      -- On a snapshot whose edges all are reviewed, with times that have a zone exactly when the time of
      -- the score has one, with a severity in [0, 1] and at least one hop, a score returns a result that
      -- reports the walks along the scored edges. Those are of approved edges of the snapshot, of the
      -- types asked for where types are, and each edge of such a type is among them.
      pub score-Reports :
          (shock_entity_id : String) (severity : w.Float) (as_of_time : DateTime) (max_hops : ℕ)
          → All (λ e. Comparable as_of_time e.effective_from e.effective_to) snapshot.edges
          → in_unit w severity ≡ true
          → 1 ≤ max_hops
          → (result : ScenarioResult w) × (score w snapshot
                (enough w
                  (scored_edges w snapshot types)
                  shock_entity_id
                  severity
                  as_of_time
                  max_hops)
                shock_entity_id
                severity
                as_of_time
                max_hops
                types
              ≡ some (ok result))
            × Reports w
                (scored_edges w snapshot types)
                as_of_time
                shock_entity_id
                severity
                max_hops
                result
            × All Selected (scored_edges w snapshot types)
            × All
                (λ e. Wanted e → Memᴰ (scored_edge w e) (scored_edges w snapshot types))
                snapshot.edges
      unfolding score
      score-Reports shock_entity_id severity as_of_time max_hops zones unit hops =
          let (result, is, reports) =
            Bounded-Reports w unit_laws (scored_edges w snapshot types) as_of_time shock_entity_id
              severity max_hops
              (scored_edges-All (Bounded w)
                (λ e m selected. scored_edge-Bounded e (All-mem _ snapshot.edges reviewed m)))
              (scored_edges-All (λ s. Comparable as_of_time s.effective_from s.effective_to)
                (λ e m selected. scored_zones as_of_time e (All-mem _ snapshot.edges zones m)))
              unit hops in
          (
            result,
            is,
            reports,
            scored_edges-All Selected (λ e m selected. (
              e,
              m,
              reviewed-Approved e (All-mem _ snapshot.edges reviewed m),
              selected-Wanted e selected,
              refl,
            )),
            scored_edges_complete,
          )
