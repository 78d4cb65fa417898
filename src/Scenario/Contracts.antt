-- ===== src/Scenario/Contracts.antt =====
-- graph.py: `SupplyChainEdge`, and the records of a scenario in models.py, with their validation.
use agentic_alpha_engine.Prelude.{
  String, Bool, true, false, not, ◌&&◌, Option, none, some, List, [], ◌∷◌, Ord, if◌then◌else◌,
}
use agentic_alpha_engine.Effects.{Result, Error, ok, err, other, value_error}
use agentic_alpha_engine.Graph.Contracts.{DateTime, at_most, compare_times}

-- The floats other than NaN, with their arithmetic, and the text of pydantic's error for a model that
-- was given these floats.
pub record Platform : Type 1 where
  pub Float : Type 0
  pub float_ord : Ord Float
  pub float_0 : Float
  pub float_1 : Float
  pub float_half : Float
  pub times : Float → Float → Float
  pub plus : Float → Float → Float
  pub minus : Float → Float → Float
  pub negate : Float → Float
  pub invalid : String → List Float → String

module _ (w : Platform) where
  -- `a <= b`
  abbrev pub float_le : w.Float → w.Float → Bool
  float_le a b = (w.float_ord).le a b

  -- `0 <= value <= 1`
  unfoldable pub in_unit : w.Float → Bool
  in_unit value = float_le w.float_0 value && float_le value w.float_1

  unfoldable pub all_in_unit : List w.Float → Bool
  all_in_unit [] = true
  all_in_unit (value ∷ values) = in_unit value && all_in_unit values

  -- pydantic's `Field(ge=0, le=1)` on the floats of a model
  abbrev pub validation_error : String → List w.Float → Error
  validation_error model values = other "ValidationError" (w.invalid model values)

  -- pydantic raises its own exception where a validator of a model raises a ValueError
  abbrev pub validated : {A : Type 0} → String → List w.Float → Result A → Result A
  validated model values (ok a) = ok a
  validated model values (err e) = err (other "ValidationError" (w.invalid model values))

  pub record SupplyChainEdge : Type 0 where
    pub source : String
    pub target : String
    pub relationship : String
    pub source_url : String
    pub weight : w.Float
    pub substitutability : w.Float
    pub confidence : w.Float
    pub effective_from : DateTime
    pub effective_to : Option DateTime

  pub record ScenarioPathEdge : Type 0 where
    pub source : String
    pub target : String
    pub relationship : String
    pub source_url : String
    pub edge_weight : w.Float
    pub substitutability : w.Float

  pub record ScenarioImpact : Type 0 where
    pub entity : String
    pub severity : w.Float
    pub confidence : w.Float
    pub path : List ScenarioPathEdge

  pub record ScenarioResult : Type 0 where
    pub shock_entity : String
    pub shock_severity : w.Float
    pub as_of_time : DateTime
    pub impacts : List ScenarioImpact
    pub limitations : List String

  -- `effective_to is None or as_of_time <= effective_to`
  abbrev pub not_after : DateTime → Option DateTime → Result Bool
  not_after at none = ok true
  not_after at (some end) = compare_times at_most at end

  unfoldable pub is_effective : SupplyChainEdge → DateTime → Result Bool
  is_effective edge as_of_time = elim (compare_times at_most edge.effective_from as_of_time) [
    | err e ↦ err e
    | ok false ↦ ok false
    | ok true ↦ not_after as_of_time edge.effective_to
  ]

  unfoldable pub propagated_severity : SupplyChainEdge → w.Float → w.Float
  propagated_severity edge incoming =
      w.times (w.times incoming edge.weight) (w.minus w.float_1 edge.substitutability)

  abbrev pub path_edge : SupplyChainEdge → ScenarioPathEdge
  path_edge edge = record {
    source = edge.source;
    target = edge.target;
    relationship = edge.relationship;
    source_url = edge.source_url;
    edge_weight = edge.weight;
    substitutability = edge.substitutability;
  }

  -- the constructor of `ScenarioPathEdge` validates
  unfoldable pub as_path_edge : SupplyChainEdge → Result ScenarioPathEdge
  as_path_edge edge =
      if all_in_unit (edge.weight ∷ edge.substitutability ∷ [])
      then ok (path_edge edge)
      else err (validation_error "ScenarioPathEdge" (edge.weight ∷ edge.substitutability ∷ []))

  -- the three floats of an edge are in [0, 1]
  unfoldable pub is_bounded : SupplyChainEdge → Bool
  is_bounded edge = all_in_unit (edge.weight ∷ edge.substitutability ∷ edge.confidence ∷ [])

  -- `SupplyChainGraph.from_json`, on the edges that were read
  unfoldable pub from_json : List SupplyChainEdge → Result (List SupplyChainEdge)
  from_json [] = ok []
  from_json (edge ∷ edges) =
      let rest = from_json edges in
      if not (is_bounded edge)
      then err (value_error "edge weight, substitutability, and confidence must be in [0, 1]")
      else elim rest [ err e ↦ err e | ok checked ↦ ok (edge ∷ checked) ]
