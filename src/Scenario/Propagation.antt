-- ===== src/Scenario/Propagation.antt =====
-- graph.py: `SupplyChainGraph.scenario`, its search by a queue of visits, and its result.
use Prim.Native.Nat.{ℕ, zero, suc, ◌*◌}
use agentic_alpha_engine.Prelude.{
  String, String_eq, String_ord, ×_ord, Bool, false, not, Option, none, some, List, [], ◌∷◌, ◌++◌,
  ◌==◌, Ord, leb, ltb, sorted, if◌then◌else◌,
}
use agentic_alpha_engine.Dict.{Dict, lookup, insert}
use agentic_alpha_engine.Effects.{Result, ok, err, value_error}
use agentic_alpha_engine.Graph.Contracts.{DateTime}
use agentic_alpha_engine.Scenario.Contracts.{
  Platform, float_le, in_unit, all_in_unit, validation_error, SupplyChainEdge, ScenarioPathEdge,
  ScenarioImpact, ScenarioResult, is_effective, propagated_severity, as_path_edge,
}

-- The rounds that are enough for a search: a visit with `k` hops left takes one, and those of each
-- visit that it may lead to.
unfoldable pub rounds : ℕ → ℕ → ℕ
rounds edges zero = 1
rounds edges (suc hops) = suc (edges * rounds edges hops)

module _ (w : Platform) where
  abbrev pub Edge : Type 0
  Edge = SupplyChainEdge w

  -- `active`
  unfoldable pub effective_edges : DateTime → List Edge → Result (List Edge)
  effective_edges as_of_time [] = ok []
  effective_edges as_of_time (edge ∷ edges) =
      let rest = effective_edges as_of_time edges in
      elim (is_effective w edge as_of_time) [
        | err e ↦ err e
        | ok effective ↦ elim rest [
          | err e ↦ err e
          | ok active ↦ ok (if effective then edge ∷ active else active)
        ]
      ]

  abbrev pub Adjacency : Type 0
  Adjacency = Dict String (List Edge)

  abbrev pub edges_or_none : Option (List Edge) → List Edge
  edges_or_none none = []
  edges_or_none (some edges) = edges

  -- `adjacency.get(entity, [])`
  abbrev pub adjacent : String → Adjacency → List Edge
  adjacent entity adjacency = edges_or_none (lookup entity adjacency)

  -- `adjacency.setdefault(edge.source, []).append(edge)`, for every edge
  unfoldable pub add_edges : List Edge → Adjacency → Adjacency
  add_edges [] adjacency = adjacency
  add_edges (edge ∷ edges) adjacency =
      add_edges edges (insert edge.source (adjacent edge.source adjacency ++ edge ∷ []) adjacency)

  -- an item of `best`
  pub record Reached : Type 0 where
    pub severity : w.Float
    pub confidence : w.Float
    pub path : List (ScenarioPathEdge w)

  -- an item of `frontier`
  pub record Visit : Type 0 where
    pub entity : String
    pub reached : Reached
    pub hops : ℕ

  pub record Search : Type 0 where
    pub best : Dict String Reached
    pub frontier : List Visit

  abbrev pub reached_along : Reached → Edge → ScenarioPathEdge w → Reached
  reached_along from edge hop = record {
    severity = propagated_severity w edge from.severity;
    confidence = w.times from.confidence edge.confidence;
    path = from.path ++ hop ∷ [];
  }

  abbrev pub visit_along : Visit → Edge → ScenarioPathEdge w → Visit
  visit_along visit edge hop = record {
    entity = edge.target;
    reached = reached_along visit.reached edge hop;
    hops = suc visit.hops;
  }

  -- `existing is not None and existing[0] >= propagated`
  abbrev pub is_kept : Option Reached → w.Float → Bool
  is_kept none propagated = false
  is_kept (some existing) propagated = float_le w propagated existing.severity

  -- `best[...] = ...` and `frontier.append(...)`
  unfoldable pub update : Visit → Search → Search
  update visit search = record {
    best = insert visit.entity visit.reached search.best;
    frontier = search.frontier ++ visit ∷ [];
  }

  -- the loop over the edges that leave the visited entity
  unfoldable pub relax : Visit → Edge → Search → Result Search
  relax visit edge search = elim (as_path_edge w edge) [
    | err e ↦ err e
    | ok hop ↦
        if is_kept (lookup edge.target search.best)
          (propagated_severity w edge visit.reached.severity)
        then ok search
        else ok (update (visit_along visit edge hop) search)
  ]

  unfoldable pub relax_all : Visit → List Edge → Search → Result Search
  relax_all visit [] search = ok search
  relax_all visit (edge ∷ edges) search = elim (relax visit edge search) [
    | err e ↦ err e
    | ok next ↦ relax_all visit edges next
  ]

  -- one round of the `while`, after the `pop(0)`
  unfoldable pub expand : ℕ → Adjacency → Visit → Search → Result Search
  expand max_hops adjacency visit search =
      if leb max_hops visit.hops
      then ok search
      else relax_all visit (adjacent visit.entity adjacency) search

  -- `while frontier:`, for at most `fuel` rounds
  unfoldable pub propagate :
      ℕ → Adjacency → List Visit → ℕ → Dict String Reached → Option (Result (Dict String Reached))
  propagate max_hops adjacency [] fuel best = some (ok best)
  propagate max_hops adjacency (visit ∷ rest) zero best = none
  propagate max_hops adjacency (visit ∷ rest) (suc fuel) best =
      elim (expand max_hops adjacency visit (record { best = best; frontier = rest })) [
        | err e ↦ some (err e)
        | ok next ↦ propagate max_hops adjacency next.frontier fuel next.best
      ]

  -- the constructor of `ScenarioImpact` validates
  unfoldable pub impact_of : String → Reached → Result (ScenarioImpact w)
  impact_of entity r =
      if all_in_unit w (r.severity ∷ r.confidence ∷ [])
      then ok (record {
        entity = entity;
        severity = r.severity;
        confidence = r.confidence;
        path = r.path;
      })
      else err (validation_error w "ScenarioImpact" (r.severity ∷ r.confidence ∷ []))

  unfoldable pub impacts_of : String → Dict String Reached → Result (List (ScenarioImpact w))
  impacts_of shock_entity [] = ok []
  impacts_of shock_entity ((entity, r) ∷ best) =
      let rest = impacts_of shock_entity best in
      if entity == shock_entity then rest else elim (impact_of entity r) [
        | err e ↦ err e
        | ok impact ↦ elim rest [ err e ↦ err e | ok impacts ↦ ok (impact ∷ impacts) ]
      ]

  instance abbrev pub Float_ord : Ord w.Float
  Float_ord = w.float_ord

  -- `(-impact.severity, impact.entity)`
  abbrev pub impact_key : ScenarioImpact w → w.Float × String
  impact_key impact = (w.negate impact.severity, impact.entity)

  -- the visit that the search starts from
  abbrev pub shock : String → w.Float → Visit
  shock entity severity = record {
    entity = entity;
    reached = record { severity = severity; confidence = w.float_1; path = [] };
    hops = 0;
  }

  abbrev pub limitations : List String
  limitations =
      "Deterministic edge propagation is a scenario aid, not a predictive return model."
      ∷ "Relationship weights are hypotheses that require maintained source evidence and validation."
      ∷ []

  -- the `ScenarioResult` of a search; its own `shock_severity` has passed the same test
  unfoldable pub result_of :
      String → w.Float → DateTime → Dict String Reached → Result (ScenarioResult w)
  result_of shock_entity shock_severity as_of_time best = elim (impacts_of shock_entity best) [
    | err e ↦ err e
    | ok impacts ↦ ok (record {
      shock_entity = shock_entity;
      shock_severity = shock_severity;
      as_of_time = as_of_time;
      impacts = sorted impact_key impacts;
      limitations = limitations;
    })
  ]

  abbrev pub finished :
      String
      → w.Float
      → DateTime
      → Option (Result (Dict String Reached))
      → Option (Result (ScenarioResult w))
  finished shock_entity shock_severity as_of_time none = none
  finished shock_entity shock_severity as_of_time (some (err e)) = some (err e)
  finished shock_entity shock_severity as_of_time (some (ok best)) =
      some (result_of shock_entity shock_severity as_of_time best)

  unfoldable pub scenario :
      List Edge → ℕ → String → w.Float → DateTime → ℕ → Option (Result (ScenarioResult w))
  scenario edges fuel shock_entity shock_severity as_of_time max_hops =
      if not (in_unit w shock_severity)
      then some (err (value_error "shock_severity must be in [0, 1]"))
      else if ltb max_hops 1
      then some (err (value_error "max_hops must be at least one"))
      else elim (effective_edges as_of_time edges) [
        | err e ↦ some (err e)
        | ok active ↦
            let start = shock shock_entity shock_severity in
            finished shock_entity shock_severity as_of_time (
              propagate max_hops (add_edges active []) (start ∷ []) fuel
                ((shock_entity, start.reached) ∷ []))
      ]
