-- ===== src/Scenario/Strongest.antt =====
-- graph.py: `scenario` reports what walks along effective edges carry, and the severest of each entity.
use Prim.Native.Nat.{ℕ, ◌≤◌}
use mathlib.Core.List.{Memᴰ}
use agentic_alpha_engine.Prelude.{
  ◌≡◌, ◌≢◌, refl, sym, ap, subst, ◌∙◌, String, String_eq, String_ord, ×_ord, true, some, List, [],
  ◌∷◌, arith, All, All-map, All-mem, All-sorted, mem-sorted, sorted, Ord, inl,
}
use agentic_alpha_engine.Dict.{Dict, lookup, insert, lookup-insert_self}
use agentic_alpha_engine.Effects.{Result, ok}
use agentic_alpha_engine.Graph.Contracts.{DateTime}
use agentic_alpha_engine.Scenario.Contracts.{
  Platform, float_le, in_unit, from_json, ScenarioImpact, ScenarioResult,
}
use agentic_alpha_engine.Scenario.Propagation.{
  Edge, Reached, Visit, impact_key, shock, limitations, impacts_of, result_of, finished, scenario,
}
use agentic_alpha_engine.Scenario.Adjacency.{Comparable, effective_edges-returns}
use agentic_alpha_engine.Scenario.Fuel.{enough, searched-ends, scenario-searched}
use agentic_alpha_engine.Scenario.Walks.{
  UnitLaws, Walk, start, Bounded, from_json-Bounded, Walk-Carries,
}
use agentic_alpha_engine.Scenario.Invariant.{float_le_refl}
use agentic_alpha_engine.Scenario.Closing.{Open, Ended, propagate-Ended, Walk-Dominated}
use agentic_alpha_engine.Scenario.Impacts.{impact, InUnit, Impacts, impacts_of-Impacts}

module _ (w : Platform) (edges : List (Edge w)) (at : DateTime) (entity : String)
    (severity : w.Float) (max_hops : ℕ) where
  -- a walk within the bound, to an entity and with what it carries there
  abbrev pub Reaches : String → Reached w → Type 0
  Reaches x r =
      (v : Visit w) × Walk w edges at entity severity v
      × (v.hops ≤ max_hops)
      × (v.entity ≡ x)
      × (v.reached ≡ r)

  -- What a scenario reports: its arguments, of each impact a walk, and of each walk an impact that is as severe.
  pub record Reports (result : ScenarioResult w) : Type 0 where
    pub of_entity : result.shock_entity ≡ entity
    pub of_severity : result.shock_severity ≡ severity
    pub of_time : result.as_of_time ≡ at
    pub from_walks :
        All
          (λ i.
            (i.entity ≢ entity)
            × (float_le w i.severity severity ≡ true)
            × ((r : Reached w) × Reaches i.entity r × (i ≡ impact w i.entity r)))
          result.impacts
    pub strongest :
        (v : Visit w)
        → Walk w edges at entity severity v
        → v.hops ≤ max_hops
        → v.entity ≢ entity
        → (i : ScenarioImpact w) × Memᴰ i result.impacts
          × (i.entity ≡ v.entity)
          × (float_le w v.reached.severity i.severity ≡ true)

module _ (w : Platform) (laws : UnitLaws w) (edges : List (Edge w))
    (bounded : All (Bounded w) edges) (at : DateTime) (entity : String) (severity : w.Float)
    (unit : in_unit w severity ≡ true) (max_hops : ℕ) where
  instance abbrev severity_ord : Ord w.Float
  severity_ord = w.float_ord

  begin :
      Open w edges at entity severity max_hops bounded 0 (shock w entity severity ∷ []) (record {
        best = (entity, (shock w entity severity).reached) ∷ [];
        frontier = shock w entity severity ∷ [];
      })
  unfolding insert
  begin = record {
    kept = record {
      walks = (start, tt);
      within = (omega arith, tt);
      below = (omega arith, tt);
      from_level = (omega arith, tt);
      ordered = (tt, tt);
      pending = (Memᴰ.head refl, tt);
      visited = ((shock w entity severity, Memᴰ.head refl, refl, refl), tt);
      covered = (
        (
          (shock w entity severity).reached,
          lookup-insert_self entity (shock w entity severity).reached [],
          float_le_refl w edges at entity severity max_hops severity,
        ),
        tt,
      );
    };
    closed = λ u m. inl m;
    started = Memᴰ.head refl;
  }

  Reaches-InUnit :
      (x : String) (r : Reached w)
      → Reaches w edges at entity severity max_hops x r
      → InUnit w r × (float_le w r.severity severity ≡ true)
  Reaches-InUnit x r (v, walk, near, there, is) =
      let c = Walk-Carries w laws edges at bounded entity severity unit walk in
      subst (λ (y : Reached w). InUnit w y × (float_le w y.severity severity ≡ true)) is
        (record { severity_in = c.severity_in; confidence_in = c.confidence_in }, c.at_most_shock)

  module _ {r : Result (Dict String (Reached w))}
      (e : Ended w edges at entity severity max_hops bounded r) where
    reached : All (λ p. Reaches w edges at entity severity max_hops p.0 p.1 × InUnit w p.1) e.best
    reached =
        All-map
          (λ p (v, m, there, is).
            let found : Reaches w edges at entity severity max_hops p.0 p.1 = (
              v,
              All-mem (Walk w edges at entity severity) e.visits e.still.kept.walks m,
              All-mem (λ u. u.hops ≤ max_hops) e.visits e.still.kept.within m,
              there,
              is,
            ) in
            (found, (Reaches-InUnit p.0 p.1 found).0))
          e.best e.still.kept.visited

    made :
        Impacts w entity
          (Reaches w edges at entity severity max_hops)
          e.best
          (impacts_of w entity e.best)
    made = impacts_of-Impacts w entity (Reaches w edges at entity severity max_hops) e.best reached

    abbrev result : ScenarioResult w
    result = record {
      shock_entity = entity;
      shock_severity = severity;
      as_of_time = at;
      impacts = sorted (impact_key w) made.impacts;
      limitations = limitations w;
    }

    result_of-ok : result_of w entity severity at e.best ≡ ok result
    unfolding result_of
    result_of-ok = rw (result_of, made.is_ok) refl

    result-Reports : Reports w edges at entity severity max_hops result
    result-Reports = record {
      of_entity = refl;
      of_severity = refl;
      of_time = refl;
      from_walks = All-sorted (impact_key w) _ made.impacts (
          All-map
            (λ i (differ, (x, reaches, is)). (
              differ,
              subst (λ (j : ScenarioImpact w). float_le w j.severity severity ≡ true) (sym is)
                  (Reaches-InUnit i.entity x reaches).1,
              (x, reaches, is),
            ))
            made.impacts made.sound);
      strongest = λ v walk near differ.
          let (u, m, d) =
            Walk-Dominated w edges at entity severity max_hops bounded laws unit e walk near in
          let (x, found, less) =
            All-mem
              (λ z.
                (y : Reached w) × (lookup z.entity e.best ≡ some y)
                × (float_le w z.reached.severity y.severity ≡ true))
              e.visits e.still.kept.covered m in
          (
            impact w u.entity x,
            mem-sorted (impact_key w) made.impacts
                (made.complete u.entity x (λ is. differ (sym d.same_entity ∙ is)) found),
            d.same_entity,
            (w.float_ord).le_trans _ _ _ d.severer less,
          );
    }

-- A scenario on edges whose floats are in [0, 1].
pub Bounded-Reports :
    (w : Platform) (laws : UnitLaws w) (edges : List (Edge w)) (at : DateTime) (entity : String)
    (severity : w.Float) (max_hops : ℕ)
    → All (Bounded w) edges
    → All (λ e. Comparable at e.effective_from e.effective_to) edges
    → in_unit w severity ≡ true
    → 1 ≤ max_hops
    → (result : ScenarioResult w) × (scenario w edges
          (enough w edges entity severity at max_hops)
          entity
          severity
          at
          max_hops
        ≡ some (ok result))
      × Reports w edges at entity severity max_hops result
Bounded-Reports w laws edges at entity severity max_hops bounded zones unit hops =
    let (r, found) = searched-ends w edges entity severity at max_hops in
    let e =
      propagate-Ended w edges at entity severity max_hops bounded _ _ _ 0 _ r
        (begin w laws edges bounded at entity severity unit max_hops) found in
    (
      result w laws edges bounded at entity severity unit max_hops e,
      scenario-searched w edges entity severity at max_hops unit (ground arith)
            (effective_edges-returns w at edges zones)
          ∙ ap (finished w entity severity at) (found ∙ ap some e.is_ok)
          ∙ ap some (result_of-ok w laws edges bounded at entity severity unit max_hops e),
      result-Reports w laws edges bounded at entity severity unit max_hops e,
    )

-- On the edges that `from_json` accepts, whose times have a zone exactly when the time of the
-- scenario has one, with a severity in [0, 1] and at least one hop, a scenario returns a result. Each of its impacts is that of a walk from the shocked entity along effective
-- edges, within the bound on hops, to another entity, with the severity, the confidence and the path
-- of that walk and no severer than the shock. And of every such walk there is an impact on the entity
-- where it ends that is at least as severe.
pub scenario-Reports :
    (w : Platform) (laws : UnitLaws w) (given edges : List (Edge w)) (at : DateTime)
    (entity : String) (severity : w.Float) (max_hops : ℕ)
    → from_json w given ≡ ok edges
    → All (λ e. Comparable at e.effective_from e.effective_to) edges
    → in_unit w severity ≡ true
    → 1 ≤ max_hops
    → (result : ScenarioResult w) × (scenario w edges
          (enough w edges entity severity at max_hops)
          entity
          severity
          at
          max_hops
        ≡ some (ok result))
      × Reports w edges at entity severity max_hops result
scenario-Reports w laws given edges at entity severity max_hops read zones unit hops =
    Bounded-Reports w laws edges at entity severity max_hops (from_json-Bounded w given edges read)
      zones unit hops
