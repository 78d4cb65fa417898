-- ===== src/Scenario/Fuel.antt =====
-- graph.py: the search of `scenario` ends within a number of rounds that its bound on hops sets.
use Prim.Native.Nat.{ℕ, zero, suc, ◌+◌, ◌*◌, ◌-◌, ◌≤◌, ◌<◌}
use agentic_alpha_engine.Prelude.{
  ◌≡◌, refl, ap, String, String_eq, true, false, Option, some, List, [], ◌∷◌, ◌++◌, arith, length,
  Bool-cases, inl, inr, ◌⊎◌, leb, leb-false, ltb, ◌∙◌,
}
use agentic_alpha_engine.Dict.{Dict, lookup}
use agentic_alpha_engine.Effects.{Result, ok, err, ok_injective, result_cases, value_error}
use agentic_alpha_engine.Graph.Contracts.{DateTime}
use agentic_alpha_engine.Scenario.Contracts.{
  Platform, in_unit, ScenarioPathEdge, ScenarioResult, propagated_severity, as_path_edge,
}
use agentic_alpha_engine.Scenario.Propagation.{
  Edge, effective_edges, Adjacency, adjacent, add_edges, Reached, Visit, Search, visit_along,
  is_kept, update, relax, relax_all, expand, propagate, finished, result_of, shock, scenario,
  rounds,
}
use agentic_alpha_engine.Scenario.Adjacency.{active_edges, effective_edges-active, adjacent-length}

pub times_le : (a b c : ℕ) → a ≤ b → a * c ≤ b * c
times_le a b c h = grind arith

rounds_positive : (edges hops : ℕ) → 1 ≤ rounds edges hops
unfolding rounds
rounds_positive edges zero = omega arith
rounds_positive edges (suc hops) = omega arith

all_left : (n : ℕ) → n - 0 ≡ n
all_left n = omega arith

rounds_step :
    (edges most hops : ℕ)
    → hops < most
    → rounds edges (most - hops) ≡ suc (edges * rounds edges (most - suc hops))
unfolding rounds
rounds_step edges most hops h = ap (rounds edges) left
  where
    left : most - hops ≡ suc (most - suc hops)
    left = omega (arith, h)

module _ (w : Platform) where
  -- What one edge of a visit does when it does not raise: nothing, or an update.
  pub relax-cases :
      (v : Visit w) (e : Edge w) (s next : Search w)
      → relax w v e s ≡ ok next
      → (hop : ScenarioPathEdge w) × (as_path_edge w e ≡ ok hop)
        × ((is_kept w (lookup e.target s.best) (propagated_severity w e v.reached.severity) ≡ true)
              × (s ≡ next)
            ⊎ (is_kept w (lookup e.target s.best) (propagated_severity w e v.reached.severity)
                ≡ false)
              × (update w (visit_along w v e hop) s ≡ next))
  unfolding relax
  relax-cases v e s next h = elim (result_cases (as_path_edge w e)) [
    | inr (x, failed) ↦ absurd (ground (arith, h, failed))
    | inl (hop, made) ↦ (
      hop,
      made,
      elim (Bool-cases
          (is_kept w (lookup e.target s.best) (propagated_severity w e v.reached.severity))) [
            | inl kept ↦ inl (kept, ground (arith, h, made, kept))
            | inr pushed ↦ inr (pushed, ground (arith, h, made, pushed))
          ],
    )
  ]

module _ (w : Platform) (edges max_hops : ℕ) where
  -- the rounds that the visits in the queue may lead to
  abbrev rounds_left : List (Visit w) → ℕ
  rounds_left [] = 0
  rounds_left (v ∷ vs) = rounds edges (max_hops - v.hops) + rounds_left vs

  rounds_left-append :
      (us vs : List (Visit w)) → rounds_left (us ++ vs) ≡ rounds_left us + rounds_left vs
  rounds_left-append [] vs = omega arith
  rounds_left-append (u ∷ us) vs = omega (arith, rounds_left-append us vs)

  relax-rounds :
      (v : Visit w) (e : Edge w) (s next : Search w)
      → relax w v e s ≡ ok next
      → rounds_left next.frontier ≤ rounds_left s.frontier + rounds edges (max_hops - suc v.hops)
  unfolding update
  relax-rounds v e s next h =
      let (hop, made, cases) = relax-cases w v e s next h in
      elim cases [
        | inl (kept, is) ↦ omega (arith, ap (λ t. rounds_left t.frontier) is)
        | inr (pushed, is) ↦ omega (
          arith,
          ap (λ t. rounds_left t.frontier) is,
          rounds_left-append s.frontier (visit_along w v e hop ∷ []),
        )
      ]

  relax_all-rounds :
      (v : Visit w) (es : List (Edge w)) (s next : Search w)
      → relax_all w v es s ≡ ok next
      → rounds_left next.frontier
        ≤ rounds_left s.frontier + length es * rounds edges (max_hops - suc v.hops)
  unfolding relax_all
  relax_all-rounds v [] s next h = omega (arith, ap (λ t. rounds_left t.frontier) (ok_injective h))
  relax_all-rounds v (e ∷ es) s next h = elim (result_cases (relax w v e s)) [
    | inr (x, failed) ↦ absurd (ground (arith, h, failed))
    | inl (t, did) ↦
        grind
          (arith, relax-rounds v e s t did, relax_all-rounds v es t next (ground (arith, h, did)))
  ]

  module _ (adjacency : Adjacency w)
      (few : (x : String) → length (adjacent w x adjacency) ≤ edges) where
    -- A visit leaves fewer rounds in the queue than it took from it.
    expand-rounds :
        (v : Visit w) (s next : Search w)
        → expand w max_hops adjacency v s ≡ ok next
        → rounds_left next.frontier < rounds edges (max_hops - v.hops) + rounds_left s.frontier
    unfolding expand
    expand-rounds v s next h = elim (Bool-cases (leb max_hops v.hops)) [
      | inl far ↦ omega (
        arith,
        ap (λ t. rounds_left t.frontier) (ok_injective (stopped far)),
        rounds_positive edges (max_hops - v.hops),
      )
      | inr near ↦ omega (
        arith,
        relax_all-rounds v (adjacent w v.entity adjacency) s next (went near),
        rounds_step edges max_hops v.hops (leb-false max_hops v.hops near),
        times_le _ edges (rounds edges (max_hops - suc v.hops)) (few v.entity),
      )
    ]
      where
        stopped : leb max_hops v.hops ≡ true → ok s ≡ ok next
        stopped far = ground (arith, h, far)

        went :
            leb max_hops v.hops ≡ false → relax_all w v (adjacent w v.entity adjacency) s ≡ ok next
        went near = ground (arith, h, near)

    propagate-ends :
        (frontier : List (Visit w)) (fuel : ℕ) (best : Dict String (Reached w))
        → rounds_left frontier ≤ fuel
        → (r : Result (Dict String (Reached w))) × (propagate w max_hops adjacency frontier fuel
              best
            ≡ some r)
    unfolding propagate
    propagate-ends [] fuel best h = (ok best, refl)
    propagate-ends (v ∷ vs) zero best h =
        absurd (omega (arith, h, rounds_positive edges (max_hops - v.hops)))
    propagate-ends (v ∷ vs) (suc fuel) best h =
        elim (result_cases
          (expand w max_hops adjacency v (record { best = best; frontier = vs }))) [
            | inr (x, failed) ↦ (err x, rw (propagate, failed) refl)
            | inl (next, did) ↦
                let (r, is) = propagate-ends next.frontier fuel next.best (
                  omega
                    (arith, h, expand-rounds v (record { best = best; frontier = vs }) next did)) in
                (r, rw (propagate, did) is)
          ]

module _ (w : Platform) (edges : List (Edge w)) (shock_entity : String) (shock_severity : w.Float)
    (as_of_time : DateTime) (max_hops : ℕ) where
  -- the search of a scenario, with the rounds that are enough
  abbrev pub searched : Option (Result (Dict String (Reached w)))
  searched =
      propagate w max_hops (add_edges w (active_edges w as_of_time edges) [])
        (shock w shock_entity shock_severity ∷ []) (rounds (length edges) max_hops)
        ((shock_entity, (shock w shock_entity shock_severity).reached) ∷ [])

  pub searched-ends : (r : Result (Dict String (Reached w))) × (searched ≡ some r)
  searched-ends =
      propagate-ends w (length edges) max_hops (add_edges w (active_edges w as_of_time edges) [])
        (λ x. adjacent-length w x as_of_time edges) (shock w shock_entity shock_severity ∷ [])
        (rounds (length edges) max_hops)
        ((shock_entity, (shock w shock_entity shock_severity).reached) ∷ [])
        (omega (arith, ap (rounds (length edges)) (all_left max_hops)))

  finished-some :
      (r : Result (Dict String (Reached w)))
      → (r' : Result (ScenarioResult w)) × (finished w shock_entity shock_severity as_of_time
            (some r)
          ≡ some r')
  finished-some (ok best) = (result_of w shock_entity shock_severity as_of_time best, refl)
  finished-some (err e) = (err e, refl)

  abbrev pub enough : ℕ
  enough = rounds (length edges) max_hops

  pub scenario-searched :
      in_unit w shock_severity ≡ true
      → ltb max_hops 1 ≡ false
      → effective_edges w as_of_time edges ≡ ok (active_edges w as_of_time edges)
      → scenario w edges enough shock_entity shock_severity as_of_time max_hops
        ≡ finished w shock_entity shock_severity as_of_time searched
  unfolding scenario
  scenario-searched unit hops active = rw (unit, hops, active) refl

  -- `scenario` ends for all arguments: with the rounds that its number of edges and its bound on hops
  -- set it returns a result or raises.
  pub scenario-ends :
      (r : Result (ScenarioResult w)) × (scenario w edges enough shock_entity shock_severity
          as_of_time max_hops
        ≡ some r)
  unfolding scenario
  scenario-ends = elim (Bool-cases (in_unit w shock_severity)) [
    | inr out ↦ (err (value_error "shock_severity must be in [0, 1]"), rw (scenario, out) refl)
    | inl unit ↦ elim (Bool-cases (ltb max_hops 1)) [
      | inl none_left ↦
          (err (value_error "max_hops must be at least one"), rw (scenario, unit, none_left) refl)
      | inr hops ↦ elim (result_cases (effective_edges w as_of_time edges)) [
        | inr (e, failed) ↦ (err e, rw (scenario, unit, hops, failed) refl)
        | inl (active, now) ↦
            let (r, is) = searched-ends in
            let (r', done) = finished-some r in
            (
              r',
              scenario-searched unit hops
                    (now ∙ ap ok (effective_edges-active w as_of_time edges active now))
                  ∙ ap (finished w shock_entity shock_severity as_of_time) is
                  ∙ done,
            )
      ]
    ]
  ]
