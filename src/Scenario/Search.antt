-- ===== src/Scenario/Search.antt =====
-- graph.py: the rounds of the search keep its invariant and close every visit they take from the queue.
use Prim.Native.Nat.{ℕ, suc, ◌≤◌, ◌<◌}
use mathlib.Core.List.{Memᴰ}
use agentic_alpha_engine.Prelude.{
  ◌≡◌, refl, sym, subst, inl, inr, String, String_eq, true, List, [], ◌∷◌, arith, All, All-mem,
  Bool-cases, Option-cases,
}
use agentic_alpha_engine.Dict.{lookup, lookup-item}
use agentic_alpha_engine.Effects.{Result, ok}
use agentic_alpha_engine.Graph.Contracts.{DateTime}
use agentic_alpha_engine.Scenario.Contracts.{
  Platform, float_le, path_edge, is_effective, propagated_severity,
}
use agentic_alpha_engine.Scenario.Propagation.{
  Edge, Reached, Visit, Search, visit_along, is_kept, update, relax, relax_all,
}
use agentic_alpha_engine.Scenario.Walks.{Walk, along, Bounded, Bounded-hop}
use agentic_alpha_engine.Scenario.Invariant.{
  Dominated, Dominated-grows, Visited, Inv, Extends, Extends-refl, Extends-trans, float_le_refl,
  is_kept-true, update-Inv, update-Extends,
}

module _ (w : Platform) (edges : List (Edge w)) (at : DateTime) (entity : String)
    (severity : w.Float) (max_hops : ℕ) (bounded : All (Bounded w) edges) where
  abbrev Kept : ℕ → List (Visit w) → Search w → Type 0
  Kept = Inv w edges at entity severity max_hops

  abbrev past : Visit w → Edge w → Visit w
  past v e = visit_along w v e (path_edge w e)

  module _ (v : Visit w) where
    -- A search that an action returns, gone on from one that it was given, with the edges of the visit
    -- that it has followed.
    pub record Goes (seen : List (Visit w)) (s : Search w) (r : Result (Search w))
        (followed : List (Edge w)) : Type 0 where
      pub result : Search w
      pub visits : List (Visit w)
      pub is_ok : r ≡ ok result
      pub kept : Kept v.hops visits result
      pub extends : Extends w edges at entity severity max_hops seen s visits result
      pub dominated : All (λ e. Dominated w visits (past v e)) followed

    -- The visit that keeps out an edge dominates the visit along it.
    Kept-Dominated :
        (e : Edge w) (seen : List (Visit w)) (s : Search w)
        → Kept v.hops seen s
        → is_kept w (lookup e.target s.best) (propagated_severity w e v.reached.severity) ≡ true
        → Dominated w seen (past v e)
    Kept-Dominated e seen s inv kept = elim (Option-cases (lookup e.target s.best)) [
      | inl missing ↦ absurd (ground (arith, kept, missing))
      | inr (r, found) ↦
          let (u, m, there, is) =
            lookup-item (λ p. Visited w edges at entity severity max_hops seen p.0 p.1) e.target
              s.best inv.visited found in
          (
            u,
            m,
            record {
              same_entity = there;
              severer =
                  subst
                    (λ (x : Reached w).
                      float_le w (propagated_severity w e v.reached.severity) x.severity ≡ true)
                    (sym is)
                    (is_kept-true w edges at entity severity max_hops (lookup e.target s.best) r
                      (propagated_severity w e v.reached.severity) kept found);
              shorter = All-mem (λ x. x.hops ≤ suc v.hops) seen inv.below m;
            },
          )
    ]

    module _ (near : v.hops < max_hops) (walk : Walk w edges at entity severity v) where
      abbrev pub Follows : Edge w → Type 0
      Follows e = Memᴰ e edges × (is_effective w e at ≡ ok true) × (e.source ≡ v.entity)

      relax-Goes :
          (e : Edge w) (seen : List (Visit w)) (s : Search w)
          → Follows e
          → Kept v.hops seen s
          → Goes seen s (relax w v e s) (e ∷ [])
      unfolding relax
      relax-Goes e seen s (m, now, leaves) inv =
          elim (Bool-cases
            (is_kept w (lookup e.target s.best) (propagated_severity w e v.reached.severity))) [
              | inl kept ↦ record {
                result = s;
                visits = seen;
                is_ok =
                    rw (relax, Bounded-hop w e (All-mem (Bounded w) edges bounded m), kept) refl;
                kept = inv;
                extends = Extends-refl w edges at entity severity max_hops seen s;
                dominated = (Kept-Dominated e seen s inv kept, tt);
              }
              | inr better ↦ record {
                result = update w (past v e) s;
                visits = past v e ∷ seen;
                is_ok =
                    rw (relax, Bounded-hop w e (All-mem (Bounded w) edges bounded m), better) refl;
                kept =
                    update-Inv w edges at entity severity max_hops (past v e) seen s v.hops refl
                      near (along walk e m now leaves) better inv;
                extends =
                    update-Extends w edges at entity severity max_hops (past v e) seen s v.hops;
                dominated = (
                  (
                    past v e,
                    Memᴰ.head refl,
                    record {
                      same_entity = refl;
                      severer =
                          float_le_refl w edges at entity severity max_hops
                            (past v e).reached.severity;
                      shorter = omega arith;
                    },
                  ),
                  tt,
                );
              }
            ]

      pub relax_all-Goes :
          (es : List (Edge w)) (seen : List (Visit w)) (s : Search w)
          → All Follows es
          → Kept v.hops seen s
          → Goes seen s (relax_all w v es s) es
      unfolding relax_all
      relax_all-Goes [] seen s all inv = record {
        result = s;
        visits = seen;
        is_ok = refl;
        kept = inv;
        extends = Extends-refl w edges at entity severity max_hops seen s;
        dominated = tt;
      }
      relax_all-Goes (e ∷ es) seen s all inv =
          let one = relax-Goes e seen s all.0 inv in
          let rest = relax_all-Goes es one.visits one.result all.1 one.kept in
          record {
            result = rest.result;
            visits = rest.visits;
            is_ok = rw (relax_all, one.is_ok) rest.is_ok;
            kept = rest.kept;
            extends = Extends-trans w edges at entity severity max_hops one.extends rest.extends;
            dominated = (
              Dominated-grows w one.visits rest.visits (past v e) rest.extends.grows
                  one.dominated.0,
              rest.dominated,
            );
          }
