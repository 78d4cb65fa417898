-- ===== src/Scenario/Closing.antt =====
-- graph.py: when the search ends, every visit dominates all that its edges lead to.
use Prim.Native.Nat.{ℕ, zero, suc, ◌≤◌, ◌<◌}
use mathlib.Core.Option.{some-injective}
use mathlib.Core.List.{Memᴰ}
use mathlib.Core.List.Memᴰ
use agentic_alpha_engine.Prelude.{
  ◌≡◌, refl, sym, ap, subst, ◌∙◌, ◌⊎◌, inl, inr, String, String_eq, true, some, List, [], ◌∷◌,
  arith, All, All-map, mem-All, Bool-cases, leb, leb→le, leb-false, All-mem,
}
use agentic_alpha_engine.Dict.{Dict}
use agentic_alpha_engine.Effects.{Result, ok}
use agentic_alpha_engine.Graph.Contracts.{DateTime}
use agentic_alpha_engine.Scenario.Contracts.{Platform, path_edge, in_unit}
use agentic_alpha_engine.Scenario.Propagation.{
  Edge, Adjacency, add_edges, adjacent, Reached, Visit, Search, visit_along, relax_all, expand,
  propagate, shock,
}
use agentic_alpha_engine.Scenario.Adjacency.{active_edges, adjacent-mem, mem-adjacent}
use agentic_alpha_engine.Scenario.Walks.{
  UnitLaws, Walk, start, along, Bounded, severity_mono, Walk-Carries,
}
use agentic_alpha_engine.Scenario.Invariant.{Dominated, Dominated-grows, Inv, float_le_refl}
use agentic_alpha_engine.Scenario.Search.{relax_all-Goes}

module _ (w : Platform) (edges : List (Edge w)) (at : DateTime) (entity : String)
    (severity : w.Float) (max_hops : ℕ) (bounded : All (Bounded w) edges) where
  abbrev adjacency : Adjacency w
  adjacency = add_edges w (active_edges w at edges) []

  abbrev pub Closed : List (Visit w) → Visit w → Type 0
  Closed seen u =
      u.hops < max_hops
      → All (λ e. Dominated w seen (visit_along w u e (path_edge w e)))
          (adjacent w u.entity adjacency)

  -- the invariant of the `while`
  pub record Open (level : ℕ) (seen : List (Visit w)) (s : Search w) : Type 0 where
    pub kept : Inv w edges at entity severity max_hops level seen s
    pub closed : (u : Visit w) → Memᴰ u seen → Memᴰ u s.frontier ⊎ Closed seen u
    pub started : Memᴰ (shock w entity severity) seen

  module _ (v : Visit w) (vs : List (Visit w)) (best : Dict String (Reached w)) where
    abbrev whole : Search w
    whole = record { best = best; frontier = v ∷ vs }

    abbrev popped : Search w
    popped = record { best = best; frontier = vs }

    pop-Inv :
        (level : ℕ) (seen : List (Visit w))
        → Inv w edges at entity severity max_hops level seen whole
        → Inv w edges at entity severity max_hops v.hops seen popped
    pop-Inv level seen inv = record {
      walks = inv.walks;
      within = inv.within;
      below = All-map (λ u h. omega (arith, h, inv.from_level.0)) seen inv.below;
      from_level = inv.ordered.0;
      ordered = inv.ordered.1;
      pending = inv.pending.1;
      visited = inv.visited;
      covered = inv.covered;
    }

    record Opens (r : Result (Search w)) : Type 0 where
      result : Search w
      visits : List (Visit w)
      is_ok : r ≡ ok result
      still : Open v.hops visits result

    -- A visit at the bound on hops is closed.
    far-Opens :
        (level : ℕ) (seen : List (Visit w))
        → Open level seen whole
        → max_hops ≤ v.hops
        → Opens (ok popped)
    far-Opens level seen o far = record {
      result = popped;
      visits = seen;
      is_ok = refl;
      still = record {
        kept = pop-Inv level seen o.kept;
        closed = λ u m. elim (o.closed u m) [
          | inr c ↦ inr c
          | inl queued ↦ elim (Memᴰ.cases_cons queued) [
            | inl is ↦ inr (λ near. absurd (omega (arith, far, near, ap (λ x. x.hops) is)))
            | inr later ↦ inl later
          ]
        ];
        started = o.started;
      };
    }

    near-Opens :
        (level : ℕ) (seen : List (Visit w))
        → Open level seen whole
        → v.hops < max_hops
        → Opens (relax_all w v (adjacent w v.entity adjacency) popped)
    near-Opens level seen o near =
        let walk = All-mem (Walk w edges at entity severity) seen o.kept.walks o.kept.pending.0 in
        let goes =
          relax_all-Goes w edges at entity severity max_hops bounded v near walk
            (adjacent w v.entity adjacency) seen popped
            (mem-All _ (adjacent w v.entity adjacency) (λ e m.
              let (leaves, now, there) = adjacent-mem w v.entity at edges m in
              (there, now, leaves)))
            (pop-Inv level seen o.kept) in
        record {
          result = goes.result;
          visits = goes.visits;
          is_ok = goes.is_ok;
          still = record {
            kept = goes.kept;
            closed = λ u m. elim (goes.extends.queued u m) [
              | inr now ↦ inl now
              | inl before ↦ elim (o.closed u before) [
                | inr c ↦ inr (λ close.
                    All-map (λ e. Dominated-grows w seen goes.visits _ goes.extends.grows) _
                      (c close))
                | inl queued ↦ elim (Memᴰ.cases_cons queued) [
                  | inl is ↦ inr (λ close.
                      subst
                        (λ x.
                          All (λ e. Dominated w goes.visits (visit_along w x e (path_edge w e)))
                            (adjacent w x.entity adjacency))
                        (sym is) goes.dominated)
                  | inr later ↦ inl (goes.extends.stays u later)
                ]
              ]
            ];
            started = goes.extends.grows _ o.started;
          };
        }

    expand-Opens :
        (level : ℕ) (seen : List (Visit w))
        → Open level seen whole
        → Opens (expand w max_hops adjacency v popped)
    unfolding expand
    expand-Opens level seen o = elim (Bool-cases (leb max_hops v.hops)) [
      | inl far ↦ rw (expand, far) (far-Opens level seen o (leb→le max_hops v.hops far))
      | inr near ↦ rw (expand, near) (near-Opens level seen o (leb-false max_hops v.hops near))
    ]

  -- An ended search, whose visits are all closed.
  pub record Ended (r : Result (Dict String (Reached w))) : Type 0 where
    pub level : ℕ
    pub visits : List (Visit w)
    pub best : Dict String (Reached w)
    pub is_ok : r ≡ ok best
    pub still : Open level visits (record { best = best; frontier = [] })

  pub propagate-Ended :
      (frontier : List (Visit w)) (fuel : ℕ) (best : Dict String (Reached w)) (level : ℕ)
      (seen : List (Visit w)) (r : Result (Dict String (Reached w)))
      → Open level seen (record { best = best; frontier = frontier })
      → propagate w max_hops adjacency frontier fuel best ≡ some r
      → Ended r
  unfolding propagate
  propagate-Ended [] fuel best level seen r o h = record {
    level = level;
    visits = seen;
    best = best;
    is_ok = sym (some-injective (ok best) r h);
    still = o;
  }
  propagate-Ended (v ∷ vs) zero best level seen r o h = absurd (ground (arith, h))
  propagate-Ended (v ∷ vs) (suc fuel) best level seen r o h =
      let next = expand-Opens v vs best level seen o in
      propagate-Ended next.result.frontier fuel next.result.best v.hops next.visits r next.still
        (ground (arith, h, next.is_ok))

  module _ (laws : UnitLaws w) (unit : in_unit w severity ≡ true) where
    -- Every walk within the bound is dominated by a visit of an ended search.
    pub Walk-Dominated :
        {r : Result (Dict String (Reached w))} (e : Ended r) {v : Visit w}
        → Walk w edges at entity severity v
        → v.hops ≤ max_hops
        → Dominated w e.visits v
    Walk-Dominated e start h = (
      shock w entity severity,
      e.still.started,
      record {
        same_entity = refl;
        severer = float_le_refl w edges at entity severity max_hops severity;
        shorter = omega arith;
      },
    )
    Walk-Dominated e (along {v} walk f m now leaves) h =
        let (u, there, d) = Walk-Dominated e walk (omega (arith, h)) in
        elim (e.still.closed u there) [
          | inl queued ↦ absurd (Memᴰ.not-nil queued)
          | inr closed ↦
              let listed = mem-adjacent w u.entity at edges (leaves ∙ sym d.same_entity) now m in
              let (x, there', d') =
                All-mem (λ g. Dominated w e.visits (visit_along w u g (path_edge w g)))
                  (adjacent w u.entity adjacency) (closed (omega (arith, h, d.shorter))) listed in
              (
                x,
                there',
                record {
                  same_entity = d'.same_entity;
                  severer =
                      (w.float_ord).le_trans _ _ _
                        (severity_mono w laws f v.reached.severity u.reached.severity
                          (All-mem (Bounded w) edges bounded m)
                          (Walk-Carries w laws edges at bounded entity severity unit
                            walk).severity_in
                          (Walk-Carries w laws edges at bounded entity severity unit (
                            All-mem (Walk w edges at entity severity) e.visits e.still.kept.walks
                              there)).severity_in
                          d.severer)
                        d'.severer;
                  shorter = omega (arith, d'.shorter, d.shorter);
                },
              )
        ]
