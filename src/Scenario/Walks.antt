-- ===== src/Scenario/Walks.antt =====
-- graph.py: the walks along effective edges that a scenario may follow.
use Prim.Native.Nat.{◌≤◌}
use mathlib.Core.List.{Memᴰ}
use agentic_alpha_engine.Prelude.{
  ◌≡◌, refl, String, true, inl, inr, subst, Bool-cases, All-mem, List, [], ◌∷◌, arith, All,
}
use agentic_alpha_engine.Effects.{ok, ok_injective, result_cases}
use agentic_alpha_engine.Graph.Contracts.{DateTime}
use agentic_alpha_engine.Scenario.Contracts.{
  Platform, float_le, in_unit, all_in_unit, path_edge, as_path_edge, is_effective, is_bounded,
  from_json, propagated_severity,
}
use agentic_alpha_engine.Scenario.Propagation.{Edge, Visit, visit_along, shock}

-- What the proofs use of the floats in [0, 1]: products and complements stay there, and a product grows
-- with its first factor and is at most that factor.
pub record UnitLaws (w : Platform) : Type 0 where
  pub one-InUnit : in_unit w w.float_1 ≡ true
  pub times-InUnit :
      (a b : w.Float) → in_unit w a ≡ true → in_unit w b ≡ true → in_unit w (w.times a b) ≡ true
  pub minus-InUnit : (a : w.Float) → in_unit w a ≡ true → in_unit w (w.minus w.float_1 a) ≡ true
  pub times_mono :
      (a b c : w.Float)
      → in_unit w a ≡ true
      → in_unit w b ≡ true
      → in_unit w c ≡ true
      → float_le w a b ≡ true
      → float_le w (w.times a c) (w.times b c) ≡ true
  pub times_shrinks :
      (a b : w.Float) → in_unit w a ≡ true → in_unit w b ≡ true → float_le w (w.times a b) a ≡ true

module _ (w : Platform) (edges : List (Edge w)) (at : DateTime) where
  -- a walk from the shocked entity, with what it carries to its end
  pub data Walk (entity : String) (severity : w.Float) : Visit w → Type 0 where
    start : Walk entity severity (shock w entity severity)
    along :
        {v : Visit w}
        → Walk entity severity v
        → (e : Edge w) → Memᴰ e edges
        → is_effective w e at ≡ ok true
        → e.source ≡ v.entity
        → Walk entity severity (visit_along w v e (path_edge w e))

-- a visit of the same entity, with no more hops and no less severity
pub record Dominates (w : Platform) (better worse : Visit w) : Type 0 where
  pub same_entity : better.entity ≡ worse.entity
  pub severer : float_le w worse.reached.severity better.reached.severity ≡ true
  pub shorter : better.hops ≤ worse.hops

-- an edge whose three floats are in [0, 1]
pub record Bounded (w : Platform) (e : Edge w) : Type 0 where
  pub weight_in : in_unit w e.weight ≡ true
  pub substitutability_in : in_unit w e.substitutability ≡ true
  pub confidence_in : in_unit w e.confidence ≡ true

module _ (w : Platform) where
  is_bounded-Bounded : (e : Edge w) → is_bounded w e ≡ true → Bounded w e
  unfolding is_bounded all_in_unit
  is_bounded-Bounded e h = record {
    weight_in = ground arith;
    substitutability_in = ground arith;
    confidence_in = ground arith;
  }

  -- the edges that `from_json` returns
  pub from_json-Bounded :
      (given edges : List (Edge w)) → from_json w given ≡ ok edges → All (Bounded w) edges
  unfolding from_json
  from_json-Bounded [] edges h = subst (All (Bounded w)) (ok_injective h) tt
  from_json-Bounded (e ∷ given) edges h = elim (Bool-cases (is_bounded w e)) [
    | inr out ↦ absurd (ground (arith, h, out))
    | inl inside ↦ elim (result_cases (from_json w given)) [
      | inr (x, failed) ↦ absurd (ground (arith, h, inside, failed))
      | inl (rest, is) ↦
          subst (All (Bounded w)) (ok_injective (whole inside rest is))
            (is_bounded-Bounded e inside, from_json-Bounded given rest is)
    ]
  ]
    where
      whole :
          is_bounded w e ≡ true
          → (rest : List (Edge w)) → from_json w given ≡ ok rest
          → ok (e ∷ rest) ≡ ok edges
      whole inside rest is = ground (arith, h, inside, is)

  pub Bounded-hop : (e : Edge w) → Bounded w e → as_path_edge w e ≡ ok (path_edge w e)
  unfolding as_path_edge all_in_unit
  Bounded-hop e b = rw (b.weight_in, b.substitutability_in) refl

module _ (w : Platform) (laws : UnitLaws w) where
  pub severity-InUnit :
      (e : Edge w) (incoming : w.Float)
      → Bounded w e
      → in_unit w incoming ≡ true
      → in_unit w (propagated_severity w e incoming) ≡ true
  unfolding propagated_severity
  severity-InUnit e incoming b h =
      laws.times-InUnit _ _ (laws.times-InUnit incoming e.weight h b.weight_in)
        (laws.minus-InUnit e.substitutability b.substitutability_in)

  -- A severer shock is severer past the edge.
  pub severity_mono :
      (e : Edge w) (a b : w.Float)
      → Bounded w e
      → in_unit w a ≡ true
      → in_unit w b ≡ true
      → float_le w a b ≡ true
      → float_le w (propagated_severity w e a) (propagated_severity w e b) ≡ true
  unfolding propagated_severity
  severity_mono e a b bounds ha hb h =
      laws.times_mono (w.times a e.weight) (w.times b e.weight)
        (w.minus w.float_1 e.substitutability) (laws.times-InUnit a e.weight ha bounds.weight_in)
        (laws.times-InUnit b e.weight hb bounds.weight_in)
        (laws.minus-InUnit e.substitutability bounds.substitutability_in)
        (laws.times_mono a b e.weight ha hb bounds.weight_in h)

  -- It is no severer past the edge than before.
  severity_shrinks :
      (e : Edge w) (incoming : w.Float)
      → Bounded w e
      → in_unit w incoming ≡ true
      → float_le w (propagated_severity w e incoming) incoming ≡ true
  unfolding propagated_severity
  severity_shrinks e incoming b h =
      (w.float_ord).le_trans _ (w.times incoming e.weight) incoming
        (laws.times_shrinks (w.times incoming e.weight) (w.minus w.float_1 e.substitutability)
          (laws.times-InUnit incoming e.weight h b.weight_in)
          (laws.minus-InUnit e.substitutability b.substitutability_in))
        (laws.times_shrinks incoming e.weight h b.weight_in)

  module _ (edges : List (Edge w)) (at : DateTime) (bounded : All (Bounded w) edges)
      (entity : String) (severity : w.Float) (unit : in_unit w severity ≡ true) where
    -- What a walk carries is in [0, 1], and no severer than the shock.
    pub record Carries (v : Visit w) : Type 0 where
      pub severity_in : in_unit w v.reached.severity ≡ true
      pub confidence_in : in_unit w v.reached.confidence ≡ true
      pub at_most_shock : float_le w v.reached.severity severity ≡ true

    pub Walk-Carries : {v : Visit w} → Walk w edges at entity severity v → Carries v
    Walk-Carries start = record {
      severity_in = unit;
      confidence_in = laws.one-InUnit;
      at_most_shock = ground (arith, (w.float_ord).le_total severity severity);
    }
    Walk-Carries (along {v} walk e m now leaves) =
        let before = Walk-Carries walk in
        let b = All-mem (Bounded w) edges bounded m in
        record {
          severity_in = severity-InUnit e v.reached.severity b before.severity_in;
          confidence_in =
              laws.times-InUnit v.reached.confidence e.confidence before.confidence_in
                b.confidence_in;
          at_most_shock =
              (w.float_ord).le_trans _ v.reached.severity severity
                (severity_shrinks e v.reached.severity b before.severity_in) before.at_most_shock;
        }
