-- ===== src/Gates/Evidence.antt =====
-- agents/gatekeeper.py: the acceptance of a report, as the order of its numbers.
use Prim.Native.Nat.{◌≤◌}
use mathlib.Core.Logic.{◌↔◌}
use agentic_alpha_engine.Prelude.{◌≡◌, ◌≢◌, String, true, false, not, Option, some, arith, length}
use agentic_alpha_engine.Effects.{ok}
use agentic_alpha_engine.Gates.Gatekeeper.{
  Arithmetic, accepted, GateDecision, BacktestReport, Gatekeeper, decide,
}
use agentic_alpha_engine.Gates.Decisions.{Passes, decide-Passes}

-- What the proofs use of the comparisons: zero is finite, and of two finite floats either the first is
-- at most the second or the second is less.
pub record OrderLaws (w : Arithmetic) : Type 0 where
  pub zero_finite : w.is_finite w.float_0 ≡ true
  pub at_most-less :
      (x y : w.Float)
      → w.is_finite x ≡ true
      → w.is_finite y ≡ true
      → w.at_most x y ≡ not (w.less y x)

module _ (w : Arithmetic) (gate : Gatekeeper w) where
  -- a report with a positive cost and with a drawdown within the limit, over enough periods
  pub record Costed (report : BacktestReport w) : Type 0 where
    pub long_enough : gate.min_periods ≤ report.periods
    pub positive_costs : w.less w.float_0 report.transaction_cost_bps ≡ true
    pub within_limit : w.at_most gate.max_drawdown report.max_drawdown ≡ true

  -- The evidence for a report: against a baseline that it exceeds, and out of the sample, where the
  -- return is positive if the gate requires it.
  pub record Favourable (report : BacktestReport w) (baseline oos : Option (BacktestReport w))
      : Type 0 where
    pub finite_costs : w.is_finite report.transaction_cost_bps ≡ true
    pub finite_drawdown : w.is_finite report.max_drawdown ≡ true
    pub costed : Costed report
    pub beats :
        (b : BacktestReport w) × (baseline ≡ some b)
        × (w.less b.net_return report.net_return ≡ true)
    pub holds_up :
        (o : BacktestReport w) × (oos ≡ some o)
        × Costed o
        × (gate.require_positive_oos_return ≡ true → w.less w.float_0 o.net_return ≡ true)

  -- The numbers of a report that are compared are finite.
  pub record Finite (report : BacktestReport w) : Type 0 where
    pub return_in : w.is_finite report.net_return ≡ true
    pub costs_in : w.is_finite report.transaction_cost_bps ≡ true
    pub drawdown_in : w.is_finite report.max_drawdown ≡ true

  module _ (laws : OrderLaws w) (limit : w.is_finite gate.max_drawdown ≡ true) where
    exceeds :
        (x y : w.Float)
        → w.is_finite x ≡ true
        → w.is_finite y ≡ true
        → w.at_most x y ≡ false
        → w.less y x ≡ true
    exceeds x y fx fy h = ground (arith, h, laws.at_most-less x y fx fy)

    not_at_most :
        (x y : w.Float)
        → w.is_finite x ≡ true
        → w.is_finite y ≡ true
        → w.less y x ≡ true
        → w.at_most x y ≡ false
    not_at_most x y fx fy h = ground (arith, h, laws.at_most-less x y fx fy)

    reaches :
        (x y : w.Float)
        → w.is_finite x ≡ true
        → w.is_finite y ≡ true
        → w.less x y ≡ false
        → w.at_most y x ≡ true
    reaches x y fx fy h = ground (arith, h, laws.at_most-less y x fy fx)

    not_less :
        (x y : w.Float)
        → w.is_finite x ≡ true
        → w.is_finite y ≡ true
        → w.at_most y x ≡ true
        → w.less x y ≡ false
    not_less x y fx fy h = ground (arith, h, laws.at_most-less y x fy fx)

    module _ (report : BacktestReport w) (baseline oos : Option (BacktestReport w))
        (own : w.is_finite report.net_return ≡ true)
        (base : (b : BacktestReport w) → baseline ≡ some b → w.is_finite b.net_return ≡ true)
        (out : (o : BacktestReport w) → oos ≡ some o → Finite o) where
      Passes-Favourable : Passes w gate report baseline oos → Favourable report baseline oos
      Passes-Favourable p =
          let s = p.sound in
          let (b, is, more) = p.beats in
          let (o, there, up) = p.holds_up in
          let f = out o there in
          record {
            finite_costs = s.finite_costs;
            finite_drawdown = s.finite_drawdown;
            costed = record {
              long_enough = s.long_enough;
              positive_costs = exceeds _ _ s.finite_costs laws.zero_finite s.positive_costs;
              within_limit = reaches _ _ s.finite_drawdown limit s.shallow;
            };
            beats = (b, is, exceeds _ _ own (base b is) more);
            holds_up = (
              o,
              there,
              record {
                long_enough = up.long_enough;
                positive_costs = exceeds _ _ f.costs_in laws.zero_finite up.positive_costs;
                within_limit = reaches _ _ f.drawdown_in limit up.shallow;
              },
              λ required. exceeds _ _ f.return_in laws.zero_finite (up.positive_return required),
            );
          }

      Favourable-Passes : Favourable report baseline oos → Passes w gate report baseline oos
      Favourable-Passes p =
          let s = p.costed in
          let (b, is, more) = p.beats in
          let (o, there, up, positive) = p.holds_up in
          let f = out o there in
          record {
            sound = record {
              long_enough = s.long_enough;
              finite_costs = p.finite_costs;
              positive_costs = not_at_most _ _ p.finite_costs laws.zero_finite s.positive_costs;
              finite_drawdown = p.finite_drawdown;
              shallow = not_less _ _ p.finite_drawdown limit s.within_limit;
            };
            beats = (b, is, not_at_most _ _ own (base b is) more);
            holds_up = (
              o,
              there,
              record {
                long_enough = up.long_enough;
                positive_costs = not_at_most _ _ f.costs_in laws.zero_finite up.positive_costs;
                shallow = not_less _ _ f.drawdown_in limit up.within_limit;
                positive_return =
                    λ required. not_at_most _ _ f.return_in laws.zero_finite (positive required);
              },
            );
          }

      -- With a finite limit, finite returns of the report and of the baseline, and a return, costs and
      -- a drawdown out of the sample that are finite, a decision on a candidate with a name is made,
      -- with a reason, and accepts it exactly when: the report's costs and drawdown are finite; it and
      -- the report out of the sample, which is there, have enough periods, positive costs and a
      -- drawdown not below the limit; its return exceeds that of the baseline, which is there; and the
      -- return out of the sample is positive if the gate requires that.
      pub decide-Favourable :
          (candidate_id : String)
          → candidate_id ≢ ""
          → (d : GateDecision) × (decide w gate candidate_id report baseline oos ≡ ok d)
            × ((d.decision ≡ accepted) ↔ Favourable report baseline oos)
            × (1 ≤ length d.reasons)
      decide-Favourable candidate_id named =
          let (d, is, (accepts, passes), reasons) =
            decide-Passes w gate candidate_id report baseline oos named in
          (d, is, (λ h. Passes-Favourable (accepts h), λ p. passes (Favourable-Passes p)), reasons)
