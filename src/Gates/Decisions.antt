-- ===== src/Gates/Decisions.antt =====
-- agents/gatekeeper.py: when a report is accepted.
use Prim.Native.Nat.{◌≤◌}
use mathlib.Core.Logic.{◌↔◌}
use agentic_alpha_engine.Prelude.{
  ◌≡◌, ◌≢◌, refl, sym, ap, subst, String, String_eq, Bool, true, false, not, ◌&&◌, ◌||◌, Option,
  none, some, List, [], ◌∷◌, ◌++◌, All, ==_iff, arith, ltb, length, Bool-cases, inl, inr, ◌⊎◌,
}
use agentic_alpha_engine.Effects.{ok}
use agentic_alpha_engine.Gates.Gatekeeper.{
  Arithmetic, accepted, reasons_of, GateDecision, BacktestReport, Gatekeeper, report_failures,
  baseline_failures, out_of_sample_failures, missing, status_of, passed, decide,
}

append-nil_parts : (xs ys : List String) → xs ++ ys ≡ [] → (xs ≡ []) × (ys ≡ [])
append-nil_parts [] ys h = (refl, h)
append-nil_parts (x ∷ xs) ys h = absurd (ground (arith, h))

nil-append : (xs ys : List String) → xs ≡ [] → ys ≡ [] → xs ++ ys ≡ []
nil-append [] ys h k = k
nil-append (x ∷ xs) ys h k = absurd (ground (arith, h))

-- There is no reason exactly when no test holds.
reasons_of-All :
    (tests : List (Bool × String)) → reasons_of tests ≡ [] → All (λ t. t.0 ≡ false) tests
unfolding reasons_of
reasons_of-All [] h = tt
reasons_of-All ((true, reason) ∷ tests) h = absurd (ground (arith, h))
reasons_of-All ((false, reason) ∷ tests) h = (refl, reasons_of-All tests h)

All-reasons_of :
    (tests : List (Bool × String)) → All (λ t. t.0 ≡ false) tests → reasons_of tests ≡ []
unfolding reasons_of
All-reasons_of [] h = refl
All-reasons_of ((true, reason) ∷ tests) h = absurd (ground (arith, h.0))
All-reasons_of ((false, reason) ∷ tests) h = All-reasons_of tests h.1

module _ (w : Arithmetic) (gate : Gatekeeper w) where
  -- A report that passes the tests in the sample.
  pub record Sound (report : BacktestReport w) : Type 0 where
    pub long_enough : gate.min_periods ≤ report.periods
    pub finite_costs : w.is_finite report.transaction_cost_bps ≡ true
    pub positive_costs : w.at_most report.transaction_cost_bps w.float_0 ≡ false
    pub finite_drawdown : w.is_finite report.max_drawdown ≡ true
    pub shallow : w.less report.max_drawdown gate.max_drawdown ≡ false

  -- A report that passes the tests out of the sample.
  pub record HoldsUp (report : BacktestReport w) : Type 0 where
    pub long_enough : gate.min_periods ≤ report.periods
    pub positive_costs : w.at_most report.transaction_cost_bps w.float_0 ≡ false
    pub shallow : w.less report.max_drawdown gate.max_drawdown ≡ false
    pub positive_return :
        gate.require_positive_oos_return ≡ true → w.at_most report.net_return w.float_0 ≡ false

  -- Both further reports are there, and no test finds against one of the three.
  pub record Passes (report : BacktestReport w) (baseline oos : Option (BacktestReport w))
      : Type 0 where
    pub sound : Sound report
    pub beats :
        (b : BacktestReport w) × (baseline ≡ some b)
        × (w.at_most report.net_return b.net_return ≡ false)
    pub holds_up : (o : BacktestReport w) × (oos ≡ some o) × HoldsUp o

  no_costs-parts :
      (x : w.Float)
      → (not (w.is_finite x) || w.at_most x w.float_0) ≡ false
      → (w.is_finite x ≡ true) × (w.at_most x w.float_0 ≡ false)
  no_costs-parts x h = (ground (arith, h), ground (arith, h))

  deep-parts :
      (x : w.Float)
      → (not (w.is_finite x) || w.less x gate.max_drawdown) ≡ false
      → (w.is_finite x ≡ true) × (w.less x gate.max_drawdown ≡ false)
  deep-parts x h = (ground (arith, h), ground (arith, h))

  report_failures-Sound :
      (report : BacktestReport w) → report_failures w gate report ≡ [] → Sound report
  unfolding report_failures
  report_failures-Sound report h =
      let (history, (costs, (drawdown, end))) = reasons_of-All _ h in
      let (finite, positive) = no_costs-parts report.transaction_cost_bps costs in
      let (finite', shallow) = deep-parts report.max_drawdown drawdown in
      record {
        long_enough = enough history;
        finite_costs = finite;
        positive_costs = positive;
        finite_drawdown = finite';
        shallow = shallow;
      }
    where
      enough : ltb report.periods gate.min_periods ≡ false → gate.min_periods ≤ report.periods
      enough h = ground (arith, h)

  Sound-report_failures :
      (report : BacktestReport w) → Sound report → report_failures w gate report ≡ []
  unfolding report_failures
  Sound-report_failures report s = All-reasons_of _ (
    history s.long_enough,
    (
      ground (arith, s.finite_costs, s.positive_costs),
      (ground (arith, s.finite_drawdown, s.shallow), tt),
    ),
  )
    where
      history : gate.min_periods ≤ report.periods → ltb report.periods gate.min_periods ≡ false
      history h = ground (arith, h)

  out_of_sample-HoldsUp :
      (o : BacktestReport w) → out_of_sample_failures w gate (some o) ≡ [] → HoldsUp o
  unfolding out_of_sample_failures
  out_of_sample-HoldsUp o h =
      let (history, (costs, (drawdown, (returns, end)))) = reasons_of-All _ h in
      record {
        long_enough = enough history;
        positive_costs = costs;
        shallow = drawdown;
        positive_return = λ required. positive returns required;
      }
    where
      enough : ltb o.periods gate.min_periods ≡ false → gate.min_periods ≤ o.periods
      enough h = ground (arith, h)

      positive :
          (gate.require_positive_oos_return && w.at_most o.net_return w.float_0) ≡ false
          → gate.require_positive_oos_return ≡ true
          → w.at_most o.net_return w.float_0 ≡ false
      positive h required = ground (arith, h, required)

  HoldsUp-out_of_sample :
      (o : BacktestReport w) → HoldsUp o → out_of_sample_failures w gate (some o) ≡ []
  unfolding out_of_sample_failures
  HoldsUp-out_of_sample o u = All-reasons_of _ (
    history u.long_enough,
    (u.positive_costs, (u.shallow, (returns (Bool-cases gate.require_positive_oos_return), tt))),
  )
    where
      history : gate.min_periods ≤ o.periods → ltb o.periods gate.min_periods ≡ false
      history h = ground (arith, h)

      returns :
          (gate.require_positive_oos_return ≡ true) ⊎ (gate.require_positive_oos_return ≡ false)
          → (gate.require_positive_oos_return && w.at_most o.net_return w.float_0) ≡ false
      returns (inl required) = ground (arith, required, u.positive_return required)
      returns (inr free) = ground (arith, free)

  abbrev failures :
      BacktestReport w → Option (BacktestReport w) → Option (BacktestReport w) → List String
  failures report baseline oos =
      report_failures w gate report
      ++ baseline_failures w gate report baseline
      ++ out_of_sample_failures w gate oos

  abbrev review : Option (BacktestReport w) → Option (BacktestReport w) → List String
  review baseline oos =
      missing w gate baseline "baseline comparison evidence is missing"
      ++ missing w gate oos "out-of-sample evidence is missing"

  status_of-accepted :
      (fs rs : List String) → status_of w gate fs rs ≡ accepted → (fs ≡ []) × (rs ≡ [])
  unfolding status_of
  status_of-accepted [] [] h = (refl, refl)
  status_of-accepted [] (r ∷ rs) h = absurd (ground (arith, h))
  status_of-accepted (f ∷ fs) rs h = absurd (ground (arith, h))

  accepted-Passes :
      (report : BacktestReport w) (baseline oos : Option (BacktestReport w))
      → failures report baseline oos ≡ []
      → review baseline oos ≡ []
      → Passes report baseline oos
  unfolding baseline_failures
  accepted-Passes report none oos f r = absurd (ground (arith, r))
  accepted-Passes report (some b) none f r = absurd (ground (arith, r))
  accepted-Passes report (some b) (some o) f r =
      let (mine, out) =
        append-nil_parts (report_failures w gate report ++ baseline_failures w gate report (some b))
          (out_of_sample_failures w gate (some o)) f in
      let (own, base) =
        append-nil_parts (report_failures w gate report) (baseline_failures w gate report (some b))
          mine in
      record {
        sound = report_failures-Sound report own;
        beats = (b, refl, (reasons_of-All _ base).0);
        holds_up = (o, refl, out_of_sample-HoldsUp o out);
      }

  failures-nil :
      (report b o : BacktestReport w)
      → Sound report
      → w.at_most report.net_return b.net_return ≡ false
      → HoldsUp o
      → failures report (some b) (some o) ≡ []
  unfolding baseline_failures
  failures-nil report b o sound more up =
      nil-append _ _
        (nil-append _ _ (Sound-report_failures report sound) (All-reasons_of _ (more, tt)))
        (HoldsUp-out_of_sample o up)

  Passes-accepted :
      (report : BacktestReport w) (baseline oos : Option (BacktestReport w))
      → Passes report baseline oos
      → status_of w gate (failures report baseline oos) (review baseline oos) ≡ accepted
  unfolding status_of
  Passes-accepted report baseline oos p =
      let (b, is, more) = p.beats in
      let (o, is', up) = p.holds_up in
      subst (λ x. status_of w gate (failures report x oos) (review x oos) ≡ accepted) (sym is)
        (subst (λ y. status_of w gate (failures report (some b) y) (review (some b) y) ≡ accepted)
          (sym is') (ap (λ fs. status_of w gate fs []) (failures-nil report b o p.sound more up)))

  reasons-nonempty :
      (fs rs : List String) → 1 ≤ length ((fs ++ rs) ++ passed w gate (status_of w gate fs rs))
  unfolding status_of
  reasons-nonempty [] [] = omega arith
  reasons-nonempty [] (r ∷ rs) = omega arith
  reasons-nonempty (f ∷ fs) rs = omega arith

  -- A decision on a candidate with a name is made, with a reason, and accepts the candidate exactly when
  -- both further reports are there and no test finds against one of the three.
  pub decide-Passes :
      (candidate_id : String) (report : BacktestReport w) (baseline oos : Option (BacktestReport w))
      → candidate_id ≢ ""
      → (d : GateDecision) × (decide w gate candidate_id report baseline oos ≡ ok d)
        × ((d.decision ≡ accepted) ↔ Passes report baseline oos)
        × (1 ≤ length d.reasons)
  unfolding decide
  decide-Passes candidate_id report baseline oos named = (
    record {
      candidate_id = candidate_id;
      decision = status_of w gate (failures report baseline oos) (review baseline oos);
      reasons =
          (failures report baseline oos ++ review baseline oos)
          ++ passed w gate (status_of w gate (failures report baseline oos) (review baseline oos));
    },
    ground (arith, ==_iff candidate_id "", named),
    (
      λ h.
          let (f, r) = status_of-accepted (failures report baseline oos) (review baseline oos) h in
          accepted-Passes report baseline oos f r,
      Passes-accepted report baseline oos,
    ),
    reasons-nonempty (failures report baseline oos) (review baseline oos),
  )
