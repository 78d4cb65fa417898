-- ===== src/Gates/Gatekeeper.antt =====
-- agents/gatekeeper.py: `GatekeeperAgent` and its decision on a backtest report.
use Prim.Native.Nat.{ℕ}
use agentic_alpha_engine.Prelude.{
  String, String_eq, Bool, not, ◌&&◌, ◌||◌, Option, none, some, List, [], ◌∷◌, ◌++◌, ◌==◌, ltb,
  ◌<>◌, if◌then◌else◌,
}
use agentic_alpha_engine.Effects.{Result, ok, err, value_error}
use agentic_alpha_engine.Graph.Contracts.{DateTime}

-- Floats with their tests, and the texts of numbers.
pub record Arithmetic : Type 1 where
  pub Float : Type 0
  pub float_0 : Float
  pub less : Float → Float → Bool
  pub at_most : Float → Float → Bool
  pub is_finite : Float → Bool
  pub repr : Float → String
  pub text : Float → String
  pub decimal : ℕ → String

pub data DecisionStatus : Type 0 where
  accepted rejected needs_review : DecisionStatus

-- `if test: failures.append(reason)`, one test after another
unfoldable pub reasons_of : List (Bool × String) → List String
reasons_of [] = []
reasons_of ((test, reason) ∷ tests) =
    let rest = reasons_of tests in if test then reason ∷ rest else rest

pub record GateDecision : Type 0 where
  pub candidate_id : String
  pub decision : DecisionStatus
  pub reasons : List String

module _ (w : Arithmetic) where
  pub record BacktestReport : Type 0 where
    pub as_of_time : DateTime
    pub periods : ℕ
    pub mean_rank_ic : Option w.Float
    pub gross_return : w.Float
    pub net_return : w.Float
    pub annualized_sharpe : Option w.Float
    pub max_drawdown : w.Float
    pub average_turnover : w.Float
    pub transaction_cost_bps : w.Float
    pub trial_count : ℕ
    pub limitations : List String

  pub record Gatekeeper : Type 0 where
    pub min_periods : ℕ
    pub max_drawdown : w.Float
    pub require_positive_oos_return : Bool

  -- `__init__`
  unfoldable pub gatekeeper : ℕ → w.Float → Bool → Result Gatekeeper
  gatekeeper min_periods max_drawdown require_positive =
      if ltb min_periods 1
      then err (value_error "min_periods must be at least one")
      else if w.less w.float_0 max_drawdown
      then err (value_error "max_drawdown must be zero or negative")
      else ok (record {
        min_periods = min_periods;
        max_drawdown = max_drawdown;
        require_positive_oos_return = require_positive;
      })

  module _ (gate : Gatekeeper) where
    -- the tests of the report itself
    abbrev pub short_history : BacktestReport → Bool
    short_history report = ltb report.periods gate.min_periods

    abbrev pub no_costs : BacktestReport → Bool
    no_costs report =
        not (w.is_finite report.transaction_cost_bps)
        || w.at_most report.transaction_cost_bps w.float_0

    abbrev pub deep_drawdown : BacktestReport → Bool
    deep_drawdown report =
        not (w.is_finite report.max_drawdown) || w.less report.max_drawdown gate.max_drawdown

    unfoldable pub report_failures : BacktestReport → List String
    report_failures report = reasons_of (
        (
          short_history report,
          "insufficient historical periods: "
              <> w.decimal report.periods
              <> " < "
              <> w.decimal gate.min_periods,
        )
        ∷ (no_costs report, "transaction costs must be present and greater than zero")
        ∷ (
          deep_drawdown report,
          "maximum drawdown "
              <> w.repr report.max_drawdown
              <> " breaches limit "
              <> w.text gate.max_drawdown,
        )
        ∷ [])

    unfoldable pub baseline_failures : BacktestReport → Option BacktestReport → List String
    baseline_failures report none = []
    baseline_failures report (some baseline) = reasons_of (
        (
          w.at_most report.net_return baseline.net_return,
          "candidate net return does not exceed the baseline",
        )
        ∷ [])

    unfoldable pub out_of_sample_failures : Option BacktestReport → List String
    out_of_sample_failures none = []
    out_of_sample_failures (some oos) = reasons_of (
        (
          ltb oos.periods gate.min_periods,
          "out-of-sample evidence has too few periods: "
              <> w.decimal oos.periods
              <> " < "
              <> w.decimal gate.min_periods,
        )
        ∷ (
          w.at_most oos.transaction_cost_bps w.float_0,
          "out-of-sample report does not include positive costs",
        )
        ∷ (
          w.less oos.max_drawdown gate.max_drawdown,
          "out-of-sample drawdown breaches the configured limit",
        )
        ∷ (
          gate.require_positive_oos_return && w.at_most oos.net_return w.float_0,
          "out-of-sample net return is not positive",
        )
        ∷ [])

    -- the evidence that is missing
    abbrev pub missing : Option BacktestReport → String → List String
    missing none reason = reason ∷ []
    missing (some report) reason = []

    unfoldable pub status_of : List String → List String → DecisionStatus
    status_of [] [] = accepted
    status_of [] (r ∷ rs) = needs_review
    status_of (f ∷ fs) review = rejected

    abbrev pub passed : DecisionStatus → List String
    passed accepted =
        "all configured historical, cost, drawdown, baseline, and out-of-sample checks passed" ∷ []
    passed rejected = []
    passed needs_review = []

    unfoldable pub decide :
        String
        → BacktestReport
        → Option BacktestReport
        → Option BacktestReport
        → Result GateDecision
    decide candidate_id report baseline oos =
        if candidate_id == ""
        then err (value_error "candidate_id cannot be empty")
        else let failures =
            report_failures report
            ++ baseline_failures report baseline
            ++ out_of_sample_failures oos in
          let review =
            missing baseline "baseline comparison evidence is missing"
            ++ missing oos "out-of-sample evidence is missing" in
          ok (record {
            candidate_id = candidate_id;
            decision = status_of failures review;
            reasons = (failures ++ review) ++ passed (status_of failures review);
          })
