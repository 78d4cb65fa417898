-- ===== src/Gates/Tests.antt =====
-- agents/gatekeeper.py and agents/portfolio.py: decisions and portfolios, with each theorem at an input.
-- The floats are integers from -100 on, shifted by 100.
use Prim.Native.Nat.{ℕ, ◌-◌, ◌≤◌}
use mathlib.Core.Logic.{◌↔◌}
use agentic_alpha_engine.Prelude.{
  ◌≡◌, ◌≢◌, refl, String, String_eq, true, false, Option, none, some, List, [], ◌∷◌, ◌⊎◌, ltb, leb,
  ℕ_ord, keep, sorted, text_le, length, ==_iff, arith,
}
use agentic_alpha_engine.Effects.{Result, ok, err, value_error}
use agentic_alpha_engine.Graph.Contracts.{DateTime}
use agentic_alpha_engine.Gates.Gatekeeper.{
  Arithmetic, DecisionStatus, accepted, rejected, needs_review, reasons_of, GateDecision,
  BacktestReport, Gatekeeper, gatekeeper, report_failures, baseline_failures,
  out_of_sample_failures, status_of, decide,
}
use agentic_alpha_engine.Gates.Portfolio.{
  Weights, is_accepted, PaperPortfolio, ranked_scores, side_weight, targets_of, build_targets,
}
use agentic_alpha_engine.Gates.Evidence.{OrderLaws, Favourable, decide-Favourable}
use agentic_alpha_engine.Gates.Sides.{Sides, build_targets-Sides}

abbrev shifted : Arithmetic
shifted = record {
  Float = ℕ;
  float_0 = 100;
  less = ltb;
  at_most = leb;
  is_finite = λ x. true;
  repr = λ x. "x";
  text = λ x. "x";
  decimal = λ n. "n";
}

abbrev weights : Weights shifted
weights = record {
  score_ord = ℕ_ord;
  float_half = 150;
  half_over = λ n. 150;
  negate = λ x. 200 - x;
}

abbrev time : DateTime
time = record { instant = 1; isoformat = "t"; has_zone = true }

abbrev report : ℕ → ℕ → BacktestReport shifted
report periods net_return = record {
  as_of_time = time;
  periods = periods;
  mean_rank_ic = none;
  gross_return = net_return;
  net_return = net_return;
  annualized_sharpe = none;
  max_drawdown = 90;
  average_turnover = 101;
  transaction_cost_bps = 105;
  trial_count = 1;
  limitations = [];
}

abbrev gate : Gatekeeper shifted
gate = record { min_periods = 20; max_drawdown = 75; require_positive_oos_return = true }

program : Unit {0}
unfolding reasons_of gatekeeper report_failures baseline_failures out_of_sample_failures status_of
    decide ranked_scores side_weight targets_of build_targets keep sorted text_le
program = tt

abbrev status : Result GateDecision → Option DecisionStatus
status (ok d) = some d.decision
status (err e) = none

made : gatekeeper shifted 20 75 true ≡ ok gate
unfolding program
made = refl

passes :
    status (decide shifted gate "c" (report 30 120) (some (report 30 110)) (some (report 25 101)))
    ≡ some accepted
unfolding program
passes = refl

in_sample_only :
    status (decide shifted gate "c" (report 30 120) (some (report 30 110)) none) ≡ some needs_review
unfolding program
in_sample_only = refl

fails : status (decide shifted gate "c" (report 10 120) none none) ≡ some rejected
unfolding program
fails = refl

nameless :
    decide shifted gate "" (report 30 120) none none
    ≡ err (value_error "candidate_id cannot be empty")
unfolding program
nameless = refl

named : ◌≢◌ {A = String} "c" ""
named = ground (arith, ==_iff {A = String} "c" "")

shifted_order : OrderLaws shifted
shifted_order = record { zero_finite = refl; at_most-less = λ x y fx fy. ground arith }

decide-Favourable_example :
    (d : GateDecision) × (decide shifted gate "c"
        (report 30 120)
        (some (report 30 110))
        (some (report 25 101))
      ≡ ok d)
    × ((d.decision ≡ accepted)
        ↔ Favourable shifted gate (report 30 120) (some (report 30 110)) (some (report 25 101)))
    × (1 ≤ length d.reasons)
decide-Favourable_example =
    decide-Favourable shifted gate shifted_order refl (report 30 120) (some (report 30 110))
      (some (report 25 101)) refl (λ b is. refl)
      (λ o is. record { return_in = refl; costs_in = refl; drawdown_in = refl }) "c" named

abbrev decision : GateDecision
decision = record { candidate_id = "c"; decision = accepted; reasons = "r" ∷ [] }

abbrev portfolio : PaperPortfolio shifted weights
portfolio = record {
  candidate_id = "c";
  targets = record { ticker = "A"; weight = 125 } ∷ record { ticker = "B"; weight = 75 } ∷ [];
  status = "paper_only";
  note = "Targets are research weights only; no broker or order path exists.";
}

abbrev scores : List (String × ℕ)
scores = ("B", 90) ∷ ("C", 101) ∷ ("A", 130) ∷ []

built : build_targets shifted weights decision scores 1 125 ≡ ok portfolio
unfolding program
built = refl

build_targets-Sides_example :
    ((is_accepted accepted ≡ false) × (portfolio.targets ≡ []))
    ⊎ ((is_accepted accepted ≡ true)
        × Sides shifted weights scores 1 (side_weight shifted weights 1 125) portfolio.targets)
build_targets-Sides_example =
    build_targets-Sides shifted weights decision scores 1 125 portfolio built
