-- ===== src/Gates/Portfolio.antt =====
-- agents/portfolio.py: `PortfolioOptimiserAgent.build_targets`.
use Prim.Native.Nat.{ℕ, zero, suc, ◌-◌, ◌*◌}
use agentic_alpha_engine.Prelude.{
  String, String_eq, String_ord, ×_ord, Ord, Bool, true, false, not, ◌&&◌, List, [], ◌∷◌, ◌++◌, map,
  ◌==◌, keep, sorted, length, ltb, if◌then◌else◌,
}
use agentic_alpha_engine.Dict.{Dict}
use agentic_alpha_engine.Effects.{Result, ok, err, value_error}
use agentic_alpha_engine.Gates.Gatekeeper.{
  Arithmetic, DecisionStatus, accepted, rejected, needs_review, GateDecision,
}

-- What the weights take from floats: the order of the finite ones, negation, the half, `0.5 / n`.
pub record Weights (w : Arithmetic) : Type 0 where
  pub score_ord : Ord w.Float
  pub float_half : w.Float
  pub half_over : ℕ → w.Float
  pub negate : w.Float → w.Float

-- `xs[:n]` and `xs[n:]`
module _ {A : Type 0} where
  abbrev pub take : ℕ → List A → List A
  take zero xs = []
  take (suc n) [] = []
  take (suc n) (x ∷ xs) = x ∷ take n xs

  abbrev pub drop : ℕ → List A → List A
  drop zero xs = xs
  drop (suc n) [] = []
  drop (suc n) (x ∷ xs) = drop n xs

  -- `xs[-n:]` for a positive `n`
  abbrev pub last_items : ℕ → List A → List A
  last_items n xs = drop (length xs - n) xs

abbrev pub status_text : DecisionStatus → String
status_text accepted = "accepted"
status_text rejected = "rejected"
status_text needs_review = "needs_review"

abbrev pub is_accepted : DecisionStatus → Bool
is_accepted accepted = true
is_accepted rejected = false
is_accepted needs_review = false

module _ (w : Arithmetic) (f : Weights w) where
  pub record PaperTarget : Type 0 where
    pub ticker : String
    pub weight : w.Float

  pub record PaperPortfolio : Type 0 where
    pub candidate_id : String
    pub targets : List PaperTarget
    pub status : String
    pub note : String

  abbrev pub Score : Type 0
  Score = String × w.Float

  -- `str(ticker) and math.isfinite(float(score))`
  abbrev pub is_clean : Score → Bool
  is_clean item = not (item.0 == "") && w.is_finite item.1

  instance abbrev pub Score_ord : Ord w.Float
  Score_ord = f.score_ord

  -- `(-item[1], item[0])`
  abbrev pub rank_key : Score → w.Float × String
  rank_key item = (f.negate item.1, item.0)

  unfoldable pub ranked_scores : Dict String w.Float → List Score
  ranked_scores scores = sorted rank_key (keep is_clean scores)

  -- `min(a, b)`
  abbrev pub smaller : w.Float → w.Float → w.Float
  smaller a b = if w.less b a then b else a

  unfoldable pub side_weight : ℕ → w.Float → w.Float
  side_weight tickers_per_side max_position_weight =
      smaller (f.half_over tickers_per_side) max_position_weight

  abbrev pub target : w.Float → Score → PaperTarget
  target weight item = record { ticker = item.0; weight = weight }

  -- the targets of a ranking
  unfoldable pub targets_of : List Score → ℕ → w.Float → List PaperTarget
  targets_of ranked n weight =
      map (target weight) (take n ranked) ++ map (target (f.negate weight)) (last_items n ranked)

  unfoldable pub build_targets :
      GateDecision → Dict String w.Float → ℕ → w.Float → Result PaperPortfolio
  build_targets decision scores tickers_per_side max_position_weight =
      if ltb tickers_per_side 1
      then err (value_error "tickers_per_side must be at least one")
      else if not
          (w.less w.float_0 max_position_weight && w.at_most max_position_weight f.float_half)
      then err (value_error "max_position_weight must be in (0, 0.5]")
      else if not (is_accepted decision.decision)
      then ok (record {
        candidate_id = decision.candidate_id;
        targets = [];
        status = status_text decision.decision;
        note = "No paper targets created because the gate decision was not accepted.";
      })
      else if ltb (length (keep is_clean scores)) (2 * tickers_per_side)
      then err (value_error "not enough finite signals for both paper long and short sides")
      else ok (record {
        candidate_id = decision.candidate_id;
        targets =
            targets_of (ranked_scores scores) tickers_per_side
              (side_weight tickers_per_side max_position_weight);
        status = "paper_only";
        note = "Targets are research weights only; no broker or order path exists.";
      })
