-- ===== src/Gates/Sides.antt =====
-- agents/portfolio.py: what the two sides of a portfolio are.
use Prim.Native.Nat.{ℕ, zero, suc, ◌+◌, ◌-◌, ◌*◌, ◌≤◌}
use mathlib.Core.List.{Perm}
use agentic_alpha_engine.Prelude.{
  ◌≡◌, refl, sym, ap, subst, ◌∙◌, String, String_eq, String_ord, ×_ord, Ord, true, false, List, [],
  ◌∷◌, ◌++◌, map, arith, All, All-right, keep, sorted, IsSorted, sorted-IsSorted, sorted-perm,
  length-sorted, length, Bool-cases, inl, inr, ◌⊎◌,
}
use agentic_alpha_engine.Dict.{Dict}
use agentic_alpha_engine.Effects.{ok}
use agentic_alpha_engine.Gates.Gatekeeper.{Arithmetic, GateDecision}
use agentic_alpha_engine.Gates.Portfolio.{
  Weights, take, drop, last_items, is_accepted, PaperTarget, PaperPortfolio, Score, is_clean,
  rank_key, ranked_scores, side_weight, target, targets_of, build_targets,
}

module _ {A : Type 0} where
  take-drop : (n : ℕ) (xs : List A) → take n xs ++ drop n xs ≡ xs
  take-drop zero xs = refl
  take-drop (suc n) [] = refl
  take-drop (suc n) (x ∷ xs) = ap (λ l. x ∷ l) (take-drop n xs)

  length-take : (n : ℕ) (xs : List A) → n ≤ length xs → length (take n xs) ≡ n
  length-take zero xs h = refl
  length-take (suc n) [] h = absurd (omega (arith, h))
  length-take (suc n) (x ∷ xs) h = omega (arith, length-take n xs (omega (arith, h)))

  length-drop : (n : ℕ) (xs : List A) → length (drop n xs) ≡ length xs - n
  length-drop zero xs = omega arith
  length-drop (suc n) [] = omega arith
  length-drop (suc n) (x ∷ xs) = omega (arith, length-drop n xs)

  drop-nil : (n : ℕ) → drop {A = A} n [] ≡ []
  drop-nil zero = refl
  drop-nil (suc n) = refl

  drop-drop : (k m : ℕ) (xs : List A) → drop (k + m) xs ≡ drop m (drop k xs)
  drop-drop zero m xs = ap (λ j. drop j xs) (omega arith)
  drop-drop (suc k) m [] = drop-nil (suc k + m) ∙ sym (drop-nil m)
  drop-drop (suc k) m (x ∷ xs) = ap (λ j. drop j (x ∷ xs)) next ∙ drop-drop k m xs
    where
      next : suc k + m ≡ suc (k + m)
      next = omega arith

  -- A list with at least `2 * n` items is its first `n`, some in between, and its last `n`.
  middle : ℕ → List A → List A
  middle n xs = take (length xs - (n + n)) (drop n xs)

  two_sides :
      (n : ℕ) (xs : List A) → 2 * n ≤ length xs → take n xs ++ (middle n xs ++ last_items n xs) ≡ xs
  unfolding middle
  two_sides n xs h =
      ap (λ l. take n xs ++ (middle n xs ++ l))
        (ap (λ j. drop j xs) apart ∙ drop-drop n (length xs - (n + n)) xs)
      ∙ ap (λ l. take n xs ++ l) (take-drop (length xs - (n + n)) (drop n xs))
      ∙ take-drop n xs
    where
      apart : length xs - n ≡ n + (length xs - (n + n))
      apart = omega (arith, h)

  length-last : (n : ℕ) (xs : List A) → n ≤ length xs → length (last_items n xs) ≡ n
  length-last n xs h = length-drop (length xs - n) xs ∙ omega (arith, h)

module _ {A K : Type 0} ⦃o : Ord K⦄ (key : A → K) where
  -- In a sorted list all of a first part come before all of the second.
  IsSorted-append :
      (xs ys : List A)
      → IsSorted key (xs ++ ys)
      → All (λ x. All (λ y. o.le (key x) (key y) ≡ true) ys) xs
  IsSorted-append [] ys h = tt
  IsSorted-append (x ∷ xs) ys h = (All-right _ xs ys h.0, IsSorted-append xs ys h.1)

module _ (w : Arithmetic) (f : Weights w) where
  instance abbrev rank_ord : Ord w.Float
  rank_ord = f.score_ord

  -- The two sides of a portfolio: of the finite scores of named tickers, by falling score, `n` that come
  -- first, and `n` that come last.
  pub record Sides (scores : Dict String w.Float) (n : ℕ) (weight : w.Float)
      (targets : List (PaperTarget w f)) : Type 0 where
    pub longs : List (Score w f)
    pub between : List (Score w f)
    pub shorts : List (Score w f)
    pub all_scores : Perm (longs ++ (between ++ shorts)) (keep (is_clean w f) scores)
    pub long_count : length longs ≡ n
    pub short_count : length shorts ≡ n
    pub ranked :
        All
          (λ l.
            All
              (λ s. (×_ord {A = w.Float} {B = String}).le (rank_key w f l) (rank_key w f s) ≡ true)
              (between ++ shorts))
          longs
    pub are_targets :
        targets ≡ map (target w f weight) longs ++ map (target w f (f.negate weight)) shorts

  targets_of-Sides :
      (scores : Dict String w.Float) (n : ℕ) (weight : w.Float)
      → 2 * n ≤ length (keep (is_clean w f) scores)
      → Sides scores n weight (targets_of w f (ranked_scores w f scores) n weight)
  unfolding targets_of ranked_scores
  targets_of-Sides scores n weight h = record {
    longs = take n items;
    between = middle n items;
    shorts = last_items n items;
    all_scores =
        subst (λ l. Perm l (keep (is_clean w f) scores)) (sym split)
          (sorted-perm (rank_key w f) (keep (is_clean w f) scores));
    long_count = length-take n items (omega (arith, enough));
    short_count = length-last n items (omega (arith, enough));
    ranked = IsSorted-append (rank_key w f) (take n items) (middle n items ++ last_items n items) (
        subst (IsSorted (rank_key w f)) (sym split)
          (sorted-IsSorted (rank_key w f) (keep (is_clean w f) scores)));
    are_targets = refl;
  }
    where
      items : List (Score w f)
      items = sorted (rank_key w f) (keep (is_clean w f) scores)

      enough : 2 * n ≤ length items
      enough = omega (arith, h, length-sorted (rank_key w f) (keep (is_clean w f) scores))

      split : take n items ++ (middle n items ++ last_items n items) ≡ items
      split = two_sides n items enough

  -- A portfolio has targets only for an accepted candidate, and then those of two sides of equal size
  -- with opposite weights, every long before every short in the ranking.
  pub build_targets-Sides :
      (decision : GateDecision) (scores : Dict String w.Float) (n : ℕ) (most : w.Float)
      (portfolio : PaperPortfolio w f)
      → build_targets w f decision scores n most ≡ ok portfolio
      → ((is_accepted decision.decision ≡ false) × (portfolio.targets ≡ []))
        ⊎ ((is_accepted decision.decision ≡ true)
            × Sides scores n (side_weight w f n most) portfolio.targets)
  unfolding build_targets
  build_targets-Sides decision scores n most portfolio h =
      elim (Bool-cases (is_accepted decision.decision)) [
        | inr closed ↦ inl (closed, ground (arith, h, closed))
        | inl open_gate ↦ inr (
          open_gate,
          subst (Sides scores n (side_weight w f n most)) (sym (made open_gate))
              (targets_of-Sides scores n (side_weight w f n most) (enough open_gate)),
        )
      ]
    where
      made :
          is_accepted decision.decision ≡ true
          → portfolio.targets ≡ targets_of w f (ranked_scores w f scores) n (side_weight w f n most)
      made open_gate = ground (arith, h, open_gate)

      enough : is_accepted decision.decision ≡ true → 2 * n ≤ length (keep (is_clean w f) scores)
      enough open_gate = ground (arith, h, open_gate)
