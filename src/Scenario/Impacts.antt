-- ===== src/Scenario/Impacts.antt =====
-- graph.py: the impacts that `scenario` makes of its best visits.
use mathlib.Core.List.{Memᴰ}
use agentic_alpha_engine.Prelude.{
  ◌≡◌, ◌∙◌, ◌≢◌, refl, sym, ap, String, String_eq, String_ord, ×_ord, true, some, List, [], ◌∷◌,
  arith, All, Bool-cases, inl, inr, ◌==◌, ==_iff,
}
use agentic_alpha_engine.Dict.{Dict, lookup, lookup-cons}
use agentic_alpha_engine.Effects.{Result, ok}
use agentic_alpha_engine.Scenario.Contracts.{Platform, in_unit, all_in_unit, ScenarioImpact}
use agentic_alpha_engine.Scenario.Propagation.{Reached, impact_of, impacts_of, Float_ord}

module _ (w : Platform) where
  abbrev pub impact : String → Reached w → ScenarioImpact w
  impact entity r = record {
    entity = entity;
    severity = r.severity;
    confidence = r.confidence;
    path = r.path;
  }

  pub record InUnit (r : Reached w) : Type 0 where
    pub severity_in : in_unit w r.severity ≡ true
    pub confidence_in : in_unit w r.confidence ≡ true

  impact_of-ok :
      (entity : String) (r : Reached w) → InUnit r → impact_of w entity r ≡ ok (impact entity r)
  unfolding impact_of all_in_unit
  impact_of-ok entity r u = rw (u.severity_in, u.confidence_in) refl

  module _ (shock : String) where
    -- The impacts, all of items of `best` but the shocked entity's, and of each of those.
    pub record Impacts (P : String → Reached w → Type 0) (best : Dict String (Reached w))
        (r : Result (List (ScenarioImpact w))) : Type 0 where
      pub impacts : List (ScenarioImpact w)
      pub is_ok : r ≡ ok impacts
      pub sound :
          All
            (λ i. (i.entity ≢ shock) × ((x : Reached w) × P i.entity x × (i ≡ impact i.entity x)))
            impacts
      pub complete :
          (x : String) (y : Reached w)
          → x ≢ shock
          → lookup x best ≡ some y
          → Memᴰ (impact x y) impacts

    lookup-nil : (x : String) {y : Reached w} → lookup x [] ≡ some y → ⊥
    unfolding lookup
    lookup-nil x found = ground (arith, found)

    pub impacts_of-Impacts :
        (P : String → Reached w → Type 0) (best : Dict String (Reached w))
        → All (λ p. P p.0 p.1 × InUnit p.1) best
        → Impacts P best (impacts_of w shock best)
    unfolding impacts_of
    impacts_of-Impacts P [] h = record {
      impacts = [];
      is_ok = refl;
      sound = tt;
      complete = λ x y differ found. absurd (lookup-nil x found);
    }
    impacts_of-Impacts P ((x, y) ∷ best) h =
        let rest = impacts_of-Impacts P best h.1 in
        elim (Bool-cases (x == shock)) [
          | inl same ↦ record {
            impacts = rest.impacts;
            is_ok = rw (impacts_of, same) rest.is_ok;
            sound = rest.sound;
            complete = λ x' y' differ found. elim (lookup-cons x' x y y' best found) [
              | inl (is, made) ↦ absurd (differ (sym is ∙ (==_iff x shock).0 same))
              | inr later ↦ rest.complete x' y' differ later
            ];
          }
          | inr other ↦ record {
            impacts = impact x y ∷ rest.impacts;
            is_ok = rw (impacts_of, other, impact_of-ok x y h.0.1, rest.is_ok) refl;
            sound = ((λ is. ground (arith, other, ==_iff x shock), (y, h.0.0, refl)), rest.sound);
            complete = λ x' y' differ found. elim (lookup-cons x' x y y' best found) [
              | inl (is, made) ↦
                  Memᴰ.head (ap (impact x') (sym made) ∙ ap (λ z. impact z y) (sym is))
              | inr later ↦ Memᴰ.tail (rest.complete x' y' differ later)
            ];
          }
        ]
