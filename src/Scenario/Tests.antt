-- ===== src/Scenario/Tests.antt =====
-- graph.py: a scenario on a small graph, with floats in hundredths, and each theorem at an input.
use Prim.Native.Nat.{ℕ, ◌+◌, ◌-◌, ◌*◌, ◌/◌, ◌≤◌}
use mathlib.Core.Option.{some-injective}
use agentic_alpha_engine.Prelude.{
  All, subst, false, ◌≡◌, refl, String, true, Option, none, some, List, [], ◌∷◌, ℕ_ord, leb→le,
  arith, String_eq, sorted, text_le, keep,
}
use agentic_alpha_engine.Dict.{lookup, insert}
use agentic_alpha_engine.Effects.{Result, ok, err, value_error, type_error}
use agentic_alpha_engine.Graph.Contracts.{DateTime, same_zones, compare_times}
use agentic_alpha_engine.Scenario.Contracts.{
  Platform, in_unit, all_in_unit, SupplyChainEdge, ScenarioImpact, ScenarioResult, is_effective,
  propagated_severity, as_path_edge, is_bounded, from_json,
}
use agentic_alpha_engine.Scenario.Propagation.{
  effective_edges, rounds, add_edges, update, relax, relax_all, expand, propagate, impact_of,
  impacts_of, result_of, scenario,
}
use agentic_alpha_engine.Scenario.Adjacency.{Comparable}
use agentic_alpha_engine.Scenario.Fuel.{enough, scenario-ends}
use agentic_alpha_engine.Scenario.Walks.{UnitLaws}
use agentic_alpha_engine.Scenario.Strongest.{Reports, scenario-Reports}

-- Floats in hundredths.
abbrev pub hundredths : Platform
hundredths = record {
  Float = ℕ;
  float_ord = ℕ_ord;
  float_0 = 0;
  float_1 = 100;
  float_half = 50;
  times = λ a b. (a * b) / 100;
  plus = λ a b. a + b;
  minus = λ a b. a - b;
  negate = λ a. 100 - a;
  invalid = λ model values. model;
}

to_le : (a : ℕ) → in_unit hundredths a ≡ true → a ≤ 100
unfolding in_unit
to_le a h = ground (arith, h)

of_le : (a : ℕ) → a ≤ 100 → in_unit hundredths a ≡ true
unfolding in_unit
of_le a h = ground (arith, h)

product_le : (a b c d : ℕ) → a ≤ c → b ≤ d → a * b ≤ c * d
product_le a b c d h k = grind arith

pub hundredths_laws : UnitLaws hundredths
hundredths_laws = record {
  one-InUnit = of_le 100 (omega arith);
  times-InUnit = λ a b h k.
      of_le ((a * b) / 100) (omega (arith, product_le a b 100 100 (to_le a h) (to_le b k)));
  minus-InUnit = λ a h. of_le (100 - a) (omega arith);
  times_mono = λ a b c ha hb hc h. ground (arith, divided a b c (leb→le a b h));
  times_shrinks = λ a b h k. ground (arith, shrunk a b (to_le b k));
}
  where
    divided : (a b c : ℕ) → a ≤ b → (a * c) / 100 ≤ (b * c) / 100
    divided a b c h = omega (arith, product_le a c b c h (omega arith))

    shrunk : (a b : ℕ) → b ≤ 100 → (a * b) / 100 ≤ a
    shrunk a b h = omega (arith, product_le a b a 100 (omega arith) h)

abbrev pub time : ℕ → DateTime
time n = record { instant = n; isoformat = "t"; has_zone = true }

abbrev edge : String → String → ℕ → ℕ → Option DateTime → SupplyChainEdge hundredths
edge source target weight substitutability effective_to = record {
  source = source;
  target = target;
  relationship = "supplies";
  source_url = "url";
  weight = weight;
  substitutability = substitutability;
  confidence = 90;
  effective_from = time 1;
  effective_to = effective_to;
}

-- The way from "a" to "b" over "c" carries more than the direct one; the edge to "d" has ended.
abbrev edges : List (SupplyChainEdge hundredths)
edges =
    edge "a" "b" 80 50 none
    ∷ edge "a" "c" 50 0 none
    ∷ edge "c" "b" 90 0 (some (time 5))
    ∷ edge "b" "a" 90 0 none
    ∷ edge "a" "d" 90 0 (some (time 4))
    ∷ []

program : Unit {0}
unfolding in_unit all_in_unit compare_times is_effective effective_edges propagated_severity
    as_path_edge is_bounded from_json rounds add_edges update relax relax_all expand propagate
    impact_of impacts_of result_of scenario lookup insert sorted keep text_le
program = tt

abbrev shape : ScenarioImpact hundredths → String × ℕ × ℕ
shape i = (i.entity, i.severity, i.confidence)

abbrev shapes : Option (Result (ScenarioResult hundredths)) → List (String × ℕ × ℕ)
shapes none = []
shapes (some (err e)) = []
shapes (some (ok result)) = list result.impacts
  where
    list : List (ScenarioImpact hundredths) → List (String × ℕ × ℕ)
    list [] = []
    list (i ∷ is) = shape i ∷ list is

shocked :
    shapes (scenario hundredths edges 6 "a" 100 (time 5) 2) ≡ ("c", 50, 90) ∷ ("b", 45, 81) ∷ []
unfolding program
shocked = refl

one_hop :
    shapes (scenario hundredths edges 6 "a" 100 (time 5) 1) ≡ ("c", 50, 90) ∷ ("b", 40, 90) ∷ []
unfolding program
one_hop = refl

too_severe :
    scenario hundredths edges 6 "a" 101 (time 5) 2
    ≡ some (err (value_error "shock_severity must be in [0, 1]"))
unfolding program
too_severe = refl

checked : from_json hundredths edges ≡ ok edges
unfolding program
checked = refl

pub full : in_unit hundredths 100 ≡ true
unfolding program
full = refl

pub endless : (n : ℕ) → Comparable (time 5) (time n) none
endless n = record { start_zone = refl; stop_zone = λ t is. ground (arith, is) }

ends : (n m : ℕ) → Comparable (time 5) (time n) (some (time m))
ends n m = record {
  start_zone = refl;
  stop_zone = λ t is. subst (λ x. same_zones (time 5) x ≡ true) (some-injective (time m) t is) refl;
}

zones : All (λ e. Comparable (time 5) e.effective_from e.effective_to) edges
zones = (endless 1, (endless 1, (ends 1 5, (endless 1, (ends 1 4, tt)))))

-- A time without a zone cannot be compared with one that has a zone.
naive :
    scenario hundredths edges 6 "a" 100
      (record { instant = 5; isoformat = "t"; has_zone = false })
      2
    ≡ some (err (type_error "can't compare offset-naive and offset-aware datetimes"))
unfolding program
naive = refl

scenario-Reports_example :
    (result : ScenarioResult hundredths) × (scenario hundredths edges
        (enough hundredths edges "a" 100 (time 5) 2)
        "a"
        100
        (time 5)
        2
      ≡ some (ok result))
    × Reports hundredths edges (time 5) "a" 100 2 result
scenario-Reports_example =
    scenario-Reports hundredths hundredths_laws edges edges (time 5) "a" 100 2 checked zones full
      (omega arith)

scenario-ends_example :
    (r : Result (ScenarioResult hundredths)) × (scenario hundredths edges
        (enough hundredths edges "a" 100 (time 5) 2)
        "a"
        100
        (time 5)
        2
      ≡ some r)
scenario-ends_example = scenario-ends hundredths edges "a" 100 (time 5) 2
