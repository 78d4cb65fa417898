-- ===== src/Alpha/Tests.antt =====
-- Small factor expressions, and each theorem at an input that meets its hypotheses.
use Prim.Native.Nat.{ℕ}
use Prim.Native.String.{count}
use agentic_alpha_engine.Prelude.{
  ◌≡◌, ◌≢◌, ◌↔◌, refl, ◌≤◌, String, true, false, ◌||◌, none, some, List, [], ◌∷◌, String_eq, ◌==◌,
  leb, contains, if◌then◌else◌, sorted,
}
use agentic_alpha_engine.Dict.{Dict, lookup}
use agentic_alpha_engine.Effects.{ok, err, other}
use agentic_alpha_engine.Alpha.Expression.{
  Library, join, Expression, node, no_args, sub, nodes, render, canonical_number,
}
use agentic_alpha_engine.Alpha.Parser.{
  functions, starts, args_length, close, expr, is_leaf, finish, parse, parse_expression,
}
use agentic_alpha_engine.Alpha.Tokens.{emit, IsFormula}
use agentic_alpha_engine.Alpha.Parsing.{Accepts, parse_ends, parse_iff}
use agentic_alpha_engine.Alpha.Rendering.{parse_expression_renders}
use agentic_alpha_engine.Alpha.Canonical.{
  canonical_render, canonical_call, canonicalize_expression, Similar, swap, inside, same_args,
  canonical_same,
}
use agentic_alpha_engine.Alpha.Typed.{
  axis_of, update, incompatible, check_axis, period_value, check_lookback, check_node, walk,
  validate_typed_expression, HasLookbacks,
}
use agentic_alpha_engine.Alpha.Lookbacks.{validated_lookbacks}

-- the tokens of one text, and the numbers 5 and 300
abbrev library : Library
library = record {
  findall = λ text.
      if text == "Mean(Add(a, b), 5)"
      then "Mean" ∷ "(" ∷ "Add" ∷ "(" ∷ "a" ∷ "," ∷ "b" ∷ ")" ∷ "," ∷ "5" ∷ ")" ∷ []
      else [];
  is_number = λ t. t == "5" || t == "300";
  compact = λ text. if text == "Mean(Add(a, b), 5)" then "Mean(Add(a,b),5)" else text;
  is_blank = λ text. text == "";
  Decimal = String;
  read_decimal = λ t. if t == "5" then some t else if t == "300" then some t else none;
  is_finite = λ d. true;
  format_normalized = λ d. d;
  Float = ℕ;
  float_text = λ x. "5.0";
  read_float = λ t. if t == "5" then some 5 else if t == "300" then some 300 else none;
  is_integer = λ x. true;
  float_le = leb;
  float_of = λ n. n;
  decimal_text = λ n. "n";
  repr = λ s. s;
}

abbrev features : List String
features = "a" ∷ "b" ∷ []

abbrev leaf : String → Expression library
leaf name = node name no_args

abbrev sum : Expression library
sum = node "Add" (sub (leaf "a") (sub (leaf "b") no_args))

abbrev mean : String → Expression library
mean period = node "Mean" (sub sum (sub (leaf period) no_args))

program : Unit {0}
unfolding lookup contains join nodes render canonical_number functions starts args_length close expr
    finish parse parse_expression emit IsFormula canonical_render canonical_call
    canonicalize_expression sorted axis_of update incompatible check_axis period_value
    check_lookback check_node walk validate_typed_expression HasLookbacks
program = tt

parsed_mean : parse_expression library features "Mean(Add(a, b), 5)" 25 ≡ some (ok (mean "5"))
unfolding program
parsed_mean = refl

unknown_is_refused :
    parse library features 25 ("c" ∷ [])
    ≡ some (err (other "DSLValidationError" "unknown identifier c"))
unfolding program
unknown_is_refused = refl

parse_ends_example : parse library features 25 ("Mean" ∷ "(" ∷ []) ≢ none
parse_ends_example = parse_ends library features 25 ("Mean" ∷ "(" ∷ [])

no_paren : is_leaf library features ")" ≡ false
unfolding program
no_paren = refl

parse_iff_example :
    (parse library features 25 ("a" ∷ []) ≡ some (ok (leaf "a")))
    ↔ Accepts library features 25 ("a" ∷ []) (leaf "a")
parse_iff_example = parse_iff library features 25 ("a" ∷ []) (leaf "a") no_paren

parse_expression_renders_example :
    (render library (mean "5") ≡ ok "Mean(Add(a,b),5)")
    × IsFormula library features (mean "5")
    × (nodes library (mean "5") ≤ 25)
    × (count "Mean(Add(a, b), 5)" ≤ 300)
parse_expression_renders_example =
    parse_expression_renders library features "Mean(Add(a, b), 5)" 25 (mean "5") parsed_mean

abbrev swapped_sum : Expression library
swapped_sum = node "Add" (sub (leaf "b") (sub (leaf "a") no_args))

add_commutes : Similar library sum swapped_sum
add_commutes = swap refl

abbrev swapped_mean : Expression library
swapped_mean = node "Mean" (sub swapped_sum (sub (leaf "5") no_args))

mean-Similar : Similar library (mean "5") swapped_mean
mean-Similar = inside add_commutes same_args

canonical_same_example : canonical_render library (mean "5") ≡ canonical_render library swapped_mean
canonical_same_example = canonical_same library (mean "5") swapped_mean mean-Similar

abbrev axes : Dict String (List String)
axes = ("a", "time_series" ∷ []) ∷ ("b", "time_series" ∷ []) ∷ []

valid_mean : validate_typed_expression library axes (mean "5") ≡ ok tt
unfolding program
valid_mean = refl

too_long :
    validate_typed_expression library axes (mean "300")
    ≡ err (other "DSLValidationError" "lookback must be an integer between 1 and 252")
unfolding program
too_long = refl

validated_lookbacks_example : HasLookbacks library axes (mean "5")
validated_lookbacks_example = validated_lookbacks library axes (mean "5") valid_mean
