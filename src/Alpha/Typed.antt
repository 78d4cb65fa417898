-- ===== src/Alpha/Typed.antt =====
-- alpha/dsl.py: `validate_typed_expression`.
use Prim.Native.Nat.{ℕ, zero}
use agentic_alpha_engine.Prelude.{
  ◌≡◌, suc, String, Bool, true, false, ◌&&◌, Option, none, some, List, [], ◌∷◌, ◌++◌, String_eq,
  ◌==◌, if◌then◌else◌, ◌<>◌, String_ord, sorted, contains,
}
use agentic_alpha_engine.Dict.{Dict, lookup, has_key}
use agentic_alpha_engine.Effects.{Result, ok, err, other}
use agentic_alpha_engine.Alpha.Expression.{
  Library, dsl_error, join, Expression, Args, node, no_args, sub,
}

abbrev pub cross_section_ops : List String
cross_section_ops = "Rank" ∷ "ZScore" ∷ []

abbrev pub time_series_ops : List String
time_series_ops = "Delay" ∷ "Delta" ∷ "Mean" ∷ "StdDev" ∷ "Correlation" ∷ []

-- the axis that an operator needs, where it needs one
unfoldable pub axis_of : String → Option String
axis_of name =
    if contains cross_section_ops name
    then some "cross_section"
    else if contains time_series_ops name
    then some "time_series"
    else none

-- `used.update(names)`, a set as the list of its members
unfoldable pub update : List String → List String → List String
update used [] = used
update used (x ∷ xs) = if contains used x then update used xs else update (used ++ x ∷ []) xs

module _ (w : Library) (supported_axes : Dict String (List String)) where
  -- `axis in supported_axes[name]`, for a name that is there
  abbrev pub supports : String → String → Bool
  supports axis name = elim (lookup name supported_axes) [
    | none ↦ false
    | some axes ↦ contains axes axis
  ]

  unfoldable pub incompatible : String → List String → List String
  incompatible axis [] = []
  incompatible axis (name ∷ names) =
      let rest = incompatible axis names in if supports axis name then rest else name ∷ rest

  abbrev pub sorted_names : List String → List String
  sorted_names = sorted (λ s. s)

  unfoldable pub check_axis : String → List String → Result (List String)
  check_axis name used = elim (axis_of name) [
    | none ↦ ok used
    | some axis ↦ elim (incompatible axis used) [
      | [] ↦ ok used
      | x ∷ xs ↦ err (
          dsl_error (
            name
            <> " requires "
            <> axis
            <> "-compatible features: "
            <> join ", " (sorted_names (x ∷ xs))))
    ]
  ]

  -- `args[index]`, read as a float, or not a number; none where the index is out of range
  unfoldable pub period_value : ℕ → Args w → Option (Option w.Float)
  period_value index no_args = none
  period_value zero (sub (node name no_args) args) = some (w.read_float name)
  period_value zero (sub (node name (sub e rest)) args) = some none
  period_value zero (sub (node name (Args.number x rest)) args) = some none
  period_value zero (sub (node name (Args.word s rest)) args) = some none
  period_value zero (Args.number x args) = some (some x)
  period_value zero (Args.word s args) = some (w.read_float s)
  period_value (suc index) (sub e args) = period_value index args
  period_value (suc index) (Args.number x args) = period_value index args
  period_value (suc index) (Args.word s args) = period_value index args

  abbrev pub is_lookback : Option w.Float → Bool
  is_lookback none = false
  is_lookback (some x) =
      w.is_integer x && w.float_le (w.float_of 1) x && w.float_le x (w.float_of 252)

  abbrev pub period_index : String → ℕ
  period_index name = if name == "Correlation" then 2 else 1

  unfoldable pub check_lookback : String → Args w → List String → Result (List String)
  check_lookback name args used =
      if contains time_series_ops name
      then elim (period_value (period_index name) args) [
        | none ↦ err (other "IndexError" "tuple index out of range")
        | some period ↦
            if is_lookback period
            then ok used
            else err (dsl_error "lookback must be an integer between 1 and 252")
      ]
      else ok used

  -- both checks of a node whose arguments use the names
  unfoldable pub check_node : String → Args w → Result (List String) → Result (List String)
  check_node name args (err e) = err e
  check_node name args (ok used) = elim (check_axis name used) [
    | err e ↦ err e
    | ok used' ↦ check_lookback name args used'
  ]

  abbrev pub own_name : String → List String
  own_name name = if has_key name supported_axes then name ∷ [] else []

  abbrev pub and_then :
      Result (List String) → (List String → Result (List String)) → Result (List String)
  and_then (ok used) f = f used
  and_then (err e) f = err e

  unfoldable mutual
    pub walk : Expression w → Result (List String)
    walk (node name args) = check_node name args (walk_args args (own_name name))

    -- the arguments one after another, added to the names used so far
    pub walk_args : Args w → List String → Result (List String)
    walk_args no_args used = ok used
    walk_args (sub e args) used = and_then (walk e) (λ names. walk_args args (update used names))
    walk_args (Args.number x args) used = walk_args args used
    walk_args (Args.word s args) used = walk_args args used

  unfoldable pub validate_typed_expression : Expression w → Result (Unit {0})
  validate_typed_expression e = elim (walk e) [ ok used ↦ ok tt | err x ↦ err x ]

  -- every operator over time has a lookback that is an integer from 1 to 252
  unfoldable mutual
    pub HasLookbacks : Expression w → Type 0
    HasLookbacks (node name args) =
        (contains time_series_ops name ≡ true
          → (period : Option w.Float) × (period_value (period_index name) args ≡ some period)
            × (is_lookback period ≡ true))
        × ArgsHaveLookbacks args

    pub ArgsHaveLookbacks : Args w → Type 0
    ArgsHaveLookbacks no_args = Unit
    ArgsHaveLookbacks (sub e args) = HasLookbacks e × ArgsHaveLookbacks args
    ArgsHaveLookbacks (Args.number x args) = ArgsHaveLookbacks args
    ArgsHaveLookbacks (Args.word s args) = ArgsHaveLookbacks args
