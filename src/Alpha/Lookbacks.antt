-- ===== src/Alpha/Lookbacks.antt =====
-- alpha/dsl.py: what an expression that passed `validate_typed_expression` looks like.
use agentic_alpha_engine.Prelude.{
  ◌≡◌, refl, sym, ◌∙◌, String, true, false, Option, none, some, List, String_eq, contains,
  Bool-cases, Option-cases, inl, inr, arith,
}
use agentic_alpha_engine.Dict.{Dict}
use agentic_alpha_engine.Effects.{Error, other, Result, ok, err, result_cases}
use agentic_alpha_engine.Alpha.Expression.{Library, dsl_error, Expression, Args, node, no_args, sub}
use agentic_alpha_engine.Alpha.Typed.{
  time_series_ops, update, check_axis, period_value, is_lookback, period_index, check_lookback,
  check_node, own_name, and_then, walk, walk_args, validate_typed_expression, HasLookbacks,
  ArgsHaveLookbacks,
}

module _ (w : Library) (axes : Dict String (List String)) where
  clash : {r : Result (List String)} {u : List String} {e : Error} → r ≡ ok u → r ≡ err e → ⊥
  clash h k = ground arith

  check_lookback-err :
      (name : String) (args : Args w) (used : List String)
      → contains time_series_ops name ≡ true
      → period_value w axes (period_index w axes name) args ≡ none
      → (e : Error) × (check_lookback w axes name args used ≡ err e)
  unfolding check_lookback
  check_lookback-err name args used t n =
      (other "IndexError" "tuple index out of range", rw (t, n) refl)

  check_lookback-bad :
      (name : String) (args : Args w) (used : List String) (period : Option w.Float)
      → contains time_series_ops name ≡ true
      → period_value w axes (period_index w axes name) args ≡ some period
      → is_lookback w axes period ≡ false
      → (e : Error) × (check_lookback w axes name args used ≡ err e)
  unfolding check_lookback
  check_lookback-bad name args used period t p b =
      (dsl_error "lookback must be an integer between 1 and 252", rw (t, p, b) refl)

  check_lookback-ok :
      (name : String) (args : Args w) (used out : List String)
      → check_lookback w axes name args used ≡ ok out
      → contains time_series_ops name ≡ true
      → (period : Option w.Float) × (period_value w axes (period_index w axes name) args
          ≡ some period)
        × (is_lookback w axes period ≡ true)
  check_lookback-ok name args used out h t =
      elim (Option-cases (period_value w axes (period_index w axes name) args)) [
        | inl n ↦ absurd (clash h (check_lookback-err name args used t n).1)
        | inr (period, p) ↦ elim (Bool-cases (is_lookback w axes period)) [
          | inl b ↦ (period, p, b)
          | inr b ↦ absurd (clash h (check_lookback-bad name args used period t p b).1)
        ]
      ]

  check_node-ok :
      (name : String) (args : Args w) (r : Result (List String)) (out : List String)
      → check_node w axes name args r ≡ ok out
      → (used used' : List String) × (r ≡ ok used)
        × (check_lookback w axes name args used' ≡ ok out)
  unfolding check_node
  check_node-ok name args (err e) out h = ground arith
  check_node-ok name args (ok used) out h = elim (result_cases (check_axis w axes name used)) [
    | inl (used', a) ↦ (used, used', refl, sym (passed used' a) ∙ h)
    | inr (e, a) ↦ absurd (clash h (stopped e a))
  ]
    where
      passed :
          (used' : List String)
          → check_axis w axes name used ≡ ok used'
          → check_node w axes name args (ok used) ≡ check_lookback w axes name args used'
      passed used' a = rw (check_node, a) refl

      stopped :
          (e : Error)
          → check_axis w axes name used ≡ err e
          → check_node w axes name args (ok used) ≡ err e
      stopped e a = rw (check_node, a) refl

  and_then-ok :
      (r : Result (List String)) (f : List String → Result (List String)) (out : List String)
      → and_then w axes r f ≡ ok out
      → (names : List String) × (r ≡ ok names) × (f names ≡ ok out)
  and_then-ok (ok names) f out h = (names, refl, h)
  and_then-ok (err e) f out h = ground arith

  mutual
    unfolding walk HasLookbacks

    walk-HasLookbacks :
        (e : Expression w) (out : List String) → walk w axes e ≡ ok out → HasLookbacks w axes e
    walk-HasLookbacks (node name args) out h =
        let (used, used', a, l) =
          check_node-ok name args (walk_args w axes args (own_name w axes name)) out h in
        (check_lookback-ok name args used' out l, walk_args-HaveLookbacks args _ used a)

    walk_args-HaveLookbacks :
        (args : Args w) (used out : List String)
        → walk_args w axes args used ≡ ok out
        → ArgsHaveLookbacks w axes args
    walk_args-HaveLookbacks no_args used out h = tt
    walk_args-HaveLookbacks (sub e args) used out h =
        let (names, first, later) =
          and_then-ok (walk w axes e) (λ names. walk_args w axes args (update used names)) out h in
        (
          walk-HasLookbacks e names first,
          walk_args-HaveLookbacks args (update used names) out later,
        )
    walk_args-HaveLookbacks (Args.number x args) used out h =
        walk_args-HaveLookbacks args used out h
    walk_args-HaveLookbacks (Args.word s args) used out h = walk_args-HaveLookbacks args used out h

  validate-walk :
      (e : Expression w)
      → validate_typed_expression w axes e ≡ ok tt
      → (out : List String) × (walk w axes e ≡ ok out)
  validate-walk e h = elim (result_cases (walk w axes e)) [
    | inl found ↦ found
    | inr (x, k) ↦ absurd (no x (stopped x k))
  ]
    where
      stopped : (x : Error) → walk w axes e ≡ err x → validate_typed_expression w axes e ≡ err x
      stopped x k = unfold validate_typed_expression in rw (validate_typed_expression, k) refl

      no : (x : Error) → validate_typed_expression w axes e ≡ err x → ⊥
      no x k = ground arith

  -- In an expression that passes the validation, every operator over time, at any depth, has a
  -- lookback that is there and reads as an integer from 1 to 252.
  pub validated_lookbacks :
      (e : Expression w) → validate_typed_expression w axes e ≡ ok tt → HasLookbacks w axes e
  validated_lookbacks e h = let (out, walked) = validate-walk e h in walk-HasLookbacks e out walked
