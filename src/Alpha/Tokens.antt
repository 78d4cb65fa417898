-- ===== src/Alpha/Tokens.antt =====
-- alpha/dsl.py: the tokens of an expression, and which expressions the language has.
use Prim.Native.Nat.{ℕ}
use agentic_alpha_engine.Prelude.{
  ◌≡◌, ◌≤◌, ◌<◌, ◌+◌, suc, String, Bool, true, false, Option, none, some, List, [], ◌∷◌, ◌++◌,
  length, length-append, String_eq, arith, ◌<>◌,
}
use agentic_alpha_engine.Dict.{lookup}
use agentic_alpha_engine.Alpha.Expression.{Library, Expression, Args, node, no_args, sub}
use agentic_alpha_engine.Alpha.Parser.{Tokens, functions, args_length, is_leaf}

-- A function of this name takes so many arguments.
abbrev pub HasArity : String → ℕ → Type 0
HasArity name n =
    (arity : ℕ × ℕ) × (lookup name functions ≡ some arity) × (arity.0 ≤ n) × (n ≤ arity.1)

module _ (w : Library) where
  unfoldable mutual
    pub emit : Expression w → Tokens
    emit (node name no_args) = name ∷ []
    emit (node name (sub e args)) = name ∷ "(" ∷ (emit_args (sub e args) ++ ")" ∷ [])
    emit (node name (Args.number x args)) = name ∷ []
    emit (node name (Args.word s args)) = name ∷ []

    pub emit_args : Args w → Tokens
    emit_args no_args = []
    emit_args (sub e args) = emit e ++ emit_rest args
    emit_args (Args.number x args) = []
    emit_args (Args.word s args) = []

    -- the arguments after the first
    pub emit_rest : Args w → Tokens
    emit_rest no_args = []
    emit_rest (sub e args) = "," ∷ (emit e ++ emit_rest args)
    emit_rest (Args.number x args) = []
    emit_rest (Args.word s args) = []

  pub length-emit_pos : (e : Expression w) → 0 < length (emit e)
  unfolding emit
  length-emit_pos (node name no_args) = omega arith
  length-emit_pos (node name (sub e args)) = omega arith
  length-emit_pos (node name (Args.number x args)) = omega arith
  length-emit_pos (node name (Args.word s args)) = omega arith

  abbrev pub is_sub : Args w → Bool
  is_sub (sub e args) = true
  is_sub _ = false

  module _ (features : List String) where
    -- Leaves are numbers and features; a call is of a function that is no leaf, with as many arguments
    -- as the function takes.
    unfoldable mutual
      pub IsFormula : Expression w → Type 0
      IsFormula (node name no_args) = is_leaf w features name ≡ true
      IsFormula (node name (sub e args)) =
          (is_leaf w features name ≡ false)
          × HasArity name (suc (args_length args))
          × IsFormula e
          × IsFormulas args
      IsFormula (node name (Args.number x args)) = ⊥
      IsFormula (node name (Args.word s args)) = ⊥

      pub IsFormulas : Args w → Type 0
      IsFormulas no_args = Unit
      IsFormulas (sub e args) = IsFormula e × IsFormulas args
      IsFormulas (Args.number x args) = ⊥
      IsFormulas (Args.word s args) = ⊥

pub length-tokens : (xs ys : Tokens) → length (xs ++ ys) ≡ length xs + length ys
length-tokens = length-append

pub ruleset lengths = (arith, length-tokens)
