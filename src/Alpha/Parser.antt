-- ===== src/Alpha/Parser.antt =====
-- alpha/dsl.py: `_Parser` and `parse_expression`.
use Prim.Native.Nat.{ℕ, zero}
use Prim.Native.String.{count}
use agentic_alpha_engine.Prelude.{
  ◌+◌, ◌*◌, suc, String, Bool, true, false, not, ◌&&◌, ◌||◌, Option, none, some, List, [], ◌∷◌,
  String_eq, ◌==◌, contains, leb, ltb, length, if◌then◌else◌, ◌<>◌,
}
use agentic_alpha_engine.Dict.{Dict, lookup}
use agentic_alpha_engine.Effects.{Error, Result, ok, err}
use agentic_alpha_engine.Alpha.Expression.{
  Library, dsl_error, join, Expression, Args, node, no_args, sub, nodes,
}

abbrev pub Tokens : Type 0
Tokens = List String

-- A result with the tokens that are left, an exception, or no fuel left, which is no outcome of the
-- program.
pub data Parse (A : Type 0) : Type 0 where
  parsed : A → Tokens → Parse A
  refused : Error → Parse A
  out_of_fuel : Parse A

abbrev pub bind : {A B : Type 0} → Parse A → (A → Tokens → Parse B) → Parse B
bind (parsed a ts) f = f a ts
bind (refused e) f = refused e
bind out_of_fuel f = out_of_fuel

-- `FUNCTIONS`: the least and the greatest number of arguments
unfoldable pub functions : Dict String (ℕ × ℕ)
functions =
    ("Rank", (1, 1))
    ∷ ("ZScore", (1, 1))
    ∷ ("Delay", (2, 2))
    ∷ ("Delta", (2, 2))
    ∷ ("Mean", (2, 2))
    ∷ ("StdDev", (2, 2))
    ∷ ("Correlation", (3, 3))
    ∷ ("Add", (2, 2))
    ∷ ("Sub", (2, 2))
    ∷ ("Mul", (2, 2))
    ∷ ("Div", (2, 2))
    ∷ ("Neg", (1, 1))
    ∷ ("Clip", (3, 3))
    ∷ []

-- the next token is there and is this one
unfoldable pub starts : String → Tokens → Bool
starts token [] = false
starts token (t ∷ ts) = t == token

abbrev pub rest_of : Tokens → Tokens
rest_of [] = []
rest_of (t ∷ ts) = ts

unfoldable pub args_length : {w : Library} → Args w → ℕ
args_length no_args = 0
args_length (sub e args) = suc (args_length args)
args_length (Args.number x args) = suc (args_length args)
args_length (Args.word s args) = suc (args_length args)

module _ (w : Library) (features : List String) where
  abbrev pub is_leaf : String → Bool
  is_leaf token = w.is_number token || contains features token

  abbrev pub wrong_arity : String → ℕ × ℕ → Error
  wrong_arity token (lo, hi) =
      dsl_error
        (token <> " expects " <> w.decimal_text lo <> " to " <> w.decimal_text hi <> " arguments")

  -- the closing parenthesis, and the number of arguments
  unfoldable pub close : String → ℕ × ℕ → Args w → Tokens → Parse (Expression w)
  close token arity args ts =
      if not (starts ")" ts)
      then refused (dsl_error "missing closing parenthesis")
      else if leb arity.0 (args_length args) && leb (args_length args) arity.1
      then parsed (node token args) (rest_of ts)
      else refused (wrong_arity token arity)

  unfoldable mutual
    pub expr : ℕ → Tokens → Parse (Expression w)
    expr zero ts = out_of_fuel
    expr (suc fuel) [] = refused (dsl_error "expected expression")
    expr (suc fuel) (token ∷ ts) = elim (is_leaf token) [
      | true ↦ parsed (node token no_args) ts
      | false ↦ elim (lookup token functions) [
        | none ↦ refused (dsl_error ("unknown identifier " <> w.repr token))
        | some arity ↦ elim (starts "(" ts) [
          | false ↦ refused (dsl_error (token <> " must be called"))
          | true ↦ bind (arguments fuel (rest_of ts)) (close token arity)
        ]
      ]
    ]

    -- the arguments of a call: none where the parenthesis closes at once or the tokens end
    pub arguments : ℕ → Tokens → Parse (Args w)
    arguments zero ts = out_of_fuel
    arguments (suc fuel) [] = parsed no_args []
    arguments (suc fuel) (t ∷ ts) = elim (t == ")") [
      | true ↦ parsed no_args (t ∷ ts)
      | false ↦ some_arguments fuel (t ∷ ts)
    ]

    -- the loop over the arguments
    pub some_arguments : ℕ → Tokens → Parse (Args w)
    some_arguments zero ts = out_of_fuel
    some_arguments (suc fuel) ts = bind (expr fuel ts) (more_arguments fuel)

    pub more_arguments : ℕ → Expression w → Tokens → Parse (Args w)
    more_arguments zero arg ts = out_of_fuel
    more_arguments (suc fuel) arg ts = elim (starts "," ts) [
      | false ↦ parsed (sub arg no_args) ts
      | true ↦ bind (some_arguments fuel (rest_of ts)) (λ args ts'. parsed (sub arg args) ts')
    ]

  -- `parse`, of all tokens
  unfoldable pub finish : ℕ → Parse (Expression w) → Option (Result (Expression w))
  finish max_nodes out_of_fuel = none
  finish max_nodes (refused e) = some (err e)
  finish max_nodes (parsed value (t ∷ ts)) = some (err (dsl_error "unexpected trailing tokens"))
  finish max_nodes (parsed value []) =
      if ltb max_nodes (nodes w value)
      then some (err (dsl_error "expression exceeds node limit"))
      else some (ok value)

  -- enough for as many tokens
  abbrev pub fuel_for : Tokens → ℕ
  fuel_for ts = 3 * length ts + 1

  unfoldable pub parse : ℕ → Tokens → Option (Result (Expression w))
  parse max_nodes tokens = finish max_nodes (expr (fuel_for tokens) tokens)

  unfoldable pub parse_expression : String → ℕ → Option (Result (Expression w))
  parse_expression text max_nodes =
      if ltb 300 (count text) || w.is_blank text
      then some (err (dsl_error "expression is empty or exceeds 300 characters"))
      else if not (join "" (w.findall text) == w.compact text)
      then some (err (dsl_error "expression contains unsupported syntax"))
      else parse max_nodes (w.findall text)
