-- ===== src/Alpha/Expression.antt =====
-- alpha/dsl.py: `Expression`, its rendering and its size.
use Prim.Native.Nat.{ℕ}
use agentic_alpha_engine.Prelude.{
  ◌+◌, suc, String, Bool, Option, none, some, List, [], ◌∷◌, String_eq, ◌==◌, if◌then◌else◌, ◌<>◌,
}
use agentic_alpha_engine.Effects.{Error, Result, ok, err, other}

-- What the language takes from Python's library: `re.findall` and `re.fullmatch` with the patterns of
-- the source, `re.sub` of white space, `str.strip`, `Decimal` and its format, `float`, and the texts of
-- numbers and of `repr`.
pub record Library : Type 1 where
  pub findall : String → List String
  pub is_number : String → Bool
  pub compact : String → String
  pub is_blank : String → Bool
  pub Decimal : Type 0
  pub read_decimal : String → Option Decimal
  pub is_finite : Decimal → Bool
  pub format_normalized : Decimal → String
  pub Float : Type 0
  pub float_text : Float → String
  pub read_float : String → Option Float
  pub is_integer : Float → Bool
  pub float_le : Float → Float → Bool
  pub float_of : ℕ → Float
  pub decimal_text : ℕ → String
  pub repr : String → String

abbrev pub dsl_error : String → Error
dsl_error text = other "DSLValidationError" text

-- `",".join(...)`
unfoldable pub join : String → List String → String
join separator [] = ""
join separator (x ∷ []) = x
join separator (x ∷ y ∷ xs) = x <> separator <> join separator (y ∷ xs)

module _ (w : Library) where
  -- `Args` is the tuple of arguments: expressions, floats and texts.
  mutual
    pub data Expression : Type 0 where
      node : String → Args → Expression

    pub data Args : Type 0 where
      no_args : Args
      sub : Expression → Args → Args
      number : w.Float → Args → Args
      word : String → Args → Args

  -- `_canonical_number`
  unfoldable pub canonical_number : String → Result String
  canonical_number value = elim (w.read_decimal value) [
    | none ↦ err (dsl_error "invalid numeric literal")
    | some decimal ↦
        if w.is_finite decimal
        then (let normalized = w.format_normalized decimal in
            ok (if normalized == "-0" then "0" else if normalized == "" then "0" else normalized))
        else err (dsl_error "numeric literals must be finite")
  ]

  -- `_render_arg` of a float, which is finite where the parser made it
  abbrev pub float_render : w.Float → Result String
  float_render x = canonical_number (w.float_text x)

  unfoldable mutual
    -- `Expression.nodes`
    pub nodes : Expression → ℕ
    nodes (node name args) = suc (args_nodes args)

    pub args_nodes : Args → ℕ
    args_nodes no_args = 0
    args_nodes (sub e args) = nodes e + args_nodes args
    args_nodes (number x args) = args_nodes args
    args_nodes (word s args) = args_nodes args

  abbrev pub cons_text : Result String → Result (List String) → Result (List String)
  cons_text (ok text) (ok texts) = ok (text ∷ texts)
  cons_text (ok text) (err e) = err e
  cons_text (err e) texts = err e

  abbrev pub call_text : String → Result (List String) → Result String
  call_text name (ok texts) = ok (name <> "(" <> join "," texts <> ")")
  call_text name (err e) = err e

  unfoldable mutual
    -- `Expression.render`
    pub render : Expression → Result String
    render (node name no_args) = ok name
    render (node name (sub e args)) = call_text name (render_args (sub e args))
    render (node name (number x args)) = call_text name (render_args (number x args))
    render (node name (word s args)) = call_text name (render_args (word s args))

    -- `_render_arg` of each argument
    pub render_args : Args → Result (List String)
    render_args no_args = ok []
    render_args (sub e args) = cons_text (render e) (render_args args)
    render_args (number x args) = cons_text (float_render x) (render_args args)
    render_args (word s args) = cons_text (ok s) (render_args args)
