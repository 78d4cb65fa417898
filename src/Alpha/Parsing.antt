-- ===== src/Alpha/Parsing.antt =====
-- alpha/dsl.py: what `parse` and `parse_expression` accept.
use Prim.Native.Nat.{ℕ}
use mathlib.Core.List.{append-nil}
use agentic_alpha_engine.Prelude.{
  ◌≡◌, ◌≢◌, ◌↔◌, sym, subst, ap, ◌∙◌, ◌≤◌, String, false, Option, none, some, List, [], ◌∷◌, length,
  ltb, Bool-cases, inl, inr, String_eq, arith,
}
use agentic_alpha_engine.Effects.{Result, ok, err}
use agentic_alpha_engine.Alpha.Expression.{Library, Expression, nodes}
use agentic_alpha_engine.Alpha.Parser.{
  Tokens, Parse, parsed, refused, out_of_fuel, is_leaf, expr, finish, fuel_for, parse,
}
use agentic_alpha_engine.Alpha.Tokens.{emit, IsFormula}
use agentic_alpha_engine.Alpha.Sound.{Ensures, holds, Reads, expr-Ensures}
use agentic_alpha_engine.Alpha.Complete.{expr-emit}

module _ (w : Library) (features : List String) where
  -- the tokens and the node limit that a formula satisfies
  abbrev pub Accepts : ℕ → Tokens → Expression w → Type 0
  Accepts max_nodes tokens e =
      (tokens ≡ emit w e) × IsFormula w features e × (nodes w e ≤ max_nodes)

  -- A parse ends in a formula for all the tokens, or in an exception.
  abbrev Outcome : ℕ → Tokens → Option (Result (Expression w)) → Type 0
  Outcome max_nodes tokens r = elim r [
    | none ↦ ⊥
    | some (ok e) ↦ Accepts max_nodes tokens e
    | some (err x) ↦ Unit
  ]

  finish-Outcome :
      (max_nodes : ℕ) (tokens : Tokens) (r : Parse (Expression w))
      → Ensures (Reads w features tokens) r
      → Outcome max_nodes tokens (finish w features max_nodes r)
  unfolding finish
  finish-Outcome max_nodes tokens (refused e) h = tt
  finish-Outcome max_nodes tokens out_of_fuel h = elim h [ ]
  finish-Outcome max_nodes tokens (parsed e (t ∷ ts)) h = tt
  finish-Outcome max_nodes tokens (parsed e []) (holds (read, formula)) =
      elim (Bool-cases (ltb max_nodes (nodes w e))) [
        | inl b ↦ rw b tt
        | inr b ↦ rw b (read ∙ append-nil (emit w e), formula, ground arith)
      ]

  parse-Outcome :
      (max_nodes : ℕ) (tokens : Tokens)
      → Outcome max_nodes tokens (parse w features max_nodes tokens)
  unfolding parse
  parse-Outcome max_nodes tokens =
      finish-Outcome max_nodes tokens _
        (expr-Ensures w features (fuel_for w features tokens) tokens (omega arith))

  -- The parser's fuel suffices for all tokens: it always returns a formula or raises.
  pub parse_ends : (max_nodes : ℕ) (tokens : Tokens) → parse w features max_nodes tokens ≢ none
  parse_ends max_nodes tokens h =
      subst (Outcome max_nodes tokens) h (parse-Outcome max_nodes tokens)

  pub parse-Accepts :
      (max_nodes : ℕ) (tokens : Tokens) (e : Expression w)
      → parse w features max_nodes tokens ≡ some (ok e)
      → Accepts max_nodes tokens e
  parse-Accepts max_nodes tokens e h =
      subst (Outcome max_nodes tokens) h (parse-Outcome max_nodes tokens)

  Accepts-parse :
      (max_nodes : ℕ) (tokens : Tokens) (e : Expression w)
      → is_leaf w features ")" ≡ false
      → Accepts max_nodes tokens e
      → parse w features max_nodes tokens ≡ some (ok e)
  unfolding parse finish
  Accepts-parse max_nodes tokens e no_paren (read, formula, small) =
      let whole =
        expr-emit w features no_paren e [] (fuel_for w features tokens) formula
          (omega (arith, ap length read, ap length (append-nil (emit w e)))) in
      let all = read ∙ sym (append-nil (emit w e)) in
      let result = ap (expr w features (fuel_for w features tokens)) all ∙ whole in
      ap (finish w features max_nodes) result ∙ within e small
    where
      within :
          (e : Expression w)
          → nodes w e ≤ max_nodes
          → finish w features max_nodes (parsed e []) ≡ some (ok e)
      within e small = ground arith

  -- Where `)` is neither a number nor a feature, the parser accepts a list of tokens with an
  -- expression exactly if the expression is a formula within the node limit and has these tokens.
  pub parse_iff :
      (max_nodes : ℕ) (tokens : Tokens) (e : Expression w)
      → is_leaf w features ")" ≡ false
      → (parse w features max_nodes tokens ≡ some (ok e)) ↔ Accepts max_nodes tokens e
  parse_iff max_nodes tokens e no_paren =
      (parse-Accepts max_nodes tokens e, Accepts-parse max_nodes tokens e no_paren)
