-- ===== src/Alpha/Complete.antt =====
-- alpha/dsl.py: the parser reads every formula back from its tokens.
use Prim.Native.Nat.{ℕ, zero}
use mathlib.Core.List.{append_assoc}
use agentic_alpha_engine.Prelude.{
  ◌≡◌, refl, sym, subst, ap, ◌∙◌, ◌≤◌, ◌<◌, ◌+◌, ◌*◌, suc, String, Bool, true, false, none, some,
  List, [], ◌∷◌, ◌++◌, length, String_eq, ◌==◌, ==_iff, Bool-cases, inl, inr, arith,
}
use agentic_alpha_engine.Dict.{lookup}
use agentic_alpha_engine.Alpha.Expression.{Library, Expression, Args, node, no_args, sub}
use agentic_alpha_engine.Alpha.Parser.{
  Tokens, parsed, functions, starts, rest_of, args_length, is_leaf, close, expr, arguments,
  some_arguments, more_arguments,
}
use agentic_alpha_engine.Alpha.Tokens.{
  HasArity, emit, emit_args, emit_rest, length-emit_pos, IsFormula, IsFormulas, lengths,
}

no_function : lookup ")" functions ≡ none
unfolding lookup functions
no_function = refl

function-apart : (name : String) (n : ℕ) → HasArity name n → (name == ")") ≡ false
function-apart name n (arity, found, low, high) = elim (Bool-cases (name == ")")) [
  | inr e ↦ e
  | inl e ↦
      absurd (clash (subst (λ k. lookup k functions ≡ some arity) ((==_iff name ")").0 e) found))
]
  where
    clash : lookup ")" functions ≡ some arity → ⊥
    clash h = let n = no_function in ground arith

module _ (w : Library) (features : List String) (no_paren : is_leaf w features ")" ≡ false) where
  name_of : Expression w → String
  name_of (node name args) = name

  tail_of : Expression w → Tokens
  unfolding emit
  tail_of (node name args) = rest_of (emit w (node name args))

  emit-cons : (e : Expression w) → emit w e ≡ name_of e ∷ tail_of e
  unfolding emit name_of tail_of
  emit-cons (node name no_args) = refl
  emit-cons (node name (sub e args)) = refl
  emit-cons (node name (Args.number x args)) = refl
  emit-cons (node name (Args.word s args)) = refl

  -- A formula does not begin with a closing parenthesis.
  name_of-apart : (e : Expression w) → IsFormula w features e → (name_of e == ")") ≡ false
  unfolding name_of IsFormula
  name_of-apart (node name no_args) leaf = apart name leaf
    where
      both : (b : Bool) → b ≡ true → b ≡ false → ⊥
      both b t f = ground arith

      apart : (name : String) → is_leaf w features name ≡ true → (name == ")") ≡ false
      apart name leaf = elim (Bool-cases (name == ")")) [
        | inr e ↦ e
        | inl e ↦ absurd (
            both (is_leaf w features ")")
              (subst (λ n. is_leaf w features n ≡ true) ((==_iff name ")").0 e) leaf) no_paren)
      ]
  name_of-apart (node name (sub e args)) (leaf, arity, fe, fargs) = function-apart name _ arity
  name_of-apart (node name (Args.number x args)) h = absurd h
  name_of-apart (node name (Args.word s args)) h = absurd h

  close-emit :
      (token : String) (arity : ℕ × ℕ) (args : Args w) (rest : Tokens)
      → arity.0 ≤ args_length args
      → args_length args ≤ arity.1
      → close w features token arity args (")" ∷ rest) ≡ parsed (node token args) rest
  unfolding close starts
  close-emit token arity args rest low high = ground arith

  arguments-some :
      (f : ℕ) (t : String) (ts : Tokens)
      → (t == ")") ≡ false
      → arguments w features (suc f) (t ∷ ts) ≡ some_arguments w features f (t ∷ ts)
  unfolding expr
  arguments-some f t ts e = rw (arguments, e) refl

  -- One induction on the expression and its arguments: with enough fuel, whatever follows.
  mutual
    unfolding expr emit IsFormula starts args_length

    pub expr-emit :
        (e : Expression w) (rest : Tokens) (f : ℕ)
        → IsFormula w features e
        → 3 * length (emit w e ++ rest) < f
        → expr w features f (emit w e ++ rest) ≡ parsed e rest
    expr-emit e rest zero formula h = absurd (omega arith)
    expr-emit (node name no_args) rest (suc f) leaf h = rw (expr, leaf) refl
    expr-emit (node name (sub e args)) rest (suc f) (leaf, (arity, found, low, high), fe, fargs) h =
        let order =
          append_assoc (emit_args w (sub e args)) (")" ∷ []) rest
          ∙ append_assoc (emit w e) (emit_rest w args) (")" ∷ rest) in
        let inner = arguments-emit e args rest f fe fargs (omega (arith, ap length order)) in
        rw (expr, leaf, found, order, inner) (close-emit name arity (sub e args) rest low high)
    expr-emit (node name (Args.number x args)) rest (suc f) h b = absurd h
    expr-emit (node name (Args.word s args)) rest (suc f) h b = absurd h

    arguments-emit :
        (e : Expression w) (args : Args w) (rest : Tokens) (f : ℕ)
        → IsFormula w features e
        → IsFormulas w features args
        → 3 * length (emit w e ++ (emit_rest w args ++ ")" ∷ rest)) + 2 < f
        → arguments w features f (emit w e ++ (emit_rest w args ++ ")" ∷ rest))
          ≡ parsed (sub e args) (")" ∷ rest)
    arguments-emit e args rest zero fe fargs h = absurd (omega arith)
    arguments-emit e args rest (suc f) fe fargs h =
        subst
          (λ ts.
            arguments w features (suc f) (ts ++ (emit_rest w args ++ ")" ∷ rest))
            ≡ parsed (sub e args) (")" ∷ rest))
          (sym (emit-cons e))
          (arguments-some f (name_of e) _ (name_of-apart e fe)
            ∙ subst
                (λ ts.
                  some_arguments w features f (ts ++ (emit_rest w args ++ ")" ∷ rest))
                  ≡ parsed (sub e args) (")" ∷ rest))
                (emit-cons e) (some_arguments-emit e args rest f fe fargs (omega arith)))

    some_arguments-emit :
        (e : Expression w) (args : Args w) (rest : Tokens) (f : ℕ)
        → IsFormula w features e
        → IsFormulas w features args
        → 3 * length (emit w e ++ (emit_rest w args ++ ")" ∷ rest)) + 1 < f
        → some_arguments w features f (emit w e ++ (emit_rest w args ++ ")" ∷ rest))
          ≡ parsed (sub e args) (")" ∷ rest)
    some_arguments-emit e args rest zero fe fargs h = absurd (omega arith)
    some_arguments-emit e args rest (suc f) fe fargs h =
        rw (some_arguments, expr-emit e (emit_rest w args ++ ")" ∷ rest) f fe (omega arith))
          (more_arguments-emit e args rest f fargs (omega (lengths, length-emit_pos w e)))

    more_arguments-emit :
        (e : Expression w) (args : Args w) (rest : Tokens) (f : ℕ)
        → IsFormulas w features args
        → 3 * length (emit_rest w args ++ ")" ∷ rest) < f
        → more_arguments w features f e (emit_rest w args ++ ")" ∷ rest)
          ≡ parsed (sub e args) (")" ∷ rest)
    more_arguments-emit e args rest zero fargs h = absurd (omega arith)
    more_arguments-emit e no_args rest (suc f) fargs h = refl
    more_arguments-emit e (sub e' args) rest (suc f) (fe, fargs) h =
        let order = append_assoc (emit w e') (emit_rest w args) (")" ∷ rest) in
        rw
          (
            more_arguments,
            order,
            some_arguments-emit e' args rest f fe fargs (omega (arith, ap length order)),
          )
          refl
    more_arguments-emit e (Args.number x args) rest (suc f) h b = absurd h
    more_arguments-emit e (Args.word s args) rest (suc f) h b = absurd h
