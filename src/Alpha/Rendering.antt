-- ===== src/Alpha/Rendering.antt =====
-- alpha/dsl.py: an expression that was parsed renders as the text without its white space.
use Prim.Native.Nat.{ℕ}
use Prim.Native.String.{count}
use agentic_alpha_engine.Prelude.{
  ◌≡◌, refl, sym, ap, ◌∙◌, ◌≤◌, String, some, List, [], ◌∷◌, ◌++◌, String_eq, ==_iff, arith, ◌<>◌,
  <>_nil, nil_<>, <>_assoc,
}
use agentic_alpha_engine.Effects.{ok}
use agentic_alpha_engine.Alpha.Expression.{
  Library, join, Expression, Args, node, no_args, sub, nodes, render, render_args,
}
use agentic_alpha_engine.Alpha.Parser.{parse, parse_expression}
use agentic_alpha_engine.Alpha.Tokens.{emit, emit_args, emit_rest, IsFormula, IsFormulas}
use agentic_alpha_engine.Alpha.Parsing.{parse-Accepts}

-- `"".join(...)`
abbrev pub whole : List String → String
whole ts = join "" ts

whole-cons : (t : String) (ts : List String) → whole (t ∷ ts) ≡ t <> whole ts
unfolding join
whole-cons t [] = sym (<>_nil t)
whole-cons t (u ∷ ts) = ap (λ s. t <> s) (nil_<> (whole (u ∷ ts)))

whole-append : (ts us : List String) → whole (ts ++ us) ≡ whole ts <> whole us
unfolding join
whole-append [] us = sym (nil_<> (whole us))
whole-append (t ∷ ts) us =
    whole-cons t (ts ++ us)
    ∙ ap (λ s. t <> s) (whole-append ts us)
    ∙ sym (<>_assoc t (whole ts) (whole us))
    ∙ ap (λ s. s <> whole us) (sym (whole-cons t ts))

module _ (w : Library) (features : List String) where
  -- the rendered arguments, joined after a first text
  RendersRest : Args w → Type 0
  RendersRest args =
      (texts : List String) × (render_args w args ≡ ok texts)
      × ((first : String) → join "," (first ∷ texts) ≡ first <> whole (emit_rest w args))

  join-cons :
      (s t : String) (ts : List String) → join "," (s ∷ t ∷ ts) ≡ s <> "," <> join "," (t ∷ ts)
  unfolding join
  join-cons s t ts = refl

  mutual
    unfolding render emit IsFormula RendersRest join

    pub render-emit :
        (e : Expression w) → IsFormula w features e → render w e ≡ ok (whole (emit w e))
    render-emit (node name no_args) leaf = refl
    render-emit (node name (sub e args)) (leaf, arity, fe, fargs) =
        let (texts, rendered, joined) = renders_rest args fargs in
        let first = whole (emit w e) in
        rw (render-emit e fe, rendered)
          (ap ok (
            ap (λ s. name <> "(" <> s <> ")") (joined first)
            ∙ sym (
                whole-cons name ("(" ∷ (emit_args w (sub e args) ++ ")" ∷ []))
                ∙ ap (λ s. name <> s)
                    (whole-cons "(" (emit_args w (sub e args) ++ ")" ∷ [])
                      ∙ ap (λ s. "(" <> s)
                          (whole-append (emit_args w (sub e args)) (")" ∷ [])
                            ∙ ap (λ s. s <> ")") (whole-append (emit w e) (emit_rest w args)))))))
    render-emit (node name (Args.number x args)) h = absurd h
    render-emit (node name (Args.word s args)) h = absurd h

    renders_rest : (args : Args w) → IsFormulas w features args → RendersRest args
    renders_rest no_args h = ([], refl, λ first. sym (<>_nil first))
    renders_rest (sub e args) (fe, fargs) =
        let (texts, rendered, joined) = renders_rest args fargs in
        (
          whole (emit w e) ∷ texts,
          rw (render-emit e fe, rendered) refl,
          λ first.
              ap (λ s. first <> "," <> s) (joined (whole (emit w e)))
              ∙ sym (
                  ap (λ s. first <> s)
                    (whole-cons "," (emit w e ++ emit_rest w args)
                      ∙ ap (λ s. "," <> s) (whole-append (emit w e) (emit_rest w args)))),
        )
    renders_rest (Args.number x args) h = absurd h
    renders_rest (Args.word s args) h = absurd h

  parse_expression-parse :
      (text : String) (max_nodes : ℕ) (e : Expression w)
      → parse_expression w features text max_nodes ≡ some (ok e)
      → (join "" (w.findall text) ≡ w.compact text)
        × (parse w features max_nodes (w.findall text) ≡ some (ok e))
        × (count text ≤ 300)
  unfolding parse_expression
  parse_expression-parse text max_nodes e h =
      ground (arith, ==_iff (join "" (w.findall text)) (w.compact text))

  -- A text that parses has at most 300 characters; what it gives is a formula within the node limit
  -- that renders as the text without its white space.
  pub parse_expression_renders :
      (text : String) (max_nodes : ℕ) (e : Expression w)
      → parse_expression w features text max_nodes ≡ some (ok e)
      → (render w e ≡ ok (w.compact text))
        × IsFormula w features e
        × (nodes w e ≤ max_nodes)
        × (count text ≤ 300)
  parse_expression_renders text max_nodes e h =
      let (same, inner, short) = parse_expression-parse text max_nodes e h in
      let (read, formula, small) = parse-Accepts w features max_nodes (w.findall text) e inner in
      (
        render-emit e formula ∙ ap (λ ts. ok (whole ts)) (sym read) ∙ ap ok same,
        formula,
        small,
        short,
      )
