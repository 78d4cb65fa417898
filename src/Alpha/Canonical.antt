-- ===== src/Alpha/Canonical.antt =====
-- alpha/dsl.py: `_canonical_render` and `canonicalize_expression`.
use agentic_alpha_engine.Prelude.{
  ◌≡◌, refl, sym, ap, ◌∙◌, String, Bool, true, ◌||◌, Option, none, some, List, [], ◌∷◌, String_eq,
  ◌==◌, if◌then◌else◌, ◌<>◌, String_ord, sorted, sorted-swap,
}
use agentic_alpha_engine.Effects.{Result, ok, err}
use agentic_alpha_engine.Alpha.Expression.{
  Library, join, Expression, Args, node, no_args, sub, canonical_number,
}
use agentic_alpha_engine.Alpha.Parser.{parse_expression}

-- `node.name in {"Add", "Mul"}`
abbrev pub commutes : String → Bool
commutes name = name == "Add" || name == "Mul"

abbrev pub sort_texts : List String → List String
sort_texts = sorted (λ s. s)

ap2_cons : {x y : String} {xs ys : List String} → x ≡ y → xs ≡ ys → x ∷ xs ≡ y ∷ ys
ap2_cons p q = rw (p, q) refl

module _ (w : Library) where
  -- the number's canonical text, or the name where it is no number
  abbrev pub or_name : Result String → String → String
  or_name (ok text) name = text
  or_name (err e) name = name

  unfoldable pub canonical_call : String → List String → String
  canonical_call name texts =
      name <> "(" <> join "," (if commutes name then sort_texts texts else texts) <> ")"

  unfoldable mutual
    pub canonical_render : Expression w → String
    canonical_render (node name no_args) = or_name (canonical_number w name) name
    canonical_render (node name (sub e args)) = canonical_call name (canonical_args (sub e args))
    canonical_render (node name (Args.number x args)) =
        canonical_call name (canonical_args (Args.number x args))
    canonical_render (node name (Args.word s args)) =
        canonical_call name (canonical_args (Args.word s args))

    pub canonical_args : Args w → List String
    canonical_args no_args = []
    canonical_args (sub e args) = canonical_render e ∷ canonical_args args
    canonical_args (Args.number x args) = w.float_text x ∷ canonical_args args
    canonical_args (Args.word s args) = s ∷ canonical_args args

  -- with the default node limit
  unfoldable pub canonicalize_expression : List String → String → Option (Result String)
  canonicalize_expression features text = elim (parse_expression w features text 25) [
    | none ↦ none
    | some (err e) ↦ some (err e)
    | some (ok e) ↦ some (ok (canonical_render e))
  ]

  -- Expressions that differ by the order of the two operands of sums and products, anywhere, and by
  -- numbers with one canonical text.
  mutual
    pub data Similar : Expression w → Expression w → Type 0 where
      same : {e : Expression w} → Similar e e
      trans : {a b c : Expression w} → Similar a b → Similar b c → Similar a c
      numbers :
          {m n text : String}
          → canonical_number w m ≡ ok text
          → canonical_number w n ≡ ok text
          → Similar (node m no_args) (node n no_args)
      swap :
          {name : String} {a b : Expression w}
          → commutes name ≡ true
          → Similar (node name (sub a (sub b no_args))) (node name (sub b (sub a no_args)))
      inside :
          {name : String} {a b : Expression w} {xs ys : Args w}
          → Similar a b
          → Similars xs ys
          → Similar (node name (sub a xs)) (node name (sub b ys))

    pub data Similars : Args w → Args w → Type 0 where
      same_args : {xs : Args w} → Similars xs xs
      each :
          {a b : Expression w} {xs ys : Args w}
          → Similar a b
          → Similars xs ys
          → Similars (sub a xs) (sub b ys)

  -- The order of two operands does not matter after sorting.
  swapped :
      (name s t : String)
      → commutes name ≡ true
      → canonical_call name (s ∷ t ∷ []) ≡ canonical_call name (t ∷ s ∷ [])
  unfolding canonical_call
  swapped name s t h =
      rw h (ap (λ ts. name <> "(" <> join "," ts <> ")") (sorted-swap (λ x. x) s t (λ e. e)))

  mutual
    unfolding canonical_render

    canonical-Similar : {a b : Expression w} → Similar a b → canonical_render a ≡ canonical_render b
    canonical-Similar same = refl
    canonical-Similar (trans p q) = canonical-Similar p ∙ canonical-Similar q
    canonical-Similar (numbers {m} {n} {text} p q) =
        ap (λ r. or_name r m) p ∙ sym (ap (λ r. or_name r n) q)
    canonical-Similar (swap {name} {a} {b} h) =
        swapped name (canonical_render a) (canonical_render b) h
    canonical-Similar (inside {name} p q) =
        ap (canonical_call name) (ap2_cons (canonical-Similar p) (canonical_args-Similars q))

    canonical_args-Similars :
        {xs ys : Args w} → Similars xs ys → canonical_args xs ≡ canonical_args ys
    canonical_args-Similars same_args = refl
    canonical_args-Similars (each p q) = ap2_cons (canonical-Similar p) (canonical_args-Similars q)

  -- Expressions that differ by the order of the two operands of sums and products, anywhere, and by
  -- numbers with one canonical text have one canonical text.
  pub canonical_same : (a b : Expression w) → Similar a b → canonical_render a ≡ canonical_render b
  canonical_same a b p = canonical-Similar p
