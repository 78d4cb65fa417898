-- ===== src/Alpha/Sound.antt =====
-- alpha/dsl.py: the parser never runs out of fuel, and what it returns is a formula whose tokens are
-- those that it read.
use Prim.Native.Nat.{ℕ, zero}
use mathlib.Core.List.{append-nil, append_assoc}
use agentic_alpha_engine.Prelude.{
  ◌≡◌, refl, sym, subst, ap, ◌∙◌, ◌≤◌, ◌<◌, ◌+◌, ◌*◌, suc, String, true, false, ◌&&◌, inl, inr,
  some, List, [], ◌∷◌, ◌++◌, length, String_eq, ◌==◌, ==_iff, leb, leb→le, and_left, and_right,
  Bool-cases, Option-cases, arith,
}
use agentic_alpha_engine.Dict.{lookup, lookup-All}
use agentic_alpha_engine.Effects.{Error}
use agentic_alpha_engine.Alpha.Expression.{Library, Expression, Args, node, no_args, sub}
use agentic_alpha_engine.Alpha.Parser.{
  Tokens, Parse, parsed, refused, bind, functions, starts, rest_of, args_length, is_leaf, close,
  expr, arguments, some_arguments, more_arguments,
}
use agentic_alpha_engine.Alpha.Tokens.{
  emit, emit_args, emit_rest, length-emit_pos, is_sub, IsFormula, IsFormulas, lengths,
}

-- Within its fuel, and `P` holds of the value and the tokens left where there are any.
pub data Ensures {A : Type 0} (P : A → Tokens → Type 0) : Parse A → Type 0 where
  holds : {a : A} {ts : Tokens} → P a ts → Ensures P (parsed a ts)
  rejects : {e : Error} → Ensures P (refused e)

pub Ensures-bind :
    {A B : Type 0} {P : A → Tokens → Type 0} {Q : B → Tokens → Type 0} {r : Parse A}
    {f : A → Tokens → Parse B}
    → Ensures P r
    → ((a : A) (ts : Tokens) → P a ts → Ensures Q (f a ts))
    → Ensures Q (bind r f)
Ensures-bind (holds {a} {ts} h) k = k a ts h
Ensures-bind rejects k = rejects

starts-eq : (t : String) (ts : Tokens) → starts t ts ≡ true → ts ≡ t ∷ rest_of ts
unfolding starts
starts-eq t [] h = ground arith
starts-eq t (x ∷ ts) h = ap (λ y. y ∷ ts) ((==_iff x t).0 h)

-- Every function takes an argument.
functions_pos : (name : String) (arity : ℕ × ℕ) → lookup name functions ≡ some arity → 1 ≤ arity.0
unfolding functions
functions_pos name arity h = lookup-All (λ a. 1 ≤ a.0) name functions (ground arith) h

module _ (w : Library) (features : List String) where
  abbrev pub Reads : Tokens → Expression w → Tokens → Type 0
  Reads ts e rest = (ts ≡ emit w e ++ rest) × IsFormula w features e

  abbrev ReadsArgs : Tokens → Args w → Tokens → Type 0
  ReadsArgs ts args rest = (ts ≡ emit_args w args ++ rest) × IsFormulas w features args

  abbrev ReadsSome : Tokens → Args w → Tokens → Type 0
  ReadsSome ts args rest = ReadsArgs ts args rest × (is_sub w args ≡ true)

  emit_rest-sub : (args : Args w) → is_sub w args ≡ true → emit_rest w args ≡ "," ∷ emit_args w args
  unfolding emit
  emit_rest-sub (sub e args) h = refl
  emit_rest-sub no_args h = ground arith
  emit_rest-sub (Args.number x args) h = ground arith
  emit_rest-sub (Args.word s args) h = ground arith

  close-Ensures :
      (token : String) (arity : ℕ × ℕ) (ts0 : Tokens) (args : Args w) (ts : Tokens)
      → is_leaf w features token ≡ false
      → lookup token functions ≡ some arity
      → ReadsArgs ts0 args ts
      → Ensures (Reads (token ∷ "(" ∷ ts0)) (close w features token arity args ts)
  unfolding close emit args_length IsFormula
  close-Ensures token arity ts0 args ts leaf found read = elim (Bool-cases (starts ")" ts)) [
    | inr e ↦ rw e rejects
    | inl e ↦ elim (Bool-cases (leb arity.0 (args_length args) && leb (args_length args) arity.1)) [
      | inr b ↦ rw (e, b) rejects
      | inl b ↦
          rw (e, b)
            (holds (
              closed args read (starts-eq ")" ts e) (leb→le _ _ (and_left _ _ b))
                (leb→le _ _ (and_right _ _ b))))
    ]
  ]
    where
      too_few : arity.0 ≤ 0 → ⊥
      too_few low = omega (arith, functions_pos token arity found)

      closed :
          (args : Args w)
          → ReadsArgs ts0 args ts
          → ts ≡ ")" ∷ rest_of ts
          → arity.0 ≤ args_length args
          → args_length args ≤ arity.1
          → Reads (token ∷ "(" ∷ ts0) (node token args) (rest_of ts)
      closed no_args h p low high = absurd (too_few low)
      closed (sub e args) h p low high = (
        ap (λ xs. token ∷ "(" ∷ xs)
            (h.0
              ∙ ap (λ xs. emit_args w (sub e args) ++ xs) p
              ∙ sym (append_assoc (emit_args w (sub e args)) (")" ∷ []) (rest_of ts))),
        (leaf, (arity, found, low, high), h.1.0, h.1.1),
      )
      closed (Args.number x args) h p low high = absurd h.1
      closed (Args.word s args) h p low high = absurd h.1

  weaken : {ts : Tokens} {r : Parse (Args w)} → Ensures (ReadsSome ts) r → Ensures (ReadsArgs ts) r
  weaken (holds h) = holds h.0
  weaken rejects = rejects

  -- One induction on the fuel, for an expression and for the arguments of a call.
  mutual
    unfolding expr emit IsFormula

    pub expr-Ensures :
        (f : ℕ) (ts : Tokens) → 3 * length ts < f → Ensures (Reads ts) (expr w features f ts)
    expr-Ensures zero ts h = absurd (omega arith)
    expr-Ensures (suc f) [] h = rejects
    expr-Ensures (suc f) (token ∷ ts) h = elim (Bool-cases (is_leaf w features token)) [
      | inl leaf ↦ rw (expr, leaf) (holds (refl, leaf))
      | inr leaf ↦ elim (Option-cases (lookup token functions)) [
        | inl n ↦ rw (expr, leaf, n) rejects
        | inr (arity, found) ↦ elim (Bool-cases (starts "(" ts)) [
          | inr e ↦ rw (expr, leaf, found, e) rejects
          | inl e ↦
              let p = starts-eq "(" ts e in
              rw (expr, leaf, found, e)
                (Ensures-bind (arguments-Ensures f (rest_of ts) (omega (lengths, ap length p)))
                  λ args ts' read.
                    subst
                      (λ xs. Ensures (Reads (token ∷ xs)) (close w features token arity args ts'))
                      (sym p) (close-Ensures token arity (rest_of ts) args ts' leaf found read))
        ]
      ]
    ]

    arguments-Ensures :
        (f : ℕ) (ts : Tokens)
        → 3 * length ts + 2 < f
        → Ensures (ReadsArgs ts) (arguments w features f ts)
    arguments-Ensures zero ts h = absurd (omega arith)
    arguments-Ensures (suc f) [] h = holds (refl, tt)
    arguments-Ensures (suc f) (t ∷ ts) h = elim (Bool-cases (t == ")")) [
      | inl e ↦ rw (arguments, e) (holds (refl, tt))
      | inr e ↦ rw (arguments, e) (weaken (some_arguments-Ensures f (t ∷ ts) (omega lengths)))
    ]

    some_arguments-Ensures :
        (f : ℕ) (ts : Tokens)
        → 3 * length ts + 1 < f
        → Ensures (ReadsSome ts) (some_arguments w features f ts)
    some_arguments-Ensures zero ts h = absurd (omega arith)
    some_arguments-Ensures (suc f) ts h =
        Ensures-bind (expr-Ensures f ts (omega arith)) λ arg ts' read.
          subst (λ xs. Ensures (ReadsSome xs) (more_arguments w features f arg ts')) (sym read.0)
            (more_arguments-Ensures f arg ts' read.1
              (omega (lengths, ap length read.0, length-emit_pos w arg)))

    more_arguments-Ensures :
        (f : ℕ) (arg : Expression w) (ts : Tokens)
        → IsFormula w features arg
        → 3 * length ts < f
        → Ensures (ReadsSome (emit w arg ++ ts)) (more_arguments w features f arg ts)
    more_arguments-Ensures zero arg ts formula h = absurd (omega arith)
    more_arguments-Ensures (suc f) arg ts formula h = elim (Bool-cases (starts "," ts)) [
      | inr e ↦
          rw (more_arguments, e)
            (holds ((ap (λ xs. xs ++ ts) (sym (append-nil (emit w arg))), (formula, tt)), refl))
      | inl e ↦
          let p = starts-eq "," ts e in
          rw (more_arguments, e)
            (Ensures-bind (some_arguments-Ensures f (rest_of ts) (omega (lengths, ap length p)))
              λ args ts' read. holds (
                (
                  ap (λ xs. emit w arg ++ xs)
                        (p
                          ∙ ap (λ xs. "," ∷ xs) read.0.0
                          ∙ ap (λ xs. xs ++ ts') (sym (emit_rest-sub args read.1)))
                      ∙ sym (append_assoc (emit w arg) (emit_rest w args) ts'),
                  (formula, read.0.1),
                ),
                refl,
              ))
    ]
