-- ===== src/Prelude/Lists.antt =====
-- Lists measured by native numbers, and membership of lists used as sets.
use Prim.Native.Nat.{ℕ, suc, ◌+◌}
use Prim.Native.Nat.{◌≤◌}
use mathlib.Core.Path.{◌≡◌, refl, sym, ap, subst, ◌∙◌}
use mathlib.Core.Logic.{inl, inr}
use mathlib.Core.Bool.{Bool, true, false, not, ◌&&◌, ◌||◌}
use mathlib.Core.List.{List, [], ◌∷◌, ◌++◌, Memᴰ}
use mathlib.Core.List.Memᴰ
use native.Mathlib.Omega.{arith}
use agentic_alpha_engine.Prelude.Tests.{Bool-cases, if◌then◌else◌}
use agentic_alpha_engine.Prelude.Keys.{Eq, ◌==◌}

module _ {ℓ} {A : Type ℓ} where
  abbrev pub length : List A → ℕ
  length [] = 0
  length (x ∷ xs) = suc (length xs)

  pub length-append : (xs ys : List A) → length (xs ++ ys) ≡ length xs + length ys
  length-append [] ys = omega arith
  length-append (x ∷ xs) ys = omega (arith, length-append xs ys)

-- A predicate of every item, by recursion.
abbrev pub All {ℓ κ} : {A : Type ℓ} → (A → Type κ) → List A → Type κ
All P [] = Unit
All P (x ∷ xs) = P x × All P xs

pub All-append {ℓ κ} :
    {A : Type ℓ} (P : A → Type κ) (xs ys : List A) → All P xs → All P ys → All P (xs ++ ys)
All-append P [] ys hx hy = hy
All-append P (x ∷ xs) ys hx hy = (hx.0, All-append P xs ys hx.1 hy)

pub All-left {ℓ κ} : {A : Type ℓ} (P : A → Type κ) (xs ys : List A) → All P (xs ++ ys) → All P xs
All-left P [] ys h = tt
All-left P (x ∷ xs) ys h = (h.0, All-left P xs ys h.1)

pub All-right {ℓ κ} : {A : Type ℓ} (P : A → Type κ) (xs ys : List A) → All P (xs ++ ys) → All P ys
All-right P [] ys h = h
All-right P (x ∷ xs) ys h = All-right P xs ys h.1

pub All-map {ℓ κ} :
    {A : Type ℓ} {P Q : A → Type κ} (f : (x : A) → P x → Q x) (xs : List A) → All P xs → All Q xs
All-map f [] h = tt
All-map f (x ∷ xs) h = (f x h.0, All-map f xs h.1)

-- A relation of every item to all that follow it, by recursion.
abbrev pub Pairwise {ℓ κ} : {A : Type ℓ} → (A → A → Type κ) → List A → Type κ
Pairwise R [] = Unit
Pairwise R (x ∷ xs) = All (R x) xs × Pairwise R xs

pub Pairwise-map {ℓ κ} :
    {A : Type ℓ} {R Q : A → A → Type κ} (f : (x y : A) → R x y → Q x y) (xs : List A)
    → Pairwise R xs
    → Pairwise Q xs
Pairwise-map f [] h = tt
Pairwise-map f (x ∷ xs) h = (All-map (f x) xs h.0, Pairwise-map f xs h.1)

pub Pairwise-snoc {ℓ κ} :
    {A : Type ℓ} (R : A → A → Type κ) (xs : List A) (y : A)
    → Pairwise R xs
    → All (λ x. R x y) xs
    → Pairwise R (xs ++ y ∷ [])
Pairwise-snoc R [] y h k = (tt, tt)
Pairwise-snoc R (x ∷ xs) y h k =
    (All-append (R x) xs (y ∷ []) h.0 (k.0, tt), Pairwise-snoc R xs y h.1 k.1)

-- `[x for x in xs if test(x)]`
module _ {A : Type 0} (test : A → Bool) where
  unfoldable pub keep : List A → List A
  keep [] = []
  keep (x ∷ xs) = let rest = keep xs in if test x then x ∷ rest else rest

  pub keep-true : (x : A) (xs : List A) → test x ≡ true → keep (x ∷ xs) ≡ x ∷ keep xs
  unfolding keep
  keep-true x xs h = rw h refl

  pub keep-false : (x : A) (xs : List A) → test x ≡ false → keep (x ∷ xs) ≡ keep xs
  unfolding keep
  keep-false x xs h = rw h refl

  pub length-keep : (xs : List A) → length (keep xs) ≤ length xs
  unfolding keep
  length-keep [] = omega arith
  length-keep (x ∷ xs) = ground (arith, length-keep xs)

  pub keep-mem : {a : A} (xs : List A) → test a ≡ true → Memᴰ a xs → Memᴰ a (keep xs)
  keep-mem [] h m = elim m [ ]
  keep-mem {a} (x ∷ xs) h m = elim (Bool-cases (test x)) [
    | inl kept ↦ subst (Memᴰ a) (sym (keep-true x xs kept)) (elim (Memᴰ.cases_cons m) [
      | inl is ↦ Memᴰ.head is
      | inr later ↦ Memᴰ.tail (keep-mem xs h later)
    ])
    | inr dropped ↦ subst (Memᴰ a) (sym (keep-false x xs dropped)) (elim (Memᴰ.cases_cons m) [
      | inl is ↦ absurd (ground (arith, h, dropped, ap test is))
      | inr later ↦ keep-mem xs h later
    ])
  ]

  pub mem-keep : {a : A} (xs : List A) → Memᴰ a (keep xs) → (test a ≡ true) × Memᴰ a xs
  unfolding keep
  mem-keep [] m = elim m [ ]
  mem-keep {a} (x ∷ xs) m = elim (Bool-cases (test x)) [
    | inl kept ↦ elim (Memᴰ.cases_cons (subst (Memᴰ a) (keep-true x xs kept) m)) [
      | inl is ↦ (ap test is ∙ kept, Memᴰ.head is)
      | inr later ↦ let (h, n) = mem-keep xs later in (h, Memᴰ.tail n)
    ]
    | inr dropped ↦
        let (h, n) = mem-keep xs (subst (Memᴰ a) (keep-false x xs dropped) m) in (h, Memᴰ.tail n)
  ]

  -- What is kept passed the test, and what holds of every item holds of what is kept.
  pub All-keep {κ} : (P : A → Type κ) (xs : List A) → All P xs → All P (keep xs)
  unfolding keep
  All-keep P [] h = tt
  All-keep P (x ∷ xs) h = elim (Bool-cases (test x)) [
    | inl kept ↦ rw (keep, kept) (h.0, All-keep P xs h.1)
    | inr dropped ↦ rw (keep, dropped) (All-keep P xs h.1)
  ]

-- What holds of every item holds of one that is in the list.
pub All-mem {ℓ κ} : {A : Type ℓ} (P : A → Type κ) {a : A} (xs : List A) → All P xs → Memᴰ a xs → P a
All-mem P [] h m = elim m [ ]
All-mem P (x ∷ xs) h m = elim (Memᴰ.cases_cons m) [
  | inl is ↦ subst P (sym is) h.0
  | inr later ↦ All-mem P xs h.1 later
]

pub mem-All {ℓ κ} :
    {A : Type ℓ} (P : A → Type κ) (xs : List A) → ((a : A) → Memᴰ a xs → P a) → All P xs
mem-All P [] f = tt
mem-All P (x ∷ xs) f = (f x (Memᴰ.head refl), mem-All P xs (λ a m. f a (Memᴰ.tail m)))

module _ {A : Type 0} ⦃e : Eq A⦄ where
  -- `a in xs`
  unfoldable pub contains : List A → A → Bool
  contains [] a = false
  contains (x ∷ xs) a = x == a || contains xs a

  pub contains-cons : (x a : A) (xs : List A) → contains (x ∷ xs) a ≡ (x == a || contains xs a)
  unfolding contains
  contains-cons x a xs = refl

  pub contains-append :
      (xs ys : List A) (a : A) → contains (xs ++ ys) a ≡ (contains xs a || contains ys a)
  unfolding contains
  contains-append [] ys a = refl
  contains-append (x ∷ xs) ys a = ground (arith, contains-append xs ys a)

  -- `len(xs) == len(set(xs))`
  unfoldable pub is_unique : List A → Bool
  is_unique [] = true
  is_unique (x ∷ xs) = not (contains xs x) && is_unique xs
