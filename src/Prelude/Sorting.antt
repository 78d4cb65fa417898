-- ===== src/Prelude/Sorting.antt =====
-- Python's `sorted(items, key=key)`: the stable rearrangement of the items by ascending key.
use Prim.Native.Nat.{suc}
use mathlib.Core.Path.{◌≡◌, refl, sym, ap, subst, ◌∙◌}
use mathlib.Core.Bool.{Bool, true, false}
use mathlib.Core.List.{List, [], ◌∷◌, Perm, Memᴰ}
use mathlib.Core.List.Memᴰ
use mathlib.Core.List.Perm
use native.Mathlib.Omega.{arith}
use agentic_alpha_engine.Prelude.Tests.{if◌then◌else◌, Bool-cases}
use agentic_alpha_engine.Prelude.Lists.{length, All, All-map}
use agentic_alpha_engine.Prelude.Order.{Ord}
use mathlib.Core.Logic.{◌⊎◌, inl, inr}

module _ {A K : Type 0} ⦃o : Ord K⦄ (key : A → K) where
  abbrev before : A → A → Bool
  before x y = o.le (key x) (key y)

  unfoldable pub place : A → List A → List A
  place x [] = x ∷ []
  place x (y ∷ ys) = if before x y then x ∷ y ∷ ys else y ∷ place x ys

  unfoldable pub sorted : List A → List A
  unfolding place
  sorted [] = []
  sorted (x ∷ xs) = place x (sorted xs)

  -- every item comes before all that follow
  abbrev pub IsSorted : List A → Type 0
  IsSorted [] = Unit
  IsSorted (x ∷ xs) = All (λ y. before x y ≡ true) xs × IsSorted xs

  All-place : (P : A → Type 0) (x : A) (xs : List A) → P x → All P xs → All P (place x xs)
  unfolding place
  All-place P x [] px h = (px, tt)
  All-place P x (y ∷ ys) px h = elim (Bool-cases (before x y)) [
    | inl e ↦ rw e (px, h)
    | inr e ↦ rw e (h.0, All-place P x ys px h.1)
  ]

  place-IsSorted : (x : A) (xs : List A) → IsSorted xs → IsSorted (place x xs)
  unfolding place
  place-IsSorted x [] h = (tt, tt)
  place-IsSorted x (y ∷ ys) h = elim (Bool-cases (before x y)) [
    | inl e ↦ rw e ((e, All-map (λ z. o.le_trans (key x) (key y) (key z) e) ys h.0), h)
    | inr e ↦ rw e (
      All-place (λ z. before y z ≡ true) x ys (ground (arith, o.le_total (key x) (key y))) h.0,
      place-IsSorted x ys h.1,
    )
  ]

  pub sorted-IsSorted : (xs : List A) → IsSorted (sorted xs)
  unfolding sorted
  sorted-IsSorted [] = tt
  sorted-IsSorted (x ∷ xs) = place-IsSorted x (sorted xs) (sorted-IsSorted xs)

  place-perm : (x : A) (xs : List A) → Perm (place x xs) (x ∷ xs)
  unfolding place
  place-perm x [] = Perm.refl (x ∷ [])
  place-perm x (y ∷ ys) = elim (Bool-cases (before x y)) [
    | inl e ↦ rw e (Perm.refl (x ∷ y ∷ ys))
    | inr e ↦ rw e (Perm.trans (Perm.cons y (place-perm x ys)) (Perm.swap x y ys))
  ]

  pub sorted-perm : (xs : List A) → Perm (sorted xs) xs
  unfolding sorted
  sorted-perm [] = Perm.refl []
  sorted-perm (x ∷ xs) = Perm.trans (place-perm x (sorted xs)) (Perm.cons x (sorted-perm xs))

  place-first : (x y : A) (ys : List A) → before x y ≡ true → place x (y ∷ ys) ≡ x ∷ y ∷ ys
  unfolding place
  place-first x y ys e = rw e refl

  place-later : (x y : A) (ys : List A) → before x y ≡ false → place x (y ∷ ys) ≡ y ∷ place x ys
  unfolding place
  place-later x y ys e = rw e refl

  All-place_back : (P : A → Type 0) (x : A) (xs : List A) → All P (place x xs) → P x × All P xs
  unfolding place
  All-place_back P x [] h = h
  All-place_back P x (y ∷ ys) h = elim (Bool-cases (before x y)) [
    | inl e ↦ subst (All P) (place-first x y ys e) h
    | inr e ↦
        let rest = subst (All P) (place-later x y ys e) h in
        let found = All-place_back P x ys rest.1 in (found.0, (rest.0, found.1))
  ]

  -- A predicate of the sorted items is one of the items.
  pub All-sorted : (P : A → Type 0) (xs : List A) → All P xs → All P (sorted xs)
  unfolding sorted
  All-sorted P [] h = tt
  All-sorted P (x ∷ xs) h = All-place P x (sorted xs) h.0 (All-sorted P xs h.1)

  pub All-sorted_back : (P : A → Type 0) (xs : List A) → All P (sorted xs) → All P xs
  unfolding sorted
  All-sorted_back P [] h = tt
  All-sorted_back P (x ∷ xs) h =
      let (first, rest) = All-place_back P x (sorted xs) h in (first, All-sorted_back P xs rest)

  mem-place : {a : A} (x : A) (xs : List A) → (a ≡ x) ⊎ Memᴰ a xs → Memᴰ a (place x xs)
  unfolding place
  mem-place x [] (inl is) = Memᴰ.head is
  mem-place x [] (inr m) = elim m [ ]
  mem-place {a} x (y ∷ ys) m = elim (Bool-cases (before x y)) [
    | inl e ↦
        subst (Memᴰ a) (sym (place-first x y ys e))
          (elim m [ inl is ↦ Memᴰ.head is | inr n ↦ Memᴰ.tail n ])
    | inr e ↦ subst (Memᴰ a) (sym (place-later x y ys e)) (elim m [
      | inl is ↦ Memᴰ.tail (mem-place x ys (inl is))
      | inr n ↦ elim (Memᴰ.cases_cons n) [
        | inl is ↦ Memᴰ.head is
        | inr later ↦ Memᴰ.tail (mem-place x ys (inr later))
      ]
    ])
  ]

  -- The items are among the sorted ones.
  pub mem-sorted : {a : A} (xs : List A) → Memᴰ a xs → Memᴰ a (sorted xs)
  unfolding sorted
  mem-sorted [] m = elim m [ ]
  mem-sorted (x ∷ xs) m =
      mem-place x (sorted xs)
        (elim (Memᴰ.cases_cons m) [ inl is ↦ inl is | inr later ↦ inr (mem-sorted xs later) ])

  length-place : (x : A) (xs : List A) → length (place x xs) ≡ suc (length xs)
  unfolding place
  length-place x [] = refl
  length-place x (y ∷ ys) = elim (Bool-cases (before x y)) [
    | inl e ↦ ap length (place-first x y ys e)
    | inr e ↦ ap length (place-later x y ys e) ∙ ap suc (length-place x ys)
  ]

  pub length-sorted : (xs : List A) → length (sorted xs) ≡ length xs
  unfolding sorted
  length-sorted [] = refl
  length-sorted (x ∷ xs) = length-place x (sorted xs) ∙ ap suc (length-sorted xs)

  -- Two items with distinct keys are sorted into one order.
  pub sorted-swap : (x y : A) → (key x ≡ key y → x ≡ y) → sorted (x ∷ y ∷ []) ≡ sorted (y ∷ x ∷ [])
  unfolding sorted place
  sorted-swap x y one =
      ground (arith, o.le_total (key x) (key y), o.le_antisymm (key x) (key y), one)
