-- ===== src/Dict.antt =====
-- Python's `dict` as the list of its items in insertion order: an assignment to a key that is
-- there keeps its place, and a new key goes to the end.
use agentic_alpha_engine.Prelude.{
  ◌≡◌, refl, sym, ◌≢◌, Bool, true, false, Option, none, some, List, [], ◌∷◌, map, arith, Eq, ◌==◌,
  ==_iff, if◌then◌else◌, ◌⊎◌, inl, inr, All, Bool-cases, subst,
}

abbrev pub Dict : Type 0 → Type 0 → Type 0
Dict K V = List (K × V)

module _ {K V : Type 0} ⦃e : Eq K⦄ where
  -- `d.get(k)`
  unfoldable pub lookup : K → Dict K V → Option V
  lookup k [] = none
  lookup k ((j, v) ∷ d) = if j == k then some v else lookup k d

  -- `d[k] = v`
  unfoldable pub insert : K → V → Dict K V → Dict K V
  insert k v [] = (k, v) ∷ []
  insert k v ((j, w) ∷ d) = if j == k then (j, v) ∷ d else (j, w) ∷ insert k v d

  -- `k in d`
  abbrev pub has_key : K → Dict K V → Bool
  has_key k d = elim (lookup k d) [ none ↦ false | some v ↦ true ]

  abbrev pub keys : Dict K V → List K
  keys = map (λ p. p.0)

  abbrev pub values : Dict K V → List V
  values = map (λ p. p.1)

  pub lookup-insert :
      (k j : K) (v : V) (d : Dict K V)
      → lookup j (insert k v d) ≡ (if k == j then some v else lookup j d)
  unfolding lookup insert
  lookup-insert k j v [] = refl
  lookup-insert k j v ((i, w) ∷ d) =
      ground (arith, ==_iff i k, ==_iff i j, ==_iff k j, lookup-insert k j v d)

  pub lookup-insert_self : (k : K) (v : V) (d : Dict K V) → lookup k (insert k v d) ≡ some v
  lookup-insert_self k v d = ground (arith, lookup-insert k k v d, ==_iff k k)

  pub lookup-insert_ne :
      (k j : K) (v : V) (d : Dict K V) → k ≢ j → lookup j (insert k v d) ≡ lookup j d
  lookup-insert_ne k j v d h = ground (arith, lookup-insert k j v d, ==_iff k j)

  -- What is found after an assignment is the new value, at its key, or was there before.
  pub lookup-insert_cases :
      (k j : K) (v : V) (d : Dict K V) {u : V}
      → lookup j (insert k v d) ≡ some u
      → (k ≡ j) × (v ≡ u) ⊎ (lookup j d ≡ some u)
  lookup-insert_cases k j v d h = ground (arith, lookup-insert k j v d, ==_iff k j)

  -- After an assignment a key that was there has its old value, or is the key assigned.
  pub lookup-insert_kept :
      (k j : K) (v : V) (d : Dict K V) {u : V}
      → lookup j d ≡ some u
      → (k ≡ j) × (lookup j (insert k v d) ≡ some v) ⊎ (lookup j (insert k v d) ≡ some u)
  lookup-insert_kept k j v d h = ground (arith, lookup-insert k j v d, ==_iff k j)

  -- A key that is not there after an assignment was not there before, and is not the key assigned.
  pub lookup-insert_absent :
      (k j : K) (v : V) (d : Dict K V) → lookup j (insert k v d) ≡ none → lookup j d ≡ none
  lookup-insert_absent k j v d h = ground (arith, lookup-insert k j v d, ==_iff k j)

  -- What holds of all values holds of one that is found.
  pub lookup-All :
      (P : V → Type 0) (k : K) (d : Dict K V) {v : V}
      → All (λ p. P p.1) d
      → lookup k d ≡ some v
      → P v
  unfolding lookup
  lookup-All P k [] h e = ground arith
  lookup-All P k ((j, u) ∷ d) {v = v} h e = elim (Bool-cases (j == k)) [
    | inl same ↦ subst P (found same) h.0
    | inr other ↦ lookup-All P k d h.1 (later other)
  ]
    where
      found : (j == k) ≡ true → u ≡ v
      found same = ground arith

      later : (j == k) ≡ false → lookup k d ≡ some v
      later other = ground arith

  -- What holds of all items holds of the one that is found.
  pub lookup-item :
      (P : K × V → Type 0) (k : K) (d : Dict K V) {v : V} → All P d → lookup k d ≡ some v → P (k, v)
  unfolding lookup
  lookup-item P k [] h is = ground arith
  lookup-item P k ((j, u) ∷ d) {v = v} h is = elim (Bool-cases (j == k)) [
    | inl same ↦
        subst (λ x. P (x, v)) ((==_iff j k).0 same) (subst (λ x. P (j, x)) (found same) h.0)
    | inr other ↦ lookup-item P k d h.1 (later other)
  ]
    where
      found : (j == k) ≡ true → u ≡ v
      found same = ground arith

      later : (j == k) ≡ false → lookup k d ≡ some v
      later other = ground arith

  -- What holds of all items and of one that is assigned holds of all items after that.
  pub All-insert :
      (P : K × V → Type 0) (k : K) (v : V) (d : Dict K V)
      → P (k, v)
      → All P d
      → All P (insert k v d)
  unfolding insert
  All-insert P k v [] p h = (p, tt)
  All-insert P k v ((j, u) ∷ d) p h = elim (Bool-cases (j == k)) [
    | inl same ↦ rw (insert, same) (subst (λ x. P (x, v)) (sym ((==_iff j k).0 same)) p, h.1)
    | inr other ↦ rw (insert, other) (h.0, All-insert P k v d p h.1)
  ]

  -- What is found is the first item or among the others.
  pub lookup-cons :
      (k j : K) (u v : V) (d : Dict K V)
      → lookup k ((j, u) ∷ d) ≡ some v
      → (j ≡ k) × (u ≡ v) ⊎ (lookup k d ≡ some v)
  unfolding lookup
  lookup-cons k j u v d h = ground (arith, ==_iff j k, h)
