-- ===== src/Jobs/Queue.antt =====
-- jobs/dispatch.py: `InMemoryQueue`, with the names of the Redis commands. It holds one queue and its
-- processing list whatever key it is given, so the keys are no arguments here.
use agentic_alpha_engine.Prelude.{
  ℕ, String, ◌≡◌, refl, Option, none, some, List, [], ◌∷◌, ◌++◌, arith, String_eq, ◌==◌, contains,
  length, if◌then◌else◌, Option-cases, inl, inr,
}

pub record Queue : Type 0 where
  pub items : List String
  pub processing : List String
  pub enqueue_markers : List String

abbrev pub empty : Queue
empty = record { items = []; processing = []; enqueue_markers = [] }

-- `xs.pop()`: the rest and the last item
unfoldable pub pop {ℓ} : {A : Type ℓ} → List A → Option (List A × A)
pop [] = none
pop (x ∷ xs) = elim (pop xs) [ none ↦ some ([], x) | some (rest, last) ↦ some (x ∷ rest, last) ]

-- `xs.remove(x)`, with `none` for its ValueError
unfoldable pub remove : String → List String → Option (List String)
remove x [] = none
remove x (y ∷ ys) =
    let rest = remove x ys in
    if y == x then some ys else elim rest [ none ↦ none | some r ↦ some (y ∷ r) ]

unfoldable pub rpush : String → Queue → ℕ × Queue
rpush value q = let items = q.items ++ value ∷ [] in (length items, record q { items = items })

unfoldable pub lpush : String → Queue → ℕ × Queue
lpush value q = let items = value ∷ q.items in (length items, record q { items = items })

unfoldable pub blpop : Queue → Option String × Queue
blpop q = elim q.items [ [] ↦ (none, q) | x ∷ xs ↦ (some x, record q { items = xs }) ]

unfoldable pub brpoplpush : Queue → Option String × Queue
unfolding pop
brpoplpush q = elim (pop q.items) [
  | none ↦ (none, q)
  | some (rest, value) ↦ (some value, record q { items = rest; processing = value ∷ q.processing })
]

unfoldable pub rpoplpush : Queue → Option String × Queue
unfolding pop
rpoplpush q = elim (pop q.processing) [
  | none ↦ (none, q)
  | some (rest, value) ↦ (some value, record q { processing = rest; items = value ∷ q.items })
]

unfoldable pub lrem : String → Queue → ℕ × Queue
unfolding remove
lrem value q = elim (remove value q.processing) [
  | none ↦ (0, q)
  | some rest ↦ (1, record q { processing = rest })
]

-- `eval` of the script that sets the marker and pushes the value if the marker was not set
unfoldable pub eval : String → String → Queue → ℕ × Queue
eval marker value q =
    if contains q.enqueue_markers marker
    then (0, q)
    else (1, record q { enqueue_markers = marker ∷ q.enqueue_markers; items = value ∷ q.items })

pub pop-append {ℓ} : {A : Type ℓ} (xs : List A) (x : A) → pop (xs ++ x ∷ []) ≡ some (xs, x)
unfolding pop
pop-append [] x = refl
pop-append (y ∷ xs) x = rw (pop-append xs x)

pub pop-eq-none {ℓ} : {A : Type ℓ} (xs : List A) → pop xs ≡ none → xs ≡ []
unfolding pop
pop-eq-none [] h = refl
pop-eq-none (x ∷ xs) h = ground arith

pub pop-eq-some {ℓ} :
    {A : Type ℓ} (xs rest : List A) (x : A) → pop xs ≡ some (rest, x) → xs ≡ rest ++ x ∷ []
unfolding pop
pop-eq-some [] rest x h = ground arith
pop-eq-some (y ∷ xs) rest x h = elim (Option-cases (pop xs)) [
  | inl e ↦ ground (arith, pop-eq-none xs e)
  | inr ((r, z), e) ↦ ground (arith, pop-eq-some xs r z e)
]
