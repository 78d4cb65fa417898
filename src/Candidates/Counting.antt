-- ===== src/Candidates/Counting.antt =====
-- candidate_graph.py: the discovered nodes of a dict of nodes, and how an assignment changes their number.
use Prim.Native.Nat.{ℕ, ◌+◌}
use agentic_alpha_engine.Prelude.{
  ◌≡◌, refl, sym, ap, ◌∙◌, String, String_eq, Bool, true, false, not, [], ◌∷◌, map, arith, All,
  Bool-cases, inl, inr, length, keep, contains, ◌==◌, ==_iff, if◌then◌else◌,
}
use agentic_alpha_engine.Dict.{
  lookup, insert, has_key, values, All-insert, lookup-insert, lookup-insert_self,
}
use agentic_alpha_engine.Candidates.Contracts.{CandidateGraphEntity, is_discovered}
use agentic_alpha_engine.Candidates.Builder.{Nodes, discovered_among}

abbrev pub one_if : Bool → ℕ
one_if true = 1
one_if false = 0

module _ (is_anchor : String → Bool) where
  -- a node is discovered exactly when its id is no anchor's
  abbrev pub Proper : CandidateGraphEntity → Type 0
  Proper n = is_discovered n.kind ≡ not (is_anchor n.entity_id)

  -- the nodes stand under their ids, and are proper
  abbrev pub Fits : Nodes → Type 0
  Fits = All (λ p. (p.1.entity_id ≡ p.0) × Proper p.1)

  unfoldable pub total : Nodes → ℕ
  total [] = 0
  total ((k, n) ∷ d) = one_if (is_discovered n.kind) + total d

  pub length-total : (d : Nodes) → length (discovered_among (values d)) ≡ total d
  unfolding total keep
  length-total [] = refl
  length-total ((k, n) ∷ d) = ground (arith, length-total d)

  same_weight :
      (m n : CandidateGraphEntity)
      → Proper m
      → Proper n
      → m.entity_id ≡ n.entity_id
      → one_if (is_discovered m.kind) ≡ one_if (is_discovered n.kind)
  same_weight m n h k is = ap one_if (h ∙ ap (λ id. not (is_anchor id)) is ∙ sym k)

  module _ (k id : String) (m n : CandidateGraphEntity) (d : Nodes) where
    insert-same : (k == id) ≡ true → insert id n ((k, m) ∷ d) ≡ (k, n) ∷ d
    unfolding insert
    insert-same h = rw h refl

    insert-other : (k == id) ≡ false → insert id n ((k, m) ∷ d) ≡ (k, m) ∷ insert id n d
    unfolding insert
    insert-other h = rw h refl

    has_key-same : (k == id) ≡ true → has_key id ((k, m) ∷ d) ≡ true
    unfolding lookup
    has_key-same h = ground (arith, h)

    has_key-other : (k == id) ≡ false → has_key id ((k, m) ∷ d) ≡ has_key id d
    unfolding lookup
    has_key-other h = ground (arith, h)

  -- what a node adds to the number of discovered ones
  abbrev pub added : CandidateGraphEntity → Nodes → ℕ
  added n d = if has_key n.entity_id d then 0 else one_if (is_discovered n.kind)

  pub total-insert :
      (n : CandidateGraphEntity) (d : Nodes)
      → Proper n
      → Fits d
      → total (insert n.entity_id n d) ≡ total d + added n d
  unfolding total insert lookup
  total-insert n [] p fits = omega arith
  total-insert n ((k, m) ∷ d) p ((is, q), rest) = elim (Bool-cases (k == n.entity_id)) [
    | inl same ↦
        ap total (insert-same k n.entity_id m n d same)
        ∙ omega (
          arith,
          same_weight m n q p (is ∙ (==_iff k n.entity_id).0 same),
          ap (λ b. if b then 0 else one_if (is_discovered n.kind))
              (has_key-same k n.entity_id m n d same),
        )
    | inr other ↦
        ap total (insert-other k n.entity_id m n d other)
        ∙ omega (
          arith,
          total-insert n d p rest,
          ap (λ b. if b then 0 else one_if (is_discovered n.kind))
              (has_key-other k n.entity_id m n d other),
        )
  ]

  pub Fits-insert :
      (n : CandidateGraphEntity) (d : Nodes) → Proper n → Fits d → Fits (insert n.entity_id n d)
  Fits-insert n d p fits =
      All-insert (λ p. (p.1.entity_id ≡ p.0) × Proper p.1) n.entity_id n d (refl, p) fits

  pub has_key-insert :
      (k j : String) (n : CandidateGraphEntity) (d : Nodes)
      → has_key j d ≡ true
      → has_key j (insert k n d) ≡ true
  has_key-insert k j n d h = ground (arith, h, lookup-insert k j n d, ==_iff k j)

  pub has_key-insert_self :
      (k : String) (n : CandidateGraphEntity) (d : Nodes) → has_key k (insert k n d) ≡ true
  has_key-insert_self k n d = ground (arith, lookup-insert_self k n d)

  -- A key that is there is the id of a node.
  pub has_key-node :
      (k : String) (d : Nodes)
      → Fits d
      → has_key k d ≡ true
      → contains (map (λ n. n.entity_id) (values d)) k ≡ true
  unfolding lookup contains
  has_key-node k [] fits h = ground (arith, h)
  has_key-node k ((j, n) ∷ d) ((is, q), rest) h =
      ground (arith, h, ap (λ x. x == k) is, has_key-node k d rest)
