-- ===== src/Graph/Apart.antt =====
-- temporal_graph/contracts.py: in a valid snapshot no two edge states of one pair are ever seen together.
use agentic_alpha_engine.Prelude.{
  ◌≡◌, ◌≢◌, sym, subst, ap, ◌∙◌, String, true, false, not, ◌||◌, inl, inr, some, List, [], ◌∷◌,
  ◌++◌, All, All-map, All-left, All-right, Pairwise, Pairwise-map, String_eq, ×_eq, ◌==◌, ==_iff,
  contains, Bool-cases, Option-cases, arith,
}
use mathlib.Core.Option.{some-injective}
use agentic_alpha_engine.Dict.{lookup, insert, lookup-insert_self, lookup-insert_ne}
use agentic_alpha_engine.Effects.{ok, result_cases}
use agentic_alpha_engine.Graph.Contracts.{
  DateTime, Library, GraphRelationship, GraphEdgeState, TemporalGraphSnapshot, is_visible,
  filter_visible,
}
use agentic_alpha_engine.Graph.Visibility.{shown_together}
use agentic_alpha_engine.Graph.Validation.{
  Pair, pair_of, SeenPairs, or_empty, seen_at, clashes, any_clash, Relations, check_pair,
  check_edge, check_edges, relations_of, node_ids, validate_edges, validate_graph,
}

module _ (w : Library) (relations : Relations w) where
  abbrev Edge : Type 0
  Edge = GraphEdgeState w

  -- the pair of an edge whose relationship is registered
  abbrev pub HasPair : Edge → Pair → Type 0
  HasPair edge p =
      (r : GraphRelationship w) × (lookup edge.relationship_id relations ≡ some r)
      × (pair_of w r edge ≡ p)

  abbrev NoClash : SeenPairs w → Edge → Type 0
  NoClash seen edge =
      (p : Pair) → HasPair edge p → All (λ prior. clashes w prior edge ≡ false) (seen_at w p seen)

  abbrev pub ApartFrom : Edge → Edge → Type 0
  ApartFrom e f = (p : Pair) → HasPair e p → HasPair f p → clashes w e f ≡ false

  any_clash-All :
      (priors : List Edge) (edge : Edge)
      → any_clash w priors edge ≡ false
      → All (λ prior. clashes w prior edge ≡ false) priors
  unfolding any_clash
  any_clash-All [] edge h = tt
  any_clash-All (prior ∷ priors) edge h = (ground arith, any_clash-All priors edge (ground arith))

  -- What the loop has done by recording `edge` in `after`: it clashed with none of its pair, and it
  -- follows them there.
  record Records (seen after : SeenPairs w) (edge : Edge) : Type 1 where
    fresh : NoClash seen edge
    kept : (P : Edge → Type 0) (p : Pair) → All P (seen_at w p after) → All P (seen_at w p seen)
    there : (P : Edge → Type 0) (p : Pair) → HasPair edge p → All P (seen_at w p after) → P edge

  -- what stands under a pair after an item was added under another or the same
  module _ (q : Pair) (edge : Edge) (seen : SeenPairs w) where
    abbrev added : SeenPairs w
    added = insert q (seen_at w q seen ++ edge ∷ []) seen

    at_self :
        (P : Edge → Type 0) → All P (seen_at w q added) → All P (seen_at w q seen ++ edge ∷ [])
    at_self P =
        subst (λ o. All P (or_empty w o))
          (lookup-insert_self q (seen_at w q seen ++ edge ∷ []) seen)

    added-kept :
        (P : Edge → Type 0) (p : Pair) → All P (seen_at w p added) → All P (seen_at w p seen)
    added-kept P p all = elim (Bool-cases (q == p)) [
      | inl same ↦
          let is = (==_iff q p).0 same in
          subst (λ x. All P (seen_at w x seen)) is
            (All-left P (seen_at w q seen) (edge ∷ [])
              (at_self P (subst (λ x. All P (seen_at w x added)) (sym is) all)))
      | inr other ↦
          subst (λ o. All P (or_empty w o))
            (lookup-insert_ne q p (seen_at w q seen ++ edge ∷ []) seen (differs p other)) all
    ]
      where
        differs : (p : Pair) → (q == p) ≡ false → q ≢ p
        differs p other is = ground (arith, ==_iff q p, other)

    added-there : (P : Edge → Type 0) → All P (seen_at w q added) → P edge
    added-there P all = (All-right P (seen_at w q seen) (edge ∷ []) (at_self P all)).0

  check_pair-ok :
      (q : Pair) (seen after : SeenPairs w) (edge : Edge)
      → check_pair w q seen edge ≡ ok after
      → (any_clash w (seen_at w q seen) edge ≡ false) × (added q edge seen ≡ after)
  unfolding check_pair
  check_pair-ok q seen after edge h = elim (Bool-cases (any_clash w (seen_at w q seen) edge)) [
    | inl clash ↦ absurd (ground (arith, h, clash))
    | inr clear ↦ (clear, ground (arith, h, clear))
  ]

  check_pair-Records :
      (r : GraphRelationship w) (seen after : SeenPairs w) (edge : Edge)
      → lookup edge.relationship_id relations ≡ some r
      → check_pair w (pair_of w r edge) seen edge ≡ ok after
      → Records seen after edge
  check_pair-Records r seen after edge found h =
      let (clear, is) = check_pair-ok (pair_of w r edge) seen after edge h in
      record {
        fresh = λ p has.
            subst (λ x. All (λ prior. clashes w prior edge ≡ false) (seen_at w x seen)) (same p has)
              (any_clash-All (seen_at w (pair_of w r edge) seen) edge clear);
        kept = λ P p all.
            added-kept (pair_of w r edge) edge seen P p
              (subst (λ d. All P (seen_at w p d)) (sym is) all);
        there = λ P p has all. added-there (pair_of w r edge) edge seen P (
            subst (λ d. All P (seen_at w (pair_of w r edge) d)) (sym is)
              (subst (λ x. All P (seen_at w x after)) (sym (same p has)) all));
      }
    where
      same : (p : Pair) → HasPair edge p → pair_of w r edge ≡ p
      same p (r', found', is) =
          ap (λ x. pair_of w x edge) (some-injective _ _ (sym found ∙ found')) ∙ is

  check_edge-Records :
      (nodes : List String) (seen after : SeenPairs w) (edge : Edge)
      → check_edge w nodes relations seen edge ≡ ok after
      → Records seen after edge
  unfolding check_edge
  check_edge-Records nodes seen after edge h =
      elim (Bool-cases
        (not (contains nodes edge.source_node_id) || not (contains nodes edge.target_node_id))) [
          | inl out ↦ absurd (ground (arith, h, out))
          | inr inside ↦ elim (Option-cases (lookup edge.relationship_id relations)) [
            | inl missing ↦ absurd (ground (arith, h, inside, missing))
            | inr (r, found) ↦
                check_pair-Records r seen after edge found (ground (arith, h, inside, found))
          ]
        ]

  -- The edges that the loop has passed clash with none recorded under their pair before it, nor with
  -- one another.
  check_edges-Apart :
      (nodes : List String) (edges : List Edge) (seen after : SeenPairs w)
      → check_edges w nodes relations edges seen ≡ ok after
      → All (NoClash seen) edges × Pairwise ApartFrom edges
  unfolding check_edges
  check_edges-Apart nodes [] seen after h = (tt, tt)
  check_edges-Apart nodes (edge ∷ edges) seen after h =
      elim (result_cases (check_edge w nodes relations seen edge)) [
        | inl (next, is) ↦
            let step = check_edge-Records nodes seen next edge is in
            let (clear, apart) = check_edges-Apart nodes edges next after (ground (arith, h, is)) in
            (
              (step.fresh, All-map (λ e free p has. step.kept _ p (free p has)) edges clear),
              (
                All-map (λ e free p first has. step.there _ p first (free p has)) edges clear,
                apart,
              ),
            )
        | inr (e, failed) ↦ absurd (ground (arith, h, failed))
      ]

module _ (w : Library) (effective known : DateTime) where
  -- All that the filter shows are visible, and have what all edges have.
  filter_visible-Kept :
      (P : GraphEdgeState w → Type 0) (edges : List (GraphEdgeState w))
      → All P edges
      → All
          (λ e. P e × (is_visible w effective known e ≡ true))
          (filter_visible w effective known edges)
  unfolding filter_visible
  filter_visible-Kept P [] h = tt
  filter_visible-Kept P (e ∷ edges) h = elim (Bool-cases (is_visible w effective known e)) [
    | inl shown ↦ rw (filter_visible, shown) ((h.0, shown), filter_visible-Kept P edges h.1)
    | inr hidden ↦ rw (filter_visible, hidden) (filter_visible-Kept P edges h.1)
  ]

  filter_visible-Pairwise :
      (R : GraphEdgeState w → GraphEdgeState w → Type 0) (edges : List (GraphEdgeState w))
      → Pairwise R edges
      → Pairwise
          (λ e f.
            (is_visible w effective known e ≡ true)
            × (is_visible w effective known f ≡ true)
            × R e f)
          (filter_visible w effective known edges)
  unfolding filter_visible
  filter_visible-Pairwise R [] h = tt
  filter_visible-Pairwise R (e ∷ edges) h = elim (Bool-cases (is_visible w effective known e)) [
    | inl shown ↦
        rw (filter_visible, shown)
          (
            All-map (λ f both. (shown, both.1, both.0)) (filter_visible w effective known edges)
                (filter_visible-Kept (R e) edges h.0),
            filter_visible-Pairwise R edges h.1,
          )
    | inr hidden ↦ rw (filter_visible, hidden) (filter_visible-Pairwise R edges h.1)
  ]

validate_edges-loop :
    (w : Library) (snapshot valid : TemporalGraphSnapshot w)
    → validate_edges w snapshot ≡ ok valid
    → (snapshot ≡ valid)
      × (seen : SeenPairs w) × (check_edges w
            (node_ids w snapshot)
            (relations_of w snapshot)
            snapshot.edge_states
            []
          ≡ ok seen)
unfolding validate_edges
validate_edges-loop w snapshot valid h =
    elim (result_cases
      (check_edges w (node_ids w snapshot) (relations_of w snapshot) snapshot.edge_states [])) [
        | inl (seen, is) ↦ (ground (arith, h, is), seen, is)
        | inr (e, failed) ↦ absurd (ground (arith, h, failed))
      ]

validate_graph-edges :
    (w : Library) (snapshot valid : TemporalGraphSnapshot w)
    → validate_graph w snapshot ≡ ok valid
    → (snapshot ≡ valid)
      × (seen : SeenPairs w) × (check_edges w
            (node_ids w snapshot)
            (relations_of w snapshot)
            snapshot.edge_states
            []
          ≡ ok seen)
unfolding validate_graph
validate_graph-edges w snapshot valid h = validate_edges-loop w snapshot valid (ground arith)

-- When `validate_graph` accepts a snapshot it returns that snapshot, and of the edge states visible at
-- any two clocks no two have registered relationships and one pair of endpoints under them (in
-- either order, where the relationship is symmetric).
pub validate_graph-Apart :
    (w : Library) (effective known : DateTime) (snapshot valid : TemporalGraphSnapshot w)
    → validate_graph w snapshot ≡ ok valid
    → (snapshot ≡ valid)
      × Pairwise
          (λ e f.
            (p : Pair)
            → HasPair w (relations_of w snapshot) e p
            → HasPair w (relations_of w snapshot) f p
            → ⊥)
          (filter_visible w effective known snapshot.edge_states)
validate_graph-Apart w effective known snapshot valid h =
    let (is, seen, loop) = validate_graph-edges w snapshot valid h in
    let (clear, apart) =
      check_edges-Apart w (relations_of w snapshot) (node_ids w snapshot) snapshot.edge_states []
        seen loop in
    (
      is,
      Pairwise-map
          (λ e f (shown, shown', differ) p first second.
            together e f shown shown' (differ p first second))
          (filter_visible w effective known snapshot.edge_states)
          (filter_visible-Pairwise w effective known (ApartFrom w (relations_of w snapshot))
            snapshot.edge_states apart),
    )
  where
    together :
        (e f : GraphEdgeState w)
        → is_visible w effective known e ≡ true
        → is_visible w effective known f ≡ true
        → clashes w e f ≡ false
        → ⊥
    together e f shown shown' apart =
        let (a, b) = shown_together w effective known e f shown shown' in
        ground (arith, a, b, apart)
