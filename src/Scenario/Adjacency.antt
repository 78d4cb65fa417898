-- ===== src/Scenario/Adjacency.antt =====
-- graph.py: the adjacency of `scenario` lists the effective edges that leave an entity.
use Prim.Native.Nat.{◌≤◌}
use mathlib.Core.List.{Memᴰ, append-nil, append_assoc}
use agentic_alpha_engine.Prelude.{
  All, false, Option, some, refl, ◌≡◌, ◌≢◌, sym, ap, subst, ◌∙◌, String, String_eq, Bool, true,
  List, [], ◌∷◌, ◌++◌, ◌==◌, ==_iff, arith, length, Bool-cases, Option-cases, inl, inr, keep,
  keep-true, keep-false, length-keep, keep-mem, mem-keep,
}
use agentic_alpha_engine.Dict.{lookup, insert, lookup-insert_self, lookup-insert_ne}
use agentic_alpha_engine.Effects.{Result, ok, err, ok_injective, result_cases}
use agentic_alpha_engine.Graph.Contracts.{DateTime, at_most, same_zones, compare_times}
use agentic_alpha_engine.Scenario.Contracts.{Platform, is_effective}
use agentic_alpha_engine.Scenario.Propagation.{
  Edge, effective_edges, Adjacency, edges_or_none, adjacent, add_edges,
}

-- whether a test was made and held
abbrev pub is_now : Result Bool → Bool
is_now (ok effective) = effective
is_now (err e) = false

is_now-ok : (r : Result Bool) → is_now r ≡ true → r ≡ ok true
is_now-ok (ok b) h = ap ok h
is_now-ok (err e) h = absurd (ground (arith, h))

-- A time with a zone can be compared with the times that have one, and a time without one with the
-- others: each time of an edge is of the kind of the time `at`.
pub record Comparable (at start : DateTime) (stop : Option DateTime) : Type 0 where
  pub start_zone : same_zones start at ≡ true
  pub stop_zone : (time : DateTime) → stop ≡ some time → same_zones at time ≡ true

module _ (w : Platform) (at : DateTime) where
  -- the edges that are effective at the time
  abbrev pub active_edges : List (Edge w) → List (Edge w)
  active_edges = keep (λ e. is_now (is_effective w e at))

  -- Where `effective_edges` returns, it returns those.
  pub effective_edges-active :
      (edges active : List (Edge w))
      → effective_edges w at edges ≡ ok active
      → active ≡ active_edges edges
  unfolding effective_edges keep
  effective_edges-active [] active h = sym (ok_injective h)
  effective_edges-active (e ∷ edges) active h = elim (result_cases (is_effective w e at)) [
    | inr (x, failed) ↦ absurd (ground (arith, h, failed))
    | inl (b, now) ↦ elim (result_cases (effective_edges w at edges)) [
      | inr (x, failed) ↦ absurd (ground (arith, h, now, failed))
      | inl (rest, is) ↦ ground (arith, h, now, is, effective_edges-active edges rest is)
    ]
  ]

  -- It returns for edges whose times can be compared with the time.
  is_effective-returns :
      (e : Edge w)
      → Comparable at e.effective_from e.effective_to
      → (b : Bool) × (is_effective w e at ≡ ok b)
  unfolding is_effective compare_times
  is_effective-returns e c = elim (Bool-cases (at_most e.effective_from at)) [
    | inr not_yet ↦ (false, ground (arith, c.start_zone, not_yet))
    | inl begun ↦ elim (Option-cases e.effective_to) [
      | inl endless ↦ (true, ground (arith, c.start_zone, begun, endless))
      | inr (stop, ends) ↦
          (at_most at stop, ground (arith, c.start_zone, begun, ends, c.stop_zone stop ends))
    ]
  ]

  pub effective_edges-returns :
      (edges : List (Edge w))
      → All (λ e. Comparable at e.effective_from e.effective_to) edges
      → effective_edges w at edges ≡ ok (active_edges edges)
  unfolding effective_edges keep
  effective_edges-returns [] c = refl
  effective_edges-returns (e ∷ edges) c =
      let (b, now) = is_effective-returns e c.0 in
      rw (effective_edges, now, effective_edges-returns edges c.1) refl

module _ (w : Platform) (x : String) where
  abbrev leaves : Edge w → Bool
  leaves e = e.source == x

  -- the list of an entity after an edge was added
  module _ (e : Edge w) (adjacency : Adjacency w) where
    abbrev after : Adjacency w
    after = insert e.source (adjacent w e.source adjacency ++ e ∷ []) adjacency

    after-same : e.source ≡ x → adjacent w x after ≡ adjacent w x adjacency ++ e ∷ []
    after-same is =
        subst (λ y. adjacent w y after ≡ adjacent w y adjacency ++ e ∷ []) is
          (ap (edges_or_none w)
            (lookup-insert_self e.source (adjacent w e.source adjacency ++ e ∷ []) adjacency))

    after-other : e.source ≢ x → adjacent w x after ≡ adjacent w x adjacency
    after-other differ =
        ap (edges_or_none w)
          (lookup-insert_ne e.source x (adjacent w e.source adjacency ++ e ∷ []) adjacency differ)

  add_edges-keep :
      (es : List (Edge w)) (adjacency : Adjacency w)
      → adjacent w x (add_edges w es adjacency) ≡ adjacent w x adjacency ++ keep leaves es
  unfolding add_edges keep
  add_edges-keep [] adjacency = sym (append-nil _)
  add_edges-keep (e ∷ es) adjacency =
      add_edges-keep es (after e adjacency) ∙ (elim (Bool-cases (leaves e)) [
        | inl same ↦
            ap (λ l. l ++ keep leaves es) (after-same e adjacency ((==_iff e.source x).0 same))
            ∙ append_assoc _ (e ∷ []) (keep leaves es)
            ∙ ap (λ l. adjacent w x adjacency ++ l) (sym (keep-true leaves e es same))
        | inr other ↦
            ap (λ l. l ++ keep leaves es)
              (after-other e adjacency (λ is. ground (arith, ==_iff e.source x, other)))
            ∙ ap (λ l. adjacent w x adjacency ++ l) (sym (keep-false leaves e es other))
      ])

  module _ (at : DateTime) (edges : List (Edge w)) where
    abbrev adjacency_at : Adjacency w
    adjacency_at = add_edges w (active_edges w at edges) []

    adjacent-keep : adjacent w x adjacency_at ≡ keep leaves (active_edges w at edges)
    unfolding lookup
    adjacent-keep = add_edges-keep (active_edges w at edges) []

    pub adjacent-length : length (adjacent w x adjacency_at) ≤ length edges
    adjacent-length = ground (
      arith,
      ap length adjacent-keep,
      length-keep leaves (active_edges w at edges),
      length-keep (λ e. is_now (is_effective w e at)) edges,
    )

    -- The edges listed at an entity are the effective ones that leave it.
    pub mem-adjacent :
        {e : Edge w}
        → e.source ≡ x
        → is_effective w e at ≡ ok true
        → Memᴰ e edges
        → Memᴰ e (adjacent w x adjacency_at)
    mem-adjacent {e} is now m = subst (Memᴰ e) (sym adjacent-keep) (
        keep-mem leaves (active_edges w at edges) ((==_iff e.source x).1 is)
          (keep-mem (λ f. is_now (is_effective w f at)) edges (ap is_now now) m))

    pub adjacent-mem :
        {e : Edge w}
        → Memᴰ e (adjacent w x adjacency_at)
        → (e.source ≡ x) × (is_effective w e at ≡ ok true) × Memᴰ e edges
    adjacent-mem {e} m =
        let (is, listed) =
          mem-keep leaves (active_edges w at edges) (subst (Memᴰ e) adjacent-keep m) in
        let (now, there) = mem-keep (λ f. is_now (is_effective w f at)) edges listed in
        ((==_iff e.source x).0 is, is_now-ok (is_effective w e at) now, there)
