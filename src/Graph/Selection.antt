-- ===== src/Graph/Selection.antt =====
-- temporal_graph: what the selections of snapshots and edges keep, and the last of a sorted list.
use agentic_alpha_engine.Prelude.{
  ◌≡◌, refl, subst, String, Bool, true, false, inl, inr, some, arith, List, [], ◌∷◌, All, All-map,
  String_eq, ◌==◌, ==_iff, Bool-cases, Ord, ℕ_ord, String_ord, ×_ord, IsSorted,
}
use agentic_alpha_engine.Graph.Contracts.{
  DateTime, at_most, Library, GraphEdgeState, TemporalGraphSnapshot, is_visible, filter_visible,
}
use agentic_alpha_engine.Graph.Repository.{of_workspace, publication_order, last_of, known_by}

module _ (w : Library) where
  pub filter-IsVisible :
      (effective known : DateTime) (edges : List (GraphEdgeState w))
      → All (λ e. is_visible w effective known e ≡ true) (filter_visible w effective known edges)
  unfolding filter_visible
  filter-IsVisible effective known [] = tt
  filter-IsVisible effective known (e ∷ edges) =
      elim (Bool-cases (is_visible w effective known e)) [
        | inl v ↦ rw (filter_visible, v) (v, filter-IsVisible effective known edges)
        | inr v ↦ rw (filter_visible, v) (filter-IsVisible effective known edges)
      ]

module _ (w : Library) (content_sha256 : TemporalGraphSnapshot w → String) where
  abbrev pub Snapshot : Type 0
  Snapshot = TemporalGraphSnapshot w

  -- no later in the order of publication
  abbrev pub precedes : Snapshot → Snapshot → Bool
  precedes a b =
      Ord.le ×_ord (publication_order w content_sha256 a) (publication_order w content_sha256 b)

  pub of_workspace-All :
      (workspace_id : String) (xs : List Snapshot)
      → All (λ x. x.workspace_id ≡ workspace_id) (of_workspace w content_sha256 workspace_id xs)
  unfolding of_workspace
  of_workspace-All workspace_id [] = tt
  of_workspace-All workspace_id (x ∷ xs) = elim (Bool-cases (x.workspace_id == workspace_id)) [
    | inl e ↦
        rw (of_workspace, e)
          ((==_iff x.workspace_id workspace_id).0 e, of_workspace-All workspace_id xs)
    | inr e ↦ rw (of_workspace, e) (of_workspace-All workspace_id xs)
  ]

  of_workspace-in :
      (workspace_id : String) (x : Snapshot) (xs : List Snapshot)
      → (x.workspace_id == workspace_id) ≡ true
      → of_workspace w content_sha256 workspace_id (x ∷ xs)
        ≡ x ∷ of_workspace w content_sha256 workspace_id xs
  unfolding of_workspace
  of_workspace-in workspace_id x xs e = rw e refl

  of_workspace-out :
      (workspace_id : String) (x : Snapshot) (xs : List Snapshot)
      → (x.workspace_id == workspace_id) ≡ false
      → of_workspace w content_sha256 workspace_id (x ∷ xs)
        ≡ of_workspace w content_sha256 workspace_id xs
  unfolding of_workspace
  of_workspace-out workspace_id x xs e = rw e refl

  known_by-in :
      (known : DateTime) (x : Snapshot) (xs : List Snapshot)
      → at_most x.published_at known ≡ true
      → known_by w content_sha256 known (x ∷ xs) ≡ x ∷ known_by w content_sha256 known xs
  unfolding known_by
  known_by-in known x xs e = rw e refl

  known_by-out :
      (known : DateTime) (x : Snapshot) (xs : List Snapshot)
      → at_most x.published_at known ≡ false
      → known_by w content_sha256 known (x ∷ xs) ≡ known_by w content_sha256 known xs
  unfolding known_by
  known_by-out known x xs e = rw e refl

  -- What holds of the selected snapshots holds of all that meet the selection's test.
  pub of_workspace-back :
      (P : Snapshot → Type 0) (workspace_id : String) (xs : List Snapshot)
      → All P (of_workspace w content_sha256 workspace_id xs)
      → All (λ x. x.workspace_id ≡ workspace_id → P x) xs
  unfolding of_workspace
  of_workspace-back P workspace_id [] h = tt
  of_workspace-back P workspace_id (x ∷ xs) h = elim (Bool-cases (x.workspace_id == workspace_id)) [
    | inl e ↦
        let kept = subst (All P) (of_workspace-in workspace_id x xs e) h in
        (λ same. kept.0, of_workspace-back P workspace_id xs kept.1)
    | inr e ↦
        let kept = subst (All P) (of_workspace-out workspace_id x xs e) h in
        (
          λ same. absurd (differs x.workspace_id workspace_id same e),
          of_workspace-back P workspace_id xs kept,
        )
  ]
    where
      differs : (a b : String) → a ≡ b → (a == b) ≡ false → ⊥
      differs a b same e = ground (arith, ==_iff a b)

  pub known_by-All :
      (known : DateTime) (P : Snapshot → Type 0) (xs : List Snapshot)
      → All P xs
      → All (λ x. P x × (at_most x.published_at known ≡ true)) (known_by w content_sha256 known xs)
  unfolding known_by
  known_by-All known P [] h = tt
  known_by-All known P (x ∷ xs) h = elim (Bool-cases (at_most x.published_at known)) [
    | inl e ↦ rw (known_by, e) ((h.0, e), known_by-All known P xs h.1)
    | inr e ↦ rw (known_by, e) (known_by-All known P xs h.1)
  ]

  pub known_by-back :
      (P : Snapshot → Type 0) (known : DateTime) (xs : List Snapshot)
      → All P (known_by w content_sha256 known xs)
      → All (λ x. at_most x.published_at known ≡ true → P x) xs
  unfolding known_by
  known_by-back P known [] h = tt
  known_by-back P known (x ∷ xs) h = elim (Bool-cases (at_most x.published_at known)) [
    | inl e ↦
        let kept = subst (All P) (known_by-in known x xs e) h in
        (λ early. kept.0, known_by-back P known xs kept.1)
    | inr e ↦
        let kept = subst (All P) (known_by-out known x xs e) h in
        (
          λ early. absurd (both (at_most x.published_at known) early e),
          known_by-back P known xs kept,
        )
  ]
    where
      both : (b : Bool) → b ≡ true → b ≡ false → ⊥
      both b t f = ground arith

  pub known_by-IsSorted :
      (known : DateTime) (xs : List Snapshot)
      → IsSorted (publication_order w content_sha256) xs
      → IsSorted (publication_order w content_sha256) (known_by w content_sha256 known xs)
  unfolding known_by
  known_by-IsSorted known [] h = tt
  known_by-IsSorted known (x ∷ xs) h = elim (Bool-cases (at_most x.published_at known)) [
    | inl e ↦
        rw (known_by, e)
          (
            All-map (λ y p. p.0) _ (known_by-All known (λ y. precedes x y ≡ true) xs h.0),
            known_by-IsSorted known xs h.1,
          )
    | inr e ↦ rw (known_by, e) (known_by-IsSorted known xs h.1)
  ]

  pub last_of-All :
      (P : Snapshot → Type 0) (xs : List Snapshot) (m : Snapshot)
      → All P xs
      → last_of w content_sha256 xs ≡ some m
      → P m
  unfolding last_of
  last_of-All P [] m h e = ground arith
  last_of-All P (x ∷ []) m h e = subst P (ground arith) h.0
  last_of-All P (_ ∷ x ∷ xs) m h e = last_of-All P (x ∷ xs) m h.1 e

  precedes_self : (x : Snapshot) → precedes x x ≡ true
  precedes_self x =
      elim (Ord.le_total ×_ord (publication_order w content_sha256 x)
        (publication_order w content_sha256 x)) [ inl h ↦ h | inr h ↦ h ]

  only : (x m : Snapshot) → some x ≡ some m → x ≡ m
  only x m e = ground arith

  -- The last of a sorted list is preceded by all of it.
  pub last_of-latest :
      (xs : List Snapshot) (m : Snapshot)
      → IsSorted (publication_order w content_sha256) xs
      → last_of w content_sha256 xs ≡ some m
      → All (λ x. precedes x m ≡ true) xs
  unfolding last_of
  last_of-latest [] m h e = tt
  last_of-latest (x ∷ []) m h e =
      (subst (λ y. precedes x y ≡ true) (only x m e) (precedes_self x), tt)
  last_of-latest (x ∷ y ∷ xs) m h e =
      (last_of-All (λ z. precedes x z ≡ true) (y ∷ xs) m h.0 e, last_of-latest (y ∷ xs) m h.1 e)
