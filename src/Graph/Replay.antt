-- ===== src/Graph/Replay.antt =====
-- temporal_graph/repository.py: what `replay` selects and shows.
use agentic_alpha_engine.Prelude.{
  ◌≡◌, refl, sym, subst, ◌∙◌, String, true, false, ◌≤◌, leb→le, and_left, and_right, inl, inr,
  Option, none, some, arith, All, All-map, String_eq, Bool-cases, Option-cases, ℕ_ord, String_ord,
  ×_ord, sorted-IsSorted, All-sorted, All-sorted_back,
}
use agentic_alpha_engine.Dict.{values}
use agentic_alpha_engine.Effects.{Error, value_error, ok, err, ok_injective}
use agentic_alpha_engine.Graph.Contracts.{
  DateTime, at_most, before_end, Library, GraphEdgeState, TemporalGraphSnapshot, aware, is_visible,
  filter_visible, visible_edge_states,
}
use agentic_alpha_engine.Graph.Repository.{
  Snapshots, not_found, of_workspace, publication_order, list_snapshots, last_of, replay_time,
  known_by, replay_id, replay_of, replay,
}
use agentic_alpha_engine.Graph.Selection.{
  filter-IsVisible, Snapshot, precedes, of_workspace-All, of_workspace-back, known_by-All,
  known_by-back, known_by-IsSorted, last_of-All, last_of-latest,
}

module _ (w : Library) (content_sha256 : TemporalGraphSnapshot w → String) where
  -- the source under the requested clocks
  abbrev pub seen_at : Snapshot w content_sha256 → DateTime → DateTime → Snapshot w content_sha256
  seen_at source as_of_time knowledge_time = record source {
    snapshot_id = replay_id w content_sha256 source as_of_time knowledge_time;
    as_of_time = as_of_time;
    knowledge_time = knowledge_time;
    edge_states = filter_visible w as_of_time knowledge_time source.edge_states;
  }

  aware-ok : (at : DateTime) → at.has_zone ≡ true → aware at ≡ ok at
  unfolding aware
  aware-ok at h = ground arith

  replay_time-ok : (at : DateTime) → at.has_zone ≡ true → replay_time w content_sha256 at ≡ ok at
  unfolding replay_time
  replay_time-ok at h = ground arith

  replay_time-err :
      (at : DateTime)
      → at.has_zone ≡ false
      → (e : Error) × (replay_time w content_sha256 at ≡ err e)
  unfolding replay_time
  replay_time-err at h = (value_error "replay timestamps must be timezone-aware", ground arith)

  replay_of-seen :
      (source : Snapshot w content_sha256) (at known : DateTime)
      → at.has_zone ≡ true
      → known.has_zone ≡ true
      → replay_of w content_sha256 source at known ≡ ok (seen_at source at known)
  unfolding replay_of visible_edge_states
  replay_of-seen source at known a k =
      rw (replay_of, visible_edge_states, aware-ok at a, aware-ok known k) refl

  module _ (workspace_id : String) (at known : DateTime) (s : Snapshots w content_sha256) where
    abbrev selected : Option (Snapshot w content_sha256)
    selected =
        last_of w content_sha256
          (known_by w content_sha256 known (list_snapshots w content_sha256 workspace_id s))

    replay-seen :
        (source : Snapshot w content_sha256)
        → at.has_zone ≡ true
        → known.has_zone ≡ true
        → selected ≡ some source
        → replay w content_sha256 workspace_id at known s ≡ ok (seen_at source at known)
    unfolding replay
    replay-seen source a k l =
        rw (replay, replay_time-ok at a, replay_time-ok known k, l)
          (replay_of-seen source at known a k)

    replay-naive :
        (e : Error)
        → replay_time w content_sha256 at ≡ err e
        → replay w content_sha256 workspace_id at known s ≡ err e
    unfolding replay
    replay-naive e h = rw (replay, h) refl

    replay-naive_known :
        (e : Error)
        → at.has_zone ≡ true
        → replay_time w content_sha256 known ≡ err e
        → replay w content_sha256 workspace_id at known s ≡ err e
    unfolding replay
    replay-naive_known e a h = rw (replay, replay_time-ok at a, h) refl

    replay-none :
        at.has_zone ≡ true
        → known.has_zone ≡ true
        → selected ≡ none
        → replay w content_sha256 workspace_id at known s
          ≡ err (not_found w content_sha256 (w.repr_pair workspace_id known))
    unfolding replay
    replay-none a k l = rw (replay, replay_time-ok at a, replay_time-ok known k, l) refl

    ok≢err :
        (r : Snapshot w content_sha256) (e : Error)
        → replay w content_sha256 workspace_id at known s ≡ ok r
        → replay w content_sha256 workspace_id at known s ≡ err e
        → ⊥
    ok≢err r e h k = ground arith

    -- A replay that succeeds shows its source at the clocks.
    replay-source :
        (r : Snapshot w content_sha256)
        → replay w content_sha256 workspace_id at known s ≡ ok r
        → (source : Snapshot w content_sha256) × (selected ≡ some source)
          × (r ≡ seen_at source at known)
    replay-source r h = elim (Bool-cases at.has_zone) [
      | inr a ↦ let (e, n) = replay_time-err at a in absurd (ok≢err r e h (replay-naive e n))
      | inl a ↦ elim (Bool-cases known.has_zone) [
        | inr k ↦
            let (e, n) = replay_time-err known k in absurd (ok≢err r e h (replay-naive_known e a n))
        | inl k ↦ elim (Option-cases selected) [
          | inl n ↦ absurd (ok≢err r _ h (replay-none a k n))
          | inr (source, l) ↦ (source, l, ok_injective (sym h ∙ replay-seen source a k l))
        ]
      ]
    ]

    visible_bounds :
        (e : GraphEdgeState w)
        → is_visible w at known e ≡ true
        → (e.effective_from.instant ≤ at.instant) × (e.knowledge_from.instant ≤ known.instant)
    unfolding is_visible
    visible_bounds e v =
        let effective = at_most e.effective_from at in
        let effective_end = before_end w at e.effective_to in
        let known_from = at_most e.knowledge_from known in
        let known_end = before_end w known e.knowledge_to in
        (
          leb→le _ _ (and_left effective _ (and_left _ _ (and_left _ _ v))),
          leb→le _ _ (and_right _ known_from (and_left _ _ v)),
        )

    listed-All :
        All (λ x. x.workspace_id ≡ workspace_id) (list_snapshots w content_sha256 workspace_id s)
    unfolding list_snapshots
    listed-All =
        All-sorted (publication_order w content_sha256) _ _
          (of_workspace-All w content_sha256 workspace_id (values s))

    -- A replay shows a snapshot of the workspace, published by the knowledge time and after all others
    -- of which that holds, under the requested clocks, and every edge it shows was known from no
    -- later than the knowledge time and in effect from no later than the other clock.
    pub replay_latest :
        (r : Snapshot w content_sha256)
        → replay w content_sha256 workspace_id at known s ≡ ok r
        → (source : Snapshot w content_sha256) × (source.workspace_id ≡ workspace_id)
          × (source.published_at.instant ≤ known.instant)
          × All
              (λ x.
                x.workspace_id ≡ workspace_id
                → at_most x.published_at known ≡ true
                → precedes w content_sha256 x source ≡ true)
              (values s)
          × (r ≡ seen_at source at known)
          × All
              (λ e.
                (e.effective_from.instant ≤ at.instant)
                × (e.knowledge_from.instant ≤ known.instant))
              r.edge_states
    unfolding list_snapshots
    replay_latest r h =
        let (source, l, same) = replay-source r h in
        let listed = list_snapshots w content_sha256 workspace_id s in
        let order = publication_order w content_sha256 in
        let chosen =
          last_of-All w content_sha256 _ _ source
            (known_by-All w content_sha256 known _ listed listed-All) l in
        let ranked =
          sorted-IsSorted order (of_workspace w content_sha256 workspace_id (values s)) in
        let latest =
          last_of-latest w content_sha256 _ source
            (known_by-IsSorted w content_sha256 known listed ranked) l in
        let all =
          of_workspace-back w content_sha256 _ workspace_id (values s)
            (All-sorted_back order _ _ (known_by-back w content_sha256 _ known listed latest)) in
        (
          source,
          chosen.0,
          leb→le _ _ chosen.1,
          all,
          same,
          subst
              (λ x.
                All
                  (λ e.
                    (e.effective_from.instant ≤ at.instant)
                    × (e.knowledge_from.instant ≤ known.instant))
                  x.edge_states)
              (sym same)
              (All-map (λ e v. visible_bounds e v) _
                (filter-IsVisible w at known source.edge_states)),
        )
