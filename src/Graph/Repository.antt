-- ===== src/Graph/Repository.antt =====
-- temporal_graph/repository.py: `InMemoryTemporalGraphRepository`.
use Prim.Native.Nat.{ℕ}
use agentic_alpha_engine.Prelude.{
  String, not, Option, none, some, List, [], ◌∷◌, String_eq, ◌==◌, if◌then◌else◌, ◌<>◌, ℕ_ord,
  String_ord, ×_ord, sorted,
}
use agentic_alpha_engine.Dict.{Dict, lookup, insert, values}
use agentic_alpha_engine.Effects.{Result, ok, err, Error, value_error, other, Exec}
use agentic_alpha_engine.Graph.Contracts.{
  DateTime, at_most, Library, TemporalGraphSnapshot, visible_edge_states,
}

pub record GraphPublicationReceipt : Type 0 where
  pub snapshot_id : String
  pub workspace_id : String
  pub content_digest : String
  pub published_at : DateTime

module _ (w : Library) (content_sha256 : TemporalGraphSnapshot w → String) where
  -- `self._snapshots`
  abbrev pub Snapshots : Type 0
  Snapshots = Dict String (TemporalGraphSnapshot w)

  -- `_receipt`
  unfoldable pub receipt_of : TemporalGraphSnapshot w → GraphPublicationReceipt
  receipt_of snapshot = record {
    snapshot_id = snapshot.snapshot_id;
    workspace_id = snapshot.workspace_id;
    content_digest = content_sha256 snapshot;
    published_at = snapshot.published_at;
  }

  abbrev pub immutable : TemporalGraphSnapshot w → Error
  immutable snapshot =
      other "ImmutableGraphSnapshotError"
        ("snapshot " <> w.repr snapshot.snapshot_id <> " is immutable")

  unfoldable pub publish : TemporalGraphSnapshot w → Exec Snapshots GraphPublicationReceipt
  publish snapshot s = elim (lookup snapshot.snapshot_id s) [
    | some existing ↦
        if not (content_sha256 existing == content_sha256 snapshot)
        then (err (immutable snapshot), s)
        else (ok (receipt_of existing), s)
    | none ↦ (ok (receipt_of snapshot), insert snapshot.snapshot_id snapshot s)
  ]

  abbrev pub not_found : String → Error
  not_found text = other "GraphSnapshotNotFoundError" text

  unfoldable pub get_snapshot : String → Snapshots → Result (TemporalGraphSnapshot w)
  get_snapshot snapshot_id s = elim (lookup snapshot_id s) [
    | none ↦ err (not_found (w.repr snapshot_id))
    | some snapshot ↦ ok snapshot
  ]

  unfoldable pub of_workspace :
      String → List (TemporalGraphSnapshot w) → List (TemporalGraphSnapshot w)
  of_workspace workspace_id [] = []
  of_workspace workspace_id (item ∷ items) =
      let rest = of_workspace workspace_id items in
      if item.workspace_id == workspace_id then item ∷ rest else rest

  -- the sort key of `list`
  abbrev pub publication_order : TemporalGraphSnapshot w → ℕ × String
  publication_order item = (item.published_at.instant, item.snapshot_id)

  unfoldable pub list_snapshots : String → Snapshots → List (TemporalGraphSnapshot w)
  list_snapshots workspace_id s = sorted publication_order (of_workspace workspace_id (values s))

  -- `items[-1]` where there is one
  unfoldable pub last_of : List (TemporalGraphSnapshot w) → Option (TemporalGraphSnapshot w)
  last_of [] = none
  last_of (item ∷ []) = some item
  last_of (_ ∷ item ∷ items) = last_of (item ∷ items)

  unfoldable pub latest : String → Snapshots → Result (TemporalGraphSnapshot w)
  latest workspace_id s = elim (last_of (list_snapshots workspace_id s)) [
    | none ↦ err (not_found (w.repr workspace_id))
    | some snapshot ↦ ok snapshot
  ]

  -- `_replay_time`
  unfoldable pub replay_time : DateTime → Result DateTime
  replay_time value =
      if not value.has_zone
      then err (value_error "replay timestamps must be timezone-aware")
      else ok value

  unfoldable pub known_by :
      DateTime → List (TemporalGraphSnapshot w) → List (TemporalGraphSnapshot w)
  known_by knowledge_time [] = []
  known_by knowledge_time (item ∷ items) =
      let rest = known_by knowledge_time items in
      if at_most item.published_at knowledge_time then item ∷ rest else rest

  abbrev pub replay_id : TemporalGraphSnapshot w → DateTime → DateTime → String
  replay_id source as_of_time knowledge_time =
      source.snapshot_id <> "@" <> as_of_time.isoformat <> "#" <> knowledge_time.isoformat

  -- the snapshot that `replay` derives from its source
  unfoldable pub replay_of :
      TemporalGraphSnapshot w → DateTime → DateTime → Result (TemporalGraphSnapshot w)
  replay_of source as_of_time knowledge_time =
      elim (visible_edge_states w source (some as_of_time) (some knowledge_time)) [
        | err e ↦ err e
        | ok visible ↦ ok (record source {
          snapshot_id = replay_id source as_of_time knowledge_time;
          as_of_time = as_of_time;
          knowledge_time = knowledge_time;
          edge_states = visible;
        })
      ]

  unfoldable pub replay :
      String → DateTime → DateTime → Snapshots → Result (TemporalGraphSnapshot w)
  replay workspace_id as_of_time knowledge_time s = elim (replay_time as_of_time) [
    | err e ↦ err e
    | ok effective ↦ elim (replay_time knowledge_time) [
      | err e ↦ err e
      | ok known ↦ elim (last_of (known_by known (list_snapshots workspace_id s))) [
        | none ↦ err (not_found (w.repr_pair workspace_id known))
        | some source ↦ replay_of source effective known
      ]
    ]
  ]
