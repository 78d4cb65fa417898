-- ===== src/Graph/Contracts.antt =====
-- temporal_graph/contracts.py: bitemporal edge states and snapshots, with their validation.
use Prim.Native.Nat.{ℕ}
use agentic_alpha_engine.Prelude.{
  String, Bool, true, false, not, ◌&&◌, Option, none, some, List, [], ◌∷◌, String_eq, ◌==◌, ×_eq,
  is_unique, leb, ltb, if◌then◌else◌,
}
use agentic_alpha_engine.Effects.{Result, ok, err, value_error, type_error}

-- A `datetime`: its instant, its isoformat, and whether it has a zone.
pub record DateTime : Type 0 where
  pub instant : ℕ
  pub isoformat : String
  pub has_zone : Bool

-- `a <= b` and `a < b`
abbrev pub at_most : DateTime → DateTime → Bool
at_most a b = leb a.instant b.instant

abbrev pub earlier : DateTime → DateTime → Bool
earlier a b = ltb a.instant b.instant

-- `a <= b` raises when one time has a zone and the other has none
abbrev pub same_zones : DateTime → DateTime → Bool
same_zones a b = if a.has_zone then b.has_zone else not b.has_zone

unfoldable pub compare_times : (DateTime → DateTime → Bool) → DateTime → DateTime → Result Bool
compare_times test a b =
    if same_zones a b
    then ok (test a b)
    else err (type_error "can't compare offset-naive and offset-aware datetimes")

-- `_aware`
unfoldable pub aware : DateTime → Result DateTime
aware value =
    if not value.has_zone
    then err (value_error "temporal graph timestamps must be timezone-aware")
    else ok value

-- What the snapshots take from elsewhere: floats, the dicts of attributes and `repr` of a text and of
-- a text with a time.
pub record Library : Type 1 where
  pub Float : Type 0
  pub Attributes : Type 0
  pub repr : String → String
  pub repr_pair : String → DateTime → String

pub data NodeKind : Type 0 where
  entity instrument industry geography commodity : NodeKind
  event regulator technology external_context other : NodeKind

pub data RelationSemantics : Type 0 where
  directed symmetric : RelationSemantics

pub data LifecycleStatus : Type 0 where
  proposed active deprecated retracted : LifecycleStatus

pub data EligibilityStatus : Type 0 where
  eligible ineligible review_required : EligibilityStatus

abbrev pub is_instrument : NodeKind → Bool
is_instrument NodeKind.instrument = true
is_instrument _ = false

-- `ContractBase`
pub record ContractBase : Type 0 where
  pub schema_version : String
  pub version : ℕ
  pub created_at : DateTime

module _ (w : Library) where
  pub record GraphNode : Type 0 where
    pub base : ContractBase
    pub node_id : String
    pub kind : NodeKind
    pub label : String
    pub properties : w.Attributes
    pub lifecycle_status : LifecycleStatus
    pub strategy_eligible : Bool

  pub record GraphRelationship : Type 0 where
    pub base : ContractBase
    pub relationship_id : String
    pub name : String
    pub semantics : RelationSemantics
    pub description : String

  pub record GraphEdgeState : Type 0 where
    pub base : ContractBase
    pub edge_id : String
    pub relationship_id : String
    pub source_node_id : String
    pub target_node_id : String
    pub effective_from : DateTime
    pub effective_to : Option DateTime
    pub knowledge_from : DateTime
    pub knowledge_to : Option DateTime
    pub evidence_ids : List String
    pub confidence : w.Float
    pub economic_exposure : w.Float
    pub propagation_coefficient : w.Float
    pub lifecycle_status : LifecycleStatus
    pub strategy_eligible : EligibilityStatus
    pub attributes : w.Attributes

  pub record TemporalGraphSnapshot : Type 0 where
    pub base : ContractBase
    pub snapshot_id : String
    pub workspace_id : String
    pub universe_id : String
    pub universe_instrument_ids : List String
    pub parent_snapshot_id : Option String
    pub published_at : DateTime
    pub as_of_time : DateTime
    pub knowledge_time : DateTime
    pub nodes : List GraphNode
    pub relationships : List GraphRelationship
    pub edge_states : List GraphEdgeState
    pub source_run_id : Option String

  -- `end is not None and end <= start`
  abbrev pub ends_early : DateTime → Option DateTime → Bool
  ends_early start none = false
  ends_early start (some end) = at_most end start

  -- `GraphEdgeState.intervals_are_ordered`
  unfoldable pub intervals_are_ordered : GraphEdgeState → Result GraphEdgeState
  intervals_are_ordered edge =
      if ends_early edge.effective_from edge.effective_to
      then err (value_error "effective_to must be later than effective_from")
      else if ends_early edge.knowledge_from edge.knowledge_to
      then err (value_error "knowledge_to must be later than knowledge_from")
      else if edge.source_node_id == edge.target_node_id
      then err (value_error "self edges are not supported")
      else if not (is_unique edge.evidence_ids)
      then err (value_error "evidence IDs must be unique per edge state")
      else ok edge

  -- `end is None or value < end`
  abbrev pub before_end : DateTime → Option DateTime → Bool
  before_end value none = true
  before_end value (some end) = earlier value end

  unfoldable pub effective_overlap : GraphEdgeState → GraphEdgeState → Bool
  effective_overlap prior edge =
      before_end edge.effective_from prior.effective_to
      && before_end prior.effective_from edge.effective_to

  unfoldable pub knowledge_overlap : GraphEdgeState → GraphEdgeState → Bool
  knowledge_overlap prior edge =
      before_end edge.knowledge_from prior.knowledge_to
      && before_end prior.knowledge_from edge.knowledge_to

  -- an edge is seen at both clocks
  unfoldable pub is_visible : DateTime → DateTime → GraphEdgeState → Bool
  is_visible effective known edge =
      at_most edge.effective_from effective
      && before_end effective edge.effective_to
      && at_most edge.knowledge_from known
      && before_end known edge.knowledge_to

  unfoldable pub filter_visible : DateTime → DateTime → List GraphEdgeState → List GraphEdgeState
  filter_visible effective known [] = []
  filter_visible effective known (edge ∷ edges) =
      let rest = filter_visible effective known edges in
      if is_visible effective known edge then edge ∷ rest else rest

  abbrev pub or_else : Option DateTime → DateTime → DateTime
  or_else none own = own
  or_else (some given) own = given

  unfoldable pub visible_edge_states :
      TemporalGraphSnapshot → Option DateTime → Option DateTime → Result (List GraphEdgeState)
  visible_edge_states snapshot as_of_time knowledge_time =
      elim (aware (or_else as_of_time snapshot.as_of_time)) [
        | err e ↦ err e
        | ok effective ↦ elim (aware (or_else knowledge_time snapshot.knowledge_time)) [
          | err e ↦ err e
          | ok known ↦ ok (filter_visible effective known snapshot.edge_states)
        ]
      ]
