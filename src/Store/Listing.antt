-- ===== src/Store/Listing.antt =====
-- persistence/repositories.py: the listings of `InMemoryVersionedRepository`.
use Prim.Native.Nat.{ℕ}
use agentic_alpha_engine.Prelude.{
  String, String_eq, String_ord, ℕ_ord, ×_ord, Bool, true, ◌&&◌, Option, none, some, List, [], ◌∷◌,
  map, keep, sorted, ltb, ◌==◌, if◌then◌else◌,
}
use agentic_alpha_engine.Dict.{Dict, lookup, insert, values}
use agentic_alpha_engine.Effects.{Result, ok, err, other, Exec}
use agentic_alpha_engine.Store.Versioned.{Contracts, Key, Records, put, get}

module _ (w : Contracts) where
  -- an attribute that the class has
  abbrev pub own : Option String → String
  own none = ""
  own (some text) = text

  abbrev pub attribute_of : String → w.Record → String
  attribute_of field r = own (w.attribute r field)

  unfoldable pub put_universe : w.Record → Exec (Records w) w.Record
  put_universe universe = put w universe

  unfoldable pub get_universe : String → ℕ → Records w → Result w.Record
  get_universe universe_id version = get w "UniverseSpec" universe_id version

  -- `[value for (kind, ...), value in self._records.items() if ...]`
  abbrev pub records_where : (Key → w.Record → Bool) → Records w → List w.Record
  records_where test s = map (λ p. p.1) (keep (λ p. test p.0 p.1) s)

  unfoldable pub list_versions : String → String → Records w → List w.Record
  list_versions record_type id s =
      sorted w.version (records_where (λ key r. key.0 == record_type && key.1.0 == id) s)

  unfoldable pub list_strategies : String → Records w → List w.Record
  list_strategies workspace_id s =
      sorted {K = String × ℕ} (λ r. (attribute_of "strategy_id" r, w.version r))
        (records_where
          (λ key r. key.0 == "StrategySpec" && attribute_of "workspace_id" r == workspace_id) s)

  abbrev pub workspace_of : w.Record → String
  workspace_of = attribute_of "workspace_id"

  -- `prior is None or workspace.version > prior.version`
  abbrev pub is_later : Option w.Record → w.Record → Bool
  is_later none workspace = true
  is_later (some prior) workspace = ltb (w.version prior) (w.version workspace)

  -- the loop that keeps the latest version of each workspace
  unfoldable pub latest_of : List w.Record → Dict String w.Record → Dict String w.Record
  latest_of [] latest = latest
  latest_of (r ∷ rs) latest = latest_of rs (
      if is_later (lookup (workspace_of r) latest) r
      then insert (workspace_of r) r latest
      else latest)

  abbrev pub workspaces : Records w → List w.Record
  workspaces = records_where (λ key r. key.0 == "DomainWorkspace")

  abbrev pub workspace_key : w.Record → String × ℕ
  workspace_key r = (workspace_of r, w.version r)

  unfoldable pub list_workspaces : Bool → Records w → List w.Record
  list_workspaces latest_only s =
      sorted workspace_key
        (if latest_only then values (latest_of (workspaces s) []) else workspaces s)

  unfoldable pub first_workspace : String → List w.Record → Result w.Record
  first_workspace workspace_id [] =
      err (other "RepositoryNotFoundError" (w.pair_text ("DomainWorkspace", workspace_id)))
  first_workspace workspace_id (r ∷ rs) =
      let rest = first_workspace workspace_id rs in
      if workspace_of r == workspace_id then ok r else rest

  unfoldable pub latest_workspace : String → Records w → Result w.Record
  latest_workspace workspace_id s = first_workspace workspace_id (list_workspaces true s)
