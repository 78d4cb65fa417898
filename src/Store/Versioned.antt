-- ===== src/Store/Versioned.antt =====
-- persistence/repositories.py: `_identity` and `InMemoryVersionedRepository`.
use Prim.Native.Nat.{ℕ}
use agentic_alpha_engine.Prelude.{
  String, Bool, false, not, Option, none, some, List, [], ◌∷◌, String_eq, ℕ_eq, ×_eq, ◌==◌,
  if◌then◌else◌, ◌<>◌,
}
use agentic_alpha_engine.Dict.{Dict, lookup, insert}
use agentic_alpha_engine.Effects.{
  Error, Result, ok, err, type_error, other, Exec, from_result, ◌>>=◌,
}

-- The product contracts as the repository sees them: the class's name, the string attributes that a
-- record may have, its version, the hash of its content, and the text of a number and of a key.
pub record Contracts : Type 1 where
  pub Record : Type 0
  pub class_name : Record → String
  pub attribute : Record → String → Option String
  pub version : Record → ℕ
  pub content_sha256 : Record → String
  pub decimal : ℕ → String
  pub key_text : String × (String × ℕ) → String
  pub pair_text : String × String → String

-- the class, the identifier and the version
abbrev pub Key : Type 0
Key = String × (String × ℕ)

-- the attributes that `_identity` tries in order
abbrev pub identifiers : List String
identifiers =
    "workspace_id" ∷ "universe_id" ∷ "strategy_id" ∷ "run_id" ∷ "package_id" ∷ "provider_id"
    ∷ "readiness_id" ∷ []

module _ (w : Contracts) where
  -- an attribute that is there and not empty
  abbrev pub truthy : Option String → Option String
  truthy none = none
  truthy (some text) = if text == "" then none else some text

  unfoldable pub first_identifier : w.Record → List String → Option String
  first_identifier r [] = none
  first_identifier r (field ∷ fields) =
      let rest = first_identifier r fields in
      elim (truthy (w.attribute r field)) [ none ↦ rest | some text ↦ some text ]

  abbrev pub own_identifier : Option String → Result String
  own_identifier none = err (other "AttributeError" "identifier")
  own_identifier (some text) = ok text

  -- `_identity`, its identifier
  unfoldable pub identifier : w.Record → Result String
  identifier r =
      if w.class_name r == "UniverseSpec"
      then own_identifier (w.attribute r "universe_id")
      else if w.class_name r == "StrategySpec"
      then own_identifier (w.attribute r "strategy_id")
      else elim (first_identifier r identifiers) [
        | none ↦ err (type_error (w.class_name r <> " has no versioned identity"))
        | some text ↦ ok text
      ]

  -- `self._records`
  abbrev pub Records : Type 0
  Records = Dict Key w.Record

  abbrev pub is_immutable : w.Record → Key → Error
  is_immutable r key =
      other "ImmutableVersionError"
        (w.class_name r <> " " <> key.1.0 <> " version " <> w.decimal key.1.1 <> " is immutable")

  -- the record stored under the key, unless another content is there
  unfoldable pub put_at : Key → w.Record → Exec Records w.Record
  put_at key r s = elim (lookup key s) [
    | none ↦ (ok r, insert key r s)
    | some existing ↦
        if not (w.content_sha256 existing == w.content_sha256 r)
        then (err (is_immutable r key), s)
        else (ok existing, s)
  ]

  unfoldable pub put : w.Record → Exec Records w.Record
  put r = do id ← from_result (identifier r); put_at (w.class_name r, (id, w.version r)) r

  unfoldable pub get : String → String → ℕ → Records → Result w.Record
  get record_type id version s = elim (lookup (record_type, (id, version)) s) [
    | none ↦ err (other "RepositoryNotFoundError" (w.key_text (record_type, (id, version))))
    | some r ↦ ok r
  ]

  -- `existing is not None and existing.content_sha256() != record.content_sha256()`
  abbrev pub conflict_with : Option w.Record → w.Record → Bool
  conflict_with none r = false
  conflict_with (some existing) r = not (w.content_sha256 existing == w.content_sha256 r)

  unfoldable pub conflicts : Key → w.Record → Records → Bool
  conflicts key r s = conflict_with (lookup key s) r

  -- `self._records.get(key, record)`
  abbrev pub or_given : Option w.Record → w.Record → w.Record
  or_given none r = r
  or_given (some existing) r = existing

  abbrev pub publish_both : Key → Key → w.Record → w.Record → Records → Records
  publish_both workspace_key universe_key workspace universe s =
      let s' = insert universe_key (or_given (lookup universe_key s) universe) s in
      insert workspace_key (or_given (lookup workspace_key s') workspace) s'

  -- the checks of both records, then both writes; the records returned are those then stored
  unfoldable pub put_pair :
      Key → Key → w.Record → w.Record → Exec Records (Option w.Record × Option w.Record)
  put_pair workspace_key universe_key workspace universe s =
      if conflicts workspace_key workspace s
      then (err (is_immutable workspace workspace_key), s)
      else if conflicts universe_key universe s
      then (err (is_immutable universe universe_key), s)
      else (
        ok (
          lookup workspace_key (publish_both workspace_key universe_key workspace universe s),
          lookup universe_key (publish_both workspace_key universe_key workspace universe s),
        ),
        publish_both workspace_key universe_key workspace universe s,
      )

  unfoldable pub put_workspace_with_universe :
      w.Record → w.Record → Exec Records (Option w.Record × Option w.Record)
  put_workspace_with_universe workspace universe = do
    workspace_id ← from_result (identifier workspace)
    universe_id ← from_result (identifier universe)
    put_pair ("DomainWorkspace", (workspace_id, w.version workspace))
        ("UniverseSpec", (universe_id, w.version universe)) workspace universe
