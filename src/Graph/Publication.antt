-- ===== src/Graph/Publication.antt =====
-- temporal_graph/repository.py: what publications leave.
use agentic_alpha_engine.Prelude.{
  ◌≡◌, refl, sym, subst, ap, ◌∙◌, String, inl, inr, none, some, arith, String_eq, ◌==◌, ==_iff,
  Bool-cases, Option-cases,
}
use agentic_alpha_engine.Dict.{lookup, insert, lookup-insert_self, lookup-insert_kept}
use agentic_alpha_engine.Effects.{Result, ok, err, ok_injective}
use agentic_alpha_engine.Graph.Contracts.{Library, TemporalGraphSnapshot}
use agentic_alpha_engine.Graph.Repository.{
  GraphPublicationReceipt, Snapshots, receipt_of, immutable, publish, get_snapshot,
}

module _ (w : Library) (content_sha256 : TemporalGraphSnapshot w → String) where
  -- A publication is refused, finds its content there, or is new.
  data Published (x : TemporalGraphSnapshot w) (s : Snapshots w content_sha256)
      (out : Result GraphPublicationReceipt × Snapshots w content_sha256) : Type 0 where
    refused : out ≡ (err (immutable w content_sha256 x), s) → Published x s out
    there :
        (y : TemporalGraphSnapshot w)
        → lookup x.snapshot_id s ≡ some y
        → content_sha256 y ≡ content_sha256 x
        → out ≡ (ok (receipt_of w content_sha256 y), s)
        → Published x s out
    fresh :
        lookup x.snapshot_id s ≡ none
        → out ≡ (ok (receipt_of w content_sha256 x), insert x.snapshot_id x s)
        → Published x s out

  publish-Published :
      (x : TemporalGraphSnapshot w) (s : Snapshots w content_sha256)
      → Published x s (publish w content_sha256 x s)
  publish-Published x s = elim (Option-cases (lookup x.snapshot_id s)) [
    | inl n ↦ fresh n (unfold publish in rw (publish, n) refl)
    | inr (y, found) ↦ elim (Bool-cases (content_sha256 y == content_sha256 x)) [
      | inl same ↦
          there y found ((==_iff (content_sha256 y) (content_sha256 x)).0 same)
            (unfold publish in rw (publish, found, same) refl)
      | inr differs ↦ refused (unfold publish in rw (publish, found, differs) refl)
    ]
  ]

  Published-kept :
      (x : TemporalGraphSnapshot w) (s : Snapshots w content_sha256)
      {out : Result GraphPublicationReceipt × Snapshots w content_sha256} (id : String)
      (z : TemporalGraphSnapshot w)
      → Published x s out
      → lookup id s ≡ some z
      → lookup id out.1 ≡ some z
  Published-kept x s id z (refused o) h = subst (λ p. lookup id p.1 ≡ some z) (sym o) h
  Published-kept x s id z (there y found same o) h = subst (λ p. lookup id p.1 ≡ some z) (sym o) h
  Published-kept x s id z (fresh n o) h =
      subst (λ p. lookup id p.1 ≡ some z) (sym o)
        (elim (lookup-insert_kept x.snapshot_id id x s h) [
          | inl (same, now) ↦ absurd (clash x s id z n h same)
          | inr now ↦ now
        ])
    where
      clash :
          (x : TemporalGraphSnapshot w) (s : Snapshots w content_sha256) (id : String)
          (z : TemporalGraphSnapshot w)
          → lookup x.snapshot_id s ≡ none
          → lookup id s ≡ some z
          → x.snapshot_id ≡ id
          → ⊥
      clash x s id z n h same = ground arith

  -- A history of publications, accepted or refused.
  pub data Publishes (s : Snapshots w content_sha256) : Snapshots w content_sha256 → Type 0 where
    here : Publishes s s
    next :
        {t : Snapshots w content_sha256} (x : TemporalGraphSnapshot w)
        → Publishes s t
        → Publishes s (publish w content_sha256 x t).1

  Publishes-kept :
      {s t : Snapshots w content_sha256} (id : String) (z : TemporalGraphSnapshot w)
      → Publishes s t
      → lookup id s ≡ some z
      → lookup id t ≡ some z
  Publishes-kept id z here h = h
  Publishes-kept id z (next {t} x r) h =
      Published-kept x t id z (publish-Published x t) (Publishes-kept id z r h)

  Published-stored :
      (x : TemporalGraphSnapshot w) (s : Snapshots w content_sha256)
      {out : Result GraphPublicationReceipt × Snapshots w content_sha256}
      (receipt : GraphPublicationReceipt)
      → Published x s out
      → out.0 ≡ ok receipt
      → (y : TemporalGraphSnapshot w) × (lookup x.snapshot_id out.1 ≡ some y)
        × (content_sha256 y ≡ content_sha256 x)
        × (receipt ≡ receipt_of w content_sha256 y)
  Published-stored x s receipt (refused o) h = let e = ap (λ p. p.0) o in ground arith
  Published-stored x s receipt (there y found same o) h = (
    y,
    subst (λ p. lookup x.snapshot_id p.1 ≡ some y) (sym o) found,
    same,
    ok_injective (sym h ∙ ap (λ p. p.0) o),
  )
  Published-stored x s receipt (fresh n o) h = (
    x,
    subst (λ p. lookup x.snapshot_id p.1 ≡ some x) (sym o) (lookup-insert_self x.snapshot_id x s),
    refl,
    ok_injective (sym h ∙ ap (λ p. p.0) o),
  )

  get-found :
      (id : String) (s : Snapshots w content_sha256) (y : TemporalGraphSnapshot w)
      → lookup id s ≡ some y
      → get_snapshot w content_sha256 id s ≡ ok y
  get-found id s y h = unfold get_snapshot in rw (get_snapshot, h) refl

  -- Once a publication has returned a receipt, the snapshot with its id has the published content, the
  -- receipt describes it, and `get` returns that same snapshot after any further publications.
  pub publish_kept :
      (x : TemporalGraphSnapshot w) (s t : Snapshots w content_sha256)
      (receipt : GraphPublicationReceipt)
      → (publish w content_sha256 x s).0 ≡ ok receipt
      → Publishes (publish w content_sha256 x s).1 t
      → (y : TemporalGraphSnapshot w) × (content_sha256 y ≡ content_sha256 x)
        × (receipt ≡ receipt_of w content_sha256 y)
        × (get_snapshot w content_sha256 x.snapshot_id t ≡ ok y)
  publish_kept x s t receipt h later =
      let (y, stored, same, told) = Published-stored x s receipt (publish-Published x s) h in
      (y, same, told, get-found x.snapshot_id t y (Publishes-kept x.snapshot_id y later stored))
