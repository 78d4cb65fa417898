-- ===== src/Scenario/Publishing.antt =====
-- graph_registry.py: what a built snapshot holds, and that a published one stays.
use Prim.Native.Nat.{◌≤◌}
use agentic_alpha_engine.Prelude.{
  ◌≡◌, ◌≢◌, refl, sym, ap, subst, ◌∙◌, inl, inr, ◌⊎◌, String, String_eq, Bool, true, not, none,
  some, List, [], ◌∷◌, arith, All, Bool-cases, Option-cases, keep, contains, length, ◌<>◌, ◌==◌,
  ==_iff,
}
use agentic_alpha_engine.Dict.{lookup, insert, lookup-insert_ne, lookup-insert_self}
use agentic_alpha_engine.Effects.{Error, ok, err, other}
use agentic_alpha_engine.Graph.Contracts.{DateTime}
use agentic_alpha_engine.Scenario.Contracts.{Platform}
use agentic_alpha_engine.Scenario.Registry.{
  EntityRegistry, entity_ids, ReviewedGraphEdge, GraphSnapshot, edges_digest, Formats,
  digest_matches_edges, snapshot_of, unknown_of, first_unknown, build_snapshot, Files, publish_new,
}

module _ (w : Platform) (f : Formats w) where
  -- both ends are entities of the registry
  pub record Registered (registry : EntityRegistry) (edge : ReviewedGraphEdge w) : Type 0 where
    pub upstream : contains (entity_ids registry) edge.upstream_entity_id ≡ true
    pub downstream : contains (entity_ids registry) edge.downstream_entity_id ≡ true

  kept_none :
      (test : String → Bool) (x : String) (xs : List String)
      → keep (λ id. not (test id)) (x ∷ xs) ≡ []
      → (test x ≡ true) × (keep (λ id. not (test id)) xs ≡ [])
  unfolding keep
  kept_none test x xs h = (ground (arith, h), ground (arith, h))

  unknown_of-Registered :
      (registry : EntityRegistry) (edge : ReviewedGraphEdge w)
      → unknown_of w f registry edge ≡ []
      → Registered registry edge
  unfolding unknown_of
  unknown_of-Registered registry edge h =
      elim (Bool-cases (edge.upstream_entity_id == edge.downstream_entity_id)) [
        | inl same ↦
            let (up, none_left) =
              kept_none (contains (entity_ids registry)) edge.upstream_entity_id []
                (ground (arith, h, same)) in
            record {
              upstream = up;
              downstream =
                  ap (contains (entity_ids registry))
                    (sym ((==_iff edge.upstream_entity_id edge.downstream_entity_id).0 same))
                  ∙ up;
            }
        | inr differ ↦
            let (up, rest) =
              kept_none (contains (entity_ids registry)) edge.upstream_entity_id
                (edge.downstream_entity_id ∷ []) (ground (arith, h, differ)) in
            record {
              upstream = up;
              downstream =
                  (kept_none (contains (entity_ids registry)) edge.downstream_entity_id [] rest).0;
            }
      ]

  first_unknown-Registered :
      (registry : EntityRegistry) (edges : List (ReviewedGraphEdge w))
      → first_unknown w f registry edges ≡ []
      → All (Registered registry) edges
  unfolding first_unknown
  first_unknown-Registered registry [] h = tt
  first_unknown-Registered registry (e ∷ edges) h = (
    unknown_of-Registered registry e (ground (arith, h)),
    first_unknown-Registered registry edges (ground (arith, h)),
  )

  publish_new-free :
      (path : String) (snapshot : GraphSnapshot w) (files : Files)
      → lookup path files ≡ none
      → publish_new w f path snapshot files ≡ (ok tt, insert path (f.dump_snapshot snapshot) files)
  unfolding publish_new
  publish_new-free path snapshot files h = ground (arith, h)

  abbrev refused : String → Error
  refused path = other "FileExistsError" ("refusing to overwrite immutable snapshot: " <> path)

  publish_new-taken :
      (path text : String) (snapshot : GraphSnapshot w) (files : Files)
      → lookup path files ≡ some text
      → publish_new w f path snapshot files ≡ (err (refused path), files)
  unfolding publish_new
  publish_new-taken path text snapshot files h = ground (arith, h)

  -- A file that is there stays as it is, whatever is published.
  publish_new-kept :
      (path next text : String) (snapshot : GraphSnapshot w) (files : Files)
      → lookup path files ≡ some text
      → lookup path (publish_new w f next snapshot files).1 ≡ some text
  publish_new-kept path next text snapshot files h = elim (Option-cases (lookup next files)) [
    | inl free ↦
        ap (λ r. lookup path r.1) (publish_new-free next snapshot files free)
        ∙ lookup-insert_ne next path (f.dump_snapshot snapshot) files (differs free)
        ∙ h
    | inr (t, taken) ↦ ap (λ r. lookup path r.1) (publish_new-taken next t snapshot files taken) ∙ h
  ]
    where
      differs : lookup next files ≡ none → next ≢ path
      differs free is = ground (arith, free, h, ap (λ x. lookup x files) is)

  -- the files after some publications, one after another
  pub data Publishes : Files → Files → Type 0 where
    nothing : {files : Files} → Publishes files files
    further :
        {files later : Files} (path : String) (snapshot : GraphSnapshot w)
        → Publishes (publish_new w f path snapshot files).1 later
        → Publishes files later

  Publishes-kept :
      (path text : String) {files later : Files}
      → Publishes files later
      → lookup path files ≡ some text
      → lookup path later ≡ some text
  Publishes-kept path text nothing h = h
  Publishes-kept path text {files = files} (further next snapshot more) h =
      Publishes-kept path text more (publish_new-kept path next text snapshot files h)

  -- A snapshot whose publication returned is the file at its path after any further publications, and
  -- any publication to that path then raises and changes nothing.
  pub publish_new-once :
      (path : String) (snapshot : GraphSnapshot w) (files later : Files)
      → (publish_new w f path snapshot files).0 ≡ ok tt
      → Publishes (publish_new w f path snapshot files).1 later
      → (lookup path later ≡ some (f.dump_snapshot snapshot))
        × ((again : GraphSnapshot w)
            → publish_new w f path again later ≡ (
              err (other "FileExistsError" ("refusing to overwrite immutable snapshot: " <> path)),
              later,
            ))
  publish_new-once path snapshot files later h more = elim (Option-cases (lookup path files)) [
    | inr (t, taken) ↦ absurd (ground (arith, h, publish_new-taken path t snapshot files taken))
    | inl free ↦
        let there = Publishes-kept path (f.dump_snapshot snapshot) more (
          ap (λ r. lookup path r.1) (publish_new-free path snapshot files free)
          ∙ lookup-insert_self path (f.dump_snapshot snapshot) files) in
        (there, λ again. publish_new-taken path (f.dump_snapshot snapshot) again later there)
  ]

  snapshot_of-ok :
      (given snapshot : GraphSnapshot w)
      → snapshot_of w f given ≡ ok snapshot
      → (given ≡ snapshot) × (digest_matches_edges w f given ≡ ok snapshot)
  unfolding snapshot_of digest_matches_edges
  snapshot_of-ok given snapshot h = (ground (arith, h), ground (arith, h))

  List-cases :
      (xs : List String) → (xs ≡ []) ⊎ ((x : String) × (rest : List String) × (xs ≡ x ∷ rest))
  List-cases [] = inl refl
  List-cases (x ∷ xs) = inr (x, xs, refl)

  -- A snapshot that is built has the edges it was given, of which there is one, with both ends of each
  -- in the registry, and it passes the test of its digest.
  pub build_snapshot-Registered :
      (registry : EntityRegistry) (snapshot_id : String) (created_at : DateTime)
      (edges : List (ReviewedGraphEdge w)) (snapshot : GraphSnapshot w)
      → build_snapshot w f registry snapshot_id created_at edges ≡ ok snapshot
      → (snapshot.edges ≡ edges)
        × (1 ≤ length edges)
        × All (Registered registry) edges
        × (snapshot.edges_sha256 ≡ edges_digest w f edges)
        × (digest_matches_edges w f snapshot ≡ ok snapshot)
  unfolding build_snapshot
  build_snapshot-Registered registry snapshot_id created_at [] snapshot h = ground (arith, h)
  build_snapshot-Registered registry snapshot_id created_at (e ∷ edges) snapshot h =
      elim (List-cases (first_unknown w f registry (e ∷ edges))) [
        | inr (x, xs, some_unknown) ↦ absurd (ground (arith, h, some_unknown))
        | inl all_known ↦
            let (is, digest) = snapshot_of-ok built snapshot (made all_known) in
            (
              ap (λ (s : GraphSnapshot w). s.edges) (sym is),
              omega arith,
              first_unknown-Registered registry (e ∷ edges) all_known,
              ap (λ (s : GraphSnapshot w). s.edges_sha256) (sym is),
              subst (λ s. digest_matches_edges w f s ≡ ok snapshot) is digest,
            )
      ]
    where
      built : GraphSnapshot w
      built = record {
        snapshot_id = snapshot_id;
        created_at = created_at;
        entity_registry_id = registry.registry_id;
        edges = e ∷ edges;
        edges_sha256 = edges_digest w f (e ∷ edges);
      }

      made : first_unknown w f registry (e ∷ edges) ≡ [] → snapshot_of w f built ≡ ok snapshot
      made all_known = ground (arith, h, all_known)
