-- ===== src/Candidates/Capped.antt =====
-- candidate_graph.py: a graph that was built keeps its bound, and its edges join its nodes.
use Prim.Native.Nat.{ℕ, ◌≤◌}
use mathlib.Core.List.{Memᴰ}
use mathlib.Core.List.Memᴰ
use agentic_alpha_engine.Prelude.{
  ◌≡◌, refl, sym, ap, subst, ◌∙◌, inl, inr, String, String_eq, Bool, true, false, ◌||◌, List, [],
  ◌∷◌, map, arith, All, All-map, mem-All, Bool-cases, Option-cases, length, contains, ◌==◌, ==_iff,
  ltb,
}
use agentic_alpha_engine.Dict.{lookup, insert}
use agentic_alpha_engine.Effects.{Error, ok, err, ok_injective, result_cases}
use agentic_alpha_engine.Scenario.Contracts.{Platform}
use agentic_alpha_engine.Scenario.Registry.{EntityRecord, EntityRegistry, entity_ids}
use agentic_alpha_engine.Candidates.Contracts.{
  Texts, CandidateGraphEntity, checked_entity, DiscoveredRelationship, CandidateEvidenceGraph,
}
use agentic_alpha_engine.Candidates.Builder.{
  anchor_of, entity_with, Nodes, anchors, discovered_among, normalized, candidate_id, discovered_of,
  aliases_of, resolve, Building, add_relationship, add_all, finished, build,
}
use agentic_alpha_engine.Candidates.Counting.{
  Proper, Fits, total, length-total, total-insert, Fits-insert, has_key-node,
}
use agentic_alpha_engine.Candidates.Bounded.{checked_entity-ok, is_anchor, Inv, connect-Inv}

entity_with-contains :
    (id : String) (es : List EntityRecord) (e : EntityRecord)
    → entity_with id es ≡ ok e
    → contains (map (λ x. x.entity_id) es) e.entity_id ≡ true
unfolding entity_with contains
entity_with-contains id [] e h = absurd (ground (arith, h))
entity_with-contains id (x ∷ es) e h = elim (Bool-cases (x.entity_id == id)) [
  | inl same ↦ ground (
    arith,
    (==_iff x.entity_id e.entity_id).1
        (ap (λ (y : EntityRecord). y.entity_id) (ok_injective (found same))),
  )
  | inr other ↦ ground (arith, entity_with-contains id es e (later other))
]
  where
    found : (x.entity_id == id) ≡ true → ok x ≡ ok e
    found same = ground (arith, h, same)

    later : (x.entity_id == id) ≡ false → entity_with id es ≡ ok e
    later other = ground (arith, h, other)

mem-contains :
    (e : EntityRecord) (es : List EntityRecord)
    → Memᴰ e es
    → contains (map (λ x. x.entity_id) es) e.entity_id ≡ true
unfolding contains
mem-contains e [] m = elim m [ ]
mem-contains e (x ∷ es) m = elim (Memᴰ.cases_cons m) [
  | inl is ↦
      ground (
        arith,
        (==_iff x.entity_id e.entity_id).1 (ap (λ (y : EntityRecord). y.entity_id) (sym is)),
      )
  | inr later ↦ ground (arith, mem-contains e es later)
]

module _ (t : Texts) (w : Platform) (maximum : ℕ) (registry : EntityRegistry) where
  -- no anchor has the id of a discovered entity
  abbrev pub Apart : Type 0
  Apart = (name : String) → contains (entity_ids registry) (candidate_id t name) ≡ false

  abbrev test : String → Bool
  test = is_anchor t w maximum registry

  resolve-Proper :
      Apart
      → (name : String) (n : CandidateGraphEntity) → resolve t registry name ≡ ok n
      → Proper test n
  unfolding resolve
  resolve-Proper apart name n h =
      elim (Option-cases (lookup (normalized t name) (aliases_of t registry.entities []))) [
        | inl missing ↦
            subst (Proper test)
              (checked_entity-ok (discovered_of t name) n (ground (arith, h, missing)))
              (ground (arith, apart name))
        | inr (id, found) ↦ elim (result_cases (entity_with id registry.entities)) [
          | inr (e, failed) ↦ absurd (ground (arith, h, found, failed))
          | inl (entity, is) ↦
              subst (Proper test)
                (checked_entity-ok (anchor_of entity) n (ground (arith, h, found, is)))
                (ground (arith, entity_with-contains id registry.entities entity is))
        ]
      ]

  add_relationship-Inv :
      Apart
      → (r : DiscoveredRelationship w) (b next : Building t w) → Inv t w maximum registry b
      → add_relationship t w maximum registry r b ≡ ok next
      → Inv t w maximum registry next
  unfolding add_relationship
  add_relationship-Inv apart r b next inv h =
      elim (result_cases (resolve t registry r.source_entity_name)) [
        | inr (e, failed) ↦ absurd (ground (arith, h, failed))
        | inl (source, is) ↦ elim (result_cases (resolve t registry r.target_entity_name)) [
          | inr (e, failed) ↦ absurd (ground (arith, h, is, failed))
          | inl (target, is') ↦
              connect-Inv t w maximum registry source target r b next
                (resolve-Proper apart r.source_entity_name source is)
                (resolve-Proper apart r.target_entity_name target is') inv
                (ground (arith, h, is, is'))
        ]
      ]

  add_all-Inv :
      Apart
      → (rs : List (DiscoveredRelationship w)) (b last : Building t w) → Inv t w maximum registry b
      → add_all t w maximum registry rs b ≡ ok last
      → Inv t w maximum registry last
  unfolding add_all
  add_all-Inv apart [] b last inv h = subst (Inv t w maximum registry) (ok_injective h) inv
  add_all-Inv apart (r ∷ rs) b last inv h =
      elim (result_cases (add_relationship t w maximum registry r b)) [
        | inr (e, failed) ↦ absurd (ground (arith, h, failed))
        | inl (next, is) ↦
            add_all-Inv apart rs next last (add_relationship-Inv apart r b next inv is)
              (ground (arith, h, is))
      ]

  -- The anchors are proper, and none of them is discovered.
  anchors-Fits :
      (es : List EntityRecord) (d nodes : Nodes)
      → All (λ e. test e.entity_id ≡ true) es
      → Fits test d
      → total test d ≡ 0
      → anchors es d ≡ ok nodes
      → Fits test nodes × (total test nodes ≡ 0)
  unfolding anchors
  anchors-Fits [] d nodes all fits none_yet h =
      subst (λ x. Fits test x × (total test x ≡ 0)) (ok_injective h) (fits, none_yet)
  anchors-Fits (e ∷ es) d nodes (here, all) fits none_yet h =
      elim (result_cases (checked_entity (anchor_of e))) [
        | inr (x, failed) ↦ absurd (ground (arith, h, failed))
        | inl (n, is) ↦
            anchors-Fits es (insert e.entity_id (anchor_of e) d) nodes all
              (Fits-insert test (anchor_of e) d (ground (arith, here)) fits)
              (ground
                (arith, total-insert test (anchor_of e) d (ground (arith, here)) fits, none_yet))
              (went n is)
      ]
    where
      went :
          (n : CandidateGraphEntity)
          → checked_entity (anchor_of e) ≡ ok n
          → anchors es (insert e.entity_id (anchor_of e) d) ≡ ok nodes
      went n is =
          ap (λ x. anchors es (insert e.entity_id x d)) (checked_entity-ok (anchor_of e) n is)
          ∙ ground (arith, h, is)

  -- what a built graph keeps
  pub record Capped (g : CandidateEvidenceGraph w) : Type 0 where
    pub few : length (discovered_among g.nodes) ≤ maximum
    pub ends :
        All
          (λ e.
            (contains (map (λ n. n.entity_id) g.nodes) e.source_entity_id ≡ true)
            × (contains (map (λ n. n.entity_id) g.nodes) e.target_entity_id ≡ true)
            × ((contains (entity_ids registry) e.source_entity_id
                  || contains (entity_ids registry) e.target_entity_id)
                ≡ true))
          g.edges

  finished-Capped :
      (b : Building t w) → Inv t w maximum registry b → Capped (finished t w registry b)
  finished-Capped b inv = record {
    few = subst (λ n. n ≤ maximum) (sym (length-total test b.nodes)) inv.bounded;
    ends =
        All-map
          (λ e j. (
            has_key-node test e.source_entity_id b.nodes inv.fits j.source_there,
            has_key-node test e.target_entity_id b.nodes inv.fits j.target_there,
            j.anchored,
          ))
          b.edges inv.joined;
  }

  abbrev begun : Nodes → Building t w
  begun nodes = record { nodes = nodes; edges = []; edge_keys = []; ignored = 0 }

  none_at_first : total test [] ≡ 0
  unfolding total
  none_at_first = refl

  own : All (λ e. test e.entity_id ≡ true) registry.entities
  own = mem-All _ registry.entities (λ e m. mem-contains e registry.entities m)

  -- Where no anchor has the id of a discovered entity, a graph that is built has no more discovered nodes
  -- than its bound, and every edge joins two of its nodes, at least one of them an anchor.
  pub build-Capped :
      Apart
      → (relationships : List (DiscoveredRelationship w)) (g : CandidateEvidenceGraph w)
      → build t w maximum registry relationships ≡ ok g
      → Capped g
  unfolding build
  build-Capped apart relationships g h = elim (Bool-cases (ltb maximum 1)) [
    | inl none_allowed ↦ absurd (ground (arith, h, none_allowed))
    | inr allowed ↦ elim (result_cases (anchors registry.entities [])) [
      | inr (e, failed) ↦ absurd (ground (arith, h, allowed, failed))
      | inl (nodes, is) ↦
          elim (result_cases (add_all t w maximum registry relationships (begun nodes))) [
            | inr (e, failed) ↦ absurd (broken nodes e allowed is failed)
            | inl (b, done) ↦
                let (fits, none_yet) =
                  anchors-Fits registry.entities [] nodes own tt none_at_first is in
                subst Capped (ok_injective (ended nodes b allowed is done)) (
                  finished-Capped b (
                    add_all-Inv apart relationships (begun nodes) b
                      (record { fits = fits; bounded = omega (arith, none_yet); joined = tt })
                      done))
          ]
    ]
  ]
    where
      broken :
          (nodes : Nodes) (e : Error)
          → ltb maximum 1 ≡ false
          → anchors registry.entities [] ≡ ok nodes
          → add_all t w maximum registry relationships (begun nodes) ≡ err e
          → ⊥
      broken nodes e allowed is failed = ground (arith, h, allowed, is, failed)

      ended :
          (nodes : Nodes) (b : Building t w)
          → ltb maximum 1 ≡ false
          → anchors registry.entities [] ≡ ok nodes
          → add_all t w maximum registry relationships (begun nodes) ≡ ok b
          → ok (finished t w registry b) ≡ ok g
      ended nodes b allowed is done = ground (arith, h, allowed, is, done)
