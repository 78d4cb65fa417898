-- ===== src/Candidates/Bounded.antt =====
-- candidate_graph.py: what `build` keeps below its bound, and what its edges join.
use Prim.Native.Nat.{ℕ, ◌+◌, ◌≤◌}
use agentic_alpha_engine.Prelude.{
  ◌≡◌, ap, subst, String, String_eq, ×_eq, Bool, true, false, not, ◌&&◌, ◌||◌, [], ◌∷◌, ◌++◌, arith,
  All, All-map, All-append, Bool-cases, inl, inr, length, keep, contains, if◌then◌else◌,
}
use agentic_alpha_engine.Dict.{insert, has_key, values}
use agentic_alpha_engine.Effects.{ok, ok_injective, result_cases}
use agentic_alpha_engine.Scenario.Contracts.{Platform}
use agentic_alpha_engine.Scenario.Registry.{EntityRegistry, entity_ids}
use agentic_alpha_engine.Candidates.Contracts.{
  Texts, is_discovered, CandidateGraphEntity, checked_entity, DiscoveredRelationship,
  CandidateGraphEdge, checked_edge,
}
use agentic_alpha_engine.Candidates.Builder.{
  Nodes, discovered_among, Building, ignore, edge_key, edge_of, with_nodes, add_edge, new_nodes,
  is_full, connect,
}
use agentic_alpha_engine.Candidates.Counting.{
  one_if, Proper, Fits, total, added, length-total, total-insert, Fits-insert, has_key-insert,
  has_key-insert_self,
}

pub checked_entity-ok : (e n : CandidateGraphEntity) → checked_entity e ≡ ok n → e ≡ n
unfolding checked_entity
checked_entity-ok e n h = ground (arith, h)

module _ (t : Texts) (w : Platform) (maximum : ℕ) (registry : EntityRegistry) where
  abbrev pub is_anchor : String → Bool
  is_anchor id = contains (entity_ids registry) id

  abbrev count_nodes : Nodes → ℕ
  count_nodes = total is_anchor

  -- an edge between two nodes, one of them an anchor
  pub record Joined (nodes : Nodes) (e : CandidateGraphEdge w) : Type 0 where
    pub source_there : has_key e.source_entity_id nodes ≡ true
    pub target_there : has_key e.target_entity_id nodes ≡ true
    pub anchored : (is_anchor e.source_entity_id || is_anchor e.target_entity_id) ≡ true

  pub record Inv (b : Building t w) : Type 0 where
    pub fits : Fits is_anchor b.nodes
    pub bounded : count_nodes b.nodes ≤ maximum
    pub joined : All (Joined b.nodes) b.edges

  Joined-insert :
      (n : CandidateGraphEntity) (d : Nodes) (e : CandidateGraphEdge w)
      → Joined d e
      → Joined (insert n.entity_id n d) e
  Joined-insert n d e j = record {
    source_there = has_key-insert is_anchor n.entity_id e.source_entity_id n d j.source_there;
    target_there = has_key-insert is_anchor n.entity_id e.target_entity_id n d j.target_there;
    anchored = j.anchored;
  }

  -- The nodes after both ends of a relationship were assigned.
  module _ (source target : CandidateGraphEntity) (nodes : Nodes) where
    abbrev first : Nodes
    first = insert source.entity_id source nodes

    abbrev both : Nodes
    both = insert target.entity_id target first

    length-new :
        length (new_nodes t w source target nodes)
        ≡ added is_anchor source nodes + added is_anchor target nodes
    unfolding keep
    length-new = ground arith

    added_le :
        (n : CandidateGraphEntity) (d : Nodes) → added is_anchor n d ≤ one_if (is_discovered n.kind)
    added_le n d = ground arith

    later : added is_anchor target first ≤ added is_anchor target nodes
    later = elim (Bool-cases (has_key target.entity_id nodes)) [
      | inl there ↦ omega (
        arith,
        ap (λ b. if b then 0 else one_if (is_discovered target.kind))
            (has_key-insert is_anchor source.entity_id target.entity_id source nodes there),
      )
      | inr new ↦ omega (
        arith,
        added_le target first,
        ap (λ b. if b then 0 else one_if (is_discovered target.kind)) new,
      )
    ]

    both-bounded :
        Proper is_anchor source
        → Proper is_anchor target
        → Fits is_anchor nodes
        → is_full t w maximum source target nodes ≡ false
        → count_nodes both ≤ maximum
    both-bounded p q fits room = omega (
      arith,
      total-insert is_anchor source nodes p fits,
      total-insert is_anchor target first q (Fits-insert is_anchor source nodes p fits),
      later,
      length-new,
      length-total is_anchor nodes,
      space,
    )
      where
        space :
            length (discovered_among (values nodes)) + length (new_nodes t w source target nodes)
            ≤ maximum
        space = ground (arith, room)

  edge-ok : (given edge : CandidateGraphEdge w) → checked_edge w given ≡ ok edge → given ≡ edge
  unfolding checked_edge
  edge-ok given edge h = ground (arith, h)

  module _ (source target : CandidateGraphEntity) (r : DiscoveredRelationship w)
      (b next : Building t w) (inv : Inv b) where
    add_edge-Inv :
        (has_key source.entity_id b.nodes ≡ true)
        → (has_key target.entity_id b.nodes ≡ true)
        → (is_anchor source.entity_id || is_anchor target.entity_id) ≡ true
        → add_edge t w source target r b ≡ ok next
        → Inv next
    unfolding add_edge
    add_edge-Inv there there' anchored h =
        elim (Bool-cases
          (contains b.edge_keys (edge_key t w source.entity_id target.entity_id r))) [
            | inl known ↦ subst Inv (ok_injective (same known)) inv
            | inr new ↦
                elim (result_cases
                  (checked_edge w (edge_of t w source.entity_id target.entity_id r))) [
                    | inr (e, failed) ↦ absurd (ground (arith, h, new, failed))
                    | inl (edge, made) ↦ subst Inv (ok_injective (grown new edge made)) (record {
                      fits = inv.fits;
                      bounded = inv.bounded;
                      joined = All-append (Joined b.nodes) b.edges (edge ∷ []) inv.joined (
                        subst (Joined b.nodes) (edge-ok _ edge made) (record {
                          source_there = there;
                          target_there = there';
                          anchored = anchored;
                        }),
                        tt,
                      );
                    })
                  ]
          ]
      where
        same :
            contains b.edge_keys (edge_key t w source.entity_id target.entity_id r) ≡ true
            → ok b ≡ ok next
        same known = ground (arith, h, known)

        grown :
            contains b.edge_keys (edge_key t w source.entity_id target.entity_id r) ≡ false
            → (edge : CandidateGraphEdge w)
            → checked_edge w (edge_of t w source.entity_id target.entity_id r) ≡ ok edge
            → ok (record b {
              edges = b.edges ++ edge ∷ [];
              edge_keys = edge_key t w source.entity_id target.entity_id r ∷ b.edge_keys;
            })
              ≡ ok next
        grown new edge made = ground (arith, h, new, made)

  module _ (source target : CandidateGraphEntity) (r : DiscoveredRelationship w)
      (b next : Building t w) (p : Proper is_anchor source) (q : Proper is_anchor target)
      (inv : Inv b) where
    ignore-Inv : Inv (ignore t w b)
    ignore-Inv = record { fits = inv.fits; bounded = inv.bounded; joined = inv.joined }

    with_nodes-Inv :
        is_full t w maximum source target b.nodes ≡ false → Inv (with_nodes t w source target b)
    with_nodes-Inv room = record {
      fits =
          Fits-insert is_anchor target (first source target b.nodes) q
            (Fits-insert is_anchor source b.nodes p inv.fits);
      bounded = both-bounded source target b.nodes p q inv.fits room;
      joined =
          All-map
            (λ e j.
              Joined-insert target (first source target b.nodes) e
                (Joined-insert source b.nodes e j))
            b.edges inv.joined;
    }

    pub connect-Inv : connect t w maximum registry source target r b ≡ ok next → Inv next
    unfolding connect
    connect-Inv h =
        elim (Bool-cases (not (is_anchor source.entity_id) && not (is_anchor target.entity_id))) [
          | inl far ↦ subst Inv (ok_injective (skipped far)) ignore-Inv
          | inr near ↦ elim (Bool-cases (is_full t w maximum source target b.nodes)) [
            | inl full ↦ subst Inv (ok_injective (dropped near full)) ignore-Inv
            | inr room ↦
                add_edge-Inv source target r (with_nodes t w source target b) next
                  (with_nodes-Inv room)
                  (has_key-insert is_anchor target.entity_id source.entity_id target
                    (first source target b.nodes)
                    (has_key-insert_self is_anchor source.entity_id source b.nodes))
                  (has_key-insert_self is_anchor target.entity_id target
                    (first source target b.nodes))
                  (ground (arith, near)) (joined near room)
          ]
        ]
      where
        skipped :
            (not (is_anchor source.entity_id) && not (is_anchor target.entity_id)) ≡ true
            → ok (ignore t w b) ≡ ok next
        skipped far = ground (arith, h, far)

        dropped :
            (not (is_anchor source.entity_id) && not (is_anchor target.entity_id)) ≡ false
            → is_full t w maximum source target b.nodes ≡ true
            → ok (ignore t w b) ≡ ok next
        dropped near full = ground (arith, h, near, full)

        joined :
            (not (is_anchor source.entity_id) && not (is_anchor target.entity_id)) ≡ false
            → is_full t w maximum source target b.nodes ≡ false
            → add_edge t w source target r (with_nodes t w source target b) ≡ ok next
        joined near room = ground (arith, h, near, room)
