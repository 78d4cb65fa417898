-- ===== src/Graph/Visibility.antt =====
-- temporal_graph/contracts.py: visibility and the overlap of edge states.
use agentic_alpha_engine.Prelude.{
  ◌≡◌, refl, Bool, true, ◌&&◌, Option, none, some, arith, and_left, and_right,
}
use agentic_alpha_engine.Graph.Contracts.{
  DateTime, at_most, before_end, Library, GraphEdgeState, effective_overlap, knowledge_overlap,
  is_visible,
}

module _ (w : Library) where
  -- An interval that started by an instant starts before the end of one that contains it.
  starts_before :
      (start at : DateTime) (end : Option DateTime)
      → at_most start at ≡ true
      → before_end w at end ≡ true
      → before_end w start end ≡ true
  starts_before start at none h k = refl
  starts_before start at (some end) h k = ground arith

  both_true : (a b : Bool) → a ≡ true → b ≡ true → (a && b) ≡ true
  both_true a b h k = ground arith

  -- Two edge states that are visible at the same two clocks overlap in effect and in knowledge, by the
  -- tests that `validate_graph` applies to the edges of one pair.
  pub shown_together :
      (effective known : DateTime) (prior edge : GraphEdgeState w)
      → is_visible w effective known prior ≡ true
      → is_visible w effective known edge ≡ true
      → (effective_overlap w prior edge ≡ true) × (knowledge_overlap w prior edge ≡ true)
  unfolding is_visible effective_overlap knowledge_overlap
  shown_together effective known prior edge h k =
      let (a, b, c, d) = parts prior h in
      let (a', b', c', d') = parts edge k in
      (
        both_true _ _ (starts_before edge.effective_from effective prior.effective_to a' b)
            (starts_before prior.effective_from effective edge.effective_to a b'),
        both_true _ _ (starts_before edge.knowledge_from known prior.knowledge_to c' d)
            (starts_before prior.knowledge_from known edge.knowledge_to c d'),
      )
    where
      parts :
          (e : GraphEdgeState w)
          → is_visible w effective known e ≡ true
          → (at_most e.effective_from effective ≡ true)
            × (before_end w effective e.effective_to ≡ true)
            × (at_most e.knowledge_from known ≡ true)
            × (before_end w known e.knowledge_to ≡ true)
      parts e v =
          let left = and_left _ (before_end w known e.knowledge_to) v in
          let start = and_left _ (at_most e.knowledge_from known) left in
          (
            and_left (at_most e.effective_from effective) _ start,
            and_right _ (before_end w effective e.effective_to) start,
            and_right _ (at_most e.knowledge_from known) left,
            and_right _ (before_end w known e.knowledge_to) v,
          )
