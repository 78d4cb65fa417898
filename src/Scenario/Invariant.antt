-- ===== src/Scenario/Invariant.antt =====
-- graph.py: what the queue and the best visits keep true while `scenario` searches.
use Prim.Native.Nat.{ℕ, suc, ◌≤◌, ◌<◌}
use mathlib.Core.Option.{some-injective}
use mathlib.Core.List.{Memᴰ}
use mathlib.Core.List.Memᴰ
use agentic_alpha_engine.Prelude.{
  ◌≡◌, refl, sym, ap, subst, ◌⊎◌, inl, inr, String, String_eq, true, false, Option, none, some,
  List, [], ◌∷◌, arith, All, All-map, All-append, All-mem, Pairwise, Pairwise-snoc,
}
use agentic_alpha_engine.Dict.{insert, lookup, All-insert, lookup-insert_kept, lookup-insert_self}
use agentic_alpha_engine.Graph.Contracts.{DateTime}
use agentic_alpha_engine.Scenario.Contracts.{Platform, float_le}
use agentic_alpha_engine.Scenario.Propagation.{Edge, Reached, Visit, Search, is_kept, update}
use agentic_alpha_engine.Scenario.Walks.{Walk, Dominates}

-- one of the visits dominates
abbrev pub Dominated : (w : Platform) → List (Visit w) → Visit w → Type 0
Dominated w seen v = (u : Visit w) × Memᴰ u seen × Dominates w u v

pub Dominated-grows :
    (w : Platform) (seen seen' : List (Visit w)) (v : Visit w)
    → ((u : Visit w) → Memᴰ u seen → Memᴰ u seen')
    → Dominated w seen v
    → Dominated w seen' v
Dominated-grows w seen seen' v grows (u, m, d) = (u, grows u m, d)

module _ (w : Platform) (edges : List (Edge w)) (at : DateTime) (entity : String)
    (severity : w.Float) (max_hops : ℕ) where
  -- an item of `best` is of a visit
  abbrev pub Visited : List (Visit w) → String → Reached w → Type 0
  Visited seen x r = (v : Visit w) × Memᴰ v seen × (v.entity ≡ x) × (v.reached ≡ r)

  -- `seen` are all visits that were ever in the queue; the queue has `level` and one hop more.
  pub record Inv (level : ℕ) (seen : List (Visit w)) (s : Search w) : Type 0 where
    pub walks : All (λ v. Walk w edges at entity severity v) seen
    pub within : All (λ v. v.hops ≤ max_hops) seen
    pub below : All (λ v. v.hops ≤ suc level) seen
    pub from_level : All (λ v. level ≤ v.hops) s.frontier
    pub ordered : Pairwise (λ u v. u.hops ≤ v.hops) s.frontier
    pub pending : All (λ v. Memᴰ v seen) s.frontier
    pub visited : All (λ p. Visited seen p.0 p.1) s.best
    pub covered :
        All
          (λ v.
            (r : Reached w) × (lookup v.entity s.best ≡ some r)
            × (float_le w v.reached.severity r.severity ≡ true))
          seen

  -- the second search has gone on from the first
  pub record Extends (seen : List (Visit w)) (s : Search w) (seen' : List (Visit w)) (s' : Search w)
      : Type 0 where
    pub grows : (v : Visit w) → Memᴰ v seen → Memᴰ v seen'
    pub stays : (v : Visit w) → Memᴰ v s.frontier → Memᴰ v s'.frontier
    pub queued : (v : Visit w) → Memᴰ v seen' → Memᴰ v seen ⊎ Memᴰ v s'.frontier

  pub Extends-refl : (seen : List (Visit w)) (s : Search w) → Extends seen s seen s
  Extends-refl seen s = record { grows = λ v m. m; stays = λ v m. m; queued = λ v m. inl m }

  pub Extends-trans :
      {seen seen' seen'' : List (Visit w)} {s s' s'' : Search w}
      → Extends seen s seen' s'
      → Extends seen' s' seen'' s''
      → Extends seen s seen'' s''
  Extends-trans f g = record {
    grows = λ v m. g.grows v (f.grows v m);
    stays = λ v m. g.stays v (f.stays v m);
    queued = λ v m. elim (g.queued v m) [
      | inr last ↦ inr last
      | inl m' ↦ elim (f.queued v m') [ inl first ↦ inl first | inr mid ↦ inr (g.stays v mid) ]
    ];
  }

  pub float_le_refl : (a : w.Float) → float_le w a a ≡ true
  float_le_refl a = ground (arith, (w.float_ord).le_total a a)

  -- What is kept is at least as severe.
  pub is_kept-true :
      (o : Option (Reached w)) (r : Reached w) (propagated : w.Float)
      → is_kept w o propagated ≡ true
      → o ≡ some r
      → float_le w propagated r.severity ≡ true
  is_kept-true none r p h is = ground arith
  is_kept-true (some r') r p h is =
      let same = ap (λ (x : Reached w). x.severity) (some-injective r' r is) in
      subst (λ x. float_le w p x ≡ true) same h

  -- What is not kept is less severe.
  is_kept-false :
      (o : Option (Reached w)) (r : Reached w) (propagated : w.Float)
      → is_kept w o propagated ≡ false
      → o ≡ some r
      → float_le w r.severity propagated ≡ true
  is_kept-false none r p h is = ground arith
  is_kept-false (some r') r p h is =
      let same = ap (λ (x : Reached w). x.severity) (some-injective r' r is) in
      subst (λ x. float_le w x p ≡ true) same
        (ground (arith, h, (w.float_ord).le_total p r'.severity))

  module _ (new : Visit w) (seen : List (Visit w)) (s : Search w) (level : ℕ) where
    -- The best visits after a push.
    update-Visited :
        Inv level seen s
        → All (λ p. Visited (new ∷ seen) p.0 p.1) (insert new.entity new.reached s.best)
    update-Visited inv =
        All-insert (λ p. Visited (new ∷ seen) p.0 p.1) new.entity new.reached s.best
          (new, Memᴰ.head refl, refl, refl)
          (All-map (λ p (u, m, there, is). (u, Memᴰ.tail m, there, is)) s.best inv.visited)

    still_covered :
        is_kept w (lookup new.entity s.best) new.reached.severity ≡ false
        → (u : Visit w)
        → (r : Reached w) × (lookup u.entity s.best ≡ some r)
          × (float_le w u.reached.severity r.severity ≡ true)
        → (r : Reached w) × (lookup u.entity (insert new.entity new.reached s.best) ≡ some r)
          × (float_le w u.reached.severity r.severity ≡ true)
    still_covered better u (r, found, less) =
        elim (lookup-insert_kept new.entity u.entity new.reached s.best found) [
          | inl (same, now) ↦ (
            new.reached,
            now,
            (w.float_ord).le_trans _ r.severity _ less (
                is_kept-false (lookup new.entity s.best) r _ better
                  (subst (λ x. lookup x s.best ≡ some r) (sym same) found)),
          )
          | inr still ↦ (r, still, less)
        ]

    -- The queue and the best visits after a push, one hop past the level.
    pub update-Inv :
        new.hops ≡ suc level
        → level < max_hops
        → Walk w edges at entity severity new
        → is_kept w (lookup new.entity s.best) new.reached.severity ≡ false
        → Inv level seen s
        → Inv level (new ∷ seen) (update w new s)
    unfolding update
    update-Inv next near walk better inv = record {
      walks = (walk, inv.walks);
      within = (omega (arith, near, next), inv.within);
      below = (omega (arith, next), inv.below);
      from_level = All-append _ s.frontier (new ∷ []) inv.from_level (omega (arith, next), tt);
      ordered = Pairwise-snoc _ s.frontier new inv.ordered (
          All-map (λ u m. omega (arith, next, All-mem (λ x. x.hops ≤ suc level) seen inv.below m))
            s.frontier inv.pending);
      pending =
          All-append _ s.frontier (new ∷ []) (All-map (λ u m. Memᴰ.tail m) s.frontier inv.pending)
            (Memᴰ.head refl, tt);
      visited = update-Visited inv;
      covered = (
        (
          new.reached,
          lookup-insert_self new.entity new.reached s.best,
          float_le_refl new.reached.severity,
        ),
        All-map (still_covered better) seen inv.covered,
      );
    }

    pub update-Extends : Extends seen s (new ∷ seen) (update w new s)
    unfolding update
    update-Extends = record {
      grows = λ u m. Memᴰ.tail m;
      stays = λ u m. Memᴰ.append_left (new ∷ []) m;
      queued = λ u m. elim (Memᴰ.cases_cons m) [
        | inl is ↦ inr (Memᴰ.append_right s.frontier (Memᴰ.head is))
        | inr before ↦ inl before
      ];
    }
