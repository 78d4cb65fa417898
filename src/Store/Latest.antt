-- ===== src/Store/Latest.antt =====
-- persistence/repositories.py: the latest version of a workspace.
use Prim.Native.Nat.{◌≤◌}
use mathlib.Core.Option.{some-injective}
use mathlib.Core.List.{Memᴰ}
use mathlib.Core.List.Memᴰ
use agentic_alpha_engine.Prelude.{
  ◌≡◌, ◌≢◌, refl, sym, subst, ◌∙◌, ◌⊎◌, inl, inr, String, String_eq, String_ord, ℕ_ord, ×_ord, true,
  false, Option, none, some, List, [], ◌∷◌, arith, All, All-map, All-mem, mem-All, All-sorted,
  Bool-cases, Option-cases, ◌==◌, ==_iff,
}
use agentic_alpha_engine.Dict.{
  Dict, lookup, insert, values, lookup-cons, lookup-item, lookup-insert_kept, lookup-insert_self,
  All-insert,
}
use agentic_alpha_engine.Effects.{ok, ok_injective}
use agentic_alpha_engine.Store.Versioned.{Contracts, Records}
use agentic_alpha_engine.Store.Listing.{
  workspace_of, is_later, latest_of, workspaces, workspace_key, list_workspaces, first_workspace,
  latest_workspace,
}

module _ (w : Contracts) where
  -- each key once, and each record under its workspace
  Unique : Dict String w.Record → Type 0
  Unique [] = Unit
  Unique ((k, v) ∷ d) = All (λ p. p.0 ≢ k) d × Unique d

  Unique-insert :
      (k : String) (v : w.Record) (d : Dict String w.Record) → Unique d → Unique (insert k v d)
  unfolding Unique insert
  Unique-insert k v [] u = (tt, tt)
  Unique-insert k v ((j, x) ∷ d) u = elim (Bool-cases (j == k)) [
    | inl same ↦ rw (insert, same) u
    | inr other ↦
        rw (insert, other)
          (
            All-insert (λ p. p.0 ≢ j) k v d (λ is. ground (arith, other, ==_iff j k, is)) u.0,
            Unique-insert k v d u.1,
          )
  ]

  Unique-lookup :
      (k : String) (v : w.Record) (d : Dict String w.Record)
      → Unique d
      → lookup k d ≡ some v
      → All (λ p. p.0 ≡ k → p.1 ≡ v) d
  unfolding Unique
  Unique-lookup k v [] u found = tt
  Unique-lookup k v ((j, x) ∷ d) u found = elim (lookup-cons k j x v d found) [
    | inl (is, same) ↦ (λ q. same, All-map (λ p differs q. absurd (differs (q ∙ sym is))) d u.0)
    | inr later ↦ (λ q. absurd (gone q later), Unique-lookup k v d u.1 later)
  ]
    where
      gone : j ≡ k → lookup k d ≡ some v → ⊥
      gone q later = lookup-item (λ p. p.0 ≢ j) k d u.0 later (sym q)

  -- the records that the loop has seen, none later than the one kept for its workspace
  record Kept (seen : List w.Record) (latest : Dict String w.Record) : Type 0 where
    unique : Unique latest
    from_seen : All (λ p. Memᴰ p.1 seen × (workspace_of w p.1 ≡ p.0)) latest
    covered :
        All
          (λ r.
            (v : w.Record) × (lookup (workspace_of w r) latest ≡ some v)
            × (w.version r ≤ w.version v))
          seen

  module _ (r : w.Record) (seen : List w.Record) (latest : Dict String w.Record)
      (kept : Kept seen latest) where
    is_later-some :
        (o : Option w.Record) (v : w.Record)
        → is_later w o r ≡ true
        → o ≡ some v
        → w.version v ≤ w.version r
    is_later-some none v h is = ground (arith, is)
    is_later-some (some x) v h is =
        let same = some-injective x v is in
        subst (λ y. w.version y ≤ w.version r) same (ground (arith, h))

    later-Kept :
        is_later w (lookup (workspace_of w r) latest) r ≡ true
        → Kept (r ∷ seen) (insert (workspace_of w r) r latest)
    later-Kept h = record {
      unique = Unique-insert (workspace_of w r) r latest kept.unique;
      from_seen =
          All-insert (λ p. Memᴰ p.1 (r ∷ seen) × (workspace_of w p.1 ≡ p.0)) (workspace_of w r) r
            latest (Memᴰ.head refl, refl)
            (All-map (λ p (m, is). (Memᴰ.tail m, is)) latest kept.from_seen);
      covered = (
        (r, lookup-insert_self (workspace_of w r) r latest, omega arith),
        All-map
            (λ x (v, found, le).
              elim (lookup-insert_kept (workspace_of w r) (workspace_of w x) r latest found) [
                | inl (same, now) ↦ (
                  r,
                  now,
                  omega (
                    arith,
                    le,
                    is_later-some (lookup (workspace_of w r) latest) v h
                        (subst (λ k. lookup k latest ≡ some v) (sym same) found),
                  ),
                )
                | inr still ↦ (v, still, le)
              ])
            seen kept.covered,
      );
    }

    older-Kept : is_later w (lookup (workspace_of w r) latest) r ≡ false → Kept (r ∷ seen) latest
    older-Kept h = record {
      unique = kept.unique;
      from_seen = All-map (λ p (m, is). (Memᴰ.tail m, is)) latest kept.from_seen;
      covered = (
        elim (Option-cases (lookup (workspace_of w r) latest)) [
          | inl missing ↦ absurd (ground (arith, h, missing))
          | inr (v, found) ↦ (v, found, ground (arith, h, found))
        ],
        kept.covered,
      );
    }

  -- the loop's result, for the records that it had seen and those that it reads
  record LoopEnd (rs seen : List w.Record) (final : Dict String w.Record) : Type 0 where
    all : List w.Record
    kept : Kept all final
    included : (x : w.Record) → Memᴰ x rs ⊎ Memᴰ x seen → Memᴰ x all
    nothing_else : (x : w.Record) → Memᴰ x all → Memᴰ x rs ⊎ Memᴰ x seen

  shift :
      {x r : w.Record} {rs seen : List w.Record}
      → Memᴰ x (r ∷ rs) ⊎ Memᴰ x seen
      → Memᴰ x rs ⊎ Memᴰ x (r ∷ seen)
  shift (inl m) = elim (Memᴰ.cases_cons m) [ inl is ↦ inr (Memᴰ.head is) | inr later ↦ inl later ]
  shift (inr m) = inr (Memᴰ.tail m)

  unshift :
      {x r : w.Record} {rs seen : List w.Record}
      → Memᴰ x rs ⊎ Memᴰ x (r ∷ seen)
      → Memᴰ x (r ∷ rs) ⊎ Memᴰ x seen
  unshift (inl m) = inl (Memᴰ.tail m)
  unshift (inr m) = elim (Memᴰ.cases_cons m) [ inl is ↦ inl (Memᴰ.head is) | inr later ↦ inr later ]

  one_more :
      (r : w.Record) (rs seen : List w.Record) (final : Dict String w.Record)
      → LoopEnd rs (r ∷ seen) final
      → LoopEnd (r ∷ rs) seen final
  one_more r rs seen final reached = record {
    all = reached.all;
    kept = reached.kept;
    included = λ x m. reached.included x (shift m);
    nothing_else = λ x m. unshift (reached.nothing_else x m);
  }

  latest_of-LoopEnd :
      (rs seen : List w.Record) (latest : Dict String w.Record)
      → Kept seen latest
      → LoopEnd rs seen (latest_of w rs latest)
  unfolding latest_of
  latest_of-LoopEnd [] seen latest k = record {
    all = seen;
    kept = k;
    included = λ x m. elim m [ inl none_left ↦ elim none_left [ ] | inr there ↦ there ];
    nothing_else = λ x m. inr m;
  }
  latest_of-LoopEnd (r ∷ rs) seen latest k =
      elim (Bool-cases (is_later w (lookup (workspace_of w r) latest) r)) [
        | inl later ↦ rw (later) (
            one_more r rs seen (latest_of w rs (insert (workspace_of w r) r latest)) (
              latest_of-LoopEnd rs (r ∷ seen) (insert (workspace_of w r) r latest)
                (later-Kept r seen latest k later)))
        | inr older ↦ rw (older) (
            one_more r rs seen (latest_of w rs latest)
              (latest_of-LoopEnd rs (r ∷ seen) latest (older-Kept r seen latest k older)))
      ]

  values-All :
      (P : w.Record → Type 0) (d : Dict String w.Record) → All (λ p. P p.1) d → All P (values d)
  values-All P [] h = tt
  values-All P (p ∷ d) h = (h.0, values-All P d h.1)

  first_workspace-find :
      (P : w.Record → Type 0) (id : String) (rs : List w.Record) (r : w.Record)
      → All P rs
      → first_workspace w id rs ≡ ok r
      → P r × (workspace_of w r ≡ id)
  unfolding first_workspace
  first_workspace-find P id [] r h found = absurd (ground (arith, found))
  first_workspace-find P id (x ∷ rs) r h found = elim (Bool-cases (workspace_of w x == id)) [
    | inl is ↦
        subst (λ y. P y × (workspace_of w y ≡ id)) (ok_injective (sym (stops is) ∙ found))
          (h.0, (==_iff (workspace_of w x) id).0 is)
    | inr other ↦ first_workspace-find P id rs r h.1 (sym (goes_on other) ∙ found)
  ]
    where
      stops : (workspace_of w x == id) ≡ true → first_workspace w id (x ∷ rs) ≡ ok x
      stops is = rw (is) refl

      goes_on :
          (workspace_of w x == id) ≡ false → first_workspace w id (x ∷ rs) ≡ first_workspace w id rs
      goes_on is = rw (is) refl

  -- a record of the repository, with the greatest version of its workspace
  Latest : List w.Record → w.Record → Type 0
  Latest rs r =
      Memᴰ r rs × All (λ x. workspace_of w x ≡ workspace_of w r → w.version x ≤ w.version r) rs

  LoopEnd-Latest :
      (rs : List w.Record) (final : Dict String w.Record)
      → LoopEnd rs [] final
      → All (λ p. Latest rs p.1) final
  unfolding Latest
  LoopEnd-Latest rs final reached =
      mem-All (λ p. Latest rs p.1) final
        (λ p there.
          let (m, is) =
            All-mem (λ q. Memᴰ q.1 reached.all × (workspace_of w q.1 ≡ q.0)) final
              reached.kept.from_seen there in
          (
            from_read p.1 m,
            mem-All (λ x. workspace_of w x ≡ workspace_of w p.1 → w.version x ≤ w.version p.1) rs
                (λ x mx same. greatest p.0 p.1 x there is mx same),
          ))
    where
      from_read : (x : w.Record) → Memᴰ x reached.all → Memᴰ x rs
      from_read x m = elim (reached.nothing_else x m) [
        | inl there ↦ there
        | inr none_left ↦ elim none_left [ ]
      ]

      greatest :
          (k : String) (v x : w.Record)
          → Memᴰ (k, v) final
          → workspace_of w v ≡ k
          → Memᴰ x rs
          → workspace_of w x ≡ workspace_of w v
          → w.version x ≤ w.version v
      greatest k v x there is mx same =
          let (kept_one, found, le) =
            All-mem
              (λ y.
                (z : w.Record) × (lookup (workspace_of w y) final ≡ some z)
                × (w.version y ≤ w.version z))
              reached.all reached.kept.covered (reached.included x (inl mx)) in
          let at_key = Unique-lookup (workspace_of w x) kept_one final reached.kept.unique found in
          let one = All-mem (λ p. p.0 ≡ workspace_of w x → p.1 ≡ kept_one) final at_key there in
          subst (λ y. w.version x ≤ w.version y) (sym (one (sym is ∙ sym same))) le

  -- A record that `latest_workspace` returns is stored, is of the workspace that was asked
  -- for, and no stored record of that workspace has a greater version.
  pub latest_workspace-greatest :
      (id : String) (s : Records w) (r : w.Record)
      → latest_workspace w id s ≡ ok r
      → Memᴰ r (workspaces w s)
        × (workspace_of w r ≡ id)
        × All (λ x. workspace_of w x ≡ id → w.version x ≤ w.version r) (workspaces w s)
  unfolding latest_workspace list_workspaces Unique Latest
  latest_workspace-greatest id s r found =
      let all = values-All (Latest (workspaces w s)) (latest_of w (workspaces w s) []) (
        LoopEnd-Latest (workspaces w s) (latest_of w (workspaces w s) []) (
          latest_of-LoopEnd (workspaces w s) [] []
            (record { unique = tt; from_seen = tt; covered = tt }))) in
      let ((m, greatest), is) =
        first_workspace-find (Latest (workspaces w s)) id (list_workspaces w true s) r
          (All-sorted (workspace_key w) (Latest (workspaces w s))
            (values (latest_of w (workspaces w s) [])) all)
          found in
      (m, is, All-map (λ x le same. le (same ∙ sym is)) (workspaces w s) greatest)
