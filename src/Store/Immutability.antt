-- ===== src/Store/Immutability.antt =====
-- persistence/repositories.py: no stored record is ever replaced, and a pair is stored as a whole.
use Prim.Native.Nat.{ℕ}
use agentic_alpha_engine.Prelude.{
  ◌≡◌, refl, sym, ap, ◌∙◌, String, ◌⊎◌, inl, inr, none, some, arith, String_eq, ℕ_eq, ×_eq, ◌==◌,
  Bool-cases, Option-cases,
}
use agentic_alpha_engine.Dict.{lookup, insert, lookup-insert_kept}
use agentic_alpha_engine.Effects.{ok, Keeps, Keeps-bind, from_result}
use agentic_alpha_engine.Store.Versioned.{
  Contracts, Key, identifier, Records, put_at, put, get, conflicts, or_given, publish_both,
  put_pair, put_workspace_with_universe,
}

module _ (w : Contracts) where
  -- the record is stored under the key
  pub record IsStored (key : Key) (r : w.Record) (s : Records w) : Type 0 where
    pub found : lookup key s ≡ some r

  -- Assigning what is there, or the first record of a key, replaces nothing.
  insert-IsStored :
      (j key : Key) (x r : w.Record) (s : Records w)
      → IsStored key r s
      → (lookup j s ≡ none) ⊎ (lookup j s ≡ some x)
      → IsStored key r (insert j x s)
  insert-IsStored j key x r s h old = record {
    found =
        let now = h.found in
        elim (lookup-insert_kept j key x s h.found) [
          | inl (same, new) ↦ new ∙ ap some (one old (ap (λ k. lookup k s) same ∙ now))
          | inr kept ↦ kept
        ];
  }
    where
      one : (lookup j s ≡ none) ⊎ (lookup j s ≡ some x) → lookup j s ≡ some r → x ≡ r
      one (inl n) e = ground arith
      one (inr o) e = ground arith

  put_at-Keeps : (key j : Key) (r x : w.Record) → Keeps (IsStored key r) (put_at w j x)
  put_at-Keeps key j r x = record { at = λ s h. go s h (Option-cases (lookup j s)) }
    where
      go :
          (s : Records w)
          → IsStored key r s
          → (lookup j s ≡ none) ⊎ ((y : w.Record) × (lookup j s ≡ some y))
          → IsStored key r (put_at w j x s).1
      go s h (inl n) = unfold put_at in rw (put_at, n) (insert-IsStored j key x r s h (inl n))
      go s h (inr (y, found)) = elim (Bool-cases (w.content_sha256 y == w.content_sha256 x)) [
        | inl e ↦ unfold put_at in rw (put_at, found, e) h
        | inr e ↦ unfold put_at in rw (put_at, found, e) h
      ]

  put-Keeps : (key : Key) (r x : w.Record) → Keeps (IsStored key r) (put w x)
  unfolding put
  put-Keeps key r x =
      Keeps-bind (from_result (identifier w x)) _ (record { at = λ s h. h })
        (λ id. put_at-Keeps key _ r x)

  given_or_stored :
      (k : Key) (x : w.Record) (s : Records w)
      → (lookup k s ≡ none) ⊎ (lookup k s ≡ some (or_given w (lookup k s) x))
  given_or_stored k x s = elim (Option-cases (lookup k s)) [
    | inl n ↦ inl n
    | inr (y, found) ↦ inr (found ∙ ap some (sym (ap (λ o. or_given w o x) found)))
  ]

  publish_both-IsStored :
      (wk uk key : Key) (workspace universe r : w.Record) (s : Records w)
      → IsStored key r s
      → IsStored key r (publish_both w wk uk workspace universe s)
  publish_both-IsStored wk uk key workspace universe r s h =
      let s' = insert uk (or_given w (lookup uk s) universe) s in
      insert-IsStored wk key (or_given w (lookup wk s') workspace) r s'
        (insert-IsStored uk key (or_given w (lookup uk s) universe) r s h
          (given_or_stored uk universe s))
        (given_or_stored wk workspace s')

  put_pair-Keeps :
      (key wk uk : Key) (r workspace universe : w.Record)
      → Keeps (IsStored key r) (put_pair w wk uk workspace universe)
  unfolding put_pair
  put_pair-Keeps key wk uk r workspace universe = record {
    at = λ s h. elim (Bool-cases (conflicts w wk workspace s)) [
      | inl e ↦ rw (put_pair, e) h
      | inr e ↦ elim (Bool-cases (conflicts w uk universe s)) [
        | inl f ↦ rw (put_pair, e, f) h
        | inr f ↦ rw (put_pair, e, f) (publish_both-IsStored wk uk key workspace universe r s h)
      ]
    ];
  }

  put_workspace_with_universe-Keeps :
      (key : Key) (r workspace universe : w.Record)
      → Keeps (IsStored key r) (put_workspace_with_universe w workspace universe)
  unfolding put_workspace_with_universe
  put_workspace_with_universe-Keeps key r workspace universe =
      Keeps-bind (from_result (identifier w workspace)) _ (record { at = λ s h. h })
        (λ workspace_id.
          Keeps-bind (from_result (identifier w universe)) _ (record { at = λ s h. h })
            (λ universe_id. put_pair-Keeps key _ _ r workspace universe))

  -- Any history of writes, refused or not.
  pub data Writes (s : Records w) : Records w → Type 0 where
    here : Writes s s
    puts : {t : Records w} (r : w.Record) → Writes s t → Writes s (put w r t).1
    puts_pair :
        {t : Records w} (workspace universe : w.Record)
        → Writes s t
        → Writes s (put_workspace_with_universe w workspace universe t).1

  Writes-IsStored :
      {s t : Records w} (key : Key) (r : w.Record)
      → Writes s t
      → IsStored key r s
      → IsStored key r t
  Writes-IsStored key r here h = h
  Writes-IsStored key r (puts {t} x l) h = (put-Keeps key r x).at t (Writes-IsStored key r l h)
  Writes-IsStored key r (puts_pair {t} a b l) h =
      (put_workspace_with_universe-Keeps key r a b).at t (Writes-IsStored key r l h)

  get-stored :
      (kind id : String) (version : ℕ) (s : Records w) (r : w.Record)
      → lookup (kind, (id, version)) s ≡ some r
      → get w kind id version s ≡ ok r
  unfolding get
  get-stored kind id version s r h = rw (get, h) refl

  get-found :
      (kind id : String) (version : ℕ) (s : Records w) (r : w.Record)
      → get w kind id version s ≡ ok r
      → lookup (kind, (id, version)) s ≡ some r
  unfolding get
  get-found kind id version s r h = ground arith

  -- A record that `get` returns for a class, an identifier and a version is returned for them after any
  -- further writes, single or in pairs, accepted or refused.
  pub get_kept :
      (kind id : String) (version : ℕ) (s t : Records w) (r : w.Record)
      → get w kind id version s ≡ ok r
      → Writes s t
      → get w kind id version t ≡ ok r
  get_kept kind id version s t r h l =
      get-stored kind id version t r
        (Writes-IsStored (kind, (id, version)) r l
          (record { found = get-found kind id version s r h })).found
