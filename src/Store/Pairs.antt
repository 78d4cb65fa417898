-- ===== src/Store/Pairs.antt =====
-- persistence/repositories.py: a workspace and its universe are stored together or not at all.
use agentic_alpha_engine.Prelude.{
  ◌≡◌, ◌≢◌, refl, sym, subst, ap, ◌∙◌, String, false, inl, inr, ◌⊎◌, true, Option-cases, Option,
  none, some, arith, String_eq, ℕ_eq, ×_eq, ==_iff, Bool-cases,
}
use agentic_alpha_engine.Dict.{lookup, insert, lookup-insert_self, lookup-insert_ne}
use agentic_alpha_engine.Effects.{Error, Result, ok, err, result_cases}
use agentic_alpha_engine.Store.Versioned.{
  Contracts, Key, identifier, Records, is_immutable, conflict_with, conflicts, or_given,
  publish_both, put_pair, put_workspace_with_universe,
}

module _ (w : Contracts) where
  -- what is stored under a key: the record that was there, or the one given
  pub record Settled (key : Key) (given : w.Record) (s t : Records w) (r : w.Record) : Type 0 where
    pub stored : lookup key t ≡ some r
    pub same_content : w.content_sha256 r ≡ w.content_sha256 given
    pub prior_kept : (x : w.Record) → lookup key s ≡ some x → r ≡ x
    pub new_stored : lookup key s ≡ none → r ≡ given

  pub record Stored (wk uk : Key) (workspace universe : w.Record) (s : Records w)
      (out : Result (Option w.Record × Option w.Record) × Records w) : Type 0 where
    pub first : w.Record
    pub second : w.Record
    pub workspace_settled : Settled wk workspace s out.1 first
    pub universe_settled : Settled uk universe s out.1 second
    pub others_kept : (k : Key) → k ≢ wk → k ≢ uk → lookup k out.1 ≡ lookup k s
    pub returned : out.0 ≡ ok (some first, some second)

  -- a record with another content is stored under the key
  abbrev pub Clashes : Key → w.Record → Records w → Type 0
  Clashes key r s =
      (x : w.Record) × (lookup key s ≡ some x) × (w.content_sha256 x ≢ w.content_sha256 r)

  pub data Written (wk uk : Key) (workspace universe : w.Record) (s : Records w)
      (out : Result (Option w.Record × Option w.Record) × Records w) : Type 0 where
    refused :
        (e : Error)
        → Clashes wk workspace s ⊎ Clashes uk universe s
        → out ≡ (err e, s)
        → Written wk uk workspace universe s out
    published : Stored wk uk workspace universe s out → Written wk uk workspace universe s out

  -- The outcome of writing a pair: it has no identifiers, or it is written under its own keys.
  pub data Paired (workspace universe : w.Record) (s : Records w)
      (out : Result (Option w.Record × Option w.Record) × Records w) : Type 0 where
    unnamed :
        (e : Error)
        → (identifier w workspace ≡ err e) ⊎ (identifier w universe ≡ err e)
        → out ≡ (err e, s)
        → Paired workspace universe s out
    named :
        (a b : String)
        → identifier w workspace ≡ ok a
        → identifier w universe ≡ ok b
        → Written
            ("DomainWorkspace", (a, w.version workspace))
            ("UniverseSpec", (b, w.version universe))
            workspace
            universe
            s
            out
        → Paired workspace universe s out

  abbrev outcome :
      Option w.Record × Option w.Record
      → Records w
      → Result (Option w.Record × Option w.Record) × Records w
  outcome p s = (ok p, s)

  agrees :
      (o : Option w.Record) (r : w.Record)
      → conflict_with w o r ≡ false
      → w.content_sha256 (or_given w o r) ≡ w.content_sha256 r
  agrees none r h = refl
  agrees (some y) r h = (==_iff (w.content_sha256 y) (w.content_sha256 r)).0 (ground arith)

  Settled-or_given :
      (key : Key) (r : w.Record) (s t : Records w)
      → conflicts w key r s ≡ false
      → lookup key t ≡ some (or_given w (lookup key s) r)
      → Settled key r s t (or_given w (lookup key s) r)
  unfolding conflicts
  Settled-or_given key r s t h there = record {
    stored = there;
    same_content = agrees (lookup key s) r h;
    prior_kept = λ x found. ap (λ o. or_given w o r) found;
    new_stored = λ missing. ap (λ o. or_given w o r) missing;
  }

  conflicts-Clashes :
      (key : Key) (r : w.Record) (s : Records w) → conflicts w key r s ≡ true → Clashes key r s
  unfolding conflicts
  conflicts-Clashes key r s h = elim (Option-cases (lookup key s)) [
    | inl missing ↦ absurd (ground (arith, h, missing))
    | inr (x, found) ↦ (
      x,
      found,
      λ is. ground (arith, h, found, (==_iff (w.content_sha256 x) (w.content_sha256 r)).1 is),
    )
  ]

  module _ (wk uk : Key) (workspace universe : w.Record) (s : Records w) (apart : uk ≢ wk)
      (e : conflicts w wk workspace s ≡ false) (f : conflicts w uk universe s ≡ false) where
    abbrev with_universe : Records w
    with_universe = insert uk (or_given w (lookup uk s) universe) s

    -- the universe's write leaves what is under the workspace's key
    publish_both-insert :
        publish_both w wk uk workspace universe s
        ≡ insert wk (or_given w (lookup wk s) workspace) with_universe
    publish_both-insert =
        ap (λ o. insert wk (or_given w o workspace) with_universe)
          (lookup-insert_ne uk wk (or_given w (lookup uk s) universe) s apart)

    both_stored :
        put_pair w wk uk workspace universe s
        ≡ outcome
            (some (or_given w (lookup wk s) workspace), some (or_given w (lookup uk s) universe))
            (insert wk (or_given w (lookup wk s) workspace) with_universe)
    both_stored =
        checked
        ∙ ap (λ t. outcome (lookup wk t, lookup uk t) t) publish_both-insert
        ∙ pair_of (insert wk (or_given w (lookup wk s) workspace) with_universe) _ _
            (lookup-insert_self wk _ with_universe)
            (lookup-insert_ne wk uk _ with_universe (λ q. apart (sym q))
              ∙ lookup-insert_self uk _ s)
      where
        checked :
            put_pair w wk uk workspace universe s
            ≡ outcome
                (
                  lookup wk (publish_both w wk uk workspace universe s),
                  lookup uk (publish_both w wk uk workspace universe s),
                )
                (publish_both w wk uk workspace universe s)
        checked = unfold put_pair in rw (put_pair, e, f) refl

        pair_of :
            (t : Records w) (a b : w.Record)
            → lookup wk t ≡ some a
            → lookup uk t ≡ some b
            → outcome (lookup wk t, lookup uk t) t ≡ outcome (some a, some b) t
        pair_of t a b x y = rw (x, y) refl

    put_pair-Stored : Stored wk uk workspace universe s (put_pair w wk uk workspace universe s)
    put_pair-Stored = subst (Stored wk uk workspace universe s) (sym both_stored) (record {
      first = or_given w (lookup wk s) workspace;
      second = or_given w (lookup uk s) universe;
      workspace_settled =
          Settled-or_given wk workspace s _ e (lookup-insert_self wk _ with_universe);
      universe_settled =
          Settled-or_given uk universe s _ f (
            lookup-insert_ne wk uk _ with_universe (λ q. apart (sym q))
            ∙ lookup-insert_self uk _ s);
      others_kept = λ k n m.
          lookup-insert_ne wk k _ with_universe (λ q. n (sym q))
          ∙ lookup-insert_ne uk k _ s (λ q. m (sym q));
      returned = refl;
    })

  put_pair-Written :
      (wk uk : Key) (workspace universe : w.Record) (s : Records w)
      → uk ≢ wk
      → Written wk uk workspace universe s (put_pair w wk uk workspace universe s)
  put_pair-Written wk uk workspace universe s apart =
      elim (Bool-cases (conflicts w wk workspace s)) [
        | inl e ↦
            refused (is_immutable w workspace wk) (inl (conflicts-Clashes wk workspace s e))
              (unfold put_pair in rw (put_pair, e) refl)
        | inr e ↦ elim (Bool-cases (conflicts w uk universe s)) [
          | inl f ↦
              refused (is_immutable w universe uk) (inr (conflicts-Clashes uk universe s f))
                (unfold put_pair in rw (put_pair, e, f) refl)
          | inr f ↦ published (put_pair-Stored wk uk workspace universe s apart e f)
        ]
      ]

  -- Writing a workspace with its universe raises the exception of an identifier that cannot be told and
  -- changes nothing; or raises where another content is stored under the key, of class, identifier and
  -- version, of one of them, and changes nothing; or returns the pair that is then stored under the two
  -- keys, each the record that was there, of the content given, or else the one given, and leaves what
  -- is under all other keys.
  pub pair_atomic :
      (workspace universe : w.Record) (s : Records w)
      → Paired workspace universe s (put_workspace_with_universe w workspace universe s)
  unfolding put_workspace_with_universe
  pair_atomic workspace universe s = elim (result_cases (identifier w workspace)) [
    | inr (e, h) ↦ unnamed e (inl h) (rw (put_workspace_with_universe, h) refl)
    | inl (a, h) ↦ elim (result_cases (identifier w universe)) [
      | inr (e, k) ↦ unnamed e (inr k) (rw (put_workspace_with_universe, h, k) refl)
      | inl (b, k) ↦ named a b h k (
          rw (put_workspace_with_universe, h, k)
            (put_pair-Written ("DomainWorkspace", (a, w.version workspace))
              ("UniverseSpec", (b, w.version universe)) workspace universe s
              (λ q. names_differ (ap (λ p. p.0) q))))
    ]
  ]
    where
      names_differ : ◌≢◌ {A = String} "UniverseSpec" "DomainWorkspace"
      names_differ q = ground (arith, ==_iff {A = String} "UniverseSpec" "DomainWorkspace")
