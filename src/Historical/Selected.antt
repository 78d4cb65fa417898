-- ===== src/Historical/Selected.antt =====
-- historical/replay.py: what a replay chose when it returned, and when it returns.
use mathlib.Core.List.{Memᴰ}
use mathlib.Core.List.Memᴰ
use agentic_alpha_engine.Prelude.{
  ◌≡◌, refl, sym, ap, subst, ◌∙◌, ◌⊎◌, inl, inr, String, String_eq, Bool, true, false, List, [],
  ◌∷◌, arith, All, All-map, All-mem, Bool-cases, ×_ord, ℕ_ord, String_ord,
}
use agentic_alpha_engine.Effects.{Error, ok, err, ok_injective, result_cases}
use agentic_alpha_engine.Graph.Contracts.{compare_times, DateTime, at_most}
use agentic_alpha_engine.Scenario.Contracts.{Platform}
use agentic_alpha_engine.Scenario.Registry.{GraphSnapshot, Files}
use agentic_alpha_engine.Historical.Replay.{
  Archive, Candidate, add_if, candidates_of, candidate_key, candidate_order, candidate_le, newest,
  choose, directory, select_as_of,
}

module _ (w : Platform) (a : Archive w) where
  -- a file of the directory, with the snapshot read from it, that was created by a time
  pub record Known (as_of_time : DateTime) (files : List (String × String)) (c : Candidate w a)
      : Type 0 where
    pub listed : Memᴰ (c.path, c.text) files
    pub is_read : a.read_snapshot c.text ≡ ok c.snapshot
    pub created_by : at_most (c.snapshot).created_at as_of_time ≡ true

  candidate_le_trans :
      (c d e : Candidate w a)
      → candidate_le w a c d ≡ true
      → candidate_le w a d e ≡ true
      → candidate_le w a c e ≡ true
  candidate_le_trans c d e =
      (candidate_order w a).le_trans (candidate_key w a c) (candidate_key w a d)
        (candidate_key w a e)

  candidate_le_total :
      (c d : Candidate w a) → (candidate_le w a c d ≡ true) ⊎ (candidate_le w a d c ≡ true)
  candidate_le_total c d =
      (candidate_order w a).le_total (candidate_key w a c) (candidate_key w a d)

  newest-kept :
      (c d : Candidate w a) (ds : List (Candidate w a))
      → candidate_le w a d c ≡ true
      → newest w a c (d ∷ ds) ≡ newest w a c ds
  unfolding newest
  newest-kept c d ds h = rw h refl

  newest-new :
      (c d : Candidate w a) (ds : List (Candidate w a))
      → candidate_le w a d c ≡ false
      → newest w a c (d ∷ ds) ≡ newest w a d ds
  unfolding newest
  newest-new c d ds h = rw h refl

  -- The newest of some candidates is one of them, and none is newer.
  newest-Mem : (c : Candidate w a) (ds : List (Candidate w a)) → Memᴰ (newest w a c ds) (c ∷ ds)
  unfolding newest
  newest-Mem c [] = Memᴰ.head refl
  newest-Mem c (d ∷ ds) = elim (Bool-cases (candidate_le w a d c)) [
    | inl less ↦
        subst (λ x. Memᴰ x (c ∷ d ∷ ds)) (sym (newest-kept c d ds less))
          (elim (Memᴰ.cases_cons (newest-Mem c ds)) [
            | inl is ↦ Memᴰ.head is
            | inr m ↦ Memᴰ.tail (Memᴰ.tail m)
          ])
    | inr more ↦
        subst (λ x. Memᴰ x (c ∷ d ∷ ds)) (sym (newest-new c d ds more))
          (Memᴰ.tail (newest-Mem d ds))
  ]

  newest-All :
      (c : Candidate w a) (ds : List (Candidate w a))
      → All (λ d. candidate_le w a d (newest w a c ds) ≡ true) (c ∷ ds)
  unfolding newest
  newest-All c [] = (ground (arith, candidate_le_total c c), tt)
  newest-All c (d ∷ ds) = elim (Bool-cases (candidate_le w a d c)) [
    | inl less ↦
        let rest = newest-All c ds in
        subst (λ x. All (λ e. candidate_le w a e x ≡ true) (c ∷ d ∷ ds))
          (sym (newest-kept c d ds less))
          (rest.0, (candidate_le_trans d c (newest w a c ds) less rest.0, rest.1))
    | inr more ↦
        let rest = newest-All d ds in
        let first =
          candidate_le_trans c d (newest w a d ds) (ground (arith, more, candidate_le_total c d))
            rest.0 in
        subst (λ x. All (λ e. candidate_le w a e x ≡ true) (c ∷ d ∷ ds))
          (sym (newest-new c d ds more)) (first, rest)
  ]

  pub compare_times-ok :
      (test : DateTime → DateTime → Bool) (s t : DateTime) (b : Bool)
      → compare_times test s t ≡ ok b
      → test s t ≡ b
  unfolding compare_times
  compare_times-ok test s t b h = ground (arith, h)

  -- The candidates are known, and all that is known is among them.
  record Lists (at : DateTime) (files : List (String × String)) (found : List (Candidate w a))
      : Type 0 where
    known : All (Known at files) found
    all_known : (c : Candidate w a) → Known at files c → Memᴰ c found

  Known-later :
      {at : DateTime} {file : String × String} {files : List (String × String)} {c : Candidate w a}
      → Known at files c
      → Known at (file ∷ files) c
  Known-later k = record {
    listed = Memᴰ.tail k.listed;
    is_read = k.is_read;
    created_by = k.created_by;
  }

  candidate_path :
      (c d : Candidate w a) → c.path ≡ d.path → c.text ≡ d.text → c.snapshot ≡ d.snapshot → c ≡ d
  candidate_path c d p q r = ground (arith, p, q, r)

  same_snapshot :
      (c : Candidate w a) (path text : String) (s : GraphSnapshot w)
      → ◌≡◌ {A = String × String} (c.path, c.text) (path, text)
      → a.read_snapshot c.text ≡ ok c.snapshot
      → a.read_snapshot text ≡ ok s
      → c.snapshot ≡ s
  same_snapshot c path text s is h k = ok_injective (sym h ∙ ap (λ p. a.read_snapshot p.1) is ∙ k)

  Lists-cons :
      (at : DateTime) (path text : String) (files : List (String × String)) (s : GraphSnapshot w)
      (b : Bool) (rest found : List (Candidate w a))
      → a.read_snapshot text ≡ ok s
      → at_most s.created_at at ≡ b
      → Lists at files rest
      → add_if w a b (record { path = path; text = text; snapshot = s }) (ok rest) ≡ ok found
      → Lists at ((path, text) ∷ files) found
  Lists-cons at path text files s true rest found is by l h =
      subst (Lists at ((path, text) ∷ files)) (ok_injective h) (record {
        known = (
          record { listed = Memᴰ.head refl; is_read = is; created_by = by },
          All-map (λ c k. Known-later k) rest l.known,
        );
        all_known = λ c k. elim (Memᴰ.cases_cons k.listed) [
          | inl same ↦ Memᴰ.head (
              candidate_path c (record { path = path; text = text; snapshot = s })
                (ap (λ p. p.0) same) (ap (λ p. p.1) same)
                (same_snapshot c path text s same k.is_read is))
          | inr m ↦ Memᴰ.tail (
              l.all_known c (record { listed = m; is_read = k.is_read; created_by = k.created_by }))
        ];
      })
  Lists-cons at path text files s false rest found is by l h =
      subst (Lists at ((path, text) ∷ files)) (ok_injective h) (record {
        known = All-map (λ c k. Known-later k) rest l.known;
        all_known = λ c k. elim (Memᴰ.cases_cons k.listed) [
          | inl same ↦ absurd (late c k.created_by (same_snapshot c path text s same k.is_read is))
          | inr m ↦
              l.all_known c (record { listed = m; is_read = k.is_read; created_by = k.created_by })
        ];
      })
    where
      late : (c : Candidate w a) → at_most (c.snapshot).created_at at ≡ true → c.snapshot ≡ s → ⊥
      late c h same =
          ground (arith, h, by, ap (λ (x : GraphSnapshot w). at_most x.created_at at) same)

  candidates_of-Lists :
      (at : DateTime) (files : List (String × String)) (found : List (Candidate w a))
      → candidates_of w a at files ≡ ok found
      → Lists at files found
  unfolding candidates_of
  candidates_of-Lists at [] found h =
      subst (Lists at []) (ok_injective h)
        (record { known = tt; all_known = λ c k. absurd (Memᴰ.not-nil k.listed) })
  candidates_of-Lists at ((path, text) ∷ files) found h =
      elim (result_cases (a.read_snapshot text)) [
        | inr (e, failed) ↦ absurd (ground (arith, h, failed))
        | inl (s, is) ↦ elim (result_cases (compare_times at_most s.created_at at)) [
          | inr (e, failed) ↦ absurd (ground (arith, h, is, failed))
          | inl (b, compared) ↦ elim (result_cases (candidates_of w a at files)) [
            | inr (e, failed) ↦ absurd (raised s b e is compared failed)
            | inl (rest, later) ↦
                Lists-cons at path text files s b rest found is
                  (compare_times-ok at_most s.created_at at b compared)
                  (candidates_of-Lists at files rest later) (added s b rest is compared later)
          ]
        ]
      ]
    where
      raised :
          (s : GraphSnapshot w) (b : Bool) (e : Error)
          → a.read_snapshot text ≡ ok s
          → compare_times at_most s.created_at at ≡ ok b
          → candidates_of w a at files ≡ err e
          → ⊥
      raised s b e is compared failed = ground (arith, h, is, compared, failed)

      added :
          (s : GraphSnapshot w) (b : Bool) (rest : List (Candidate w a))
          → a.read_snapshot text ≡ ok s
          → compare_times at_most s.created_at at ≡ ok b
          → candidates_of w a at files ≡ ok rest
          → add_if w a b (record { path = path; text = text; snapshot = s }) (ok rest) ≡ ok found
      added s b rest is compared later = ground (arith, h, is, compared, later)

  -- what `select_as_of` returns: a known snapshot, and no known one is newer
  pub record Selected (at : DateTime) (files : Files) (c : Candidate w a) : Type 0 where
    pub is_known : Known at (directory w a files) c
    pub is_newest :
        (d : Candidate w a) → Known at (directory w a files) d → candidate_le w a d c ≡ true

  choose-Selected :
      (at : DateTime) (files : Files) (found : List (Candidate w a)) (c : Candidate w a)
      → Lists at (directory w a files) found
      → choose w a found ≡ ok c
      → Selected at files c
  unfolding choose
  choose-Selected at files [] c l h = absurd (ground (arith, h))
  choose-Selected at files (d ∷ ds) c l h = subst (Selected at files) (ok_injective h) (record {
    is_known = All-mem (Known at (directory w a files)) (d ∷ ds) l.known (newest-Mem d ds);
    is_newest = λ e k.
        All-mem (λ x. candidate_le w a x (newest w a d ds) ≡ true) (d ∷ ds) (newest-All d ds)
          (l.all_known e k);
  })

  pub select_as_of-Selected :
      (at : DateTime) (files : Files) (c : Candidate w a)
      → select_as_of w a at files ≡ ok c
      → Selected at files c
  unfolding select_as_of
  select_as_of-Selected at files c h = elim (Bool-cases at.has_zone) [
    | inr naive ↦ absurd (ground (arith, h, naive))
    | inl zoned ↦ elim (result_cases (candidates_of w a at (directory w a files))) [
      | inr (e, failed) ↦ absurd (ground (arith, h, zoned, failed))
      | inl (found, is) ↦
          choose-Selected at files found c (candidates_of-Lists at (directory w a files) found is)
            (ground (arith, h, zoned, is))
    ]
  ]
