-- ===== src/Compactor/Run/States.antt =====
-- The states in which a run can leave a partition, and what its four writing calls make of them.
use cdk_log_to_s.Prelude.{
  Text, codes, text_eq, text_eq_iff, starts_with, true, false, ◌&&◌, ltb, length, List, [], ◌∷◌,
  ◌++◌, append-nil, none, some, ◌≡◌, refl, sym, ap, ◌∙◌, arith, Bool-cases, inl, inr, All,
}
use cdk_log_to_s.Compactor.{Tools, Config, Object, Entry, select_sources, sort, entry_less}
use cdk_log_to_s.Compactor.Bucket.{Bucket, mem, find, assign, remove, listing}
use cdk_log_to_s.Compactor.Bucket.Laws.{
  assign-append, remove-append, remove-none, remove-nil, find-remove-none,
}
use cdk_log_to_s.Compactor.Bucket.Rows.{IsUnique, gathered}
use cdk_log_to_s.Compactor.Run.{is_manifest, keys_of, output_key_of, manifest_key_of, manifest_of}
use cdk_log_to_s.Compactor.Run.Names.{
  output-is_candidate, output-is_manifest, manifest-is_candidate, manifest-is_manifest,
  manifest-starts_with,
}
use cdk_log_to_s.Compactor.Run.Selection.{sources-All, mem-candidates}

module _ (tools : Tools) (cfg : Config) (d : Text) where
  abbrev pub partition : Text
  partition = d ++ codes "/"

  abbrev pub sources : Bucket → List Object
  sources t = select_sources (listing partition t) cfg

  abbrev pub keys : Bucket → List Text
  keys t = keys_of (sources t)

  abbrev pub output : Bucket → Text
  output t = output_key_of tools partition (keys t)

  abbrev pub manifest : Bucket → Text
  manifest t = manifest_key_of tools partition (keys t)

  -- A bucket with no manifest in the partition, and with no output of the merge that is due.
  pub record IsClean (t : Bucket) : Type 0 where
    pub unique : IsUnique t
    pub plain : All (λ e. (starts_with partition e.0 && is_manifest e.0) ≡ false) t
    pub fresh : find (output t) t ≡ none

  -- The output of the merge that is due.
  pub record Merged (t : Bucket) (merged : Text) : Type 0 where
    pub entries : List Entry
    pub enough : ltb (length (sources t)) cfg.min_files ≡ false
    pub gathers : gathered tools (keys t) t ≡ some entries
    pub writes : tools.write (sort entry_less entries) cfg.compression ≡ some merged

  -- The bucket after the merge.
  abbrev pub after : Bucket → Text → Bucket
  after t merged = remove (keys t) t ++ (output t, merged) ∷ []

  -- With the manifest, and with some of the sources gone.
  abbrev pub between : Bucket → Text → Text → List Text → Bucket
  between t merged body gone = remove gone t ++ (output t, merged) ∷ (manifest t, body) ∷ []

  abbrev pub IsBody : Bucket → Text → Type 0
  IsBody t body = tools.marshal (manifest_of tools (keys t) (output t)) ≡ some body

  abbrev pub AreSources : Bucket → List Text → Type 0
  AreSources t gone = (k : Text) → mem k gone ≡ true → mem k (keys t) ≡ true

  pub none_gone : (t : Bucket) → AreSources t []
  unfolding mem
  none_gone t k h = cc

  -- Where a run that began at `t` can have been stopped.
  pub data Interrupted (t s : Bucket) : Type 0 where
    untouched : s ≡ t → Interrupted t s
    written : (merged : Text) → Merged t merged → s ≡ t ++ (output t, merged) ∷ [] → Interrupted t s
    listed :
        (merged body : Text) (gone : List Text)
        → Merged t merged
        → IsBody t body
        → AreSources t gone
        → s ≡ between t merged body gone
        → Interrupted t s
    finished : (merged : Text) → Merged t merged → s ≡ after t merged → Interrupted t s

  -- What the calls do, where the bucket is clean.
  module _ (t : Bucket) (clean : IsClean t) where
    find-plain :
        (k : Text) (s : Bucket)
        → (starts_with partition k && is_manifest k) ≡ true
        → All (λ e. (starts_with partition e.0 && is_manifest e.0) ≡ false) s
        → find k s ≡ none
    unfolding find
    find-plain k [] h a = refl
    find-plain k ((j, b) ∷ s) h a = elim (Bool-cases (text_eq k j)) [
      | inl e ↦
          absurd (
            cc (ap (λ x. starts_with partition x && is_manifest x) ((text_eq_iff k j).0 e), h, a.0))
      | inr f ↦ rw f (find-plain k s h a.1)
    ]

    pub manifest-absent : find (manifest t) t ≡ none
    manifest-absent =
        find-plain (manifest t) t
          (rw (manifest-starts_with tools d (keys t), manifest-is_manifest tools d (keys t)))
          clean.plain

    pub output-mem : mem (output t) (keys t) ≡ false
    output-mem =
        mem-candidates (output t) (keys t) (sources-All (listing partition t) cfg)
          (output-is_candidate tools d (keys t))

    pub manifest-mem : mem (manifest t) (keys t) ≡ false
    manifest-mem =
        mem-candidates (manifest t) (keys t) (sources-All (listing partition t) cfg)
          (manifest-is_candidate tools d (keys t))

    pub manifest-output : text_eq (manifest t) (output t) ≡ false
    manifest-output = elim (Bool-cases (text_eq (manifest t) (output t))) [
      | inl e ↦ absurd (
          cc (
            ap is_manifest ((text_eq_iff _ _).0 e),
            manifest-is_manifest tools d (keys t),
            output-is_manifest tools d (keys t),
          ))
      | inr f ↦ f
    ]

    pub assign-output : (merged : Text) → assign (output t) merged t ≡ t ++ (output t, merged) ∷ []
    unfolding assign
    assign-output merged =
        ap (assign (output t) merged) (sym (append-nil t))
        ∙ assign-append (output t) merged t [] clean.fresh

    pub assign-output_again :
        (merged old : Text)
        → assign (output t) merged (t ++ (output t, old) ∷ []) ≡ t ++ (output t, merged) ∷ []
    unfolding assign
    assign-output_again merged old =
        assign-append (output t) merged t ((output t, old) ∷ []) clean.fresh
        ∙ rw ((text_eq_iff (output t) (output t)).1 refl)

    pub assign-manifest :
        (merged body : Text)
        → assign (manifest t) body (t ++ (output t, merged) ∷ []) ≡ between t merged body []
    unfolding assign
    assign-manifest merged body =
        assign-append (manifest t) body t ((output t, merged) ∷ []) manifest-absent
        ∙ rw (manifest-output, remove-nil t)

    not_source :
        (k : Text) (gone : List Text)
        → AreSources t gone
        → mem k (keys t) ≡ false
        → mem k gone ≡ false
    not_source k gone sub h = elim (Bool-cases (mem k gone)) [
      | inl e ↦ absurd (cc (sub k e, h))
      | inr f ↦ f
    ]

    -- Sources can be removed before or with the rest.
    pub remove-between :
        (merged body : Text) (gone more : List Text)
        → AreSources t more
        → remove more (between t merged body gone)
          ≡ remove more (remove gone t) ++ (output t, merged) ∷ (manifest t, body) ∷ []
    unfolding remove
    remove-between merged body gone more sub =
        remove-append more (remove gone t) ((output t, merged) ∷ (manifest t, body) ∷ [])
        ∙ rw (
          not_source (output t) more sub output-mem,
          not_source (manifest t) more sub manifest-mem,
        )

    -- A deletion of the manifest alone removes it or nothing.
    absent-All : (k : Text) (s : Bucket) → find k s ≡ none → All (λ e. text_eq k e.0 ≡ false) s
    unfolding find
    absent-All k [] h = tt
    absent-All k ((j, b) ∷ s) h = elim (Bool-cases (text_eq k j)) [
      | inl e ↦ absurd (ground (arith, h, e))
      | inr f ↦ (f, absent-All k s (ground (arith, h, f)))
    ]

    All-mem :
        (k : Text) (gone : List Text) (s : Bucket)
        → ((j : Text) → mem j gone ≡ true → mem j (k ∷ []) ≡ true)
        → All (λ e. text_eq k e.0 ≡ false) s
        → All (λ e. mem e.0 gone ≡ false) s
    unfolding mem
    All-mem k gone [] sub h = tt
    All-mem k gone ((j, b) ∷ s) sub h = (
      elim (Bool-cases (mem j gone)) [
        | inl e ↦ absurd (ground (arith, sub j e, h.0, text_eq_iff j k, text_eq_iff k j))
        | inr f ↦ f
      ],
      All-mem k gone s sub h.1,
    )

    remove-manifest :
        (merged body : Text) (gone only : List Text)
        → ((j : Text) → mem j only ≡ true → mem j (manifest t ∷ []) ≡ true)
        → remove only (between t merged body gone)
          ≡ remove gone t ++ remove only ((output t, merged) ∷ (manifest t, body) ∷ [])
    remove-manifest merged body gone only sub =
        remove-append only (remove gone t) ((output t, merged) ∷ (manifest t, body) ∷ [])
        ∙ ap (λ s. s ++ remove only ((output t, merged) ∷ (manifest t, body) ∷ []))
            (remove-none only (remove gone t) (
              All-mem (manifest t) only (remove gone t) sub (
                absent-All (manifest t) (remove gone t)
                  (find-remove-none (manifest t) gone t manifest-absent))))

    output-not_manifest : mem (output t) (manifest t ∷ []) ≡ false
    unfolding mem
    output-not_manifest = ground (
      arith,
      manifest-output,
      text_eq_iff (manifest t) (output t),
      text_eq_iff (output t) (manifest t),
    )

    output-not_only :
        (only : List Text)
        → ((j : Text) → mem j only ≡ true → mem j (manifest t ∷ []) ≡ true)
        → mem (output t) only ≡ false
    output-not_only only sub = elim (Bool-cases (mem (output t) only)) [
      | inl e ↦ absurd (cc (sub (output t) e, output-not_manifest))
      | inr f ↦ f
    ]

    -- The end of the deletions of a run, if it is reached.
    pub remove-manifest_done :
        (merged body : Text)
        → remove (manifest t ∷ []) (between t merged body (keys t)) ≡ after t merged
    unfolding remove mem
    remove-manifest_done merged body =
        remove-manifest merged body (keys t) (manifest t ∷ []) (λ j h. h)
        ∙ rw (output-not_manifest, (text_eq_iff (manifest t) (manifest t)).1 refl)

    pub Interrupted-manifest :
        (merged body : Text) (s : Bucket)
        → Merged t merged
        → IsBody t body
        → ((only : List Text) × ((j : Text) → mem j only ≡ true → mem j (manifest t ∷ []) ≡ true)
            × (s ≡ remove only (between t merged body (keys t))))
        → Interrupted t s
    unfolding remove
    Interrupted-manifest merged body s m b (only, sub, e) =
        let rest = remove-manifest merged body (keys t) only sub in
        elim (Bool-cases (mem (manifest t) only)) [
          | inl h ↦ finished merged m (e ∙ rest ∙ rw (output-not_only only sub, h))
          | inr h ↦
              listed merged body (keys t) m b (λ k p. p)
                (e ∙ rest ∙ rw (output-not_only only sub, h))
        ]
