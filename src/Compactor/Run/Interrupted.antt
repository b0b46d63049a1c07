-- ===== src/Compactor/Run/Interrupted.antt =====
-- A run over a partition in which another run left its manifest.
use cdk_log_to_s.Prelude.{
  ℕ, Text, text_eq_iff, starts_with, false, length, List, [], ◌∷◌, ◌++◌, append_assoc, Option, none,
  some, ◌≡◌, refl, sym, ap, ◌∙◌, arith, Bool-cases, inl, inr, All, ◌⊎◌, All-append, ◌&&◌,
}
use mathlib.Core.Path.{subst}
use cdk_log_to_s.Compactor.{Tools, Config, Object, Manifest, Lawful}
use cdk_log_to_s.Compactor.Bucket.{Bucket, mem, find, remove, listing, by_key}
use cdk_log_to_s.Compactor.Bucket.Laws.{
  listing-append, remove-nil, remove-remove, mem-append, find-append, find-remove-none,
}
use cdk_log_to_s.Compactor.Store.{S3, M, pure, bind, delete_keys, list_objects, get_object}
use cdk_log_to_s.Compactor.Store as Store
use cdk_log_to_s.Compactor.Store.Laws.{
  Ends, Ends-bind, Ends-mono, list_objects-Ends, get_object-Ends, delete_keys-Ends,
}
use cdk_log_to_s.Compactor.Run.{
  is_manifest, keys_of, stale_of, manifest_of, delete_stale, finish_run, finish_loop,
  finish_interrupted_runs, list_again, compact_partition,
}
use cdk_log_to_s.Compactor.Run.Names.{
  output-is_manifest, output-starts_with, manifest-is_manifest, manifest-starts_with,
}
use cdk_log_to_s.Compactor.Run.States.{
  partition, keys, output, manifest, IsClean, Merged, after, between, IsBody, AreSources,
  Interrupted, listed, manifest-absent, manifest-output, remove-between,
}
use cdk_log_to_s.Compactor.Run.Merge.{Settled, merge_or_skip-Ends, delete_manifest-Ends}
use cdk_log_to_s.Compactor.Run.Recover.{
  listing-IsPlain, IsPlain, finish_loop-IsPlain, finish_loop-plain,
}
use cdk_log_to_s.Compactor.Run.Order.{select_sources-by_key, stale_of-by_key, Splits, Splits-by_key}
use cdk_log_to_s.Compactor.Run.Stale.{remove-stale_of, stale-mem}

module _ (s3 : S3) (laws : Store.Lawful s3) (tools : Tools) (readable : Lawful tools) (cfg : Config)
    (d : Text) (t : Bucket) (clean : IsClean tools cfg d t) (merged body : Text)
    (m : Merged tools cfg d t merged) (b : IsBody tools cfg d t body) (gone : List Text)
    (sub : AreSources tools cfg d t gone) where
  open laws use {contents}

  abbrev found : Bucket
  found = between tools cfg d t merged body gone

  abbrev last : Object
  last = record { key = manifest tools cfg d t; size = length body }

  abbrev front : List Object
  front =
      listing (partition tools cfg d) (remove gone t)
      ++ record { key = output tools cfg d t; size = length merged } ∷ []

  listing-found : listing (partition tools cfg d) found ≡ front ++ last ∷ []
  unfolding listing
  listing-found =
      listing-append (partition tools cfg d) (remove gone t)
        ((output tools cfg d t, merged) ∷ (manifest tools cfg d t, body) ∷ [])
      ∙ rw
          (
            output-starts_with tools d (keys tools cfg d t),
            manifest-starts_with tools d (keys tools cfg d t),
          )
          (simp append_assoc)

  plain-remove :
      (s : Bucket)
      → All (λ e. (starts_with (partition tools cfg d) e.0 && is_manifest e.0) ≡ false) s
      → All
          (λ e. (starts_with (partition tools cfg d) e.0 && is_manifest e.0) ≡ false)
          (remove gone s)
  unfolding remove
  plain-remove [] h = tt
  plain-remove (e ∷ s) h = elim (Bool-cases (mem e.0 gone)) [
    | inl g ↦ rw g (plain-remove s h.1)
    | inr n ↦ rw n (h.0, plain-remove s h.1)
  ]

  front-IsPlain : All IsPlain front
  front-IsPlain =
      All-append IsPlain (listing (partition tools cfg d) (remove gone t)) _
        (listing-IsPlain (partition tools cfg d) (remove gone t) (plain-remove t clean.plain))
        (output-is_manifest tools d (keys tools cfg d t), tt)

  abbrev present : List Text
  present = keys_of (by_key (listing (partition tools cfg d) found))

  abbrev stale : List Text
  stale = stale_of present (keys tools cfg d t)

  find-manifest : find (manifest tools cfg d t) found ≡ some body
  unfolding find
  find-manifest =
      find-append (manifest tools cfg d t) (remove gone t) _
        (find-remove-none (manifest tools cfg d t) gone t (manifest-absent tools cfg d t clean))
      ∙ rw (
        manifest-output tools cfg d t clean,
        (text_eq_iff (manifest tools cfg d t) (manifest tools cfg d t)).1 refl,
      )

  -- With the sources that are still there all sources are gone.
  remove-stale : remove (gone ++ stale) t ≡ remove (keys tools cfg d t) t
  remove-stale =
      ap (λ l. remove (gone ++ l) t)
        (stale_of-by_key (listing (partition tools cfg d) found) (keys tools cfg d t))
      ∙ ap (λ l. remove (gone ++ stale_of (keys_of l) (keys tools cfg d t)) t)
          (listing-found
            ∙ append_assoc (listing (partition tools cfg d) (remove gone t)) _ (last ∷ []))
      ∙ remove-stale_of (partition tools cfg d) t cfg gone _ sub

  removed :
      (more : List Text)
      → AreSources tools cfg d t more
      → remove more found ≡ between tools cfg d t merged body (gone ++ more)
  removed more more_sub =
      remove-between tools cfg d t clean merged body gone more more_sub
      ∙ ap (λ x. x ++ (output tools cfg d t, merged) ∷ (manifest tools cfg d t, body) ∷ [])
          (remove-remove gone more t)

  AreSources-append :
      (more : List Text) → AreSources tools cfg d t more → AreSources tools cfg d t (gone ++ more)
  AreSources-append more more_sub k h = elim (Bool-cases (mem k gone)) [
    | inl e ↦ sub k e
    | inr n ↦ more_sub k (ground (arith, h, n, mem-append k gone more))
  ]

  stale-AreSources : AreSources tools cfg d t stale
  stale-AreSources k h = stale-mem k present (keys tools cfg d t) h

  delete_stale-Ends :
      (some_keys : List Text) (w : s3.World)
      → AreSources tools cfg d t some_keys
      → contents w ≡ found
      → Ends s3 laws
          (λ _ u. u ≡ remove some_keys found)
          (Interrupted tools cfg d t)
          (delete_stale s3 tools some_keys w)
  unfolding delete_stale
  delete_stale-Ends [] w h e = record { holds = e ∙ sym (remove-nil found) }
  delete_stale-Ends (k ∷ more) w h e =
      Ends-mono s3 laws (delete_keys-Ends s3 laws (k ∷ more) w found e)
        (λ u p.
          let part_sub : AreSources tools cfg d t p.0 = λ j q. h j (p.1 j q) in
          listed merged body (gone ++ p.0) m b (AreSources-append p.0 part_sub)
            (p.2 ∙ removed p.0 part_sub))
        (λ _ u p. p)

  finish_run-Ends :
      (w : s3.World)
      → contents w ≡ found
      → Ends s3 laws
          (λ _ u. u ≡ after tools cfg d t merged)
          (Interrupted tools cfg d t)
          (finish_run s3 tools present
            (manifest tools cfg d t)
            (manifest_of tools (keys tools cfg d t) (output tools cfg d t))
            w)
  unfolding finish_run manifest_of
  finish_run-Ends w e =
      Ends-bind s3 laws _ _ _ (delete_stale-Ends stale w stale-AreSources e) (λ u h. h)
        (λ _ v f. delete_manifest-Ends s3 laws tools cfg d t clean merged body v m b (
          f
          ∙ removed stale stale-AreSources
          ∙ ap (λ x. x ++ (output tools cfg d t, merged) ∷ (manifest tools cfg d t, body) ∷ [])
              remove-stale))

  manifest-step :
      (w : s3.World) (o : Option Manifest) (next again : M s3 ℕ)
      → o ≡ some (manifest_of tools (keys tools cfg d t) (output tools cfg d t))
      → again ≡ pure s3 1
      → contents w ≡ found
      → Ends s3 laws
          (λ n u. (n ≡ 1) × (u ≡ after tools cfg d t merged))
          (Interrupted tools cfg d t)
          ((elim o as (λ _. M s3 ℕ) [
            | none ↦ next
            | some r ↦ bind s3 (finish_run s3 tools present (manifest tools cfg d t) r) (λ _. again)
          ])
            w)
  manifest-step w none next again h k e = cc h
  manifest-step w (some r) next again h k e =
      let same : r ≡ manifest_of tools (keys tools cfg d t) (output tools cfg d t) = cc h in
      rw same (
        Ends-bind s3 laws _ _ _ (finish_run-Ends w e) (λ u g. g)
          (λ _ v f.
            subst
              (λ m.
                Ends s3 laws (λ n u. (n ≡ 1) × (u ≡ after tools cfg d t merged))
                  (Interrupted tools cfg d t) (m v))
              (sym k) (record { holds = (refl, f) })))

  body_read :
      (other : Text)
      → find (manifest tools cfg d t) found ≡ some other
      → tools.unmarshal other ≡ some (manifest_of tools (keys tools cfg d t) (output tools cfg d t))
  body_read other h =
      let same : other ≡ body = cc (h, find-manifest) in
      ap tools.unmarshal same ∙ readable.unmarshal-marshal _ body b

  finish_last-Ends :
      (w : s3.World) (back : List Object)
      → All IsPlain back
      → contents w ≡ found
      → Ends s3 laws
          (λ n u. (n ≡ 1) × (u ≡ after tools cfg d t merged))
          (Interrupted tools cfg d t)
          (finish_loop s3 tools present (last ∷ back) 0 w)
  unfolding finish_loop
  finish_last-Ends w back plain e = rw (manifest-is_manifest tools d (keys tools cfg d t)) (
      Ends-bind s3 laws _ _ _ (get_object-Ends s3 laws (manifest tools cfg d t) w found e)
        (λ u h. listed merged body gone m b sub h)
        (λ other v f.
          manifest-step v (tools.unmarshal other) (finish_loop s3 tools present back 0)
            (finish_loop s3 tools present back 1) (body_read other f.1)
            (finish_loop-plain s3 laws tools present back 1 plain) f.0))

  sorted_found : Splits IsPlain last (by_key (listing (partition tools cfg d) found))
  sorted_found =
      subst (λ l. Splits IsPlain last (by_key l)) (sym listing-found)
        (Splits-by_key IsPlain last front front-IsPlain)

  finish-Ends :
      (w : s3.World)
      → contents w ≡ found
      → Ends s3 laws
          (λ n u. (n ≡ 1) × (u ≡ after tools cfg d t merged))
          (Interrupted tools cfg d t)
          (finish_interrupted_runs s3 tools (by_key (listing (partition tools cfg d) found)) w)
  unfolding finish_interrupted_runs
  finish-Ends w e =
      let order = sorted_found in
      let skip : finish_loop s3 tools present (by_key (listing (partition tools cfg d) found)) 0
          ≡ finish_loop s3 tools present (last ∷ order.back) 0 =
        ap (λ l. finish_loop s3 tools present l 0) order.whole
        ∙ finish_loop-IsPlain s3 laws tools present order.front (last ∷ order.back) 0
            order.front_All in
      subst
        (λ f.
          Ends s3 laws (λ n u. (n ≡ 1) × (u ≡ after tools cfg d t merged))
            (Interrupted tools cfg d t) (f w))
        (sym skip) (finish_last-Ends w order.back order.back_All e)

  -- The run deletes what the other left, and goes on with the bucket that the other aimed at.
  pub compact_partition-between :
      (w : s3.World) (next : IsClean tools cfg d (after tools cfg d t merged))
      → contents w ≡ found
      → Ends s3 laws
          (λ _ u. Settled s3 laws tools cfg d (after tools cfg d t merged) next u)
          (λ u.
            Interrupted tools cfg d t u ⊎ Interrupted tools cfg d (after tools cfg d t merged) u)
          (compact_partition s3 tools cfg (partition tools cfg d) w)
  unfolding compact_partition list_again
  compact_partition-between w next e =
      Ends-bind s3 laws _ _ _ (list_objects-Ends s3 laws (partition tools cfg d) w found e)
        (λ u h. inl (listed merged body gone m b sub h))
        (λ objects v f. rw (f.1) (
          Ends-bind s3 laws _ _ _ (finish-Ends v f.0) (λ u h. inl h)
            (λ n x g. rw (g.0) (
              Ends-bind s3 laws _ _ _ (list_objects-Ends s3 laws (partition tools cfg d) x _ g.1)
                (λ u h. inr (Interrupted.untouched h))
                (λ current y k.
                  rw (k.1, select_sources-by_key _ cfg)
                    (Ends-mono s3 laws
                      (merge_or_skip-Ends s3 laws tools cfg d (after tools cfg d t merged) next 1 y
                        _ (inl refl) k.0)
                      (λ u h. inr h) (λ _ u h. h)))))))
