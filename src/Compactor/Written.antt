-- ===== src/Compactor/Written.antt =====
-- The objects that the extension writes, as queries and the compactor see them.
pub mod Tests
use cdk_log_to_s.Prelude.{
  ℕ, zero, suc, ◌+◌, ◌≤◌, ◌<◌, leb, Bool-cases, inl, inr, ◌==◌, Text, codes, text_eq, text_eq_iff,
  starts_with, true, false, ◌&&◌, ◌||◌, not, [], ◌∷◌, ◌++◌, append_assoc, All, All-append, ◌≡◌,
  refl, ap, sym, ◌∙◌, arith, length,
}
use cdk_log_to_s.Go.Strings.{has_suffix}
use cdk_log_to_s.Integ.Keys.Seeds.{IsFlat}
use cdk_log_to_s.Integ.Keys.Written.{file_name, file_name-All, unknown-IsName}
use cdk_log_to_s.Layout.{
  Day, normalize_prefix, padded, partition_path, is_kept, sanitize, Entropy, random_suffix,
  build_key,
}
use cdk_log_to_s.Layout.Names.{IsKept, IsRandom, sanitize-IsName}
use cdk_log_to_s.Compactor.{Config, path_base, is_candidate}
use cdk_log_to_s.Compactor.Bucket.{mem}
use cdk_log_to_s.Compactor.Bucket.Rows.{is_visible}
use cdk_log_to_s.Compactor.Run.Names.{path_base-name, has_suffix-append, starts_with-append}
use cdk_log_to_s.Compactor.Settings.{partitions, partitions_from}

kept-IsFlat : (t : Text) → All IsKept t → IsFlat t
unfolding is_kept
kept-IsFlat [] h = tt
kept-IsFlat (c ∷ t) h = (ground (arith, h.0), kept-IsFlat t h.1)

-- What a name up to its first dash, the dash included, begins with.
starts_with-dash :
    (p a rest : Text)
    → All (λ c. (c == b'-') ≡ false) p
    → starts_with (p ++ codes "-") (a ++ (codes "-" ++ rest))
      ≡ starts_with (p ++ codes "-") (a ++ codes "-")
unfolding starts_with
starts_with-dash [] [] rest h = refl
starts_with-dash [] (c ∷ a) rest h = refl
starts_with-dash (x ∷ p) [] rest h = rw (h.0) refl
starts_with-dash (x ∷ p) (c ∷ a) rest h = ap (λ b. (x == c) && b) (starts_with-dash p a rest h.1)

starts_with-first :
    (x : ℕ) (a rest : Text)
    → 1 ≤ length a
    → starts_with (x ∷ []) (a ++ rest) ≡ starts_with (x ∷ []) a
unfolding starts_with
starts_with-first x [] rest h = absurd (omega (arith, h))
starts_with-first x (c ∷ a) rest h = refl

module _ (prefix : Text) (day : Day) (f c : Text) (e : Entropy) (random : IsRandom e) where
  abbrev name : Text
  name = file_name f c e ++ codes ".parquet"

  abbrev folder : Text
  folder =
      normalize_prefix prefix
      ++ (padded 4 day.year
          ++ (codes "/" ++ (padded 2 day.month ++ (codes "/" ++ padded 2 day.date))))

  name-IsFlat : IsFlat name
  name-IsFlat =
      All-append (λ x. (x == b'/') ≡ false) (file_name f c e) (codes ".parquet")
        (kept-IsFlat _ (file_name-All f c e random))
        (refl, (refl, (refl, (refl, (refl, (refl, (refl, (refl, tt))))))))

  base-build_key : path_base (build_key prefix day f c e) ≡ name
  unfolding build_key partition_path
  base-build_key =
      let front : name ≡ (file_name f c e ++ codes ".parque") ++ codes "t" = simp append_assoc in
      let whole : build_key prefix day f c e ≡ (folder ++ codes "/") ++ name = simp append_assoc in
      ap path_base (whole ∙ ap (λ t. (folder ++ codes "/") ++ t) front)
      ∙ path_base-name folder (file_name f c e ++ codes ".parque") b't' (rw (← front) name-IsFlat)
          refl
      ∙ sym front

  abbrev marked : Text → Text
  marked p = sanitize f (codes "unknown") ++ codes "-"

  tail : Text
  tail = sanitize c (codes "none") ++ (codes "-" ++ (random_suffix e ++ codes ".parquet"))

  name-tail : name ≡ sanitize f (codes "unknown") ++ (codes "-" ++ tail)
  unfolding tail
  name-tail = simp append_assoc

-- Where the random bytes are bytes: an object that the extension writes is hidden from queries
-- exactly if the sanitized name of its function begins with an underscore or a dot, and it is
-- never merged exactly if it is hidden or that name, with a dash behind, begins with `part-`.
pub build_key-is_candidate :
    (prefix : Text) (day : Day) (function_name correlation_id : Text) (e : Entropy)
    → IsRandom e
    → (is_visible (build_key prefix day function_name correlation_id e)
        ≡ not (
            starts_with (codes "_") (sanitize function_name (codes "unknown"))
            || starts_with (codes ".") (sanitize function_name (codes "unknown"))))
      × (is_candidate (build_key prefix day function_name correlation_id e) ≡ (
          is_visible (build_key prefix day function_name correlation_id e)
          && not (
              starts_with (codes "part-") (sanitize function_name (codes "unknown") ++ codes "-"))))
unfolding is_visible is_candidate
build_key-is_candidate prefix day f c e random =
    let base = base-build_key prefix day f c e random in
    let split = name-tail prefix day f c e random in
    let s = sanitize f (codes "unknown") in
    let some_left = (sanitize-IsName f (codes "unknown") unknown-IsName).0 in
    let rest = codes "-" ++ tail prefix day f c e random in
    let merged =
      starts_with-dash (codes "part") s (tail prefix day f c e random)
        (refl, (refl, (refl, (refl, tt)))) in
    let hidden = starts_with-first b'_' s rest some_left in
    let dotted = starts_with-first b'.' s rest some_left in
    let ending = has_suffix-append (file_name f c e) (codes ".parquet") in
    (rw (base, split, hidden, dotted) refl, rw (base, ending, split, merged) (ground arith))

mem-partitions_from :
    (prefix : Text) (days_ago : ℕ → Day) (j n i : ℕ)
    → j ≤ i
    → i < j + n
    → mem (partition_path prefix (days_ago i)) (partitions_from prefix days_ago j n) ≡ true
unfolding partitions_from mem
mem-partitions_from prefix days_ago j zero i h k = absurd (omega (arith, h, k))
mem-partitions_from prefix days_ago j (suc n) i h k = elim (Bool-cases (leb i j)) [
  | inl e ↦
      let same : i ≡ j = ground (arith, e, h) in
      rw (same, (text_eq_iff (partition_path prefix (days_ago j)) _).1 refl) refl
  | inr f ↦
      rw (mem-partitions_from prefix days_ago (j + 1) n i (ground (arith, f)) (omega (arith, k)))
        (ground arith)
]

-- Where the prefixes of the extension and of the compactor normalise to the same: on each of the
-- days from the one before the clock's to as many before it as the lookback says, the keys that
-- the extension makes are in a partition over which the compactor runs.
pub build_key-in_window :
    (cfg : Config) (days_ago : ℕ → Day) (i : ℕ) (prefix function_name correlation_id : Text)
    (e : Entropy)
    → 1 ≤ i
    → i ≤ cfg.lookback_days
    → normalize_prefix prefix ≡ normalize_prefix cfg.prefix
    → (p : Text) × (mem p (partitions cfg days_ago) ≡ true)
      × (starts_with p (build_key prefix (days_ago i) function_name correlation_id e) ≡ true)
unfolding partitions build_key partition_path
build_key-in_window cfg days_ago i prefix f c e h k same = (
  partition_path cfg.prefix (days_ago i),
  mem-partitions_from cfg.prefix days_ago 1 cfg.lookback_days i h (omega (arith, k)),
  rw same (starts_with-append (partition_path cfg.prefix (days_ago i)) _),
)
