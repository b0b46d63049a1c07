-- ===== src/Compactor/Run/Names.antt =====
-- The names of the output and of the manifest of a merge.
use cdk_log_to_s.Prelude.{
  ℕ, zero, suc, ◌-◌, Text, codes, text_eq, text_eq_iff, starts_with, true, false, ltb, List, [],
  ◌∷◌, ◌++◌, ◌==◌, append_assoc, take, drop-length, length, length-append, ◌≡◌, refl, sym, ap, ◌∙◌,
  arith, All-append, drop_while_end-concat_false,
}
use cdk_log_to_s.Go.Strings.{has_suffix, trim_right}
use cdk_log_to_s.Layout.{hex_encode, hex_digit}
use cdk_log_to_s.Integ.Keys.{after_last_slash}
use cdk_log_to_s.Integ.Keys.Seeds.{IsFlat, after_last_slash-append}
use cdk_log_to_s.Compactor.{Tools, path_base, is_candidate, digest, digest_input, manifest_suffix}
use cdk_log_to_s.Compactor.Bucket.Rows.{is_visible}
use cdk_log_to_s.Compactor.Run.{is_manifest, output_key_of, manifest_key_of}

pub has_suffix-append : (s suffix : Text) → has_suffix (s ++ suffix) suffix ≡ true
unfolding has_suffix
has_suffix-append s suffix =
    let long : ltb (length (s ++ suffix)) (length suffix) ≡ false =
      ground (arith, length-append {0} s suffix) in
    let front : length (s ++ suffix) - length suffix ≡ length s =
      omega (arith, length-append {0} s suffix) in
    rw (long, front, drop-length s suffix) ((text_eq_iff suffix suffix).1 refl)

pub starts_with-append : (p s : Text) → starts_with p (p ++ s) ≡ true
unfolding starts_with
starts_with-append [] s = refl
starts_with-append (c ∷ p) s = ground (arith, starts_with-append p s)

text_eq-append : (s t : Text) (c : ℕ) → text_eq (s ++ c ∷ t) [] ≡ false
unfolding text_eq
text_eq-append [] t c = refl
text_eq-append (d ∷ s) t c = refl

-- A name with no slash, behind a folder.
pub path_base-name :
    (d front : Text) (c : ℕ)
    → IsFlat (front ++ c ∷ [])
    → (c == b'/') ≡ false
    → path_base ((d ++ codes "/") ++ (front ++ c ∷ [])) ≡ front ++ c ∷ []
unfolding path_base trim_right
path_base-name d front c flat last =
    let whole : (d ++ codes "/") ++ (front ++ c ∷ []) ≡ ((d ++ codes "/") ++ front) ++ c ∷ [] =
      simp append_assoc in
    let kept = drop_while_end-concat_false (λ x. x == b'/') ((d ++ codes "/") ++ front) c last in
    let base : after_last_slash (((d ++ codes "/") ++ front) ++ c ∷ [])
          (((d ++ codes "/") ++ front) ++ c ∷ [])
        ≡ front ++ c ∷ [] =
      ap (after_last_slash (((d ++ codes "/") ++ front) ++ c ∷ [])) (simp append_assoc)
      ∙ after_last_slash-append d (((d ++ codes "/") ++ front) ++ c ∷ []) (front ++ c ∷ []) flat in
    rw (
      whole,
      text_eq-append ((d ++ codes "/") ++ front) [] c,
      kept,
      base,
      text_eq-append front [] c,
    )

hex_digit-flat : (n : ℕ) → (hex_digit n == b'/') ≡ false
unfolding hex_digit
hex_digit-flat n = ground arith

hex_encode-IsFlat : (bytes : List ℕ) → IsFlat (hex_encode bytes)
unfolding hex_encode
hex_encode-IsFlat [] = tt
hex_encode-IsFlat (b ∷ bytes) = (hex_digit-flat _, (hex_digit-flat _, hex_encode-IsFlat bytes))

take-IsFlat : (n : ℕ) (t : Text) → IsFlat t → IsFlat (take n t)
take-IsFlat zero t h = tt
take-IsFlat (suc n) [] h = tt
take-IsFlat (suc n) (c ∷ t) h = (h.0, take-IsFlat n t h.1)

digest-IsFlat : (tools : Tools) (keys : List Text) → IsFlat (digest tools keys)
unfolding digest
digest-IsFlat tools keys = take-IsFlat 16 _ (hex_encode-IsFlat (tools.sha256 (digest_input keys)))

IsFlat-append : (a b : Text) → IsFlat a → IsFlat b → IsFlat (a ++ b)
IsFlat-append a b h k = All-append (λ c. (c == b'/') ≡ false) a b h k

-- The two names, in front of their last letter.
abbrev output_front : Text → Text
output_front id = codes "part-" ++ (id ++ codes ".parque")

abbrev manifest_front : Text → Text
manifest_front id = codes "_part-" ++ (id ++ codes ".manifest.jso")

output_base :
    (tools : Tools) (d : Text) (keys : List Text)
    → path_base (output_key_of tools (d ++ codes "/") keys)
      ≡ codes "part-" ++ (digest tools keys ++ codes ".parquet")
unfolding output_key_of
output_base tools d keys =
    let id = digest tools keys in
    let same : codes "part-" ++ (id ++ codes ".parquet") ≡ output_front id ++ codes "t" =
      simp append_assoc in
    let flat : IsFlat (output_front id ++ codes "t") =
      IsFlat-append (output_front id) (codes "t")
        (IsFlat-append (codes "part-") (id ++ codes ".parque")
          (refl, (refl, (refl, (refl, (refl, tt)))))
          (IsFlat-append id (codes ".parque") (digest-IsFlat tools keys)
            (refl, (refl, (refl, (refl, (refl, (refl, (refl, tt)))))))))
        (refl, tt) in
    ap (λ t. path_base ((d ++ codes "/") ++ t)) same
    ∙ path_base-name d (output_front id) b't' flat refl
    ∙ sym same

manifest_base :
    (tools : Tools) (d : Text) (keys : List Text)
    → path_base (manifest_key_of tools (d ++ codes "/") keys)
      ≡ codes "_part-" ++ (digest tools keys ++ manifest_suffix)
unfolding manifest_key_of
manifest_base tools d keys =
    let id = digest tools keys in
    let same : codes "_part-" ++ (id ++ manifest_suffix) ≡ manifest_front id ++ codes "n" =
      simp append_assoc in
    let flat : IsFlat (manifest_front id ++ codes "n") =
      IsFlat-append (manifest_front id) (codes "n")
        (IsFlat-append (codes "_part-") (id ++ codes ".manifest.jso")
          (refl, (refl, (refl, (refl, (refl, (refl, tt))))))
          (IsFlat-append id (codes ".manifest.jso") (digest-IsFlat tools keys) (
            refl,
            (
              refl,
              (
                refl,
                (refl, (refl, (refl, (refl, (refl, (refl, (refl, (refl, (refl, (refl, tt)))))))))),
              ),
            ),
          )))
        (refl, tt) in
    ap (λ t. path_base ((d ++ codes "/") ++ t)) same
    ∙ path_base-name d (manifest_front id) b'n' flat refl
    ∙ sym same

module _ (tools : Tools) (d : Text) (keys : List Text) where
  pub output-is_candidate : is_candidate (output_key_of tools (d ++ codes "/") keys) ≡ false
  unfolding is_candidate starts_with
  output-is_candidate = rw (output_base tools d keys) (ground arith)

  pub output-is_visible : is_visible (output_key_of tools (d ++ codes "/") keys) ≡ true
  unfolding is_visible starts_with
  output-is_visible = rw (output_base tools d keys)

  pub output-is_manifest : is_manifest (output_key_of tools (d ++ codes "/") keys) ≡ false
  unfolding is_manifest starts_with
  output-is_manifest = rw (output_base tools d keys)

  pub manifest-is_candidate : is_candidate (manifest_key_of tools (d ++ codes "/") keys) ≡ false
  unfolding is_candidate starts_with
  manifest-is_candidate = rw (manifest_base tools d keys) (ground arith)

  pub manifest-is_visible : is_visible (manifest_key_of tools (d ++ codes "/") keys) ≡ false
  unfolding is_visible starts_with
  manifest-is_visible = rw (manifest_base tools d keys)

  pub manifest-is_manifest : is_manifest (manifest_key_of tools (d ++ codes "/") keys) ≡ true
  unfolding is_manifest starts_with
  manifest-is_manifest = rw (manifest_base tools d keys) (
      ap (λ t. has_suffix t manifest_suffix)
        (append_assoc (codes "_part-") (digest tools keys) manifest_suffix)
      ∙ has_suffix-append (codes "_part-" ++ digest tools keys) manifest_suffix)

  pub output-starts_with :
      starts_with (d ++ codes "/") (output_key_of tools (d ++ codes "/") keys) ≡ true
  unfolding output_key_of
  output-starts_with = starts_with-append (d ++ codes "/") _

  pub manifest-starts_with :
      starts_with (d ++ codes "/") (manifest_key_of tools (d ++ codes "/") keys) ≡ true
  unfolding manifest_key_of
  manifest-starts_with = starts_with-append (d ++ codes "/") _
