-- ===== src/Layers/Sources/Agreement.antt =====
-- Trees with the same fingerprint.
use cdk_log_to_s.Prelude.{
  ℕ, Text, codes, text_eq, text_eq_iff, ◌==◌, true, false, List, [], ◌∷◌, ◌++◌, Option, none, some,
  Bool-cases, inl, inr, ◌≡◌, ◌≢◌, refl, sym, ap, ◌∙◌, arith,
}
use cdk_log_to_s.Zip.Entry.{Coder}
use cdk_log_to_s.Layers.Sources.{
  Node, file, directory, Entries, entry, text_lt, insert, joined, ends_with, is_source, below_path,
  insert_some, visit, walk, extension_source_sha,
}

-- Two listings that differ in their order, and in entries that are no source of the program.
pub data Agrees : Entries → Entries → Type 0 where
  same : (es : Entries) → Agrees es es
  swapped :
      (m n : Text) (x y : Node) (es : Entries)
      → m ≢ n
      → Agrees (entry m x (entry n y es)) (entry n y (entry m x es))
  build_output : (x : Node) (es : Entries) → Agrees (entry (codes "dist") x es) es
  test_file :
      (stem : Text) (content : List ℕ) (es : Entries)
      → Agrees (entry (stem ++ codes "_test.go") (file content) es) es
  other_file :
      (n : Text) (content : List ℕ) (es : Entries)
      → ((stem : Text) → n ≢ stem ++ codes ".go")
      → n ≢ codes "go.mod"
      → n ≢ codes "go.sum"
      → Agrees (entry n (file content) es) es
  behind :
      (n : Text) (x : Node) (es fs : Entries) → Agrees es fs → Agrees (entry n x es) (entry n x fs)
  inside :
      (n : Text) (es fs rest : Entries)
      → Agrees es fs
      → Agrees (entry n (directory es) rest) (entry n (directory fs) rest)
  reversed : (es fs : Entries) → Agrees es fs → Agrees fs es
  composed : (es fs gs : Entries) → Agrees es fs → Agrees fs gs → Agrees es gs

text_lt-irreflexive : (s : Text) → text_lt s s ≡ false
unfolding text_lt
text_lt-irreflexive [] = refl
text_lt-irreflexive (c ∷ s) = ground (arith, text_lt-irreflexive s)

text_lt-asymmetric : (s t : Text) → text_lt s t ≡ true → text_lt t s ≡ false
unfolding text_lt
text_lt-asymmetric s [] h = absurd (cc h)
text_lt-asymmetric [] (d ∷ t) h = refl
text_lt-asymmetric (c ∷ s) (d ∷ t) h = ground (arith, text_lt-asymmetric s t)

text_lt-connected : (s t : Text) → s ≢ t → text_lt s t ≡ false → text_lt t s ≡ true
unfolding text_lt
text_lt-connected [] [] ne h = absurd (ne refl)
text_lt-connected (c ∷ s) [] ne h = refl
text_lt-connected [] (d ∷ t) ne h = absurd (cc h)
text_lt-connected (c ∷ s) (d ∷ t) ne h = elim (Bool-cases (c == d)) [
  | inl e ↦
      let same_unit : c ≡ d = ground (arith, e) in
      ground (arith, e, h, text_lt-connected s t (λ k. ne (cc (same_unit, k))))
  | inr e ↦ ground (arith, e, h)
]

text_lt-transitive : (s t u : Text) → text_lt s t ≡ true → text_lt t u ≡ true → text_lt s u ≡ true
unfolding text_lt
text_lt-transitive s [] u h k = absurd (cc h)
text_lt-transitive s (d ∷ t) [] h k = absurd (cc k)
text_lt-transitive [] (d ∷ t) (e ∷ u) h k = refl
text_lt-transitive (c ∷ s) (d ∷ t) (e ∷ u) h k = ground (arith, text_lt-transitive s t u)

text_lt-below : (k n m : Text) → text_lt k n ≡ false → text_lt k m ≡ true → text_lt n m ≡ true
text_lt-below k n m h l = elim (Bool-cases (text_eq k n)) [
  | inl e ↦ rw (← (text_eq_iff k n).0 e) l
  | inr e ↦
      text_lt-transitive n k m (text_lt-connected k n (λ q. cc (e, (text_eq_iff k n).1 q)) h) l
]

-- Entries of different names are sorted alike in whichever order they come.
insert-insert :
    (m n : Text) (x y : List ℕ) (l : List (Text × List ℕ))
    → m ≢ n
    → insert m x (insert n y l) ≡ insert n y (insert m x l)
unfolding insert
insert-insert m n x y [] ne = elim (Bool-cases (text_lt m n)) [
  | inl e ↦ rw (e, text_lt-asymmetric m n e)
  | inr e ↦ rw (e, text_lt-connected m n ne e)
]
insert-insert m n x y ((k, b) ∷ l) ne = ground (
  arith,
  insert-insert m n x y l ne,
  text_lt-asymmetric m n,
  text_lt-connected m n ne,
  text_lt-below k n m,
  text_lt-below k m n,
)

insert_some-insert_some :
    (m n : Text) (x y : Option (List ℕ)) (l : List (Text × List ℕ))
    → m ≢ n
    → insert_some m x (insert_some n y l) ≡ insert_some n y (insert_some m x l)
unfolding insert_some
insert_some-insert_some m n none y l ne = refl
insert_some-insert_some m n (some x) none l ne = refl
insert_some-insert_some m n (some x) (some y) l ne = insert-insert m n x y l ne

ends_with-append :
    (stem : Text) (c : ℕ) (suffix : Text) → ends_with (c ∷ suffix) (stem ++ c ∷ suffix) ≡ true
unfolding ends_with
ends_with-append [] c suffix = rw ((text_eq_iff (c ∷ suffix) (c ∷ suffix)).1 refl)
ends_with-append (d ∷ stem) c suffix = ground (arith, ends_with-append stem c suffix)

ends_with-found :
    (c : ℕ) (suffix s : Text)
    → ends_with (c ∷ suffix) s ≡ true
    → (stem : Text) × (s ≡ stem ++ c ∷ suffix)
unfolding ends_with text_eq
ends_with-found c suffix [] h = absurd (cc h)
ends_with-found c suffix (d ∷ s) h = elim (Bool-cases (text_eq (c ∷ suffix) (d ∷ s))) [
  | inl e ↦ ([], sym ((text_eq_iff (c ∷ suffix) (d ∷ s)).0 e))
  | inr e ↦
      let (stem, k) = ends_with-found c suffix s (ground (arith, e, h)) in
      (d ∷ stem, ap (λ x. d ∷ x) k)
]

is_source-test : (stem : Text) → is_source (stem ++ codes "_test.go") ≡ false
unfolding is_source
is_source-test stem = ground (arith, ends_with-append stem b'_' (codes "test.go"))

is_source-other :
    (n : Text)
    → ((stem : Text) → n ≢ stem ++ codes ".go")
    → n ≢ codes "go.mod"
    → n ≢ codes "go.sum"
    → is_source n ≡ false
unfolding is_source
is_source-other n go module_file sum = elim (Bool-cases (ends_with (codes ".go") n)) [
  | inl e ↦ let (stem, k) = ends_with-found b'.' (codes "go") n e in absurd (go stem k)
  | inr e ↦ ground (arith, e, text_eq_iff n (codes "go.mod"), text_eq_iff n (codes "go.sum"))
]

-- The entries at which the loop goes on.
visit-dist : (coder : Coder) (path : Text) (x : Node) → visit coder path (codes "dist") x ≡ none
unfolding visit text_eq
visit-dist coder path (file content) = refl
visit-dist coder path (directory entries) = refl

visit-other :
    (coder : Coder) (path n : Text) (content : List ℕ)
    → is_source n ≡ false
    → visit coder path n (file content) ≡ none
unfolding visit
visit-other coder path n content h = ground (arith, h)

walk-none :
    (coder : Coder) (path n : Text) (x : Node) (es : Entries)
    → visit coder path n x ≡ none
    → walk coder path (entry n x es) ≡ walk coder path es
unfolding walk insert_some
walk-none coder path n x es h = rw h

walk-Agrees :
    (coder : Coder) (es fs : Entries)
    → Agrees es fs
    → (path : Text) → walk coder path es ≡ walk coder path fs
unfolding walk
walk-Agrees coder _ _ (same es) path = refl
walk-Agrees coder _ _ (swapped m n x y es ne) path =
    insert_some-insert_some m n (visit coder path m x) (visit coder path n y) (walk coder path es)
      ne
walk-Agrees coder _ _ (build_output x es) path =
    walk-none coder path (codes "dist") x es (visit-dist coder path x)
walk-Agrees coder _ _ (test_file stem content es) path =
    walk-none coder path _ (file content) es
      (visit-other coder path _ content (is_source-test stem))
walk-Agrees coder _ _ (other_file n content es go module_file sum) path =
    walk-none coder path n (file content) es
      (visit-other coder path n content (is_source-other n go module_file sum))
walk-Agrees coder _ _ (behind n x es fs h) path =
    ap (insert_some n (visit coder path n x)) (walk-Agrees coder es fs h path)
walk-Agrees coder _ _ (inside n es fs rest h) path =
    rw (walk-Agrees coder es fs h (below_path path n)) refl
walk-Agrees coder _ _ (reversed es fs h) path = sym (walk-Agrees coder es fs h path)
walk-Agrees coder _ _ (composed es fs gs h k) path =
    walk-Agrees coder es fs h path ∙ walk-Agrees coder fs gs k path

-- The fingerprint of the Go sources is the same for trees that differ, in any of their
-- directories, in the order of the listing, in what is called `dist`, in test files and in files
-- that are no Go file, go.mod or go.sum.
pub extension_source_sha-Agrees :
    (coder : Coder) (sha256 : List ℕ → Text) (es fs : Entries)
    → Agrees es fs
    → extension_source_sha coder sha256 es ≡ extension_source_sha coder sha256 fs
unfolding extension_source_sha
extension_source_sha-Agrees coder sha256 es fs h =
    ap (λ w. sha256 (joined w)) (walk-Agrees coder es fs h [])
