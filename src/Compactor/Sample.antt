-- ===== src/Compactor/Sample.antt =====
-- A store and codecs that keep what S3 and the codecs promise, to run the job in tests: texts are
-- written with their length in front.
use cdk_log_to_s.Prelude.{
  ℕ, zero, suc, Text, codes, Bool, true, false, if◌then◌else◌, List, [], ◌∷◌, ◌++◌, length, take,
  drop, take-length, drop-length, Option, none, some, ◌≡◌, refl, ◌∙◌, ap, ap₂, inr, arith,
}
use cdk_log_to_s.Compactor.{Entry, Manifest, Tools, Lawful, Object}
use cdk_log_to_s.Compactor.Bucket.{Bucket, mem, find, assign, remove, listing, by_key}
use cdk_log_to_s.Compactor.Store.{S3}
use cdk_log_to_s.Compactor.Store as Store

abbrev pub put_text : Text → Text → Text
put_text t rest = length t ∷ (t ++ rest)

abbrev pub get_text : Text → Text × Text
get_text [] = ([], [])
get_text (n ∷ s) = (take n s, drop n s)

get_text-put : (t rest : Text) → get_text (put_text t rest) ≡ (t, rest)
get_text-put t rest = ap₂ (λ a b. (a, b)) (take-length t rest) (drop-length t rest)

abbrev pub put_option : Option Text → Text → Text
put_option none rest = 0 ∷ rest
put_option (some t) rest = 1 ∷ put_text t rest

abbrev pub get_option : Text → Option Text × Text
get_option [] = (none, [])
get_option (zero ∷ s) = (none, s)
get_option (suc n ∷ s) = let (t, rest) = get_text s in (some t, rest)

get_option-put : (o : Option Text) (rest : Text) → get_option (put_option o rest) ≡ (o, rest)
get_option-put none rest = refl
get_option-put (some t) rest = rw (take-length t rest, drop-length t rest)

unfoldable pub put_entry : Entry → Text → Text
put_entry e rest = put_text e.timestamp (
    put_text e.level (
      put_text e.source (
        put_text e.correlation_id (
          put_text e.request_id (
            put_text e.message (
              put_text e.function_name
                (put_option e.context (put_option e.stack_trace (put_option e.caller rest)))))))))

unfoldable pub get_entry : Text → Entry × Text
get_entry s =
    let (timestamp, s1) = get_text s in
    let (level, s2) = get_text s1 in
    let (source, s3) = get_text s2 in
    let (correlation_id, s4) = get_text s3 in
    let (request_id, s5) = get_text s4 in
    let (message, s6) = get_text s5 in
    let (function_name, s7) = get_text s6 in
    let (context, s8) = get_option s7 in
    let (stack_trace, s9) = get_option s8 in
    let (caller, rest) = get_option s9 in
    (
      record {
        timestamp = timestamp;
        level = level;
        source = source;
        correlation_id = correlation_id;
        request_id = request_id;
        message = message;
        function_name = function_name;
        context = context;
        stack_trace = stack_trace;
        caller = caller;
      },
      rest,
    )

get_entry-put : (e : Entry) (rest : Text) → get_entry (put_entry e rest) ≡ (e, rest)
unfolding get_entry put_entry
get_entry-put e rest = simp (take-length, drop-length, get_option-put)

unfoldable pub put_entries : List Entry → Text
put_entries [] = []
put_entries (e ∷ entries) = put_entry e (put_entries entries)

unfoldable pub get_entries : ℕ → Text → List Entry
get_entries zero s = []
get_entries (suc n) s = let (e, rest) = get_entry s in e ∷ get_entries n rest

get_entries-put :
    (entries : List Entry) → get_entries (length entries) (put_entries entries) ≡ entries
unfolding get_entries put_entries
get_entries-put [] = refl
get_entries-put (e ∷ entries) =
    rw (get_entry-put e (put_entries entries)) (ap (λ l. e ∷ l) (get_entries-put entries))

unfoldable pub put_texts : List Text → Text → Text
put_texts [] rest = rest
put_texts (t ∷ texts) rest = put_text t (put_texts texts rest)

unfoldable pub get_texts : ℕ → Text → List Text × Text
get_texts zero s = ([], s)
get_texts (suc n) s =
    let (t, rest) = get_text s in let (texts, more) = get_texts n rest in (t ∷ texts, more)

get_texts-put :
    (texts : List Text) (rest : Text)
    → get_texts (length texts) (put_texts texts rest) ≡ (texts, rest)
unfolding get_texts put_texts
get_texts-put [] rest = refl
get_texts-put (t ∷ texts) rest = rw (
  take-length t (put_texts texts rest),
  drop-length t (put_texts texts rest),
  get_texts-put texts rest,
)

unfoldable pub put_manifest : Manifest → Text
put_manifest m =
    length m.sources
    ∷ put_texts m.sources (length m.outputs ∷ put_texts m.outputs (put_text m.written []))

unfoldable pub outputs_of : List Text → Text → Option Manifest
outputs_of sources [] = none
outputs_of sources (k ∷ s) =
    let (outputs, rest) = get_texts k s in
    some (record { sources = sources; outputs = outputs; written = (get_text rest).0 })

unfoldable pub get_manifest : Text → Option Manifest
get_manifest [] = none
get_manifest (n ∷ s) = let (sources, rest) = get_texts n s in outputs_of sources rest

get_manifest-put : (m : Manifest) → get_manifest (put_manifest m) ≡ some m
unfolding get_manifest put_manifest outputs_of
get_manifest-put m =
    ap (λ p. outputs_of p.0 p.1)
      (get_texts-put m.sources (length m.outputs ∷ put_texts m.outputs (put_text m.written [])))
    ∙ rw (get_texts-put m.outputs (put_text m.written [])) (rw (take-length m.written []))

unfoldable pub get_rows : Text → Option (List Entry)
get_rows [] = none
get_rows (n ∷ s) = some (get_entries n s)

abbrev pub sample_tools : Tools
sample_tools = record {
  write = λ entries compression. some (length entries ∷ put_entries entries);
  read = get_rows;
  sha256 = λ t. t;
  marshal = λ m. some (put_manifest m);
  unmarshal = get_manifest;
  now = codes "2026-08-31T02:00:00Z";
}

some-injective : {a b : Text} → some a ≡ some b → b ≡ a
some-injective h = cc

pub sample_tools-Lawful : Lawful sample_tools
unfolding get_rows
sample_tools-Lawful = record {
  read-write = λ entries compression body h.
      ap get_rows (some-injective h) ∙ ap some (get_entries-put entries);
  unmarshal-marshal = λ m body h. ap get_manifest (some-injective h) ∙ get_manifest-put m;
}

-- A bucket, and whether the next calls are answered; those behind the list are. A call that is not
-- answered has its effect, but a deletion deletes its first key alone.
pub record Scripted : Type 0 where
  pub bucket : Bucket
  pub answers : List Bool

unfoldable pub next : List Bool → Bool
next [] = true
next (a ∷ answers) = a

unfoldable pub rest_of : List Bool → List Bool
rest_of [] = []
rest_of (a ∷ answers) = answers

abbrev pub when : {A : Type 0} → Bool → Option A → Option A
when true o = o
when false o = none

abbrev pub scripted : S3
scripted = record {
  World = Scripted;
  list = λ p w. (
    when (next w.answers) (some (by_key (listing p w.bucket))),
    record w { answers = rest_of w.answers },
  );
  get = λ k w. (when (next w.answers) (find k w.bucket), record w { answers = rest_of w.answers });
  put = λ k b w.
      (next w.answers, record { bucket = assign k b w.bucket; answers = rest_of w.answers });
  delete_objects = λ keys w. (
    next w.answers,
    record {
      bucket = remove (if next w.answers then keys else take 1 keys) w.bucket;
      answers = rest_of w.answers;
    },
  );
}

pub take_one : (k : Text) (keys : List Text) → mem k (take 1 keys) ≡ true → mem k keys ≡ true
unfolding mem
take_one k [] h = cc
take_one k (j ∷ keys) h = ground (arith, h)

pub when-some : {A : Type 0} (a : Bool) (o : Option A) (x : A) → when a o ≡ some x → o ≡ some x
when-some true o x h = h
when-some false o x h = cc

pub some-eq : {l m : List Object} → some l ≡ some m → m ≡ l
some-eq h = cc

unfoldable pub scripted-Lawful : Store.Lawful scripted
scripted-Lawful = record {
  contents = λ w. w.bucket;
  list-keeps = λ p w. refl;
  list-answers = λ p w l h. some-eq (when-some (next w.answers) _ l h);
  get-keeps = λ k w. refl;
  get-answers = λ k w b h. when-some (next w.answers) _ b h;
  put-answers = λ k b w h. refl;
  put-fails = λ k b w h. inr refl;
  delete-answers = λ keys w h. ap (λ a. remove (if a then keys else take 1 keys) w.bucket) h;
  delete-fails = λ keys w h. (
    take 1 keys,
    (λ k m. take_one k keys m),
    ap (λ a. remove (if a then keys else take 1 keys) w.bucket) h,
  );
}
