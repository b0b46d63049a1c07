-- ===== src/Zip/RoundTrip/Reads.antt =====
-- The reader of scripts/check-layers.ts on the bytes of an archive.
use Prim.Native.Nat.{bit_and}
use cdk_log_to_s.Prelude.{
  ℕ, zero, suc, ◌+◌, ◌-◌, ◌/◌, ◌<◌, ◌≡◌, refl, sym, ap, ◌∙◌, Text, Bool, true, ◌&&◌, List, [], ◌∷◌,
  ◌++◌, map, All, length, length-append, append_assoc, arith, ok, drop, drop-length, take-length,
  drop-nil, some, ◌==◌, ==_iff,
}
use mathlib.Core.Path.{subst}
use native.Mathlib.Nat.{zero-add}
use cdk_log_to_s.Zip.Buffer.{read_uint16_le, read_uint32_le, le16, le32}
use cdk_log_to_s.Zip.Entry.{Coder, ZipEntryInput, external_attributes}
use cdk_log_to_s.Zip.{build_zip}
use cdk_log_to_s.Zip.Reader.{
  ZipEntry, find_eocd, read_entry, read_directory, entries_from, read_zip_entries, mode_or_none,
}
use cdk_log_to_s.Zip.RoundTrip.Layout.{
  name_of, central_bytes, end_bytes, entry_size, locals_size, locals_bytes, centrals_bytes,
  EntryFits, Fits,
}
use cdk_log_to_s.Zip.RoundTrip.Writes.{zip_bytes, build_zip-bytes}

drop-add {ℓ} : {A : Type ℓ} (i k : ℕ) (xs : List A) → drop (i + k) xs ≡ drop k (drop i xs)
drop-add zero k xs = ap (λ n. drop n xs) (zero-add k)
drop-add (suc i) k [] = drop-nil (suc i + k) ∙ sym (drop-nil k)
drop-add (suc i) k (x ∷ xs) =
    let e : suc i + k ≡ suc (i + k) = omega arith in rw e (drop-add i k xs)

all_below : ℕ → (ℕ → Bool) → Bool
all_below zero p = true
all_below (suc n) p = p n && all_below n p

all_below-true : (n : ℕ) (p : ℕ → Bool) (x : ℕ) → all_below n p ≡ true → x < n → p x ≡ true
unfolding all_below
all_below-true zero p x h lt = absurd (omega arith)
all_below-true (suc n) p x h lt = ground (arith, all_below-true n p x)

-- The mode that is read from the attributes of a mode.
abbrev read_mode : ℕ → ℕ
read_mode attributes = bit_and (attributes / 65536) 0xffff

mode_table : all_below 4096 (λ m. read_mode (external_attributes m) == 32768 + m) ≡ true
unfolding all_below external_attributes
mode_table = refl

pub read_mode-external_attributes :
    (m : ℕ) → m < 4096 → read_mode (external_attributes m) ≡ 32768 + m
read_mode-external_attributes m h =
    (==_iff _ _).0
      (all_below-true 4096 (λ x. read_mode (external_attributes x) == 32768 + x) m mode_table h)

module _ (buf : List ℕ) where
  read_uint32_le-le32 :
      (offset v : ℕ) (rest : List ℕ)
      → v < 4294967296
      → drop offset buf ≡ le32 v ++ rest
      → read_uint32_le buf offset ≡ ok v
  unfolding read_uint32_le
  read_uint32_le-le32 offset v rest small e = rw e (ap ok (omega arith))

  read_uint16_le-le16 :
      (offset v : ℕ) (rest : List ℕ)
      → v < 65536
      → drop offset buf ≡ le16 v ++ rest
      → read_uint16_le buf offset ≡ ok v
  unfolding read_uint16_le
  read_uint16_le-le16 offset v rest small e = rw e (ap ok (omega arith))

mode_or_none-pos : (m : ℕ) → mode_or_none (32768 + m) ≡ some (32768 + m)
mode_or_none-pos m = ground arith

-- What the reader gives for an entry that was written.
abbrev pub listed : ZipEntryInput → ZipEntry
listed e = record { name = e.name; mode = some (32768 + e.mode) }

module _ (coder : Coder) (file : Text) (buf : List ℕ) where
  -- What stands `k` bytes into the header at an offset.
  field_at :
      (offset k : ℕ) (whole : List ℕ)
      → drop offset buf ≡ whole
      → drop (offset + k) buf ≡ drop k whole
  field_at offset k whole e = drop-add offset k buf ∙ ap (drop k) e

  read_entry-central :
      (e : ZipEntryInput) (i offset start : ℕ) (rest : List ℕ)
      → EntryFits coder e
      → start < 4294967296
      → drop offset buf ≡ central_bytes coder e start ++ rest
      → read_entry coder.decode file buf i offset
        ≡ ok (listed e, 46 + length (name_of coder e) + 0 + 0)
  unfolding read_entry external_attributes
  read_entry-central e i offset start rest fits small at =
      rw
        (
          read_uint32_le-le32 buf offset 0x02014b50 _ (omega arith) at,
          read_uint16_le-le16 buf (offset + 28) (length (name_of coder e)) _ fits.name
              (field_at offset 28 _ at),
          read_uint16_le-le16 buf (offset + 30) 0 _ (omega arith) (field_at offset 30 _ at),
          read_uint16_le-le16 buf (offset + 32) 0 _ (omega arith) (field_at offset 32 _ at),
          read_uint32_le-le32 buf (offset + 38) (external_attributes e.mode) _ (omega arith)
              (field_at offset 38 _ at),
          field_at offset 46 _ at,
          take-length (name_of coder e) rest,
          fits.decoded,
          read_mode-external_attributes e.mode fits.mode,
          mode_or_none-pos e.mode,
        )
        refl

  past_header :
      (e : ZipEntryInput) (offset start : ℕ) (more : List ℕ)
      → drop offset buf ≡ central_bytes coder e start ++ more
      → drop (offset + (46 + length (name_of coder e) + 0 + 0)) buf ≡ more
  past_header e offset start more at =
      let size : 46 + length (name_of coder e) + 0 + 0 ≡ length (central_bytes coder e start) =
        omega arith in
      rw size (
        drop-add offset (length (central_bytes coder e start)) buf
        ∙ ap (drop (length (central_bytes coder e start))) at
        ∙ drop-length (central_bytes coder e start) more)

  read_directory-centrals :
      (es : List ZipEntryInput) (i offset start : ℕ) (rest : List ℕ)
      → All (EntryFits coder) es
      → start + locals_size coder es < 4294967296
      → drop offset buf ≡ centrals_bytes coder start es ++ rest
      → read_directory coder.decode file buf (length es) i offset ≡ ok (map listed es)
  unfolding read_directory
  read_directory-centrals [] i offset start rest fits small at = refl
  read_directory-centrals (e ∷ es) i offset start rest fits small at =
      let here =
        at
        ∙ append_assoc (central_bytes coder e start)
            (centrals_bytes coder (start + entry_size coder e) es) rest in
      rw
        (
          read_entry-central e i offset start _ fits.0 (omega arith) here,
          read_directory-centrals es (i + 1) (offset + (46 + length (name_of coder e) + 0 + 0))
              (start + entry_size coder e) rest fits.1 (omega arith)
              (past_header e offset start _ here),
        )
        refl

-- The end record stands where the search begins.
find_eocd-zip :
    (front : List ℕ) (count size offset : ℕ)
    → let z = front ++ end_bytes count size offset in
      find_eocd z (length z - 21) ≡ ok (some (length front))
unfolding find_eocd
find_eocd-zip front count size offset =
    let z = front ++ end_bytes count size offset in
    let here : length z - 21 ≡ suc (length front) =
      omega (arith, length-append {0} front (end_bytes count size offset)) in
    rw
      (
        here,
        find_eocd,
        read_uint32_le-le32 z (length front) 0x06054b50 _ (omega arith)
            (drop-length front (end_bytes count size offset)),
      )
      refl

length-locals_bytes :
    (coder : Coder) (es : List ZipEntryInput)
    → length (locals_bytes coder es) ≡ locals_size coder es
length-locals_bytes coder [] = refl
length-locals_bytes coder (e ∷ es) = omega (
  arith,
  length-append {0} (name_of coder e) (coder.deflate e.content ++ locals_bytes coder es),
  length-append {0} (coder.deflate e.content) (locals_bytes coder es),
  length-locals_bytes coder es,
)

module _ (coder : Coder) (file : Text) where
  entries_from-zip :
      (es : List ZipEntryInput)
      → Fits coder es
      → entries_from coder.decode file
          (zip_bytes coder es)
          (some (length (locals_bytes coder es ++ centrals_bytes coder 0 es)))
        ≡ ok (map listed es)
  unfolding entries_from
  entries_from-zip es fits =
      let l = locals_bytes coder es in
      let c = centrals_bytes coder 0 es in
      let end = end_bytes (length es) (length c) (locals_size coder es) in
      let z = zip_bytes coder es in
      let at_end : drop (length (l ++ c)) z ≡ end =
        ap (drop (length (l ++ c))) (sym (append_assoc l c end)) ∙ drop-length (l ++ c) end in
      let at_start : drop (locals_size coder es) z ≡ c ++ end =
        ap (λ n. drop n z) (sym (length-locals_bytes coder es)) ∙ drop-length l (c ++ end) in
      rw
        (
          read_uint16_le-le16 z (length (l ++ c) + 10) (length es) _ fits.count
              (field_at coder file z (length (l ++ c)) 10 _ at_end),
          read_uint32_le-le32 z (length (l ++ c) + 16) (locals_size coder es) _ fits.locals
              (field_at coder file z (length (l ++ c)) 16 _ at_end),
        )
        (read_directory-centrals coder file z es 0 (locals_size coder es) 0 end fits.each
          (omega (arith, fits.locals)) at_start)

  -- If the sizes fit the fields of the format, the modes are permission bits and the coder keeps
  -- the names, then `buildZip` succeeds, and `readZipEntries` on its result gives the names in
  -- order, each with the mode of a regular file with the given bits.
  pub read-build :
      (es : List ZipEntryInput)
      → Fits coder es
      → (z : List ℕ) × (build_zip coder es ≡ ok z)
        × (read_zip_entries coder.decode file z ≡ ok (map listed es))
  unfolding read_zip_entries
  read-build es fits =
      let l = locals_bytes coder es in
      let c = centrals_bytes coder 0 es in
      let end = end_bytes (length es) (length c) (locals_size coder es) in
      let found : find_eocd (zip_bytes coder es) (length (zip_bytes coder es) - 21)
          ≡ ok (some (length (l ++ c))) =
        subst (λ z. find_eocd z (length z - 21) ≡ ok (some (length (l ++ c))))
          (append_assoc l c end)
          (find_eocd-zip (l ++ c) (length es) (length c) (locals_size coder es)) in
      (zip_bytes coder es, build_zip-bytes coder es fits, rw found (entries_from-zip es fits))
