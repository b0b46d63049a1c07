-- ===== src/Zip/RoundTrip/Writes.antt =====
-- The bytes that the writer of scripts/zip.ts produces.
use cdk_log_to_s.Prelude.{
  ℕ, zero, suc, ◌+◌, ◌<◌, ◌≡◌, refl, ap, ◌∙◌, List, [], ◌∷◌, ◌++◌, All, length, append_assoc,
  append-nil, arith, ok, lt→ltb,
}
use native.Mathlib.Nat.{add-zero, add_assoc, zero-add}
use cdk_log_to_s.Zip.Buffer.{overwrite, alloc}
use cdk_log_to_s.Zip.Crc.{crc32-lt}
use cdk_log_to_s.Zip.Entry.{Coder, ZipEntryInput, local_header, central_header, external_attributes}
use cdk_log_to_s.Zip.{Archive, add_entry, add_entries, end_record, build_zip}
use cdk_log_to_s.Zip.RoundTrip.Layout.{
  deflated_of, local_bytes, central_bytes, end_bytes, entry_size, locals_size, locals_bytes,
  centrals_bytes, EntryFits, Fits,
}

alloc-add : (m n : ℕ) → alloc (m + n) ≡ alloc m ++ alloc n
alloc-add zero n = ap alloc (omega arith)
alloc-add (suc m) n =
    let e : suc m + n ≡ suc (m + n) = omega arith in rw e (ap (◌∷◌ 0) (alloc-add m n))

-- Bytes put over a buffer of their length are that buffer.
overwrite_all : (bytes : List ℕ) → overwrite bytes (alloc (length bytes)) ≡ bytes
overwrite_all [] = refl
overwrite_all (b ∷ bytes) = ap (◌∷◌ b) (overwrite_all bytes)

external_attributes-lt : (mode : ℕ) → external_attributes mode < 4294967296
unfolding external_attributes
external_attributes-lt mode = omega arith

module _ (coder : Coder) where
  local_header-bytes :
      (e : ZipEntryInput) → EntryFits coder e → local_header coder e ≡ ok (local_bytes coder e)
  unfolding local_header
  local_header-bytes e fits =
      rw
        (
          alloc-add 30 (length (coder.encode e.name)),
          lt→ltb _ _ (crc32-lt e.content),
          lt→ltb _ _ fits.deflated,
          lt→ltb _ _ fits.content,
          lt→ltb _ _ fits.name,
          overwrite_all (coder.encode e.name),
        )
        refl

  central_header-bytes :
      (e : ZipEntryInput) (offset : ℕ)
      → EntryFits coder e
      → offset < 4294967296
      → central_header coder e offset ≡ ok (central_bytes coder e offset)
  unfolding central_header
  central_header-bytes e offset fits small =
      rw
        (
          alloc-add 46 (length (coder.encode e.name)),
          lt→ltb _ _ (crc32-lt e.content),
          lt→ltb _ _ fits.deflated,
          lt→ltb _ _ fits.content,
          lt→ltb _ _ fits.name,
          lt→ltb _ _ (external_attributes-lt e.mode),
          lt→ltb _ _ small,
          overwrite_all (coder.encode e.name),
        )
        refl

  -- The archive after one more entry.
  abbrev after : ZipEntryInput → Archive → Archive
  after e a = record {
    locals = a.locals ++ local_bytes coder e ++ deflated_of coder e;
    centrals = a.centrals ++ central_bytes coder e a.offset;
    offset = a.offset + entry_size coder e;
  }

  add_entry-bytes :
      (e : ZipEntryInput) (a : Archive)
      → EntryFits coder e
      → a.offset < 4294967296
      → add_entry coder e a ≡ ok (after e a)
  unfolding add_entry
  add_entry-bytes e a fits small =
      rw (local_header-bytes e fits, central_header-bytes e a.offset fits small) refl

  abbrev archive : List ℕ → List ℕ → ℕ → Archive
  archive l c o = record { locals = l; centrals = c; offset = o }

  -- The loop writes each part behind what is there.
  add_entries-bytes :
      (es : List ZipEntryInput) (a : Archive)
      → All (EntryFits coder) es
      → a.offset + locals_size coder es < 4294967296
      → add_entries coder es a
        ≡ ok (
            archive
              (a.locals ++ locals_bytes coder es)
              (a.centrals ++ centrals_bytes coder a.offset es)
              (a.offset + locals_size coder es))
  unfolding add_entries
  add_entries-bytes [] a fits small =
      cc (append-nil a.locals, append-nil a.centrals, add-zero a.offset)
  add_entries-bytes (e ∷ es) a fits small = rw (add_entry-bytes e a fits.0 (omega arith)) (
      add_entries-bytes es (after e a) fits.1 (omega arith)
      ∙ cc (
        append_assoc (a.locals ++ local_bytes coder e) (deflated_of coder e)
            (locals_bytes coder es),
        append_assoc a.locals (local_bytes coder e) (deflated_of coder e ++ locals_bytes coder es),
        append_assoc a.centrals (central_bytes coder e a.offset)
            (centrals_bytes coder (a.offset + entry_size coder e) es),
        add_assoc a.offset (entry_size coder e) (locals_size coder es),
      ))

end_record-bytes :
    (count size offset : ℕ)
    → count < 65536
    → size < 4294967296
    → offset < 4294967296
    → end_record count size offset ≡ ok (end_bytes count size offset)
unfolding end_record
end_record-bytes count size offset p q r = rw (lt→ltb _ _ p, lt→ltb _ _ q, lt→ltb _ _ r) refl

module _ (coder : Coder) where
  -- The archive: the local parts, the directory and the end record.
  abbrev pub zip_bytes : List ZipEntryInput → List ℕ
  zip_bytes es =
      locals_bytes coder es
      ++ (centrals_bytes coder 0 es
          ++ end_bytes (length es) (length (centrals_bytes coder 0 es)) (locals_size coder es))

  pub build_zip-bytes :
      (es : List ZipEntryInput) → Fits coder es → build_zip coder es ≡ ok (zip_bytes es)
  unfolding build_zip
  build_zip-bytes es fits =
      rw
        (
          add_entries-bytes coder es (archive coder [] [] 0) fits.each (omega (arith, fits.locals)),
          zero-add (locals_size coder es),
          end_record-bytes _ _ _ fits.count fits.centrals fits.locals,
        )
        refl
