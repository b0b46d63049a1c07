-- ===== src/Zip.antt =====
-- scripts/zip.ts: the deterministic zip writer. A `Buffer` is the list of its bytes. `zlib` and the
-- UTF-8 coder are parameters.
pub mod Buffer
pub mod Xor
pub mod Crc
pub mod Entry
pub mod Reader
pub mod Checksum
pub mod RoundTrip
pub mod Tests
use cdk_log_to_s.Prelude.{
  ℕ, ◌+◌, ◌*◌, ◌%◌, ◌^◌, Text, List, [], ◌∷◌, ◌++◌, Result, ok, ◌>>=◌, length,
}
use cdk_log_to_s.Zip.Buffer.{write_uint16_le, write_uint32_le, copy, alloc}
use cdk_log_to_s.Zip.Entry.{Coder, ZipEntryInput, local_header, central_header}

-- The three variables of the loop.
pub record Archive : Type 0 where
  pub locals : List ℕ
  pub centrals : List ℕ
  pub offset : ℕ

-- The end-of-central-directory record.
unfoldable pub end_record : ℕ → ℕ → ℕ → Result (List ℕ)
end_record count size offset = do
  b ← write_uint32_le 0x06054b50 0 (alloc 22)
  b ← write_uint16_le 0 4 b
  b ← write_uint16_le 0 6 b
  b ← write_uint16_le count 8 b
  b ← write_uint16_le count 10 b
  b ← write_uint32_le size 12 b
  b ← write_uint32_le offset 16 b
  write_uint16_le 0 20 b

module _ (coder : Coder) where
  -- One round of `for (const entry of entries)`.
  unfoldable pub add_entry : ZipEntryInput → Archive → Result Archive
  add_entry entry archive = do
    let deflated = coder.deflate entry.content
    local ← local_header coder entry
    central ← central_header coder entry archive.offset
    ok (record {
      locals = archive.locals ++ local ++ deflated;
      centrals = archive.centrals ++ central;
      offset = archive.offset + (length local + length deflated);
    })

  unfoldable pub add_entries : List ZipEntryInput → Archive → Result Archive
  add_entries [] archive = ok archive
  add_entries (entry ∷ entries) archive = do
    next ← add_entry entry archive
    add_entries entries next

  unfoldable pub build_zip : List ZipEntryInput → Result (List ℕ)
  build_zip entries = do
    archive ← add_entries entries (record { locals = []; centrals = []; offset = 0 })
    eocd ← end_record (length entries) (length archive.centrals) archive.offset
    ok (archive.locals ++ (archive.centrals ++ eocd))
