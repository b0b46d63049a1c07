-- ===== src/Zip/RoundTrip/Layout.antt =====
-- The bytes of an archive, part by part, and the sizes for which they can be written.

use cdk_log_to_s.Prelude.{ℕ, ◌+◌, ◌<◌, ◌≡◌, List, [], ◌∷◌, ◌++◌, All, length}
use cdk_log_to_s.Zip.Buffer.{le16, le32}
use cdk_log_to_s.Zip.Crc.{crc32}
use cdk_log_to_s.Zip.Entry.{Coder, ZipEntryInput, dos_time, dos_date, external_attributes}

abbrev pub end_bytes : ℕ → ℕ → ℕ → List ℕ
end_bytes count size offset =
    le32 0x06054b50
    ++ (le16 0
        ++ (le16 0 ++ (le16 count ++ (le16 count ++ (le32 size ++ (le32 offset ++ le16 0))))))

module _ (coder : Coder) where
  abbrev pub name_of : ZipEntryInput → List ℕ
  name_of e = coder.encode e.name

  abbrev pub deflated_of : ZipEntryInput → List ℕ
  deflated_of e = coder.deflate e.content

  abbrev pub local_bytes : ZipEntryInput → List ℕ
  local_bytes e =
      le32 0x04034b50
      ++ (le16 20
          ++ (le16 0
              ++ (le16 8
                  ++ (le16 dos_time
                      ++ (le16 dos_date
                          ++ (le32 (crc32 e.content)
                              ++ (le32 (length (deflated_of e))
                                  ++ (le32 (length e.content)
                                      ++ (le16 (length (name_of e))
                                          ++ (le16 0 ++ name_of e))))))))))

  abbrev pub central_bytes : ZipEntryInput → ℕ → List ℕ
  central_bytes e offset =
      le32 0x02014b50
      ++ (le16 798
          ++ (le16 20
              ++ (le16 0
                  ++ (le16 8
                      ++ (le16 dos_time
                          ++ (le16 dos_date
                              ++ (le32 (crc32 e.content)
                                  ++ (le32 (length (deflated_of e))
                                      ++ (le32 (length e.content)
                                          ++ (le16 (length (name_of e))
                                              ++ (le16 0
                                                  ++ (le16 0
                                                      ++ (le16 0
                                                          ++ (le16 0
                                                            ++ (le32 (external_attributes e.mode)
                                                            ++ (le32 offset
                                                            ++ name_of e))))))))))))))))

  abbrev pub entry_size : ZipEntryInput → ℕ
  entry_size e = length (local_bytes e) + length (deflated_of e)

  abbrev pub locals_size : List ZipEntryInput → ℕ
  locals_size [] = 0
  locals_size (e ∷ es) = entry_size e + locals_size es

  abbrev pub locals_bytes : List ZipEntryInput → List ℕ
  locals_bytes [] = []
  locals_bytes (e ∷ es) = local_bytes e ++ (deflated_of e ++ locals_bytes es)

  -- The directory of the entries whose local headers begin at an offset.
  abbrev pub centrals_bytes : ℕ → List ZipEntryInput → List ℕ
  centrals_bytes offset [] = []
  centrals_bytes offset (e ∷ es) =
      central_bytes e offset ++ centrals_bytes (offset + entry_size e) es

  -- What the fields of an entry can hold, a mode of permission bits, and a name that its coding
  -- keeps.
  pub record EntryFits (e : ZipEntryInput) : Type 0 where
    pub name : length (name_of e) < 65536
    pub deflated : length (deflated_of e) < 4294967296
    pub content : length e.content < 4294967296
    pub mode : e.mode < 4096
    pub decoded : coder.decode (name_of e) ≡ e.name

  pub record Fits (es : List ZipEntryInput) : Type 0 where
    pub each : All EntryFits es
    pub count : length es < 65536
    pub locals : locals_size es < 4294967296
    pub centrals : length (centrals_bytes 0 es) < 4294967296
