-- ===== src/Zip/Reader.antt =====
-- `readZipEntries` of scripts/check-layers.ts: the central directory of a zip file.
use Prim.Native.Nat.{bit_and}
use cdk_log_to_s.Prelude.{
  ℕ, zero, suc, ◌+◌, ◌-◌, ◌/◌, ◌==◌, Text, codes, number_text, true, false, not, List, [], ◌∷◌,
  ◌++◌, Option, none, some, Result, ok, throws, ◌>>=◌, ◌>>◌, throw_if, length, if◌then◌else◌,
}
use cdk_log_to_s.Zip.Buffer.{read_uint16_le, read_uint32_le, subarray}

pub record ZipEntry : Type 0 where
  pub name : Text
  pub mode : Option ℕ

abbrev pub eocd_sig : ℕ
eocd_sig = 0x06054b50

abbrev pub cdh_sig : ℕ
cdh_sig = 0x02014b50

-- The loop from the end of the file, at the positions below the number; `none` is -1.
unfoldable pub find_eocd : List ℕ → ℕ → Result (Option ℕ)
find_eocd buf zero = ok none
find_eocd buf (suc i) = elim (read_uint32_le buf i) [
  | throws e ↦ throws e
  | ok value ↦ elim (value == eocd_sig) [ true ↦ ok (some i) | false ↦ find_eocd buf i ]
]

unfoldable pub corrupt_message : Text → ℕ → Text
corrupt_message file i = file ++ codes ": corrupt central directory at entry " ++ number_text i

unfoldable pub not_a_zip_message : Text → Text
not_a_zip_message file = file ++ codes ": no end-of-central-directory record; the file is not a zip"

-- `mode === 0 ? undefined : mode`
abbrev pub mode_or_none : ℕ → Option ℕ
mode_or_none mode = if mode == 0 then none else some mode

module _ (decode : List ℕ → Text) (file : Text) (buf : List ℕ) where
  -- One round of the loop: the entry, and by how much the offset grows.
  unfoldable pub read_entry : ℕ → ℕ → Result (ZipEntry × ℕ)
  read_entry i offset = do
    signature ← read_uint32_le buf offset
    throw_if (not (signature == cdh_sig)) (corrupt_message file i)
    name_len ← read_uint16_le buf (offset + 28)
    extra_len ← read_uint16_le buf (offset + 30)
    comment_len ← read_uint16_le buf (offset + 32)
    external_attr ← read_uint32_le buf (offset + 38)
    let name = decode (subarray buf (offset + 46) name_len)
    let mode = bit_and (external_attr / 65536) 0xffff
    ok (record { name = name; mode = mode_or_none mode }, 46 + name_len + extra_len + comment_len)

  -- The rounds that are left, from entry `i` at an offset.
  unfoldable pub read_directory : ℕ → ℕ → ℕ → Result (List ZipEntry)
  read_directory zero i offset = ok []
  read_directory (suc left) i offset = do
    (entry, size) ← read_entry i offset
    rest ← read_directory left (i + 1) (offset + size)
    ok (entry ∷ rest)

  unfoldable pub entries_from : Option ℕ → Result (List ZipEntry)
  entries_from none = throws (not_a_zip_message file)
  entries_from (some eocd) = do
    count ← read_uint16_le buf (eocd + 10)
    offset ← read_uint32_le buf (eocd + 16)
    read_directory count 0 offset

  -- A file of fewer than 22 bytes has no position to look at.
  unfoldable pub read_zip_entries : Result (List ZipEntry)
  read_zip_entries = do eocd ← find_eocd buf (length buf - 21); entries_from eocd
