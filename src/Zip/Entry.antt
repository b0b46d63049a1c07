-- ===== src/Zip/Entry.antt =====
-- The headers that `buildZip` of scripts/zip.ts writes for one entry.
use Prim.Native.Nat.{bit_or}
use cdk_log_to_s.Prelude.{ℕ, ◌+◌, ◌*◌, ◌%◌, ◌^◌, Text, List, Result, ok, ◌>>=◌, length}
use cdk_log_to_s.Zip.Buffer.{write_uint16_le, write_uint32_le, copy, alloc}
use cdk_log_to_s.Zip.Crc.{crc32}

-- What Node does: `zlib.deflateRawSync` at level 9, and UTF-8.
pub record Coder : Type 0 where
  pub deflate : List ℕ → List ℕ
  pub encode : Text → List ℕ
  pub decode : List ℕ → Text

pub record ZipEntryInput : Type 0 where
  pub name : Text
  pub content : List ℕ
  pub mode : ℕ

abbrev pub dos_time : ℕ
dos_time = 0

-- `(0 << 9) | (1 << 5) | 1`
abbrev pub dos_date : ℕ
dos_date = bit_or (bit_or (0 * 2 ^ 9) (1 * 2 ^ 5)) 1

-- `((0o100000 | mode) << 16) >>> 0`
unfoldable pub external_attributes : ℕ → ℕ
external_attributes mode = bit_or 0o100000 mode * 65536 % 4294967296

module _ (coder : Coder) where
  unfoldable pub local_header : ZipEntryInput → Result (List ℕ)
  local_header entry = do
    let name = coder.encode entry.name
    let deflated = coder.deflate entry.content
    b ← write_uint32_le 0x04034b50 0 (alloc (30 + length name))
    b ← write_uint16_le 20 4 b
    b ← write_uint16_le 0 6 b
    b ← write_uint16_le 8 8 b
    b ← write_uint16_le dos_time 10 b
    b ← write_uint16_le dos_date 12 b
    b ← write_uint32_le (crc32 entry.content) 14 b
    b ← write_uint32_le (length deflated) 18 b
    b ← write_uint32_le (length entry.content) 22 b
    b ← write_uint16_le (length name) 26 b
    b ← write_uint16_le 0 28 b
    ok (copy name 30 b)

  unfoldable pub central_header : ZipEntryInput → ℕ → Result (List ℕ)
  central_header entry offset = do
    let name = coder.encode entry.name
    let deflated = coder.deflate entry.content
    b ← write_uint32_le 0x02014b50 0 (alloc (46 + length name))
    b ← write_uint16_le (bit_or (3 * 2 ^ 8) 30) 4 b
    b ← write_uint16_le 20 6 b
    b ← write_uint16_le 0 8 b
    b ← write_uint16_le 8 10 b
    b ← write_uint16_le dos_time 12 b
    b ← write_uint16_le dos_date 14 b
    b ← write_uint32_le (crc32 entry.content) 16 b
    b ← write_uint32_le (length deflated) 20 b
    b ← write_uint32_le (length entry.content) 24 b
    b ← write_uint16_le (length name) 28 b
    b ← write_uint16_le 0 30 b
    b ← write_uint16_le 0 32 b
    b ← write_uint16_le 0 34 b
    b ← write_uint16_le 0 36 b
    b ← write_uint32_le (external_attributes entry.mode) 38 b
    b ← write_uint32_le offset 42 b
    ok (copy name 46 b)
