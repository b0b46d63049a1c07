-- ===== src/Zip/Buffer.antt =====
-- The methods of Node's `Buffer` that scripts/zip.ts and scripts/check-layers.ts call. A write or a
-- read beyond the end, and a value that does not fit, throw a `RangeError`.
use cdk_log_to_s.Prelude.{
  ℕ, zero, suc, ◌+◌, ◌*◌, ◌/◌, ◌%◌, Text, codes, Bool, true, false, ltb, List, [], ◌∷◌, Result, ok,
  throws, ◌>>◌, throw_if, replicate, drop, take, not,
}

abbrev pub alloc : ℕ → List ℕ
alloc n = replicate n 0

-- Puts the bytes over those at the front of the buffer; what does not fit is cut off.
abbrev pub overwrite : List ℕ → List ℕ → List ℕ
overwrite [] buf = buf
overwrite (b ∷ bytes) [] = []
overwrite (b ∷ bytes) (c ∷ buf) = b ∷ overwrite bytes buf

abbrev pub overwrite_at : ℕ → List ℕ → List ℕ → List ℕ
overwrite_at zero bytes buf = overwrite bytes buf
overwrite_at (suc i) bytes [] = []
overwrite_at (suc i) bytes (c ∷ buf) = c ∷ overwrite_at i bytes buf

abbrev pub le16 : ℕ → List ℕ
le16 v = v % 256 ∷ v / 256 % 256 ∷ []

abbrev pub le32 : ℕ → List ℕ
le32 v = v % 256 ∷ v / 256 % 256 ∷ v / 65536 % 256 ∷ v / 16777216 % 256 ∷ []

unfoldable pub out_of_range : Text
out_of_range = codes "ERR_OUT_OF_RANGE"

-- Whether the buffer has `n` bytes.
abbrev pub has_bytes : ℕ → List ℕ → Bool
has_bytes zero buf = true
has_bytes (suc n) [] = false
has_bytes (suc n) (b ∷ buf) = has_bytes n buf

-- buf.writeUInt16LE(value, offset)
abbrev pub write_uint16_le : ℕ → ℕ → List ℕ → Result (List ℕ)
write_uint16_le value offset buf = do
  throw_if (not (ltb value 65536)) out_of_range
  throw_if (not (has_bytes (2 + offset) buf)) out_of_range
  ok (overwrite_at offset (le16 value) buf)

-- buf.writeUInt32LE(value, offset)
abbrev pub write_uint32_le : ℕ → ℕ → List ℕ → Result (List ℕ)
write_uint32_le value offset buf = do
  throw_if (not (ltb value 4294967296)) out_of_range
  throw_if (not (has_bytes (4 + offset) buf)) out_of_range
  ok (overwrite_at offset (le32 value) buf)

-- source.copy(target, start), which stops at the end of the target.
abbrev pub copy : List ℕ → ℕ → List ℕ → List ℕ
copy source start target = overwrite_at start source target

read16 : List ℕ → Result ℕ
read16 (a ∷ b ∷ rest) = ok (a + b * 256)
read16 _ = throws out_of_range

read32 : List ℕ → Result ℕ
read32 (a ∷ b ∷ c ∷ d ∷ rest) = ok (a + b * 256 + c * 65536 + d * 16777216)
read32 _ = throws out_of_range

-- buf.readUInt16LE(offset)
unfoldable pub read_uint16_le : List ℕ → ℕ → Result ℕ
unfolding read16
read_uint16_le buf offset = read16 (drop offset buf)

-- buf.readUInt32LE(offset)
unfoldable pub read_uint32_le : List ℕ → ℕ → Result ℕ
unfolding read32
read_uint32_le buf offset = read32 (drop offset buf)

-- buf.subarray(start, end), as `toString` reads it: both ends are cut to the buffer.
abbrev pub subarray : List ℕ → ℕ → ℕ → List ℕ
subarray buf start n = take n (drop start buf)
