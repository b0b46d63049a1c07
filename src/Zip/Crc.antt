-- ===== src/Zip/Crc.antt =====
-- `crcTable` and `crc32` of scripts/zip.ts. An `Int32` is its bit pattern, a number below 2 ^ 32: `>>>`
-- then divides, `^` and `&` are those of the patterns, and -1 is 0xffffffff.
use Prim.Native.Nat.{bit_and, bit_xor}
use cdk_log_to_s.Prelude.{
  ℕ, zero, suc, ◌+◌, ◌/◌, ◌%◌, ◌<◌, ◌==◌, List, [], ◌∷◌, if◌then◌else◌, get_or, arith,
}

-- `c & 1 ? 0xedb88320 ^ (c >>> 1) : c >>> 1`
unfoldable pub crc_step : ℕ → ℕ
crc_step c = if bit_and c 1 == 0 then c / 2 else bit_xor 0xedb88320 (c / 2)

-- The inner loop, `k` rounds.
unfoldable pub crc_rounds : ℕ → ℕ → ℕ
crc_rounds zero c = c
crc_rounds (suc k) c = crc_rounds k (crc_step c)

-- The entries of the table from `n` on, `left` of them.
unfoldable pub crc_entries : ℕ → ℕ → List ℕ
crc_entries zero n = []
crc_entries (suc left) n = crc_rounds 8 n ∷ crc_entries left (n + 1)

unfoldable pub crc_table : List ℕ
crc_table = crc_entries 256 0

-- The loop over the bytes.
unfoldable pub crc_bytes : ℕ → List ℕ → ℕ
crc_bytes c [] = c
crc_bytes c (b ∷ buf) =
    crc_bytes (bit_xor (get_or crc_table (bit_and (bit_xor c b) 0xff) 0) (c / 256)) buf

unfoldable pub crc32 : List ℕ → ℕ
crc32 buf = bit_xor (crc_bytes 0xffffffff buf) 0xffffffff % 4294967296

pub crc32-lt : (buf : List ℕ) → crc32 buf < 4294967296
unfolding crc32
crc32-lt buf = omega arith
