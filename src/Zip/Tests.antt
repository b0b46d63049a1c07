-- ===== src/Zip/Tests.antt =====
-- Tests of the zip writer and reader, and the round trip at a concrete archive.
use cdk_log_to_s.Prelude.{ℕ, codes, List, [], ◌∷◌, ok, ◌≡◌, refl, map, arith}
use cdk_log_to_s.Zip.{build_zip}
use cdk_log_to_s.Zip.Crc.{crc32, crc_bytes, crc_table, crc_entries, crc_rounds, crc_step}
use cdk_log_to_s.Zip.Checksum.{bitwise_crc32, crc32-bitwise}
use cdk_log_to_s.Zip.Entry.{Coder, ZipEntryInput}
use cdk_log_to_s.Zip.Reader.{read_zip_entries}
use cdk_log_to_s.Zip.RoundTrip.Layout.{Fits}
use cdk_log_to_s.Zip.RoundTrip.Reads.{listed, read-build}

-- A coder that stores the bytes as they are.
abbrev store : Coder
store = record { deflate = λ c. c; encode = λ t. t; decode = λ b. b }

-- The check value of CRC-32.
crc32_check : crc32 (codes "123456789") ≡ 0xcbf43926
unfolding crc32 crc_bytes crc_table crc_entries crc_rounds crc_step
crc32_check = refl

abbrev two : List ZipEntryInput
two =
    record { name = codes "extensions/a"; content = 1 ∷ 2 ∷ []; mode = 0o755 }
    ∷ record { name = codes "b"; content = []; mode = 0o644 }
    ∷ []

two-Fits : Fits store two
two-Fits = record {
  each = (
    record {
      name = omega arith;
      deflated = omega arith;
      content = omega arith;
      mode = omega arith;
      decoded = refl;
    },
    (
      record {
        name = omega arith;
        deflated = omega arith;
        content = omega arith;
        mode = omega arith;
        decoded = refl;
      },
      tt,
    ),
  );
  count = omega arith;
  locals = omega arith;
  centrals = omega arith;
}

read-build_example :
    (z : List ℕ) × (build_zip store two ≡ ok z)
    × (read_zip_entries store.decode (codes "a.zip") z ≡ ok (map listed two))
read-build_example = read-build store (codes "a.zip") two two-Fits

crc32-bitwise_example : crc32 (codes "123456789") ≡ bitwise_crc32 (codes "123456789")
crc32-bitwise_example = crc32-bitwise (codes "123456789") (
  omega arith,
  (
    omega arith,
    (
      omega arith,
      (omega arith, (omega arith, (omega arith, (omega arith, (omega arith, (omega arith, tt)))))),
    ),
  ),
)
