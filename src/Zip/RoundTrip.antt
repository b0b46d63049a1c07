-- ===== src/Zip/RoundTrip.antt =====
-- `buildZip` of scripts/zip.ts and `readZipEntries` of scripts/check-layers.ts, one after the
-- other: `Layout` has the bytes of each part, `Writes` is about the first and `Reads` the second.
pub mod Layout
pub mod Writes
pub mod Reads
