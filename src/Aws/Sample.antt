-- ===== src/Aws/Sample.antt =====
-- A concrete `Cdk`, by which the hypotheses on it are met: durations are milliseconds and sizes
-- are mebibytes.
use cdk_log_to_s.Prelude.{
  ℕ, ◌*◌, ◌/◌, ◌%◌, ◌==◌, if◌then◌else◌, codes, Bool, true, false, Result, ok, throws, arith,
}
use cdk_log_to_s.Aws.{Cdk, Lawful}

abbrev whole : ℕ → ℕ → Result ℕ
whole unit d = if d % unit == 0 then ok (d / unit) else throws (codes "not a whole number")

abbrev pub sample : Cdk
sample = record {
  Duration = ℕ;
  days = λ n. n * 86400000;
  minutes = λ n. n * 60000;
  seconds = λ n. n * 1000;
  to_milliseconds = λ d. d;
  to_seconds = whole 1000;
  to_days = whole 86400000;
  Size = ℕ;
  mebibytes = λ n. n;
  to_bytes = λ n. n * 1048576;
  to_mebibytes = λ n. ok n;
  Architecture = Bool;
  arm_64 = true;
  x86_64 = false;
  architecture_name = λ b. if b then codes "arm64" else codes "x86_64";
  RemovalPolicy = Bool;
  retain = true;
  destroy = false;
  BucketEncryption = Bool;
  s3_managed = true;
  BlockPublicAccess = Bool;
  block_all = true;
  Runtime = Unit {0};
  provided_al2023 = tt;
  Schedule = Unit {0};
  cron = λ minute hour. tt;
  RetentionDays = ℕ;
  one_month = 30;
}

pub sample-Lawful : Lawful sample
sample-Lawful = record {
  days_ms = λ n. omega arith;
  seconds_ms = λ n. omega arith;
  whole_seconds = λ d n h. ground arith;
  seconds_whole = λ d n h. ground arith;
  whole_days = λ d n h. ground arith;
  days_whole = λ d n h. ground arith;
}
