-- ===== src/Aws.antt =====
-- What the constructs use of aws-cdk-lib, as a parameter: opaque types with the operations that
-- the code calls, and the documented laws of durations that the theorems need. A bucket, a
-- function and a layer are the values that the code reads of them.
pub mod Sample
pub mod Days
use cdk_log_to_s.Prelude.{ℕ, Text, Bool, Result, ok, ◌*◌, ◌≡◌, ◌≢◌}

pub record Cdk : Type 1 where
  pub Duration : Type 0
  pub days : ℕ → Duration
  pub minutes : ℕ → Duration
  pub seconds : ℕ → Duration
  pub to_milliseconds : Duration → ℕ
  -- These raise an error for what is no whole number of the unit.
  pub to_seconds : Duration → Result ℕ
  pub to_days : Duration → Result ℕ
  pub Size : Type 0
  pub mebibytes : ℕ → Size
  pub to_bytes : Size → ℕ
  pub to_mebibytes : Size → Result ℕ
  pub Architecture : Type 0
  pub arm_64 : Architecture
  pub x86_64 : Architecture
  pub architecture_name : Architecture → Text
  pub RemovalPolicy : Type 0
  pub retain : RemovalPolicy
  pub destroy : RemovalPolicy
  pub BucketEncryption : Type 0
  pub s3_managed : BucketEncryption
  pub BlockPublicAccess : Type 0
  pub block_all : BlockPublicAccess
  pub Runtime : Type 0
  pub provided_al2023 : Runtime
  pub Schedule : Type 0
  pub cron : Text → Text → Schedule
  pub RetentionDays : Type 0
  pub one_month : RetentionDays

-- The documented behaviour of `Duration`: a conversion gives the whole number of the unit, and
-- fails if there is none.
pub record Lawful (cdk : Cdk) : Type 0 where
  pub days_ms : (n : ℕ) → cdk.to_milliseconds (cdk.days n) ≡ n * 86400000
  pub seconds_ms : (n : ℕ) → cdk.to_milliseconds (cdk.seconds n) ≡ n * 1000
  pub whole_seconds :
      (d : cdk.Duration) (n : ℕ) → cdk.to_milliseconds d ≡ n * 1000 → cdk.to_seconds d ≡ ok n
  pub seconds_whole :
      (d : cdk.Duration) (n : ℕ) → cdk.to_seconds d ≡ ok n → cdk.to_milliseconds d ≡ n * 1000
  pub whole_days :
      (d : cdk.Duration) (n : ℕ) → cdk.to_milliseconds d ≡ n * 86400000 → cdk.to_days d ≡ ok n
  pub days_whole :
      (d : cdk.Duration) (n : ℕ) → cdk.to_days d ≡ ok n → cdk.to_milliseconds d ≡ n * 86400000

-- `s3.IBucket`, by the name that the code reads.
pub record Bucket : Type 0 where
  pub bucket_name : Text

-- `lambda.Function`: its architecture and the path of its node.
pub record LambdaFunction (cdk : Cdk) : Type 0 where
  pub architecture : cdk.Architecture
  pub path : Text
