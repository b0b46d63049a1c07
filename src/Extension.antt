-- ===== src/Extension.antt =====
-- src/log-to-s3-extension.ts: the options, the state and the shared `attach` of the extension.
-- The constructors are in Extension/Construct.
pub mod Environment
pub mod Construct
pub mod Tests
pub mod Attach
use cdk_log_to_s.Prelude.{
  ℕ, String, Text, codes, text_eq, Bool, true, false, not, List, [], ◌∷◌, ◌++◌, map, Option, none,
  some, any, to_upper_case, Result, ok, ◌>>=◌, ◌>>◌, throw_if, ◌or_else◌, if◌then◌else◌,
}
use cdk_log_to_s.Aws.{Cdk, Bucket, LambdaFunction}
use cdk_log_to_s.Env.Vars

pub data LogCompression : Type 0 where
  snappy zstd gzip uncompressed : LogCompression

unfoldable pub compression_text : LogCompression → Text
compression_text snappy = codes "snappy"
compression_text zstd = codes "zstd"
compression_text gzip = codes "gzip"
compression_text uncompressed = codes "uncompressed"

pub data LogLevel : Type 0 where
  debug info warn error : LogLevel

unfoldable pub level_text : LogLevel → Text
level_text debug = codes "DEBUG"
level_text info = codes "INFO"
level_text warn = codes "WARN"
level_text error = codes "ERROR"

module _ (cdk : Cdk) where
  pub record LogToS3ExtensionProps : Type 0 where
    pub logs_bucket : Bucket
    pub architecture : Option cdk.Architecture
    pub key_prefix : Option Text
    pub log_level : Option LogLevel
    pub flush_interval : Option cdk.Duration
    pub max_buffer_size : Option cdk.Size
    pub compression : Option LogCompression
    pub telemetry_port : Option ℕ
    pub include_platform_report : Option Bool
    pub runtime_done_wait : Option cdk.Duration
    pub extension_debug : Option Bool
    pub layer_version_name : Option Text
    pub description : Option Text
    pub compatible_runtimes : Option (List cdk.Runtime)
    pub removal_policy : Option cdk.RemovalPolicy

  pub record LogToS3ExtensionAttributes : Type 0 where
    pub layer_version_arn : Text
    pub logs_bucket : Bucket
    pub architecture : Option cdk.Architecture
    pub key_prefix : Option Text
    pub log_level : Option LogLevel
    pub compression : Option LogCompression
    pub telemetry_port : Option ℕ

  -- `new lambda.LayerVersion(…)`, by its properties, or `LayerVersion.fromLayerVersionArn`.
  pub data Layer : Type 0 where
    created :
        Text
        → List cdk.Architecture
        → Option (List cdk.Runtime)
        → Option Text
        → Text
        → Option cdk.RemovalPolicy
        → Layer
    imported : Text → Layer

  -- `ILogToS3Extension`: what a constructed or an imported extension exposes.
  pub record LogToS3Extension : Type 0 where
    pub layer : Layer
    pub logs_bucket : Bucket
    pub key_prefix : Text
    pub architecture : cdk.Architecture
    pub environment : List (String × Text)

  -- The calls of aws-cdk-lib by which an extension changes an app, in their order.
  pub data Call : Type 0 where
    add_layers : Text → Layer → Call
    add_environment : Text → String → Text → Call
    grant_put : Bucket → Text → Text → Call

pub record LogToS3AttachOptions : Type 0 where
  pub log_level : Option LogLevel
  pub grant_write : Option Bool

-- The pattern of a grant, `${keyPrefix}*`: everything below the key prefix.
abbrev pub below : Text → Text
below key_prefix = key_prefix ++ codes "*"

-- The set `attached` of an extension, and the calls that were made so far.
pub record Wiring (cdk : Cdk) : Type 0 where
  pub attached : List Text
  pub calls : List (Call cdk)

unfoldable pub has : List Text → Text → Bool
has attached path = any (text_eq path) attached

module _ (cdk : Cdk) where
  unfoldable pub mismatch_message : LogToS3Extension cdk → LambdaFunction cdk → Text
  mismatch_message ext fn =
      let wanted = cdk.architecture_name fn.architecture in
      codes "Cannot attach a "
      ++ cdk.architecture_name ext.architecture
      ++ codes " log-to-s3 extension to function \""
      ++ fn.path
      ++ codes "\", which is "
      ++ wanted
      ++ codes ". A layer contains a native binary, so create a second LogToS3Extension with "
      ++ codes "{ architecture: lambda.Architecture."
      ++ to_upper_case wanted
      ++ codes " } for these functions."

  -- `for (const [key, value] of Object.entries(…)) fn.addEnvironment(key, value)`.
  unfoldable pub environment_calls : Text → List (String × Text) → List (Call cdk)
  environment_calls path [] = []
  environment_calls path ((key, value) ∷ entries) =
      add_environment path key value ∷ environment_calls path entries

  unfoldable pub level_calls : Text → Option LogLevel → List (Call cdk)
  level_calls path none = []
  level_calls path (some level) = add_environment path Vars.level (level_text level) ∷ []

  unfoldable pub grant_calls : LogToS3Extension cdk → Text → Bool → List (Call cdk)
  grant_calls ext path true = grant_put ext.logs_bucket path (below ext.key_prefix) ∷ []
  grant_calls ext path false = []

  -- The calls of a first attachment, in the order of the source.
  unfoldable pub attach_calls :
      LogToS3Extension cdk → LambdaFunction cdk → LogToS3AttachOptions → List (Call cdk)
  attach_calls ext fn options =
      add_layers fn.path ext.layer ∷ environment_calls fn.path ext.environment
      ++ level_calls fn.path options.log_level
      ++ grant_calls ext fn.path (options.grant_write or_else true)

  -- `attach`; a call without options is one where both are undefined.
  unfoldable pub attach :
      LogToS3Extension cdk
      → LambdaFunction cdk
      → LogToS3AttachOptions
      → Wiring cdk
      → Result (Wiring cdk)
  attach ext fn options w = do
    throw_if
        (not (
          text_eq (cdk.architecture_name fn.architecture) (cdk.architecture_name ext.architecture)))
        (mismatch_message ext fn)
    if has w.attached fn.path
        then ok w
        else ok (record {
          attached = w.attached ++ fn.path ∷ [];
          calls = w.calls ++ attach_calls ext fn options;
        })

  -- `grantWriteLogs`.
  unfoldable pub grant_write_logs : LogToS3Extension cdk → Text → Wiring cdk → Wiring cdk
  grant_write_logs ext grantee w = record w {
    calls = w.calls ++ grant_put ext.logs_bucket grantee (below ext.key_prefix) ∷ [];
  }
