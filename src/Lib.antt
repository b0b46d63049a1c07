-- ===== src/Lib.antt =====
-- A verification library for cdk-log-to-s3: AWS CDK constructs that attach a Lambda extension
-- which writes logs to S3 as Parquet, with a bucket for them, a daily compaction job and a Glue
-- table, and the scripts that pack and check the committed binaries.
--
-- The parts and how they interact. A `LogToS3Extension` holds a layer, a bucket, a normalised key
-- prefix and the environment that the Go extension reads; `attachTo` hands these to functions, and
-- `fromExtension` of `LogAnalytics` and of `LogCompaction` take bucket and prefix over. All three
-- normalise the prefix by src/private/env.ts. The extension and the job find their binaries by
-- src/private/assets.ts, which scripts/build-layers.ts packed with the zip writer of scripts/zip.ts
-- and scripts/check-layers.ts checks with a reader of its own. In the function the logger of
-- packages/logger writes one JSON line per record, on the level that `attachTo` set. The stack of
-- examples/integ composes all constructs, and scripts/verify-integ.ts reads its outputs, invokes
-- its functions and checks the objects and rows that come of it.
--
-- Files, by the source that they model:
--   Env, Env/Vars         src/private/env.ts: `ENV`, `DEFAULT_KEY_PREFIX`, `normalizePrefix`
--   Env/Strip, Env/Prefix the form of a normalised prefix, and a second normalisation
--   Layout                extension-go/internal/layout: the keys of log objects; Layout/Names: the
--                         units of a name; Layout/Agreement: its `NormalizePrefix` beside the one of
--                         src/private/env.ts; Integ/Keys/Written: its keys in the integration check
--   Agent/Config          extension-go/config.go: `loadConfig`; Agent/Config/Contract: what it reads
--                         of the environment that the construct sets
--   Compactor             extension-go/compactor/compact.go: rows, settings and the choice of the
--                         sources; Compactor/Store: store.go, over the calls of S3; Compactor/Bucket:
--                         what S3 documents of them; Compactor/Run: `CompactPartition`
--   Compactor/Run/States, Merge, Recover, Stale, Interrupted, Safety   where a run can have been
--                         stopped, and what the next one makes of it; Compactor/Run/Bounds: the caps;
--                         Compactor/Run/Order: the order in which objects are listed
--   Compactor/Settings    extension-go/compactor/config.go: `LoadConfig` and `Partitions`;
--                         Compactor/Settings/Contract: what it reads of the variables that the
--                         construct sets; Compactor/Handler: extension-go/compactor/main.go
--   Compactor/Written     the objects that the extension writes, as queries and the compactor see them
--   Go                    what the Go code uses of `strings`, `unicode` and `strconv`
--   Assets                src/private/assets.ts: `resolveArtifactAsset` and its two callers
--   Schema                src/private/schema.ts: the columns
--   Extension             src/log-to-s3-extension.ts: options, state, `attach`, `grantWriteLogs`
--   Extension/Environment `buildEnvironment`
--   Extension/Construct   the constructor and `fromAttributes`
--   Extension/Attach      what lists of calls leave on a function, and all sequences of calls
--   LogBucket             src/log-bucket.ts: the constructor and `buildLifecycleRules`
--   LogCompaction         src/log-compaction.ts: the constructor and `fromExtension`
--   LogAnalytics          src/log-analytics.ts: the constructor and `fromExtension`
--   LogAnalytics/Query    `grantQuery`
--   Zip, Zip/Entry        scripts/zip.ts: `buildZip`, its two headers and its end record
--   Zip/Crc               scripts/zip.ts: `crcTable` and `crc32`
--   Zip/Reader            scripts/check-layers.ts: `readZipEntries`
--   Layers                scripts/layers.ts; Layers/Pack and Layers/Build: `pack` and `main` of
--                         scripts/build-layers.ts; Layers/Compile: its `goVersion`, `compile` and
--                         BUILDINFO.json; Layers/Sources: its `extensionSourceSha`, and
--                         Layers/Sources/Agreement: trees with the same one; Layers/Check: the main
--                         program of scripts/check-layers.ts; Layers/Whole: it after the build;
--                         Layers/Shipped: scripts/verify-pack.js
--   Zip/Xor, Zip/Checksum laws of exclusive or, and the checksum without a table
--   Integ                 scripts/verify-integ.ts: Integ/Script, the statements it is made of;
--                         Integ/Keys, `KEY_PATTERN` and the names of seeds; Integ/Query, `outputs`
--                         and `runQuery`; Integ/Rows, its tests; Integ/Sections and Integ/Program,
--                         `main`; Integ/Settles, Integ/Deadlines, Integ/Termination: its end;
--                         Integ/Evidence, Integ/Checks, Integ/Compaction, Integ/Verdict: an exit
--                         code 0;
--                         Integ/Keys/Pattern, Integ/Keys/Seeds: which keys match
--   Integ/Outputs         the object that `outputs` fills; Integ/Marker: the marker of a run;
--                         Integ/Success: a query that succeeds in time
--   IntegStack            examples/integ/app.ts; IntegStack/Handler: handler/index.js beside it;
--                         IntegStack/Synth: the guards of the constructs; IntegStack/Outputs and
--                         IntegStack/Laws: what its outputs name
--   Logger                packages/logger/src/logger.ts: `createStructuredLogger`, `emit`, `child`,
--                         `withCorrelationId`, `describeError`
--   Logger/Level          the levels of packages/logger/src/types.ts, and `defaultLevel`
--   Logger/CallSite       `captureCallSite`; Logger/Stringify: `JSON.stringify` of the language, as
--                         it is called
--   Logger/Correlation    packages/logger/src/correlation-id.ts
--   Logger/Lines, Logger/Frames, Logger/Contract   proofs on the JSON text, on the lines of a stack
--                         trace, and on the level that an extension hands to a logger
--   Aws, Prelude, Zip/Buffer   what the code uses of aws-cdk-lib, of the language and of Node
-- A file called Laws holds proofs, and one called Tests holds tests at concrete inputs.
--
-- How the code corresponds. An exported function keeps its name in snake_case, a class is the
-- record of its fields with `new_…` for its constructor, and an interface of options is a record
-- where `?` is Option. A thrown error is `throws` with its message. A string is the list of its
-- UTF-16 units, a Buffer the list of its bytes, and a number a natural number. An object that is
-- filled in a fixed order is an association list. The field `data` of a zip entry is called
-- `content`. What a construct does to the app is the list of calls that it makes or the record of
-- the resources that it creates. A Go string is the list of its runes, a Go duration its
-- nanoseconds in 64 bits, and a warning the variable and the text that it is about. A run of the
-- compactor is a function of the world behind the S3 client, and an error ends it; a crash in the
-- middle of a call is a call that fails.
--
-- Parameters. `Cdk` stands for the types and operations of aws-cdk-lib that the code uses, and
-- `Lawful` for the documented conversions of Duration; `Stack` for the account, ARNs and bucket
-- names that CloudFormation fills in; `Machine` for the file system of the assets; `Coder` for
-- zlib's deflate and the UTF-8 coder; `sha256` for the digest; `Process` and `Ambient` for what the
-- logger reads of its runtime, the stack trace included; and `Go` for the go command. `Services`
-- stands for the AWS clients of scripts/verify-integ.ts, the clock, the calendar of Date and the
-- numbers of `Number`, and Integ's `Lawful` for a clock that does not go back and timers that do
-- not fire early. `S3` stands for the calls of the S3 client in the compactor, and its `Lawful` for
-- what S3 documents: a listing is in the order of the keys, an answered call has its effect, a
-- failed one may have it, and a failed deletion has deleted some of its keys. `Tools` stands for
-- the Parquet codec, SHA-256 and JSON, and its `Lawful` for reading what was written; `days_ago`
-- for the calendar, from the compactor's clock back, and `load_aws_config` for the error that the
-- SDK gives for a region. Aws/Sample, Compactor/Sample and the tests give concrete ones.
--
-- Bounds. Loops are structural over the list or the count that they go through, the search for the
-- end record over the position. Fuel is used in two places. The digits of a number n have n + 1,
-- and Prelude/Decimal and Integ/Marker read the digits back. The two loops of
-- scripts/verify-integ.ts that wait, for 120 seconds in turns of 2 and for 90 in turns of 3, have at
-- least 62 turns: after 60 turns of 2 seconds the deadline is reached, the next turn passes it, and
-- one more finds that. The batches of a deletion are as many as its keys at most, and that is the
-- fuel of their loop. Fields of a zip file have the range checks of Node's Buffer, so sizes that do
-- not fit throw.
--
-- Not modelled: of extension-go, the process of the extension (its buffer, parser, telemetry
-- listener and uploads), and of the compactor its printing and the texts of its errors;
-- .projenrc.ts, a table of build settings; the tests; the removal of dist/ and the printing in
-- scripts/build-layers.ts and scripts/check-layers.ts; JSON of values that are no natural number,
-- text, Boolean, null, array or object of such; and errors that aws-cdk-lib itself throws while a
-- construct is created.
mod Prelude
pub mod Env
pub mod Go
pub mod Layout
pub mod Agent
pub mod Compactor
pub mod Aws
pub mod Assets
pub mod Extension
pub mod LogBucket
pub mod LogCompaction
pub mod Schema
pub mod LogAnalytics
pub mod Logger
pub mod Zip
pub mod Layers
pub mod Integ
pub mod IntegStack
