-- ===== src/Extension/Construct/Laws.antt =====
-- What a constructed or an imported extension tells its functions, and what it grants.
use cdk_log_to_s.Prelude.{
  Text, true, some, ok, ◌≡◌, ◌∙◌, lookup, HasUniqueKeys, eq_iff, arith, >>=-eq-ok, ok-injective,
  All, ◌or_else◌,
}
use mathlib.Core.Path.{subst, refl}
use cdk_log_to_s.Aws.{Cdk, Lawful}
use cdk_log_to_s.Env.Vars
use cdk_log_to_s.Env.{normalize_prefix, default_key_prefix}
use cdk_log_to_s.Env.Strip.{IsNormal}
use cdk_log_to_s.Env.Prefix.{normalize_prefix-IsNormal}
use cdk_log_to_s.Assets.{Machine, resolve_layer_asset}
use cdk_log_to_s.Extension.{
  LogToS3ExtensionProps, LogToS3ExtensionAttributes, LogToS3Extension, imported, Wiring, has,
  level_text, info,
}
use cdk_log_to_s.Extension.Environment.{build_environment}
use cdk_log_to_s.Extension.Environment.Laws.{build_environment-Holds, build_environment-ok_iff}
use cdk_log_to_s.Extension.Construct.{
  environment_options, new_extension, imported_options, from_attributes,
}
use cdk_log_to_s.Extension.Attach.{variable}
use cdk_log_to_s.Extension.Attach.Sequence.{Reach, IsOwn, Reach-variable, Reach-IsOwn}

-- The environment names the bucket and the prefix of the grant, and the prefix is normal.
pub record IsConsistent {cdk : Cdk} (ext : LogToS3Extension cdk) : Type 0 where
  pub bucket : lookup Vars.bucket ext.environment ≡ some ext.logs_bucket.bucket_name
  pub prefix : lookup Vars.prefix ext.environment ≡ some ext.key_prefix
  pub normal : IsNormal ext.key_prefix
  pub unique : HasUniqueKeys ext.environment

module _ (cdk : Cdk) (laws : Lawful cdk) where
  -- Every extension that the constructor returns is consistent.
  pub new_extension-IsConsistent :
      (machine : Machine) (props : LogToS3ExtensionProps cdk) (ext : LogToS3Extension cdk)
      → new_extension cdk machine props ≡ ok ext
      → IsConsistent ext
  unfolding new_extension environment_options
  new_extension-IsConsistent machine props ext h =
      let (asset, found, rest) = >>=-eq-ok (resolve_layer_asset cdk machine _) _ h in
      let (env, built, last) = >>=-eq-ok (build_environment cdk _) _ rest in
      let holds = build_environment-Holds cdk laws _ env built in
      subst IsConsistent (ok-injective last) (record {
        bucket = holds.bucket;
        prefix = holds.prefix;
        normal = normalize_prefix-IsNormal _;
        unique = holds.unique;
      })

  -- The bucket of the options, and their prefix or the default one, normalised.
  pub new_extension-fields :
      (machine : Machine) (props : LogToS3ExtensionProps cdk) (ext : LogToS3Extension cdk)
      → new_extension cdk machine props ≡ ok ext
      → (ext.logs_bucket ≡ props.logs_bucket)
        × (ext.key_prefix ≡ normalize_prefix (props.key_prefix or_else default_key_prefix))
  unfolding new_extension
  new_extension-fields machine props ext h =
      let (asset, found, rest) = >>=-eq-ok (resolve_layer_asset cdk machine _) _ h in
      let (env, built, last) = >>=-eq-ok (build_environment cdk _) _ rest in
      subst
        (λ (x : LogToS3Extension cdk).
          (x.logs_bucket ≡ props.logs_bucket)
          × (x.key_prefix ≡ normalize_prefix (props.key_prefix or_else default_key_prefix)))
        (ok-injective last) (refl, refl)

  -- The environment has the level of the options, or `INFO`.
  pub new_extension-level :
      (machine : Machine) (props : LogToS3ExtensionProps cdk) (ext : LogToS3Extension cdk)
      → new_extension cdk machine props ≡ ok ext
      → lookup Vars.level ext.environment ≡ some (level_text (props.log_level or_else info))
  unfolding new_extension environment_options
  new_extension-level machine props ext h =
      let (asset, found, rest) = >>=-eq-ok (resolve_layer_asset cdk machine _) _ h in
      let (env, built, last) = >>=-eq-ok (build_environment cdk _) _ rest in
      subst
        (λ (x : LogToS3Extension cdk).
          lookup Vars.level x.environment ≡ some (level_text (props.log_level or_else info)))
        (ok-injective last) (build_environment-Holds cdk laws _ env built).level

  -- For durations that obey their laws: importing an extension never fails, and gives one whose
  -- environment names its bucket and its normal prefix and has no key twice.
  pub from_attributes-IsConsistent :
      (attrs : LogToS3ExtensionAttributes cdk)
      → (ext : LogToS3Extension cdk) × (from_attributes cdk attrs ≡ ok ext) × IsConsistent ext
  unfolding from_attributes imported_options
  from_attributes-IsConsistent attrs =
      let key_prefix = normalize_prefix (attrs.key_prefix or_else default_key_prefix) in
      let (env, built) =
        (build_environment-ok_iff cdk laws (imported_options cdk attrs key_prefix)).1 tt in
      let holds = build_environment-Holds cdk laws _ env built in
      (
        record {
          layer = imported attrs.layer_version_arn;
          logs_bucket = attrs.logs_bucket;
          key_prefix = key_prefix;
          architecture = attrs.architecture or_else cdk.arm_64;
          environment = env;
        },
        rw built,
        record {
          bucket = holds.bucket;
          prefix = holds.prefix;
          normal = normalize_prefix-IsNormal _;
          unique = holds.unique;
        },
      )

  -- For an extension that the constructor returned, and durations that obey their laws, after any
  -- sequence of attachments and grants an attached function has the bucket name and the key prefix
  -- of the extension in its variables, and every call the extension has made is one of its own:
  -- its layer, its environment or a level, and grants of writing to its bucket below its key
  -- prefix alone.
  pub new_extension-writes_where_granted :
      (machine : Machine) (props : LogToS3ExtensionProps cdk) (ext : LogToS3Extension cdk)
      (w : Wiring cdk) (path : Text)
      → new_extension cdk machine props ≡ ok ext
      → Reach cdk ext w
      → has w.attached path ≡ true
      → (variable path Vars.bucket w.calls ≡ some ext.logs_bucket.bucket_name)
        × (variable path Vars.prefix w.calls ≡ some ext.key_prefix)
        × All (IsOwn cdk ext) w.calls
  new_extension-writes_where_granted machine props ext w path h r there =
      let c = new_extension-IsConsistent machine props ext h in
      (
        Reach-variable cdk ext w c.unique r path Vars.bucket
              (λ e. ground (arith, e, eq_iff Vars.bucket Vars.level))
            ∙ rw there c.bucket,
        Reach-variable cdk ext w c.unique r path Vars.prefix
              (λ e. ground (arith, e, eq_iff Vars.prefix Vars.level))
            ∙ rw there c.prefix,
        Reach-IsOwn cdk ext w c.unique r,
      )
