-- ===== src/IntegStack/Outputs.antt =====
-- The outputs of the integ stack, as scripts/verify-integ.ts reads them.
use cdk_log_to_s.Prelude.{Text, codes, text_eq, [], some, ◌≡◌, ◌≢◌, refl, ap, ◌∙◌}
use cdk_log_to_s.Aws.{Cdk}
use cdk_log_to_s.Extension.{LogToS3Extension}
use cdk_log_to_s.LogAnalytics.{LogAnalytics}
use cdk_log_to_s.Integ.Query.{add_outputs, member}
use cdk_log_to_s.Integ.Outputs.{member-add_output, member-add_output_other}
use cdk_log_to_s.IntegStack.{Deployed, outputs_of}

module _ (cdk : Cdk) where
  pub outputs-prefix :
      (deployed : Deployed) (ext : LogToS3Extension cdk) (analytics : LogAnalytics cdk)
      (name : Text)
      → ext.key_prefix ≡ codes "logs/"
      → member (codes "KeyPrefix") (add_outputs (outputs_of cdk deployed ext analytics name) [])
        ≡ some (codes "logs/")
  unfolding outputs_of add_outputs text_eq
  outputs-prefix deployed ext analytics name kept =
      member-add_output_other (codes "WorkgroupName") (codes "KeyPrefix") _ _ refl
      ∙ member-add_output_other (codes "TableName") (codes "KeyPrefix") _ _ refl
      ∙ member-add_output_other (codes "DatabaseName") (codes "KeyPrefix") _ _ refl
      ∙ member-add_output (codes "KeyPrefix") ext.key_prefix _ (λ e. cc e) (λ e. cc (kept, e))
      ∙ ap some kept

  pub outputs-bucket :
      (deployed : Deployed) (ext : LogToS3Extension cdk) (analytics : LogAnalytics cdk)
      (name : Text)
      → deployed.logs_bucket.bucket_name ≢ []
      → member
          (codes "LogsBucketName")
          (add_outputs (outputs_of cdk deployed ext analytics name) [])
        ≡ some deployed.logs_bucket.bucket_name
  unfolding outputs_of add_outputs text_eq
  outputs-bucket deployed ext analytics name named =
      member-add_output_other (codes "WorkgroupName") (codes "LogsBucketName") _ _ refl
      ∙ member-add_output_other (codes "TableName") (codes "LogsBucketName") _ _ refl
      ∙ member-add_output_other (codes "DatabaseName") (codes "LogsBucketName") _ _ refl
      ∙ member-add_output_other (codes "KeyPrefix") (codes "LogsBucketName") _ _ refl
      ∙ member-add_output (codes "LogsBucketName") deployed.logs_bucket.bucket_name _ (λ e. cc e)
          named
