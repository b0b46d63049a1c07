-- ===== src/LogAnalytics/Query.antt =====
-- `grantQuery` of src/log-analytics.ts: the policies and grants that it adds.
use cdk_log_to_s.Prelude.{Text, codes, List, [], ◌∷◌, ◌++◌, none, some}
use cdk_log_to_s.Aws.{Cdk, Bucket}
use cdk_log_to_s.Extension.{below}
use cdk_log_to_s.LogAnalytics.{Stack, LogAnalytics, Workgroup, bucket_of}

pub record PolicyStatement : Type 0 where
  pub actions : List Text
  pub resources : List Text

-- What `grantQuery` adds to the grantee, in its order.
pub data QueryGrant : Type 0 where
  policy : PolicyStatement → QueryGrant
  grant_read grant_read_write : Bucket → Text → QueryGrant

unfoldable pub workgroup_policy : Stack → Workgroup → QueryGrant
workgroup_policy stack workgroup = policy (record {
  actions =
      codes "athena:StartQueryExecution"
      ∷ codes "athena:StopQueryExecution"
      ∷ codes "athena:GetQueryExecution"
      ∷ codes "athena:GetQueryResults"
      ∷ codes "athena:GetWorkGroup"
      ∷ [];
  resources = stack.format_arn (codes "athena") (codes "workgroup") (some workgroup.name) ∷ [];
})

module _ {cdk : Cdk} where
  unfoldable pub catalog_policy : Stack → LogAnalytics cdk → QueryGrant
  catalog_policy stack a = policy (record {
    actions =
        codes "glue:GetDatabase"
        ∷ codes "glue:GetDatabases"
        ∷ codes "glue:GetTable"
        ∷ codes "glue:GetTables"
        ∷ codes "glue:GetPartitions"
        ∷ [];
    resources =
        stack.format_arn (codes "glue") (codes "catalog") none
        ∷ stack.format_arn (codes "glue") (codes "database") (some a.database_name)
        ∷ stack.format_arn (codes "glue") (codes "table")
            (some (a.database_name ++ codes "/" ++ a.table_name))
        ∷ [];
  })

  unfoldable pub grant_query : Stack → LogAnalytics cdk → List QueryGrant
  grant_query stack a =
      elim a.workgroup [ none ↦ [] | some workgroup ↦ workgroup_policy stack workgroup ∷ [] ]
      ++ catalog_policy stack a
        ∷ grant_read a.logs_bucket (below a.key_prefix)
        ∷ grant_read_write (bucket_of a.results_bucket) (codes "athena-results/*")
        ∷ []
