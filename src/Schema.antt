-- ===== src/Schema.antt =====
-- src/private/schema.ts: the columns of the Glue table.
use cdk_log_to_s.Prelude.{Text, codes, List, [], ◌∷◌}

pub record LogColumn : Type 0 where
  pub name : Text
  pub type : Text

abbrev string_column : Text → LogColumn
string_column name = record { name = name; type = codes "string" }

unfoldable pub log_columns : List LogColumn
log_columns =
    string_column (codes "timestamp")
    ∷ string_column (codes "level")
    ∷ string_column (codes "source")
    ∷ string_column (codes "correlation_id")
    ∷ string_column (codes "request_id")
    ∷ string_column (codes "message")
    ∷ string_column (codes "function_name")
    ∷ string_column (codes "context")
    ∷ string_column (codes "stack_trace")
    ∷ string_column (codes "caller")
    ∷ []

unfoldable pub partition_columns : List LogColumn
partition_columns = string_column (codes "dt") ∷ []
