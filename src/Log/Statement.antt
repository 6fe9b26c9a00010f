-- ===== src/Log/Statement.antt =====
-- log/src/SqlStatement.cc: a query with its parameters.
use gz_transport.Common.{ℕ, Option, none, some, List, ◌++◌, Text}
use gz_transport.Common.Int.{ℤ}

-- A parameter; a `double` is given by its bits.
pub data SqlParameter : Type 0 where
  null_type : SqlParameter
  text : Text → SqlParameter
  integer : ℤ → SqlParameter
  real : ℕ → SqlParameter

unfoldable pub query_integer : SqlParameter → Option ℤ
query_integer (integer n) = some n
query_integer _ = none

unfoldable pub query_real : SqlParameter → Option ℕ
query_real (real x) = some x
query_real _ = none

unfoldable pub query_text : SqlParameter → Option Text
query_text (text t) = some t
query_text _ = none

pub record SqlStatement : Type 0 where
  pub statement : Text
  pub parameters : List SqlParameter

unfoldable pub append : SqlStatement → SqlStatement → SqlStatement
append other s = record {
  statement = s.statement ++ other.statement;
  parameters = s.parameters ++ other.parameters;
}
