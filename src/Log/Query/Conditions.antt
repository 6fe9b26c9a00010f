-- ===== src/Log/Query/Conditions.antt =====
-- log/src/QueryOptions.cc: which messages the condition on the time lets through.
use gz_transport.Common.{
  ◌≡◌, refl, ◌∙◌, Bool, true, ◌&&◌, List, [], ◌∷◌, ◌++◌, is_empty, if◌then◌else◌, Text, bytes,
  arith,
}
use gz_transport.Common.Int.{ℤ, leb_ℤ, ltb_ℤ}
use gz_transport.Log.Time.{
  inclusive, exclusive, QualifiedTime, indeterminate, at_time, QualifiedTimeRange,
}
use gz_transport.Log.Time.Ranges.{holds}
use gz_transport.Log.Statement.{integer, SqlParameter}
use gz_transport.Log.Query.{start_compare, finish_compare, count_of, generate_time_conditions}

-- The operators of SQL by which a column is compared.
pub data Operator : Type 0 where
  ge gt le lt : Operator

abbrev pub symbol : Operator → Text
symbol ge = bytes ">="
symbol gt = bytes ">"
symbol le = bytes "<="
symbol lt = bytes "<"

abbrev pub compares : Operator → ℤ → ℤ → Bool
compares ge t n = leb_ℤ n t
compares gt t n = ltb_ℤ n t
compares le t n = leb_ℤ t n
compares lt t n = ltb_ℤ t n

abbrev pub comparison : Operator → Text
comparison o = (bytes "time_recv " ++ symbol o) ++ bytes " ?"

-- What SQLite documents of a condition on the column `time_recv`: whether a row meets it, for one
-- comparison with a parameter, and for two that AND joins.
pub record Sql : Type 0 where
  pub meets : Text → List SqlParameter → ℤ → Bool
  pub meets_one :
      (o : Operator) (n t : ℤ) → meets (comparison o) (integer n ∷ []) t ≡ compares o t n
  pub meets_both :
      (o p : Operator) (n m t : ℤ)
      → meets ((comparison o ++ bytes " AND ") ++ comparison p) (integer n ∷ integer m ∷ []) t
        ≡ compares o t n && compares p t m

-- The condition on the time is empty, or lets through just the messages whose time the range holds;
-- where it is empty, the range holds every time.
pub generate_time_conditions-holds :
    (sql : Sql) (r : QualifiedTimeRange) (t : ℤ)
    → let s = generate_time_conditions r in
      (if is_empty s.statement then true else sql.meets s.statement s.parameters t) ≡ holds r t
unfolding generate_time_conditions start_compare finish_compare count_of
generate_time_conditions-holds sql r t = go r.start r.finish
  where
    go :
        (s f : QualifiedTime)
        → let c = generate_time_conditions (record { start = s; finish = f }) in
          (if is_empty c.statement then true else sql.meets c.statement c.parameters t)
          ≡ holds (record { start = s; finish = f }) t
    go indeterminate indeterminate = refl
    go indeterminate (at_time n inclusive) = sql.meets_one le n t
    go indeterminate (at_time n exclusive) = sql.meets_one lt n t
    go (at_time n inclusive) indeterminate = sql.meets_one ge n t ∙ ground arith
    go (at_time n exclusive) indeterminate = sql.meets_one gt n t ∙ ground arith
    go (at_time n inclusive) (at_time m inclusive) = sql.meets_both ge le n m t
    go (at_time n inclusive) (at_time m exclusive) = sql.meets_both ge lt n m t
    go (at_time n exclusive) (at_time m inclusive) = sql.meets_both gt le n m t
    go (at_time n exclusive) (at_time m exclusive) = sql.meets_both gt lt n m t
