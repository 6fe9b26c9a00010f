-- ===== src/Log/Query.antt =====
-- log/src/QueryOptions.cc: the query for the messages of some topics in a range of times.
pub mod Placeholders
pub mod Conditions
use gz_transport.Common.{
  ℕ, Bool, true, false, not, ◌&&◌, Option, none, some, List, [], ◌∷◌, ◌++◌, is_empty, if◌then◌else◌,
  Text, bytes,
}
use gz_transport.Common.Map.{Map, lookup}
use gz_transport.Common.Int.{ℤ}
use gz_transport.Log.Time.{
  Qualifier, inclusive, exclusive, QualifiedTime, indeterminate, at_time, QualifiedTimeRange,
  is_indeterminate,
}
use gz_transport.Log.Statement.{SqlParameter, integer, SqlStatement, append}
use gz_transport.Log.Descriptor.{Descriptor}

abbrev pub blank_statement : SqlStatement
blank_statement = record { statement = []; parameters = [] }

-- The loop of `AppendTopicListClause`.
unfoldable pub append_ids : Bool → List ℤ → SqlStatement → SqlStatement
append_ids first [] s = s
append_ids first (id ∷ ids) s = append_ids false ids (record {
  statement = s.statement ++ (if first then bytes "?" else bytes ", ?");
  parameters = s.parameters ++ integer id ∷ [];
})

-- `sql.statement += text`
unfoldable pub add_text : Text → SqlStatement → SqlStatement
add_text t s = record s { statement = s.statement ++ t }

unfoldable pub append_topic_list_clause : List ℤ → SqlStatement → SqlStatement
unfolding append_ids add_text
append_topic_list_clause ids s =
    add_text (bytes ")") (append_ids true ids (add_text (bytes "topic_id in (") s))

abbrev pub standard_message_query_preamble : SqlStatement
standard_message_query_preamble = record {
  statement =
      bytes
        "SELECT messages.id, messages.time_recv, topics.name, message_types.name, messages.message FROM messages JOIN topics ON topics.id = messages.topic_id JOIN message_types ON message_types.id = topics.message_type_id ";
  parameters = [];
}

abbrev pub standard_message_query_close : SqlStatement
standard_message_query_close = record {
  statement = bytes " ORDER BY messages.time_recv;";
  parameters = [];
}

-- The text of a comparison of `time_recv`, empty for an indeterminate time.
unfoldable pub start_compare : QualifiedTime → Text
start_compare indeterminate = []
start_compare (at_time t inclusive) = bytes ">="
start_compare (at_time t exclusive) = bytes ">"

unfoldable pub finish_compare : QualifiedTime → Text
finish_compare indeterminate = []
finish_compare (at_time t inclusive) = bytes "<="
finish_compare (at_time t exclusive) = bytes "<"

-- `GetTime()->count()`, where there is a time.
unfoldable pub count_of : QualifiedTime → List SqlParameter
count_of indeterminate = []
count_of (at_time t q) = integer t ∷ []

unfoldable pub generate_time_conditions : QualifiedTimeRange → SqlStatement
unfolding start_compare finish_compare count_of
generate_time_conditions r =
    let sc = start_compare r.start in
    let fc = finish_compare r.finish in
    let s : SqlStatement = if is_empty sc then blank_statement else record {
      statement =
          ((bytes "time_recv " ++ sc) ++ bytes " ?") ++ (if is_empty fc then [] else bytes " AND ");
      parameters = count_of r.start;
    } in
    if is_indeterminate r.start && is_indeterminate r.finish
    then blank_statement
    else if is_empty fc
    then s
    else record {
      statement = s.statement ++ ((bytes "time_recv " ++ fc) ++ bytes " ?");
      parameters = s.parameters ++ count_of r.finish;
    }

unfoldable pub entries_of : Map ℤ → List ℤ
entries_of [] = []
entries_of ((type, id) ∷ m) = id ∷ entries_of m

-- The loop of `TopicList` over its topics, which looks each one up.
unfoldable pub listed_rows : Map (Map ℤ) → List Text → List ℤ
unfolding entries_of
listed_rows m [] = []
listed_rows m (t ∷ ts) = elim (lookup t m) [
  | none ↦ listed_rows m ts
  | some types ↦ entries_of types ++ listed_rows m ts
]

-- The loop of `TopicPattern` over the topics of the log; `matches_` is `std::regex_match`.
unfoldable pub matching_rows : (Text → Bool) → Map (Map ℤ) → List ℤ
unfolding entries_of
matching_rows matches_ [] = []
matching_rows matches_ ((t, types) ∷ m) =
    let rest = matching_rows matches_ m in if matches_ t then entries_of types ++ rest else rest

-- The three classes of options.
pub data QueryOptions : Type 0 where
  topic_list : List Text → QualifiedTimeRange → QueryOptions
  topic_pattern : (Text → Bool) → QualifiedTimeRange → QueryOptions
  all_topics : QualifiedTimeRange → QueryOptions

-- `GenerateStatement` of the first two.
unfoldable pub generate_statement : List ℤ → SqlStatement
unfolding append_topic_list_clause
generate_statement ids =
    add_text (bytes ")")
      (append_topic_list_clause ids (add_text (bytes " WHERE (") standard_message_query_preamble))

-- The rest of `GenerateStatements` of the first two.
unfoldable pub with_time : QualifiedTimeRange → SqlStatement → SqlStatement
unfolding generate_time_conditions
with_time r s =
    let time = generate_time_conditions r in
    append standard_message_query_close (
      if is_empty time.statement
      then s
      else add_text (bytes ")") (append time (add_text (bytes " AND (") s)))

unfoldable pub generate_statements : QueryOptions → Descriptor → List SqlStatement
unfolding generate_statement with_time listed_rows matching_rows
generate_statements (topic_list topics r) d =
    with_time r (generate_statement (listed_rows d.by_topic topics)) ∷ []
generate_statements (topic_pattern matches_ r) d =
    with_time r (generate_statement (matching_rows matches_ d.by_topic)) ∷ []
generate_statements (all_topics r) d =
    let time = generate_time_conditions r in
    append standard_message_query_close (
      if is_empty time.statement
      then standard_message_query_preamble
      else append time (add_text (bytes "WHERE ") standard_message_query_preamble))
    ∷ []
