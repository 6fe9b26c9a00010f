-- ===== src/Log/Query/Placeholders.antt =====
-- log/src/QueryOptions.cc: the places for parameters in a query.
use gz_transport.Common.{
  ℕ, ◌+◌, ◌≡◌, refl, Bool, true, false, List, [], ◌∷◌, ◌++◌, All, length, length-append, is_empty,
  Text, bytes, count, arith, inl, inr, Bool-cases,
}
use gz_transport.Common.Int.{ℤ}
use gz_transport.Log.Time.{
  inclusive, exclusive, QualifiedTime, indeterminate, at_time, QualifiedTimeRange,
}
use gz_transport.Log.Statement.{integer, SqlStatement, append}
use gz_transport.Log.Descriptor.{Descriptor}
use gz_transport.Log.Query.{
  append_ids, add_text, append_topic_list_clause, standard_message_query_preamble,
  standard_message_query_close, start_compare, finish_compare, count_of, generate_time_conditions,
  listed_rows, matching_rows, QueryOptions, topic_list, topic_pattern, all_topics,
  generate_statement, with_time, generate_statements,
}

count-append : (c : ℕ) (s t : Text) → count c (s ++ t) ≡ count c s + count c t
unfolding count
count-append c [] t = omega arith
count-append c (x ∷ s) t = omega (arith, count-append c s t)

-- The text has a question mark for each parameter.
abbrev pub IsBalanced : SqlStatement → Type 0
IsBalanced s = count b'?' s.statement ≡ length s.parameters

append-IsBalanced : (s t : SqlStatement) → IsBalanced s → IsBalanced t → IsBalanced (append t s)
unfolding append
append-IsBalanced s t h k =
    omega (
      arith,
      count-append b'?' s.statement t.statement,
      length-append {0} s.parameters t.parameters,
    )

add_text-IsBalanced :
    (t : Text) (s : SqlStatement) → count b'?' t ≡ 0 → IsBalanced s → IsBalanced (add_text t s)
unfolding add_text
add_text-IsBalanced t s none_ h = omega (arith, count-append b'?' s.statement t)

parameter-IsBalanced :
    (t : Text) (id : ℤ) (s : SqlStatement)
    → count b'?' t ≡ 1
    → IsBalanced s
    → count b'?' (s.statement ++ t) ≡ length (s.parameters ++ integer id ∷ [])
parameter-IsBalanced t id s one h =
    omega (arith, count-append b'?' s.statement t, length-append {0} s.parameters (integer id ∷ []))

append_ids-IsBalanced :
    (first : Bool) (ids : List ℤ) (s : SqlStatement)
    → IsBalanced s
    → IsBalanced (append_ids first ids s)
unfolding append_ids
append_ids-IsBalanced first [] s h = h
append_ids-IsBalanced true (id ∷ ids) s h =
    append_ids-IsBalanced false ids _
      (parameter-IsBalanced (bytes "?") id s (unfold count in refl) h)
append_ids-IsBalanced false (id ∷ ids) s h =
    append_ids-IsBalanced false ids _
      (parameter-IsBalanced (bytes ", ?") id s (unfold count in refl) h)

generate_time_conditions-IsBalanced :
    (r : QualifiedTimeRange) → IsBalanced (generate_time_conditions r)
unfolding generate_time_conditions start_compare finish_compare count_of count
generate_time_conditions-IsBalanced r = go r.start r.finish
  where
    go :
        (s f : QualifiedTime)
        → IsBalanced (generate_time_conditions (record { start = s; finish = f }))
    go indeterminate indeterminate = refl
    go indeterminate (at_time t inclusive) = refl
    go indeterminate (at_time t exclusive) = refl
    go (at_time s inclusive) indeterminate = refl
    go (at_time s exclusive) indeterminate = refl
    go (at_time s inclusive) (at_time t inclusive) = refl
    go (at_time s inclusive) (at_time t exclusive) = refl
    go (at_time s exclusive) (at_time t inclusive) = refl
    go (at_time s exclusive) (at_time t exclusive) = refl

append_topic_list_clause-IsBalanced :
    (ids : List ℤ) (s : SqlStatement) → IsBalanced s → IsBalanced (append_topic_list_clause ids s)
unfolding append_topic_list_clause
append_topic_list_clause-IsBalanced ids s h =
    add_text-IsBalanced (bytes ")") _ (unfold count in refl) (
      append_ids-IsBalanced true ids _
        (add_text-IsBalanced (bytes "topic_id in (") s (unfold count in refl) h))

generate_statement-IsBalanced : (ids : List ℤ) → IsBalanced (generate_statement ids)
unfolding generate_statement
generate_statement-IsBalanced ids = add_text-IsBalanced (bytes ")") _ (unfold count in refl) (
    append_topic_list_clause-IsBalanced ids _ (
      add_text-IsBalanced (bytes " WHERE (") standard_message_query_preamble (unfold count in refl)
        (unfold count in refl)))

closed-IsBalanced :
    (s : SqlStatement) → IsBalanced s → IsBalanced (append standard_message_query_close s)
closed-IsBalanced s h = append-IsBalanced s standard_message_query_close h (unfold count in refl)

with_time-IsBalanced :
    (r : QualifiedTimeRange) (s : SqlStatement) → IsBalanced s → IsBalanced (with_time r s)
unfolding with_time
with_time-IsBalanced r s h =
    let time = generate_time_conditions r in
    let timed = add_text-IsBalanced (bytes ")") _ (unfold count in refl) (
      append-IsBalanced (add_text (bytes " AND (") s) time
        (add_text-IsBalanced (bytes " AND (") s (unfold count in refl) h)
        (generate_time_conditions-IsBalanced r)) in
    elim (Bool-cases (is_empty time.statement)) [
      | inl e ↦ rw e (closed-IsBalanced s h)
      | inr e ↦ rw e (closed-IsBalanced _ timed)
    ]

-- Every query that the options generate, whatever the log and the range, has a place for each of
-- its parameters, and a parameter for each place.
pub generate_statements-IsBalanced :
    (o : QueryOptions) (d : Descriptor) → All IsBalanced (generate_statements o d)
unfolding generate_statements
generate_statements-IsBalanced (topic_list topics r) d =
    (with_time-IsBalanced r _ (generate_statement-IsBalanced (listed_rows d.by_topic topics)), tt)
generate_statements-IsBalanced (topic_pattern matches_ r) d = (
  with_time-IsBalanced r _ (generate_statement-IsBalanced (matching_rows matches_ d.by_topic)),
  tt,
)
generate_statements-IsBalanced (all_topics r) d =
    let time = generate_time_conditions r in
    let timed =
      append-IsBalanced (add_text (bytes "WHERE ") standard_message_query_preamble) time
        (add_text-IsBalanced (bytes "WHERE ") standard_message_query_preamble (unfold count in refl)
          (unfold count in refl))
        (generate_time_conditions-IsBalanced r) in
    elim (Bool-cases (is_empty time.statement)) [
      | inl e ↦ rw e (closed-IsBalanced standard_message_query_preamble (unfold count in refl), tt)
      | inr e ↦ rw e (closed-IsBalanced _ timed, tt)
    ]
