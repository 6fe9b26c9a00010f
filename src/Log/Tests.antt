-- ===== src/Log/Tests.antt =====
-- Examples of log/src.
use gz_transport.Common.{
  ℕ, ◌≡◌, refl, true, false, some, List, [], ◌∷◌, ◌++◌, All, Text, bytes, text_eq, Bool,
  if◌then◌else◌, ◌&&◌, has_char, has_pair, ends_with, pop_back, starts_with, Option, arith,
}
use gz_transport.Common.Int.{ℤ, pos}
use gz_transport.TopicUtils.{
  is_valid_namespace, is_valid_partition, is_valid_topic, fully_qualified_name, qualify_partition,
  qualify_topic, strip_slash, end_slash, front_slash,
}
use gz_transport.Handlers.Subscription.{blank_info}
use gz_transport.Log.Time.{inclusive, exclusive, at_time, QualifiedTimeRange}
use gz_transport.Log.Statement.{SqlStatement, SqlParameter, integer}
use gz_transport.Log.Descriptor.{TopicKey, reset}
use gz_transport.Log.Query.{
  topic_list, generate_statements, generate_time_conditions, start_compare, finish_compare,
  count_of,
}
use gz_transport.Log.Query.Placeholders.{IsBalanced, generate_statements-IsBalanced}
use gz_transport.Common.Subsequence.{Subsequence}
use gz_transport.Log.Query.Conditions.{
  Operator, ge, gt, le, lt, Sql, comparison, compares, generate_time_conditions-holds,
}
use gz_transport.Log.Iterator.{LogMessage, holds, dangling, begin_iter, visit}
use gz_transport.Log.Iterator.Visits.{visit-begin_iter}
use gz_transport.Log.Recorder.{LogData, Recorder, new_recorder, stop_recording, on_advertisement}
use gz_transport.Log.Recorder.Lossless.{
  Event, receives, writes, run, arrivals, IsRecording, stop_recording-lossless,
  stop_recording-Subsequence,
}
use gz_transport.Log.Recorder.Drained.{deliveries, total, run-drained}
use gz_transport.Log.Recorder.Subscribed.{is_subscribed, on_advertisement-subscribed}

-- A database that knows the conditions on the time.
abbrev operators : List Operator
operators = ge ∷ gt ∷ le ∷ lt ∷ []

abbrev one : Operator → List SqlParameter → ℤ → Bool
one o (integer n ∷ ps) t = compares o t n
one o _ t = false

abbrev second : List SqlParameter → List SqlParameter
second [] = []
second (p ∷ ps) = ps

abbrev try_one : List Operator → Text → List SqlParameter → ℤ → Bool
try_one [] s ps t = false
try_one (o ∷ os) s ps t = if text_eq s (comparison o) then one o ps t else try_one os s ps t

abbrev try_both : Operator → List Operator → Text → List SqlParameter → ℤ → Bool
try_both o [] s ps t = false
try_both o (p ∷ os) s ps t =
    if text_eq s ((comparison o ++ bytes " AND ") ++ comparison p)
    then (if one o ps t then one p (second ps) t else false)
    else try_both o os s ps t

abbrev try_all : List Operator → Text → List SqlParameter → ℤ → Bool
try_all [] s ps t = try_one operators s ps t
try_all (o ∷ os) s ps t = if try_both o operators s ps t then true else try_all os s ps t

by_one :
    (o : Operator) (n t : ℤ) → try_all operators (comparison o) (integer n ∷ []) t ≡ compares o t n
unfolding text_eq
by_one ge n t = refl
by_one gt n t = refl
by_one le n t = refl
by_one lt n t = refl

by_both :
    (o p : Operator) (n m t : ℤ)
    → try_all operators
        ((comparison o ++ bytes " AND ") ++ comparison p)
        (integer n ∷ integer m ∷ [])
        t
      ≡ compares o t n && compares p t m
unfolding text_eq
by_both ge ge n m t = ground arith
by_both ge gt n m t = ground arith
by_both ge le n m t = ground arith
by_both ge lt n m t = ground arith
by_both gt ge n m t = ground arith
by_both gt gt n m t = ground arith
by_both gt le n m t = ground arith
by_both gt lt n m t = ground arith
by_both le ge n m t = ground arith
by_both le gt n m t = ground arith
by_both le le n m t = ground arith
by_both le lt n m t = ground arith
by_both lt ge n m t = ground arith
by_both lt gt n m t = ground arith
by_both lt le n m t = ground arith
by_both lt lt n m t = ground arith

abbrev database : Sql
database = record { meets = try_all operators; meets_one = by_one; meets_both = by_both }

abbrev morning : QualifiedTimeRange
morning = record { start = at_time (pos 6) inclusive; finish = at_time (pos 12) exclusive }

generate_time_conditions-holds_example :
    let s = generate_time_conditions morning in
    database.meets s.statement s.parameters (pos 12) ≡ false
unfolding generate_time_conditions start_compare finish_compare count_of
generate_time_conditions-holds_example = generate_time_conditions-holds database morning (pos 12)

abbrev columns : List (TopicKey × ℤ)
columns = (record { topic = bytes "/a"; type = bytes "T" }, pos 1) ∷ []

generate_statements-IsBalanced_example :
    All IsBalanced (generate_statements (topic_list (bytes "/a" ∷ []) morning) (reset columns))
generate_statements-IsBalanced_example =
    generate_statements-IsBalanced (topic_list (bytes "/a" ∷ []) morning) (reset columns)

abbrev row : Text → LogMessage
row t = record { time_received = pos 1; content = t; type = bytes "T"; topic = bytes "/a" }

abbrev named : Text → SqlStatement
named t = record { statement = t; parameters = [] }

abbrev answer_one : SqlStatement → Option (List LogMessage)
answer_one s = some (row s.statement ∷ [])

visit-begin_iter_example :
    visit answer_one 9 (begin_iter answer_one (some (named (bytes "a") ∷ named (bytes "b") ∷ [])))
    ≡ some (holds (row (bytes "a")) ∷ dangling (pos 1) ∷ holds (row (bytes "b")) ∷ [])
visit-begin_iter_example =
    visit-begin_iter answer_one 9 (named (bytes "a")) (named (bytes "b") ∷ [])
      (row (bytes "a") ∷ []) ((row (bytes "b") ∷ []) ∷ []) (refl, (refl, tt)) (omega arith)

abbrev data_of : Text → LogData
data_of t = record { stamp = pos 1; msg_data = t; msg_info = blank_info }

abbrev recording : ℕ → Recorder
recording size = record new_recorder {
  log_file = some (bytes "f");
  data_writer_state = true;
  max_buffer_size = size;
}

recording-IsRecording : (size : ℕ) → IsRecording (recording size)
recording-IsRecording size = record { open_log = refl; writing = refl }

abbrev history : List Event
history =
    receives false (pos 1) (bytes "ab") blank_info
    ∷ writes
    ∷ receives true (pos 2) (bytes "cd") blank_info
    ∷ receives true (pos 3) (bytes "ef") blank_info
    ∷ []

stop_recording-lossless_example :
    (run history (recording 0)).1 ++ (stop_recording (run history (recording 0)).0).1
    ≡ [] ++ arrivals history
stop_recording-lossless_example =
    stop_recording-lossless history (recording 0) (recording-IsRecording 0) refl

stop_recording-Subsequence_example :
    Subsequence
      ((run history (recording 3)).1 ++ (stop_recording (run history (recording 3)).0).1)
      ([] ++ arrivals history)
stop_recording-Subsequence_example =
    stop_recording-Subsequence history (recording 3) (recording-IsRecording 3)

run-drained_example :
    (run
      (deliveries (data_of (bytes "ab") ∷ [])
        ++ receives true (pos 1) (bytes "c") blank_info
          ∷ receives true (pos 1) (bytes "d") blank_info
          ∷ [])
      (recording 3)).0.data_queue
    ≡ data_of (bytes "d") ∷ []
unfolding total
run-drained_example =
    run-drained (data_of (bytes "ab") ∷ []) (data_of (bytes "c")) (data_of (bytes "d"))
      (recording 3) (recording-IsRecording 3) refl (omega arith) (omega arith) (omega arith)

abbrev with_pattern : Recorder
with_pattern = record (recording 0) { patterns = (λ t. starts_with b'/' t) ∷ [] }

on_advertisement-subscribed_example :
    (r' : Recorder) × ((calls : List Text) × ((on_advertisement
            (λ t. true)
            (bytes "sim")
            (bytes "@/sim@/odom")
            with_pattern
          ≡ some (r', calls))
        × (is_subscribed (qualify_topic [] (bytes "odom")) r' ≡ true)))
unfolding fully_qualified_name is_valid_partition is_valid_namespace is_valid_topic
    qualify_partition qualify_topic strip_slash end_slash front_slash text_eq has_char has_pair
    ends_with pop_back
on_advertisement-subscribed_example =
    on_advertisement-subscribed (λ t. true) (bytes "sim") [] (bytes "odom") (bytes "@/sim@/odom")
      with_pattern refl refl refl refl refl
