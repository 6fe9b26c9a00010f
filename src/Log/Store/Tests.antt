-- ===== src/Log/Store/Tests.antt =====
-- Examples of log/src/Log.cc, with a database that keeps its tables as lists.
use gz_transport.Common.{
  ℕ, ◌+◌, ◌≤◌, ◌^◌, ◌≡◌, refl, ap, sym, ltb, true, Option, none, some, List, [], ◌∷◌, ◌++◌, length,
  if◌then◌else◌, Text, text_eq, bytes, arith,
}
use gz_transport.Common.Int.{to_int32, ℤ, pos, ◌-ℤ◌}
use gz_transport.Common.Map.{lookup, lookup_list, insert}
use gz_transport.Log.Descriptor.{TopicKey, topic_id, reset, reset_loop, put}
use gz_transport.Log.Descriptor.Rows.{row_of}
use gz_transport.Log.Store.{
  Sqlite, Log, new_log, insert_message, begin_transaction_if_not_in_one, insert_or_get_topic_id,
  log_descriptor, insert_new_topic, insert_under, insert_message_row, finish_insertion,
  end_transaction_if_enough_time_has_passed, time_for_new_transaction, end_transaction_now,
}
use gz_transport.Log.Store.Rows.{StoredRow, key_of, SqliteLaws, IsNarrow}
use gz_transport.Log.Store.Stored.{logged, IsFitting, Follows}
use gz_transport.Log.Store.Inserted.{
  Call, logged_of, logged_all, insert_call, insert_calls, insert_message-logged,
  insert_calls-logged,
}

record Tables : Type 0 where
  pub keys : List TopicKey
  pub stored : List StoredRow

-- The topics are numbered in their order.
unfoldable number : ℕ → List TopicKey → List (TopicKey × ℤ)
number i [] = []
number i (k ∷ ks) = (k, pos i) ∷ number (i + 1) ks

number-append :
    (i : ℕ) (ks : List TopicKey) (k : TopicKey)
    → number i (ks ++ k ∷ []) ≡ number i ks ++ (k, pos (i + length ks)) ∷ []
unfolding number
number-append i [] k = ground arith
number-append i (x ∷ ks) k = ground (arith, number-append (i + 1) ks k)

number-fresh :
    (i j : ℕ) (ks : List TopicKey) → i + length ks ≤ j → key_of (pos j) (number i ks) ≡ none
unfolding number key_of
number-fresh i j [] h = refl
number-fresh i j (x ∷ ks) h = ground (arith, number-fresh (i + 1) j ks)

-- A topic is added while the number fits.
abbrev add_topic_row : Text → Text → Tables → Tables × Option ℤ
add_topic_row name type t =
    if ltb (length t.keys) (2 ^ 31)
    then (
      record t { keys = t.keys ++ record { topic = name; type = type } ∷ [] },
      some (pos (length t.keys)),
    )
    else (t, none)

instance abbrev tables : Sqlite Tables
tables = record {
  begin_transaction = λ t. (t, true);
  end_transaction = λ t. (t, true);
  topic_rows = λ t. some (number 0 t.keys);
  prepares = λ i t. true;
  binds = λ i t. true;
  insert_type = λ type t. (t, true);
  insert_topic = add_topic_row;
  insert_row = λ time content id t. (
    record t {
      stored = t.stored ++ record { time = time; content = content; row_topic = id } ∷ [];
    },
    true,
  );
  first_time = λ t. none;
  last_time = λ t. none;
  version = λ t. some (bytes "0.1.0");
  apply_schema = λ s t. (t, true);
}

added_rows :
    (name type : Text) (t : Tables) (id : ℤ)
    → (add_topic_row name type t).1 ≡ some id
    → number 0 (add_topic_row name type t).0.keys
      ≡ number 0 t.keys ++ (record { topic = name; type = type }, id) ∷ []
added_rows name type t id h =
    ground (arith, number-append 0 t.keys (record { topic = name; type = type }))

added_fresh :
    (name type : Text) (t : Tables) (id : ℤ)
    → (add_topic_row name type t).1 ≡ some id
    → key_of id (number 0 t.keys) ≡ none
added_fresh name type t id h = ground (arith, number-fresh 0 (length t.keys) t.keys)

tables-IsNarrow : IsNarrow tables
unfolding to_int32
tables-IsNarrow name type t id h = ground arith

added_messages : (name type : Text) (t : Tables) → (add_topic_row name type t).0.stored ≡ t.stored
added_messages name type t = ground arith

unfoldable tables_laws : SqliteLaws tables
tables_laws = record {
  rows = λ t. number 0 t.keys;
  messages = λ t. t.stored;
  topic_rows_rows = λ t r e. ap (λ o. elim o [ none ↦ r | some s ↦ s ]) (sym e);
  begins = λ t e. (refl, refl);
  ends = λ t e. (refl, refl);
  type_adds = λ type t e. (refl, refl);
  topic_messages = λ name type t id e. added_messages name type t;
  topic_adds = λ name type t id typed e. added_rows name type t id e;
  topic_fresh = λ name type t id e. added_fresh name type t id e;
  row_adds = λ time content id t e. (refl, refl);
}

abbrev empty_tables : Tables
empty_tables = record { keys = []; stored = [] }

abbrev opened : Log Tables
opened = record new_log { db = some empty_tables }

abbrev call : Text → Text → Call
call t d = record { clock = pos 9; called_at = pos 7; topic = t; type = bytes "T"; payload = d }

empty-IsFitting : IsFitting tables_laws empty_tables
unfolding tables_laws row_of number
empty-IsFitting = (λ t u id e. absurd (ground arith), tt)

opened-Follows : Follows tables_laws empty_tables opened
opened-Follows = (refl, λ n. absurd (ground arith))

insert_message-logged_example :
    (insert_call (call (bytes "/a") (bytes "x")) opened).1 ≡ true
    → (db' : Tables) × (IsFitting tables_laws db'
        × (Follows tables_laws db' (insert_call (call (bytes "/a") (bytes "x")) opened).0
            × (logged tables_laws db'
                ≡ logged tables_laws empty_tables
                  ++ logged_of (call (bytes "/a") (bytes "x")) ∷ [])))
insert_message-logged_example =
    insert_message-logged tables_laws tables-IsNarrow (call (bytes "/a") (bytes "x")) empty_tables
      opened empty-IsFitting opened-Follows

abbrev calls : List Call
calls =
    call (bytes "/a") (bytes "x")
    ∷ call (bytes "/a") (bytes "z")
    ∷ call (bytes "/b") (bytes "y")
    ∷ []

calls_accepted : (insert_calls calls opened).1 ≡ true
unfolding insert_calls insert_call insert_message begin_transaction_if_not_in_one
    insert_or_get_topic_id log_descriptor insert_new_topic insert_under insert_message_row
    finish_insertion end_transaction_if_enough_time_has_passed time_for_new_transaction
    end_transaction_now topic_id reset reset_loop put lookup lookup_list insert number text_eq
    to_int32 ◌-ℤ◌
calls_accepted = refl

insert_calls-logged_example :
    (db' : Tables) × (IsFitting tables_laws db'
      × (Follows tables_laws db' (insert_calls calls opened).0
          × (logged tables_laws db' ≡ logged tables_laws empty_tables ++ logged_all calls)))
insert_calls-logged_example =
    insert_calls-logged tables_laws tables-IsNarrow calls empty_tables opened empty-IsFitting
      opened-Follows calls_accepted
