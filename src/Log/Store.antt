-- ===== src/Log/Store.antt =====
-- log/src/Log.cc: the log, which stores messages in a database, in transactions, and keeps the rows
-- of its topics.
pub mod Rows
pub mod Stored
pub mod Inserted
mod Tests
use gz_transport.Common.{
  ℕ, ◌+◌, ◌-◌, ◌*◌, ◌%◌, ◌^◌, ltb, Bool, true, false, not, Option, none, some, List, [], ◌∷◌, ◌++◌,
  is_some, is_empty, length, if◌then◌else◌, Text, bytes, text_eq,
}
use gz_transport.Common.Int.{to_int32, ℤ, pos, negsuc, leb_ℤ, ltb_ℤ, ◌-ℤ◌}
use gz_transport.Log.Statement.{SqlStatement}
use gz_transport.Log.Descriptor.{TopicKey, Descriptor, no_rows, reset, topic_id}
use gz_transport.Log.Query.{QueryOptions, generate_statements}

-- The statements that insert something.
pub data Insertion : Type 0 where
  message_type_row topic_row message_row : Insertion

-- What the log asks of SQLite. The Boolean or the option tells whether the call is answered with
-- SQLITE_OK, SQLITE_DONE or SQLITE_ROW: `prepares` is the compiling of a statement and `binds` the
-- binding of all its parameters; `insert_topic` gives the row as `sqlite3_last_insert_rowid` does.
pub record Sqlite (Db : Type 0) : Type 0 where
  pub begin_transaction : Db → Db × Bool
  pub end_transaction : Db → Db × Bool
  pub topic_rows : Db → Option (List (TopicKey × ℤ))
  pub prepares : Insertion → Db → Bool
  pub binds : Insertion → Db → Bool
  pub insert_type : Text → Db → Db × Bool
  pub insert_topic : Text → Text → Db → Db × Option ℤ
  pub insert_row : ℤ → Text → ℤ → Db → Db × Bool
  pub first_time : Db → Option ℤ
  pub last_time : Db → Option ℤ
  pub version : Db → Option Text
  pub apply_schema : Text → Db → Db × Bool

-- The members. The maps are those of the class; a pointer to a database that is null is none.
pub record Log (Db : Type 0) : Type 0 where
  pub db : Option Db
  pub in_transaction : Bool
  pub last_transaction : ℤ
  pub transaction_period : ℤ
  pub need_new_descriptor : Bool
  pub descriptor : Descriptor
  pub filename : Text
  pub start_time : ℤ
  pub end_time : ℤ

-- A new log; the period is 500 milliseconds.
abbrev pub new_log : {Db : Type 0} → Log Db
new_log = record {
  db = none;
  in_transaction = false;
  last_transaction = pos 0;
  transaction_period = pos (500 * 1000000);
  need_new_descriptor = true;
  descriptor = no_rows;
  filename = [];
  start_time = negsuc 0;
  end_time = negsuc 0;
}

module _ {Db : Type 0} ⦃sql : Sqlite Db⦄ where
  open sql use {
    begin_transaction, end_transaction, topic_rows, prepares, binds, insert_type, insert_topic,
    insert_row, first_time, last_time, version, apply_schema,
  }

  -- `Descriptor`, which is none for the null pointer. The map that it makes first of the rows is
  -- given by the rows.
  unfoldable pub log_descriptor : Log Db → Log Db × Option Descriptor
  log_descriptor l = elim l.db [
    | none ↦ (l, none)
    | some db ↦ if not l.need_new_descriptor then (l, some l.descriptor) else elim (topic_rows db) [
      | none ↦ (l, none)
      | some rows ↦
          (record l { need_new_descriptor = false; descriptor = reset rows }, some (reset rows))
    ]
  ]

  unfoldable pub end_transaction_now : Db → Log Db → Log Db × Bool
  end_transaction_now db l =
      let (db', ok) = end_transaction db in
      if ok
      then (record l { db = some db'; in_transaction = false }, true)
      else (record l { db = some db' }, false)

  unfoldable pub time_for_new_transaction : ℤ → Log Db → Bool
  time_for_new_transaction now l = ltb_ℤ l.last_transaction (now -ℤ l.transaction_period)

  unfoldable pub end_transaction_if_enough_time_has_passed : ℤ → Db → Log Db → Log Db × Bool
  unfolding time_for_new_transaction end_transaction_now
  end_transaction_if_enough_time_has_passed now db l =
      if not (time_for_new_transaction now l) then (l, true) else end_transaction_now db l

  unfoldable pub begin_transaction_if_not_in_one : ℤ → Db → Log Db → Log Db × Bool
  begin_transaction_if_not_in_one now db l =
      let (db', ok) = begin_transaction db in
      if l.in_transaction
      then (l, true)
      else if ok
      then (record l { db = some db'; in_transaction = true; last_transaction = now }, true)
      else (record l { db = some db' }, false)

  -- The rest of `InsertOrGetTopicId` for a topic that is not known; -1 is the answer of a failure.
  unfoldable pub insert_new_topic : Text → Text → Db → Log Db → Log Db × ℤ
  insert_new_topic name type db l =
      let stale = record l { need_new_descriptor = true } in
      let timeless = record stale { start_time = negsuc 0; end_time = negsuc 0 } in
      let (db', typed) = insert_type type db in
      let (db'', row) = insert_topic name type db' in
      if not (prepares message_type_row db)
      then (stale, negsuc 0)
      else if not (prepares topic_row db)
      then (stale, negsuc 0)
      else if not (binds message_type_row db)
      then (timeless, negsuc 0)
      else if not (binds topic_row db)
      then (timeless, negsuc 0)
      else if not typed
      then (record timeless { db = some db' }, negsuc 0)
      else (record timeless { db = some db'' }, elim row [ none ↦ negsuc 0 | some id ↦ id ])

  unfoldable pub insert_or_get_topic_id : Text → Text → Db → Log Db → Log Db × ℤ
  unfolding log_descriptor insert_new_topic
  insert_or_get_topic_id name type db l =
      let (l', d) = log_descriptor l in
      elim d [
        | none ↦ (l', negsuc 0)
        | some known ↦
            let id = topic_id name type known in
            let new = insert_new_topic name type db l' in if leb_ℤ (pos 0) id then (l', id) else new
      ]

  -- `Implementation::InsertMessage`
  unfoldable pub insert_message_row : ℤ → ℤ → Text → Db → Log Db → Log Db × Bool
  unfolding to_int32
  insert_message_row time id content db l =
      let (db', ok) = insert_row time content (to_int32 id) db in
      if is_empty content
      then (l, false)
      else if not (prepares message_row db)
      then (l, false)
      else if not (binds message_row db)
      then (l, false)
      else (record l { db = some db'; start_time = negsuc 0; end_time = negsuc 0 }, ok)

  -- The rest of `Log::InsertMessage`, where the ID is known and where the message is stored.
  unfoldable pub finish_insertion : ℤ → Log Db × Bool → Log Db × Bool
  unfolding end_transaction_if_enough_time_has_passed
  finish_insertion now (l, ok) = if not ok then (l, false) else elim l.db [
    | none ↦ (l, false)
    | some db ↦ end_transaction_if_enough_time_has_passed now db l
  ]

  unfoldable pub insert_under : ℤ → ℤ → Text → Log Db × ℤ → Log Db × Bool
  unfolding finish_insertion insert_message_row
  insert_under now time content (l, id) = if not (leb_ℤ (pos 0) id) then (l, false) else elim l.db [
    | none ↦ (l, false)
    | some db ↦ finish_insertion now (insert_message_row time id content db l)
  ]

  -- `Log::InsertMessage`; `now` is the time of the clock.
  unfoldable pub insert_message : ℤ → ℤ → Text → Text → Text → Log Db → Log Db × Bool
  unfolding begin_transaction_if_not_in_one insert_or_get_topic_id insert_under
  insert_message now time topic type content l = elim l.db [
    | none ↦ (l, false)
    | some db ↦
        let (l', begun) = begin_transaction_if_not_in_one now db l in
        if not begun then (l', false) else elim l'.db [
          | none ↦ (l', false)
          | some db' ↦ insert_under now time content (insert_or_get_topic_id topic type db' l')
        ]
  ]

  -- `Log::~Log`
  unfoldable pub close_log : Log Db → Log Db
  unfolding end_transaction_now
  close_log l = elim l.db [
    | none ↦ l
    | some db ↦ if l.in_transaction then (end_transaction_now db l).0 else l
  ]

  -- `QueryMessages`: the queries of the batch, or none for a batch without data.
  unfoldable pub query_messages : QueryOptions → Log Db → Log Db × Option (List SqlStatement)
  unfolding log_descriptor
  query_messages o l =
      let (l', d) = log_descriptor l in
      (l', elim d [ none ↦ none | some known ↦ some (generate_statements o known) ])

  -- `StartTime` and `EndTime`, of a database that is not corrupt.
  unfoldable pub log_start_time : Log Db → Log Db × ℤ
  log_start_time l =
      let found : ℤ = elim l.db [
        | none ↦ pos 0
        | some db ↦ elim (first_time db) [ none ↦ pos 0 | some t ↦ t ]
      ] in
      if leb_ℤ (pos 0) l.start_time
      then (l, l.start_time)
      else (record l { start_time = found }, found)

  unfoldable pub log_end_time : Log Db → Log Db × ℤ
  log_end_time l =
      let found : ℤ = elim l.db [
        | none ↦ pos 0
        | some db ↦ elim (last_time db) [ none ↦ pos 0 | some t ↦ t ]
      ] in
      if leb_ℤ (pos 0) l.end_time then (l, l.end_time) else (record l { end_time = found }, found)

  -- `Version`
  unfoldable pub log_version : Log Db → Text
  log_version l = elim l.db [ none ↦ [] | some db ↦ elim (version db) [ none ↦ [] | some v ↦ v ] ]

  -- The schema that `Open` applies where the log is written: none where it cannot be read.
  unfoldable pub with_schema : Option Text → Db → Option Db
  with_schema none db = none
  with_schema (some schema) db =
      let (db', ok) = apply_schema schema db in
      if is_empty schema then none else if ok then some db' else none

  -- `Open`; the database is that which SQLite opens, if it does, and `out` is the bit of the mode.
  unfoldable pub open_log : Text → Bool → Option Db → Option Text → Log Db → Log Db × Bool
  unfolding with_schema log_version
  open_log file out opened schema l = if is_some l.db then (l, false) else elim opened [
    | none ↦ (l, false)
    | some db ↦ elim (if out then with_schema schema db else some db) [
      | none ↦ (l, false)
      | some db' ↦
          let l' = record l { db = some db' } in
          if not (text_eq (bytes "0.1.0") (log_version l'))
          then (l, false)
          else (record l' { filename = file }, true)
    ]
  ]
