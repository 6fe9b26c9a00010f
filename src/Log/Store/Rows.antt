-- ===== src/Log/Store/Rows.antt =====
-- log/src/Log.cc: the rows of the tables of topics and messages, and the laws of SQLite on them.
use gz_transport.Common.{
  ◌≡◌, refl, ◌∙◌, ap, sym, inl, inr, true, ◌&&◌, Option, none, some, List, [], ◌∷◌, ◌++◌, All,
  is_some, if◌then◌else◌, Text, text_eq, text_eq_iff, arith, Bool-cases, Option-cases,
}
use gz_transport.Common.Map.{lookup, lookup_list}
use gz_transport.Common.Int.{to_int32, ℤ, negsuc, eq_ℤ, eq_ℤ_iff}
use gz_transport.Log.Descriptor.{TopicKey, Descriptor, reset, topic_id}
use gz_transport.Log.Descriptor.Rows.{entry, row_of, reset-rows}
use gz_transport.Log.Store.{Sqlite}

-- A row of the table of messages.
pub record StoredRow : Type 0 where
  pub time : ℤ
  pub content : Text
  pub row_topic : ℤ

-- A message, with the topic that its row refers to.
pub record Logged : Type 0 where
  pub logged_at : ℤ
  pub bytes_of : Text
  pub key : Option TopicKey

unfoldable pub key_of : ℤ → List (TopicKey × ℤ) → Option TopicKey
key_of id [] = none
key_of id ((k, i) ∷ rows) = if eq_ℤ i id then some k else key_of id rows

unfoldable pub join_rows : List (TopicKey × ℤ) → List StoredRow → List Logged
join_rows rows [] = []
join_rows rows (m ∷ ms) =
    record { logged_at = m.time; bytes_of = m.content; key = key_of m.row_topic rows }
    ∷ join_rows rows ms

-- What SQLite documents of the statements that it answers with SQLITE_OK, SQLITE_DONE or SQLITE_ROW,
-- on the rows of the two tables. The row of a new topic has a number that no other row has. Nothing
-- is asked of a statement that fails, which may roll back the whole transaction.
pub record SqliteLaws {Db : Type 0} (sql : Sqlite Db) : Type 0 where
  pub rows : Db → List (TopicKey × ℤ)
  pub messages : Db → List StoredRow
  pub topic_rows_rows :
      (db : Db) (r : List (TopicKey × ℤ)) → sql.topic_rows db ≡ some r → r ≡ rows db
  pub begins :
      (db : Db)
      → (sql.begin_transaction db).1 ≡ true
      → (rows (sql.begin_transaction db).0 ≡ rows db)
        × (messages (sql.begin_transaction db).0 ≡ messages db)
  pub ends :
      (db : Db)
      → (sql.end_transaction db).1 ≡ true
      → (rows (sql.end_transaction db).0 ≡ rows db)
        × (messages (sql.end_transaction db).0 ≡ messages db)
  pub type_adds :
      (type : Text) (db : Db)
      → (sql.insert_type type db).1 ≡ true
      → (rows (sql.insert_type type db).0 ≡ rows db)
        × (messages (sql.insert_type type db).0 ≡ messages db)
  pub topic_messages :
      (name type : Text) (db : Db) (id : ℤ)
      → (sql.insert_topic name type db).1 ≡ some id
      → messages (sql.insert_topic name type db).0 ≡ messages db
  pub topic_adds :
      (name type : Text) (db : Db) (id : ℤ)
      → let typed = sql.insert_type type db in
        typed.1 ≡ true
        → (sql.insert_topic name type typed.0).1 ≡ some id
        → rows (sql.insert_topic name type typed.0).0
          ≡ rows db ++ (record { topic = name; type = type }, id) ∷ []
  pub topic_fresh :
      (name type : Text) (db : Db) (id : ℤ)
      → (sql.insert_topic name type db).1 ≡ some id
      → key_of id (rows db) ≡ none
  pub row_adds :
      (time : ℤ) (content : Text) (id : ℤ) (db : Db)
      → (sql.insert_row time content id db).1 ≡ true
      → (rows (sql.insert_row time content id db).0 ≡ rows db)
        × (messages (sql.insert_row time content id db).0
            ≡ messages db ++ record { time = time; content = content; row_topic = id } ∷ [])

-- The number of every new row of a topic fits into 31 bits, as while fewer rows were ever added.
abbrev pub IsNarrow : {Db : Type 0} → Sqlite Db → Type 0
IsNarrow {Db} sql =
    (name type : Text) (db : Db) (id : ℤ)
    → (sql.insert_topic name type db).1 ≡ some id
    → to_int32 id ≡ id

pub key_of-append :
    (id : ℤ) (rows rows' : List (TopicKey × ℤ))
    → key_of id (rows ++ rows') ≡ elim (key_of id rows) [ none ↦ key_of id rows' | some k ↦ some k ]
unfolding key_of
key_of-append id [] rows' = refl
key_of-append id ((k, i) ∷ rows) rows' = ground (arith, key_of-append id rows rows')

pub row_of-append :
    (topic type : Text) (rows rows' : List (TopicKey × ℤ)) (o : Option ℤ)
    → row_of topic type (rows ++ rows') o ≡ row_of topic type rows' (row_of topic type rows o)
unfolding row_of
row_of-append topic type [] rows' o = refl
row_of-append topic type ((k, i) ∷ rows) rows' o = row_of-append topic type rows rows' _

pub key_of-new :
    (id : ℤ) (rows : List (TopicKey × ℤ)) (k : TopicKey)
    → key_of id rows ≡ none
    → key_of id (rows ++ (k, id) ∷ []) ≡ some k
unfolding key_of
key_of-new id rows k fresh = ground (arith, key_of-append id rows ((k, id) ∷ []), eq_ℤ_iff id id)

-- Every row of a message refers to a topic.
abbrev pub IsPlaced : List (TopicKey × ℤ) → List StoredRow → Type 0
IsPlaced rows ms = All (λ m. is_some (key_of m.row_topic rows) ≡ true) ms

pub IsPlaced-append :
    (rows rows' : List (TopicKey × ℤ)) (ms : List StoredRow)
    → IsPlaced rows ms
    → IsPlaced (rows ++ rows') ms × (join_rows (rows ++ rows') ms ≡ join_rows rows ms)
unfolding join_rows
IsPlaced-append rows rows' [] h = (tt, refl)
IsPlaced-append rows rows' (m ∷ ms) (here, rest) =
    let (placed, same) = IsPlaced-append rows rows' ms rest in
    (
      (ground (arith, key_of-append m.row_topic rows rows'), placed),
      ground (arith, key_of-append m.row_topic rows rows'),
    )

pub IsPlaced-snoc :
    (rows : List (TopicKey × ℤ)) (ms : List StoredRow) (m : StoredRow)
    → IsPlaced rows ms
    → is_some (key_of m.row_topic rows) ≡ true
    → IsPlaced rows (ms ++ m ∷ [])
      × (join_rows rows (ms ++ m ∷ [])
          ≡ join_rows rows ms
            ++ record { logged_at = m.time; bytes_of = m.content; key = key_of m.row_topic rows }
              ∷ [])
unfolding join_rows
IsPlaced-snoc rows [] m h here = ((here, tt), refl)
IsPlaced-snoc rows (x ∷ ms) m (first, rest) here =
    let (placed, same) = IsPlaced-snoc rows ms m rest here in
    (
      (first, placed),
      ap
          (λ l.
            record { logged_at = x.time; bytes_of = x.content; key = key_of x.row_topic rows } ∷ l)
          same,
    )

-- The row by which the descriptor knows a topic and type.
topic_id-entry :
    (topic type : Text) (d : Descriptor)
    → topic_id topic type d ≡ elim (entry topic type d.by_topic) [ none ↦ negsuc 0 | some id ↦ id ]
unfolding topic_id entry lookup_list lookup
topic_id-entry topic type d = elim (Option-cases (lookup topic d.by_topic)) [
  | inl e ↦ rw (topic_id, e) refl
  | inr (m, e) ↦ rw (topic_id, e) refl
]

pub topic_id_lem :
    (topic type : Text) (rows : List (TopicKey × ℤ))
    → topic_id topic type (reset rows)
      ≡ elim (row_of topic type rows none) [ none ↦ negsuc 0 | some id ↦ id ]
topic_id_lem topic type rows =
    topic_id-entry topic type (reset rows)
    ∙ ap (λ o. elim o [ none ↦ negsuc 0 | some id ↦ id ]) (reset-rows topic type rows).0

-- The rows of the topics agree with the look-up by number, and each number fits into an `int`.
abbrev pub IsKeyed : List (TopicKey × ℤ) → Type 0
IsKeyed rows =
    (topic type : Text) (id : ℤ)
    → row_of topic type rows none ≡ some id
    → (key_of id rows ≡ some (record { topic = topic; type = type })) × (to_int32 id ≡ id)

pub IsKeyed-append :
    (rows : List (TopicKey × ℤ)) (name type : Text) (id : ℤ)
    → IsKeyed rows
    → key_of id rows ≡ none
    → to_int32 id ≡ id
    → IsKeyed (rows ++ (record { topic = name; type = type }, id) ∷ [])
unfolding row_of key_of
IsKeyed-append rows name type id h fresh fits t u i e =
    let new : TopicKey × ℤ = (record { topic = name; type = type }, id) in
    let split : row_of t u (new ∷ []) (row_of t u rows none) ≡ some i =
      sym (row_of-append t u rows (new ∷ []) none) ∙ e in
    let looked = key_of-append i rows (new ∷ []) in
    elim (Bool-cases (text_eq name t && text_eq type u)) [
      | inl same ↦ ground (arith, text_eq_iff name t, text_eq_iff type u, eq_ℤ_iff id i)
      | inr other ↦ let (found, small) = h t u i (ground arith) in (ground (arith), small)
    ]
