-- ===== src/Log/Store/Inserted.antt =====
-- log/src/Log.cc: what the calls of InsertMessage leave in the database.
use gz_transport.Common.{
  ◌≡◌, refl, ◌∙◌, ap, sym, inl, inr, Bool, true, false, ◌&&◌, Option, none, some, List, [], ◌∷◌,
  ◌++◌, append-nil, append_assoc, is_empty, Text, arith, Bool-cases,
}
use gz_transport.Common.Int.{to_int32, ℤ, pos, leb_ℤ}
use gz_transport.Log.Descriptor.{TopicKey, reset}
use gz_transport.Log.Store.{
  Sqlite, Log, message_row, begin_transaction_if_not_in_one,
  end_transaction_if_enough_time_has_passed, insert_or_get_topic_id, insert_message_row,
  finish_insertion, insert_under, insert_message,
}
use gz_transport.Log.Store.Rows.{StoredRow, Logged, key_of, SqliteLaws, IsNarrow, IsPlaced-snoc}
use gz_transport.Log.Store.Stored.{
  logged, IsFitting, Follows, Keeps-IsFitting, begin_lem, end_lem, Found,
  insert_or_get_topic_id_lem,
}

-- The arguments of a call.
pub record Call : Type 0 where
  pub clock : ℤ
  pub called_at : ℤ
  pub topic : Text
  pub type : Text
  pub payload : Text

abbrev pub logged_of : Call → Logged
logged_of c = record {
  logged_at = c.called_at;
  bytes_of = c.payload;
  key = some (record { topic = c.topic; type = c.type });
}

module _ {Db : Type 0} ⦃sql : Sqlite Db⦄ where
  unfoldable pub insert_call : Call → Log Db → Log Db × Bool
  insert_call c l = insert_message c.clock c.called_at c.topic c.type c.payload l

  -- The log after some calls, and whether they were all answered with true.
  unfoldable pub insert_calls : List Call → Log Db → Log Db × Bool
  unfolding insert_call
  insert_calls [] l = (l, true)
  insert_calls (c ∷ cs) l =
      let (l', ok) = insert_call c l in
      let (l'', all_ok) = insert_calls cs l' in (l'', ok && all_ok)

abbrev pub logged_all : List Call → List Logged
logged_all [] = []
logged_all (c ∷ cs) = logged_of c ∷ logged_all cs

module _ {Db : Type 0} ⦃sql : Sqlite Db⦄ (laws : SqliteLaws sql) where
  open laws use {rows, messages}

  -- What a call leaves that is answered with true.
  abbrev pub Inserted : Db → Logged → Log Db × Bool → Type 0
  Inserted db m r =
      r.1 ≡ true
      → (db' : Db) × (IsFitting laws db'
          × (Follows laws db' r.0 × (logged laws db' ≡ logged laws db ++ m ∷ [])))

  insert_message_row_lem :
      (time id : ℤ) (k : TopicKey) (content : Text) (db : Db) (l : Log Db)
      → IsFitting laws db
      → Follows laws db l
      → key_of id (rows db) ≡ some k
      → to_int32 id ≡ id
      → Inserted db
          (record { logged_at = time; bytes_of = content; key = some k })
          (insert_message_row time id content db l)
  unfolding insert_message_row
  insert_message_row_lem time id k content db l (keyed, placed) (has, known) found fits =
      let ran = sql.insert_row time content id db in
      let new : StoredRow = record { time = time; content = content; row_topic = id } in
      let (placed', joined) = IsPlaced-snoc (rows db) (messages db) new placed (rw found refl) in
      elim (Bool-cases (is_empty content)) [
        | inl a ↦ rw (insert_message_row, a) (λ h. absurd (ground arith))
        | inr a ↦ elim (Bool-cases (sql.prepares message_row db)) [
          | inr b ↦ rw (insert_message_row, a, b) (λ h. absurd (ground arith))
          | inl b ↦ elim (Bool-cases (sql.binds message_row db)) [
            | inr c ↦ rw (insert_message_row, a, b, c) (λ h. absurd (ground arith))
            | inl c ↦
                rw (insert_message_row, a, b, c, fits)
                  (λ ok.
                    let (same, more) = laws.row_adds time content id db ok in
                    let known' : l.need_new_descriptor ≡ false → l.descriptor ≡ reset (rows ran.0) =
                      λ n. known n ∙ ap reset (sym same) in
                    (
                      ran.0,
                      (
                        rw (same, more) (keyed, placed'),
                        ((refl, known'), rw (same, more) (joined ∙ rw found refl)),
                      ),
                    ))
          ]
        ]
      ]

  finish_insertion_lem :
      (now : ℤ) (db : Db) (m : Logged) (r : Log Db × Bool)
      → Inserted db m r
      → Inserted db m (finish_insertion now r)
  unfolding finish_insertion
  finish_insertion_lem now db m (l, false) h ok = absurd (ground arith)
  finish_insertion_lem now db m (l, true) h ok =
      let (db', (f, (follows, more))) = h refl in
      let finished : finish_insertion now (l, true)
          ≡ end_transaction_if_enough_time_has_passed now db' l =
        ap
          (λ (o : Option Db). elim o [
            | none ↦ (l, false)
            | some d ↦ end_transaction_if_enough_time_has_passed now d l
          ])
          follows.0 in
      let (db'', (keeps, follows')) = end_lem laws now db' l follows (rw (sym finished) ok) in
      let (f', same) = Keeps-IsFitting laws db' db'' keeps f in
      rw finished (db'', (f', (follows', same ∙ more)))

  insert_under_lem :
      (c : Call) (db : Db) (r : Log Db × ℤ)
      → Found laws c.topic c.type db r
      → Inserted db (logged_of c) (insert_under c.clock c.called_at c.payload r)
  unfolding insert_under
  insert_under_lem c db (l, id) found = elim (Bool-cases (leb_ℤ (pos 0) id)) [
    | inr e ↦ rw (insert_under, e) (λ h. absurd (ground arith))
    | inl e ↦
        let (db', (f, (same, (follows, (named, fits))))) = found e in
        let key : TopicKey = record { topic = c.topic; type = c.type } in
        let row = insert_message_row c.called_at id c.payload db' l in
        let stored =
          insert_message_row_lem c.called_at id key c.payload db' l f follows named fits in
        rw (insert_under, e, follows.0, sym same)
          (finish_insertion_lem c.clock db' (logged_of c) row stored)
  ]

  module _ (narrow : IsNarrow sql) where
    -- A call of InsertMessage that is answered with true leaves the tables and the descriptor of the
    -- log in agreement, and the database holds the message after those it held, with this time and
    -- under this topic and type.
    pub insert_message-logged :
        (c : Call) (db : Db) (l : Log Db)
        → IsFitting laws db
        → Follows laws db l
        → Inserted db (logged_of c) (insert_call c l)
    unfolding insert_call insert_message
    insert_message-logged c db l f follows = elim (Bool-cases begun.1) [
      | inr e ↦ rw (insert_call, insert_message, follows.0, e) (λ h. absurd (ground arith))
      | inl e ↦
          let (db', (keeps, follows')) = begin_lem laws c.clock db l follows e in
          let (f', same) = Keeps-IsFitting laws db db' keeps f in
          let row = insert_or_get_topic_id c.topic c.type db' begun.0 in
          let found =
            insert_or_get_topic_id_lem laws narrow c.topic c.type db' begun.0 f' follows' in
          rw (insert_call, insert_message, follows.0, e, follows'.0, sym same)
            (insert_under_lem c db' row found)
    ]
      where
        begun : Log Db × Bool
        begun = begin_transaction_if_not_in_one c.clock db l

    -- After any calls of InsertMessage that were all answered with true, the database holds what it
    -- held and then their messages, in the order of the calls, each with its time and under its
    -- topic and type, and nothing else, while the numbers of the topics' rows fit into 31 bits.
    pub insert_calls-logged :
        (cs : List Call) (db : Db) (l : Log Db)
        → IsFitting laws db
        → Follows laws db l
        → (insert_calls cs l).1 ≡ true
        → (db' : Db) × (IsFitting laws db'
            × (Follows laws db' (insert_calls cs l).0
                × (logged laws db' ≡ logged laws db ++ logged_all cs)))
    unfolding insert_calls
    insert_calls-logged [] db l f follows ok =
        (db, (f, (follows, sym (append-nil (logged laws db)))))
    insert_calls-logged (c ∷ cs) db l f follows ok =
        let (db1, (f1, (follows1, more))) = insert_message-logged c db l f follows (ground arith) in
        let (db2, (f2, (follows2, held))) =
          insert_calls-logged cs db1 (insert_call c l).0 f1 follows1 (ground arith) in
        let joined =
          ap (λ ms. ms ++ logged_all cs) more
          ∙ append_assoc (logged laws db) (logged_of c ∷ []) (logged_all cs) in
        (db2, (f2, (follows2, held ∙ joined)))
